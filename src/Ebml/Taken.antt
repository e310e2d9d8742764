-- ===== src/Ebml/Taken.antt =====
-- The chunk that a read takes.
use icecast_server.Prelude.{
  take-all, take, subst, length, starts_with, Bytes, zero, suc, ◌-◌, ◌≤◌, ◌≡◌, refl, sym, ap, ◌∙◌,
  ◌⊎◌, inl, inr, Bool, true, ◌&&◌, Option, none, some, [], ◌∷◌, ◌++◌, arith, ◌==◌, ℕ,
}
use icecast_server.Ebml.State.{ReadMode, reading_header, reading_clusters, Ebml, cluster_magic}
use icecast_server.Ebml.Parser.{at_most}
use icecast_server.Ebml.Output.{cluster_begins, Chunk, take_chunk, read_cluster}
use icecast_server.Ebml.InOrder.{view, Shown, ClusterAt, StartFits, InOrder}
use icecast_server.Ebml.Copies.{at_most-le}
use icecast_server.Ebml.Reads.{without, without-InOrder, StartFits-without}

-- The header was read, and is the first chunk.
pub record TookHeader (came sent : Bytes) (s' : Ebml) (c : Chunk) : Type 0 where
  pub in_order : InOrder (some s'.header) came sent (view s') s'.input_buffer
  pub clusters : s'.output_state ≡ reading_clusters
  pub whole : c.bytes ≡ s'.header

-- A chunk was sent, which begins with a cluster if it is said to.
pub record TookData (captured : Option Bytes) (came sent header : Bytes) (s' : Ebml) (c : Chunk)
    : Type 0 where
  pub in_order : InOrder captured came (sent ++ c.bytes) (view s') s'.input_buffer
  pub clusters : s'.output_state ≡ reading_clusters
  pub same : s'.header ≡ header
  pub sync : c.type ≡ cluster_begins → starts_with cluster_magic c.bytes ≡ true

abbrev pub Reads : Option Bytes → Bytes → Bytes → ReadMode → Bytes → Ebml × Option Chunk → Type 0
Reads captured came sent mode header (s', none) =
    InOrder captured came sent (view s') s'.input_buffer
    × (s'.output_state ≡ mode)
    × (s'.header ≡ header)
Reads captured came sent mode header (s', some c) =
    ((mode ≡ reading_header) × TookHeader came sent s' c)
    ⊎ ((mode ≡ reading_clusters) × TookData captured came sent header s' c)

-- A magic that stands in the first bytes.
starts_with-shorter :
    (prefix s more : Bytes)
    → length prefix ≤ length s
    → starts_with prefix (s ++ more) ≡ starts_with prefix s
unfolding starts_with
starts_with-shorter [] s more h = refl
starts_with-shorter (x ∷ prefix) [] more h = absurd (omega (arith, h))
starts_with-shorter (x ∷ prefix) (y ∷ s) more h =
    ap (λ (b : Bool). x == y && b) (starts_with-shorter prefix s more (omega (arith, h)))

module _ (captured : Option Bytes) (came sent : Bytes) (s : Ebml)
    (i : InOrder captured came sent (view s) s.input_buffer)
    (clusters : s.output_state ≡ reading_clusters) where
  begins_with_magic :
      (n : ℕ)
      → length s.buffer ≡ suc n
      → s.flush_cluster ≡ true
      → ClusterAt 0 (view s) s.input_buffer
      → starts_with cluster_magic (take (at_most (length s.buffer) (suc n)) s.buffer) ≡ true
  begins_with_magic n e flush c =
      let whole = (at_most-le (length s.buffer) (suc n)) in
      ap (starts_with cluster_magic)
        (take-all (at_most (length s.buffer) (suc n)) s.buffer (all (length s.buffer) (suc n) e))
      ∙ sym (starts_with-shorter cluster_magic s.buffer s.input_buffer (there c.shown))
      ∙ c.magic
    where
      all : (l n : ℕ) → l ≡ n → l ≤ at_most l n
      all l n e = ground (arith, e)

      there : Shown 0 (view s) → 4 ≤ length s.buffer
      there (inl h) = omega (arith, h)
      there (inr (copying, still, room)) = absurd (cc (flush, still))

  -- In each case of `cluster_start`.
  pub read_cluster-TookData :
      (o : Option ℕ) (n : ℕ)
      → s.cluster_start ≡ o
      → (o ≡ some 0 → (length s.buffer ≡ suc n) × (s.flush_cluster ≡ true))
      → (let (s', c) = read_cluster o s (suc n) in TookData captured came sent s.header s' c)
  unfolding read_cluster take_chunk
  read_cluster-TookData none n e all = record {
    in_order =
        without-InOrder captured came sent s i clusters (at_most (length s.buffer) (suc n))
          s.cluster_start
          (subst
            (λ (o : Option ℕ).
              StartFits o
                (view (
                  without captured came sent s i clusters (at_most (length s.buffer) (suc n))
                    s.cluster_start))
                s.input_buffer)
            (sym e) tt);
    clusters = clusters;
    same = refl;
    sync = λ h. cc h;
  }
  read_cluster-TookData (some zero) n e all =
      let (whole, flush) = all refl in
      let c = subst (λ (o : Option ℕ). StartFits o (view s) s.input_buffer) e i.start in
      record {
        in_order =
            without-InOrder captured came sent s i clusters (at_most (length s.buffer) (suc n)) none
              tt;
        clusters = clusters;
        same = refl;
        sync = λ h. begins_with_magic n whole flush c;
      }
  read_cluster-TookData (some (suc m)) n e all =
      let k = at_most (suc m) (suc n) in
      let c = subst (λ (o : Option ℕ). StartFits o (view s) s.input_buffer) e i.start in
      record {
        in_order = without-InOrder captured came sent s i clusters k (some (suc m - k)) (
            StartFits-without captured came sent s i clusters k (suc m)
              (at_most-le (suc m) (suc n)).0 c);
        clusters = clusters;
        same = refl;
        sync = λ h. cc h;
      }
