-- ===== src/Mp3/Opened.antt =====
-- The metadata of a stream in `mp3_get_filter_meta` of src/format_mp3.c: a block that begins, and one
-- that is complete.
use icecast_server.Prelude.{
  ℕ, zero, suc, ◌<◌, ◌≡◌, refl, sym, ap, ◌∙◌, inl, inr, true, false, List, [], ◌∷◌, ◌++◌, arith,
  ◌==◌, Bool-cases, Bytes, codes, length, take, drop, starts_with,
}
use icecast_server.Mp3.{Mp3State, Filtered, is_new, take_block, begin_block, after_block}
use icecast_server.Mp3.Demux.{Output, block, Demux, block_size}
use icecast_server.Mp3.Reader.{seal, is_fresh, consume, Shows, view_of, Agrees}

pub seal-end : (p : Bytes) (x : ℕ) → seal (p ++ x ∷ []) ≡ p ++ 0 ∷ []
seal-end [] x = refl
seal-end (y ∷ []) x = refl
seal-end (y ∷ z ∷ p) x = ap (◌∷◌ y) (seal-end (z ∷ p) x)

-- The first bytes and the one after them.
pub take-next :
    (n : ℕ) (xs : Bytes) → n < length xs → (x : ℕ) × (take (suc n) xs ≡ take n xs ++ x ∷ [])
take-next zero [] h = absurd (omega arith)
take-next (suc n) [] h = absurd (omega arith)
take-next zero (x ∷ xs) h = (x, refl)
take-next (suc n) (x ∷ xs) h = let (y, e) = take-next n xs (omega arith) in (y, ap (◌∷◌ x) e)

-- What `begin_block` leaves when metadata is next.
pub record Open (s : Mp3State) (src : Bytes) (s' : Mp3State) : Type 0 where
  pub same_build : s'.build_metadata ≡ s.build_metadata
  pub same_rest :
      (s'.offset ≡ s.offset)
      × (s'.inline_metadata_interval ≡ s.inline_metadata_interval)
      × (s'.metadata ≡ s.metadata)
      × (s'.inline_url ≡ s.inline_url)
  pub size : s'.build_metadata_len ≡ block_size (s.build_metadata ++ src)
  pub more : length s.build_metadata < s'.build_metadata_len

pub block_size-append : (xs ys : Bytes) → 0 < length xs → block_size (xs ++ ys) ≡ block_size xs
block_size-append [] ys h = absurd (omega arith)
block_size-append (x ∷ xs) ys h = refl

pub begin_block-Open :
    (s : Mp3State) (d : Demux) (b : ℕ) (src : Bytes)
    → Shows s d
    → Open s (b ∷ src) (begin_block s (b ∷ src))
unfolding begin_block
begin_block-Open s d b src v = elim v.block [
  | inl (empty, zero_len) ↦
      let first : (s.build_metadata_len == 0) ≡ true = ground (arith, zero_len) in
      simp first (record {
        same_build = sym empty;
        same_rest = (refl, refl, refl, refl);
        size = simp empty refl;
        more = simp empty (omega arith);
      })
  | inr g ↦
      let later : (s.build_metadata_len == 0) ≡ false = ground (arith, g.not_all) in
      simp later (record {
        same_build = refl;
        same_rest = (refl, refl, refl, refl);
        size = g.size ∙ sym (block_size-append s.build_metadata (b ∷ src) g.some_bytes);
        more = g.not_all;
      })
]

-- A block that is complete is taken as the description says.
pub block_done :
    (s : Mp3State) (p bytes : Bytes) (next : Mp3State → Filtered) (outs : List Output) (d : Demux)
    → length p ≡ s.build_metadata_len
    → ((s' : Mp3State)
        → s'.offset ≡ 0
        → s'.build_metadata ≡ []
        → s'.build_metadata_len ≡ 0
        → s'.inline_metadata_interval ≡ s.inline_metadata_interval
        → Agrees (next s') d (consume (view_of s' bytes) outs))
    → Agrees
        (after_block next bytes s (take_block s (seal p)))
        d
        (consume (view_of s bytes) (block p ∷ outs))
unfolding take_block after_block
block_done s p bytes next outs d len go =
    let same : is_new s (seal p) ≡ is_fresh (view_of s bytes) p =
      unfold is_new in rw (sym len) refl in
    elim (Bool-cases (is_fresh (view_of s bytes) p)) [
      | inl fresh ↦ elim (Bool-cases (starts_with (codes "StreamTitle=") (drop 1 (seal p)))) [
        | inl title ↦ simp (same, fresh, title) (go _ refl refl refl refl)
        | inr bad ↦
            simp (same, fresh, bad)
              (record { heard = refl; ended = refl; current = λ h. cc; shows = λ h. cc })
      ]
      | inr old ↦ simp (same, old) (go _ refl refl refl refl)
    ]
