-- ===== src/Ebml/Begins.antt =====
-- The rounds that parse an element or begin a cluster.
use icecast_server.Prelude.{
  drop-all, ltb→lt, subst, starts_with, length, by_test, Bytes, ◌+◌, ◌*◌, ◌^◌, ◌<◌, ◌≡◌, refl, sym,
  ap, ◌∙◌, ◌≢◌, ◌⊎◌, inl, inr, Bool, true, false, ◌&&◌, ◌||◌, Option, none, some, ◌++◌, arith, ltb,
  ◌==◌, if◌then◌else◌, ℕ,
}
use icecast_server.Ebml.Numbers.{unknown, Parsed, need_more, corrupt, parsed, parse_tag}
use icecast_server.Ebml.State.{
  keyframe_unknown, ParsingState, start_cluster, copying_to_data, Ebml, cluster_magic,
  segment_magic, tracks_magic,
}
use icecast_server.Ebml.Parser.{
  goes_on, waits, has_magic, skip_length, parse_element, begin_cluster, tag_length_of,
}
use icecast_server.Ebml.Tags.{IsLength, SaysTag}
use icecast_server.Ebml.InOrder.{
  view, IsClusterTag, HeaderFits, ReaderFits, ClusterAt, StartFits, InOrder,
}
use icecast_server.Ebml.Probes.{probe_element-Kept}
use icecast_server.Ebml.Moves.{Keeps, is_copying_data, IsParsing, not_copying, InOrder-goto}

and-true : (a b : Bool) → (a && b) ≡ true → (a ≡ true) × (b ≡ true)
and-true true b h = (refl, h)
and-true false b h = absurd (cc h)

-- A payload that is skipped is short.

skip_length-small :
    (todo : Bytes) (n payload : ℕ)
    → IsLength payload
    → skip_length todo n (if payload == unknown then 0 else payload) < 2 ^ 56
unfolding skip_length
skip_length-small todo n payload h =
    by_test (λ (x : ℕ). x < 2 ^ 56)
      (has_magic segment_magic n todo || has_magic tracks_magic n todo) _ _ (λ e. omega arith)
      (λ e. small payload h)
  where
    small :
        (payload : ℕ)
        → (payload ≡ unknown) ⊎ (payload < 2 ^ 56)
        → (if payload == unknown then 0 else payload) < 2 ^ 56
    small payload (inl e) = ground (arith, e)
    small payload (inr l) = ground (arith, l)

module _ (captured : Option Bytes) (came sent : Bytes) (s : Ebml) (todo : Bytes)
    (i : InOrder captured came sent (view s) todo) where
  -- The tag of a cluster has come.
  cluster_tag :
      (n payload : ℕ)
      → parse_tag todo ≡ parsed n payload
      → has_magic cluster_magic n todo ≡ true
      → IsClusterTag todo
  unfolding has_magic
  cluster_tag n payload e h =
      let (long, magic) = and-true (ltb 4 n) (starts_with cluster_magic todo) h in
      record { length_of = n; payload = payload; parses = e; long = ltb→lt 4 n long; magic = magic }

  begins :
      IsParsing s.parse_state
      → IsClusterTag todo
      → InOrder captured came sent (view (record s { parse_state = start_cluster })) todo
  begins p t =
      InOrder-goto captured came sent start_cluster s.copy_len (view s) todo i
        (not_parsing s.parse_state p) (λ h. refl) (λ h. refl) t
    where
      not_parsing : (q : ParsingState) → IsParsing q → q ≢ copying_to_data
      not_parsing q (inl e) = not_copying q (ap is_copying_data e)
      not_parsing q (inr e) = not_copying q (ap is_copying_data e)

  pub parse_element-Keeps :
      (r : Parsed)
      → IsParsing s.parse_state
      → parse_tag todo ≡ r
      → SaysTag todo r
      → Keeps captured came sent (3 * length todo + 2) (parse_element s todo r)
  unfolding parse_element
  parse_element-Keeps need_more p e t = i
  parse_element-Keeps corrupt p e t = tt
  parse_element-Keeps (parsed n payload) p e t =
      by_test (Keeps captured came sent (3 * length todo + 2)) (has_magic cluster_magic n todo) _ _
        (λ h. (begins p (cluster_tag n payload e h), omega arith))
        (λ h.
          probe_element-Kept captured came sent s todo i p n
            (skip_length todo n (if payload == unknown then 0 else payload)) t.least t.most
            (skip_length-small todo n payload t.bounded))

  -- A cluster that waits for the one before it.
  waits_for :
      (start : ℕ)
      → s.parse_state ≡ start_cluster
      → s.cluster_start ≡ some start
      → InOrder captured came sent (view (record s { flush_cluster = true })) todo
  waits_for start state begun = record {
    order = i.order;
    bytes = i.bytes;
    state = i.state;
    header = header i.header;
    kept = i.kept;
    reader = i.reader;
    start =
        subst (λ (o : Option ℕ). StartFits o (view (record s { flush_cluster = true })) todo)
          (sym begun) (flushed (subst (λ (o : Option ℕ). StartFits o (view s) todo) begun i.start));
    buffer_within = i.buffer_within;
    header_within = i.header_within;
  }
    where
      header : HeaderFits (view s) sent → HeaderFits (view (record s { flush_cluster = true })) sent
      header (inl b) = inl (record {
        early = b.early;
        none_sent = b.none_sent;
        empty = b.empty;
        no_start = b.no_start;
        no_size = b.no_size;
      })
      header (inr h) = inr h

      flushed :
          ClusterAt start (view s) todo
          → ClusterAt start (view (record s { flush_cluster = true })) todo
      flushed c = record {
        within = c.within;
        magic = c.magic;
        shown = elim c.shown [
          | inl there ↦ inl there
          | inr (copying, f, room) ↦
              absurd (not_copying s.parse_state (ap is_copying_data state) copying)
        ];
      }

  -- The state in which a cluster begins.
  abbrev begun : Ebml
  begun = record s {
    header_size = length s.header;
    cluster_start = some (length s.buffer);
    cluster_starts_with_keyframe = keyframe_unknown;
    flush_cluster = false;
    copy_len = tag_length_of (parse_tag todo);
    parse_state = copying_to_data;
  }

  begun-InOrder : IsClusterTag todo → InOrder captured came sent (view begun) todo
  begun-InOrder t =
      let long = t.long in
      let len : tag_length_of (parse_tag todo) ≡ t.length_of = ap tag_length_of t.parses in
      record {
        order = i.order;
        bytes = i.bytes;
        state = omega (arith, long, len);
        header = inr (refl, refl);
        kept = i.kept;
        reader = reader i.reader;
        start = record {
          within = omega arith;
          magic =
              ap (λ (x : Bytes). starts_with cluster_magic (x ++ todo)) (drop-all s.buffer)
              ∙ t.magic;
          shown = inr (refl, refl, omega (arith, long, len));
        };
        buffer_within = i.buffer_within;
        header_within = i.header_within;
      }
    where
      sized : HeaderFits (view s) sent → 0 < s.header_size → 0 < length s.header
      sized (inl b) h = let none_yet = b.no_size in absurd (omega (arith, none_yet, h))
      sized (inr (size, past)) h = omega (arith, size, h)

      reader : ReaderFits (view s) → ReaderFits (view begun)
      reader (inl h) = inl h
      reader (inr (clusters, size)) = inr (clusters, sized i.header size)

  pub begin_cluster-Keeps :
      s.parse_state ≡ start_cluster
      → IsClusterTag todo
      → Keeps captured came sent (3 * length todo + 1) (begin_cluster s todo)
  unfolding begin_cluster
  begin_cluster-Keeps state t = by_start s.cluster_start refl
    where
      by_start :
          (o : Option ℕ)
          → s.cluster_start ≡ o
          → Keeps captured came sent (3 * length todo + 1) (elim o [
            | some start ↦ waits (record s { flush_cluster = true }) todo
            | none ↦ goes_on begun todo
          ])
      by_start none e = (begun-InOrder t, omega arith)
      by_start (some start) e = waits_for start state e
