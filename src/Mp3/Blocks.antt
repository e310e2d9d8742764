-- ===== src/Mp3/Blocks.antt =====
-- The part of a round of `mp3_get_filter_meta` of src/format_mp3.c where metadata is next.
use icecast_server.Prelude.{
  subst, ℕ, suc, ◌-◌, ◌≤◌, ◌<◌, ◌≡◌, refl, sym, ap, ◌∙◌, inl, inr, false, List, [], ◌∷◌, ◌++◌,
  arith, Bytes, length, take, drop, map, append_assoc, length-append, take-drop, length-take,
  length-drop,
}
use icecast_server.Mp3.{Mp3State, Filtered, take_block, build, after_block}
use icecast_server.Mp3.Demux.{
  Output, audio, block, Demux, feed, block_size, feed-append, feed-part, feed-whole,
}
use icecast_server.Mp3.Reader.{View, seal, consume, Begun, Shows, view_of, Agrees, consume-audio}
use icecast_server.Mp3.Opened.{seal-end, take-next, block_size-append, block_done}

-- Metadata is next, and its block has begun or begins with `src`.
pub record Ready (s : Mp3State) (src : Bytes) (d : Demux) : Type 0 where
  pub interval : d.interval ≡ s.inline_metadata_interval
  pub since : d.since ≡ s.offset
  pub full : s.offset ≡ s.inline_metadata_interval
  pub part : d.part ≡ s.build_metadata
  pub size : s.build_metadata_len ≡ block_size (s.build_metadata ++ src)
  pub more : length s.build_metadata < s.build_metadata_len

-- What the rest of the loop does with what follows a block.
abbrev pub Continues : (Mp3State → Bytes → Filtered) → ℕ → Bytes → Type 0
Continues next n bytes =
    (s : Mp3State) (rest : Bytes) (d : Demux)
    → Shows s d
    → length rest ≤ n
    → Agrees (next s rest) (feed d rest).0 (consume (view_of s bytes) (feed d rest).1)

-- The bytes do not complete the block.
pub part_stored :
    (s : Mp3State) (d : Demux) (src bytes : Bytes)
    → Ready s src d
    → 0 < length src
    → length src < s.build_metadata_len - length s.build_metadata
    → Agrees
        (record {
          state = record s { build_metadata = s.build_metadata ++ src };
          audio = bytes;
          ended = false;
        })
        (feed d src).0
        (consume (view_of s bytes) (feed d src).1)
part_stored s d src bytes r pos h =
    let len = length-append s.build_metadata src in
    let short : length (d.part ++ src) < block_size (d.part ++ src) =
      simp r.part (omega (arith, h, len, r.size)) in
    let fed = feed-part src d (omega (arith, r.interval, r.since, r.full)) short in
    let begun : Begun (record s { build_metadata = s.build_metadata ++ src }) = record {
      some_bytes = omega (arith, len, pos);
      not_all = omega (arith, len, h);
      size = r.size;
      at_end = r.full;
    } in
    simp fed (record {
      heard = refl;
      ended = refl;
      current = λ e. (refl, refl);
      shows = λ e. record {
        interval = r.interval;
        since = r.since;
        within = omega (arith, r.full);
        part = ap (λ (x : Bytes). x ++ src) r.part;
        block = inr begun;
      };
    })

pub Agrees-by :
    {f g : Filtered} (v : View) {r : Demux × List Output} {d : Demux} {outs : List Output}
    → f ≡ g
    → r ≡ (d, outs)
    → Agrees g d (consume v outs)
    → Agrees f r.0 (consume v r.1)
Agrees-by {g} v {r} e q a =
    subst (λ (h : Filtered). Agrees h r.0 (consume v r.1)) (sym e)
      (subst (λ (x : Demux × List Output). Agrees g x.0 (consume v x.1)) (sym q) a)

-- Audio is heard before the rest.
pub after_audio :
    (xs bytes : Bytes) (s : Mp3State) (outs : List Output) (f : Filtered) (d : Demux)
    → Agrees f d (consume (view_of s (bytes ++ xs)) outs)
    → Agrees f d (consume (view_of s bytes) (map audio xs ++ outs))
after_audio xs bytes s outs f d a =
    subst (λ (v : View). Agrees f d v) (sym (consume-audio xs (view_of s bytes) outs)) a

-- The bytes complete the block.
pub block_taken :
    (s : Mp3State) (d : Demux) (src bytes : Bytes) (n : ℕ) (next : Mp3State → Bytes → Filtered)
    → Ready s src d
    → s.build_metadata_len - length s.build_metadata ≤ length src
    → length src ≤ suc n
    → Continues next n bytes
    → Agrees
        (after_block
          (λ s'. next s' (drop (s.build_metadata_len - length s.build_metadata) src))
          bytes
          s
          (take_block s (build s src)))
        (feed d src).0
        (consume (view_of s bytes) (feed d src).1)
block_taken s d src bytes n next r h k go =
    let left : ℕ = s.build_metadata_len - length s.build_metadata - 1 in
    let all_left : s.build_metadata_len - length s.build_metadata ≡ suc left =
      omega (arith, r.more) in
    let (x, took) = take-next left src (omega (arith, h, all_left)) in
    let p = (s.build_metadata ++ take left src) ++ x ∷ [] in
    let rest = drop (suc left) src in
    let split : src ≡ (take left src ++ x ∷ []) ++ rest =
      sym (take-drop (suc left) src) ∙ ap (λ (t : Bytes). t ++ rest) took in
    let whole : s.build_metadata ++ src ≡ p ++ rest =
      ap (λ (t : Bytes). s.build_metadata ++ t) (split ∙ append_assoc (take left src) (x ∷ []) rest)
      ∙ sym (append_assoc s.build_metadata (take left src) (x ∷ rest))
      ∙ sym (append_assoc (s.build_metadata ++ take left src) (x ∷ []) rest) in
    let length_p : length p ≡ s.build_metadata_len = omega (
      arith,
      length-append (s.build_metadata ++ take left src) (x ∷ []),
      length-append s.build_metadata (take left src),
      length-take left src (omega (arith, h, all_left)),
      all_left,
    ) in
    let size_p : block_size p ≡ s.build_metadata_len =
      sym (block_size-append p rest (omega (arith, length_p, r.more)))
      ∙ sym (ap block_size whole)
      ∙ sym r.size in
    let from_d : (d.part ++ take left src) ++ x ∷ [] ≡ p =
      ap (λ (t : Bytes). (t ++ take left src) ++ x ∷ []) r.part in
    let complete : length ((d.part ++ take left src) ++ x ∷ [])
        ≡ block_size ((d.part ++ take left src) ++ x ∷ []) =
      ap length from_d ∙ length_p ∙ sym size_p ∙ sym (ap block_size from_d) in
    let first =
      feed-whole (take left src) x d (omega (arith, r.interval, r.since, r.full)) complete in
    let d1 = record d { since = 0; part = [] } in
    let fed : feed d src ≡ ((feed d1 rest).0, block p ∷ (feed d1 rest).1) =
      ap (feed d) split
      ∙ feed-append (take left src ++ x ∷ []) rest d
      ∙ simp (first, from_d) refl in
    let sealed : build s src ≡ seal p =
      unfold build in
      (sym (append_assoc s.build_metadata (take left src) (0 ∷ []))
        ∙ sym (seal-end (s.build_metadata ++ take left src) x)) in
    let drops : after_block
          (λ s'. next s' (drop (s.build_metadata_len - length s.build_metadata) src)) bytes s
          (take_block s (build s src))
        ≡ after_block (λ s'. next s' rest) bytes s (take_block s (build s src)) =
      ap (λ (m : ℕ). after_block (λ s'. next s' (drop m src)) bytes s (take_block s (build s src)))
        all_left in
    let taken : after_block (λ s'. next s' rest) bytes s (take_block s (build s src))
        ≡ after_block (λ s'. next s' rest) bytes s (take_block s (seal p)) =
      ap (λ (t : Bytes). after_block (λ s'. next s' rest) bytes s (take_block s t)) sealed in
    Agrees-by (view_of s bytes) (drops ∙ taken) fed (
      block_done s p bytes (λ s'. next s' rest) (feed d1 rest).1 (feed d1 rest).0 length_p
        (λ s' o b l i.
          go s' rest d1
            (record {
              interval = r.interval ∙ sym i;
              since = sym o;
              within = omega (arith, o);
              part = sym b;
              block = inl (b, l);
            })
            (omega (arith, length-drop (suc left) src, k))))
