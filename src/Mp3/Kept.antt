-- ===== src/Mp3/Kept.antt =====
-- What a call of `mp3_get_filter_meta` of src/format_mp3.c keeps: the parse of the stream when the
-- title changes, and the bytes that `complete_read` stores.
use icecast_server.Prelude.{
  drop, codes, starts_with, ◌≡◌, refl, sym, ap, ◌∙◌, inl, inr, Bool, false, not, Option, none, some,
  List, [], ◌∷◌, ◌++◌, arith, ltb, ◌==◌, if◌then◌else◌, Bytes, length, append_assoc, append-nil,
  by_test,
}
use icecast_server.Mp3.{
  refbuf_size, title_len, max_meta_len, Mp3State, Read, got, no_data, read_error, stored, keep_read,
  complete_read, Comments, set_title, update_title,
}
use icecast_server.Mp3.Demux.{block_size, Output, audio, block, Demux}
use icecast_server.Mp3.Reader.{seal, is_fresh, View, consume, Shows}
use icecast_server.Mp3.Wire.{heard}

-- The bytes of a read, and that it was without an error.
abbrev pub bytes_of : Read → Bytes
bytes_of (got bytes) = bytes
bytes_of _ = []

abbrev pub NoError : Read → Type 0
NoError read_error = ⊥
NoError _ = Unit

-- What a reader heard of a stream that did not end.
pub consume-heard :
    (outs : List Output) (v : View)
    → (consume v outs).ended ≡ false
    → (consume v outs).heard ≡ v.heard ++ heard outs
consume-heard [] v h = sym (append-nil v.heard)
consume-heard (audio b ∷ outs) v h =
    consume-heard outs (record v { heard = v.heard ++ b ∷ [] }) h
    ∙ append_assoc v.heard (b ∷ []) (heard outs)
consume-heard (block p ∷ outs) v h =
    let P : View → Type 0 = λ w. w.ended ≡ false → w.heard ≡ v.heard ++ heard outs in
    by_test P (not (is_fresh v p)) _ _ (λ e. consume-heard outs v)
      (λ e.
        by_test P (starts_with (codes "StreamTitle=") (drop 1 (seal p))) _ _
          (λ t. consume-heard outs _) (λ t q. cc))
      h

-- The fields that the description is about.
pub record SameParse (s s' : Mp3State) : Type 0 where
  pub offset : s'.offset ≡ s.offset
  pub interval : s'.inline_metadata_interval ≡ s.inline_metadata_interval
  pub bytes : s'.build_metadata ≡ s.build_metadata
  pub size : s'.build_metadata_len ≡ s.build_metadata_len

pub SameParse-Shows : (s s' : Mp3State) (d : Demux) → SameParse s s' → Shows s d → Shows s' d
SameParse-Shows s s' d p v = record {
  interval = v.interval ∙ sym p.interval;
  since = v.since ∙ sym p.offset;
  within = omega (arith, v.within, p.offset, p.interval);
  part = v.part ∙ sym p.bytes;
  block = elim v.block [
    | inl (e, l) ↦ inl (p.bytes ∙ e, p.size ∙ l)
    | inr g ↦ inr (record {
      some_bytes = omega (arith, g.some_bytes, ap length p.bytes);
      not_all = omega (arith, g.not_all, ap length p.bytes, p.size);
      size = p.size ∙ g.size ∙ sym (ap block_size p.bytes);
      at_end = omega (arith, g.at_end, p.offset, p.interval);
    })
  ];
}

set_title-SameParse : (vc : Comments) (s : Mp3State) → SameParse s (set_title vc s)
unfolding set_title
set_title-SameParse vc s =
    by_test (λ (x : Mp3State). SameParse s x) (ltb max_meta_len (title_len s.inline_url vc)) _ _
      (λ e. record { offset = refl; interval = refl; bytes = refl; size = refl })
      (λ e. record { offset = refl; interval = refl; bytes = refl; size = refl })

pub update_title-SameParse :
    (vc : Comments) (s : Mp3State) → SameParse s (update_title vc (record s { read_data = none }))
unfolding update_title
update_title-SameParse vc s =
    let s1 = record s { read_data = none } in
    let p = set_title-SameParse vc s1 in
    by_test (λ (x : Mp3State). SameParse s x) s.update_metadata _ _
      (λ e. record { offset = p.offset; interval = p.interval; bytes = p.bytes; size = p.size })
      (λ e. record { offset = refl; interval = refl; bytes = refl; size = refl })

keep_read-bytes : (bytes : Bytes) → stored (keep_read bytes).0 ≡ bytes
unfolding keep_read
keep_read-bytes [] = refl
keep_read-bytes (b ∷ bytes) =
    by_test (λ (x : Option Bytes × Bool). stored x.0 ≡ b ∷ bytes)
      (ltb (length (b ∷ bytes)) refbuf_size) _ _
      (λ e.
        by_test (λ (x : Option Bytes). stored x ≡ b ∷ bytes) (length (b ∷ bytes) == 0) _ _
          (λ q. absurd (ground (arith, q))) (λ q. refl))
      (λ e. refl)

-- What a read leaves is what there was and what came.
pub complete_read-bytes :
    (read_data : Option Bytes) (r : Read)
    → NoError r
    → stored (complete_read read_data r).0 ≡ stored read_data ++ bytes_of r
unfolding complete_read keep_read
complete_read-bytes read_data (got bytes) h = keep_read-bytes (stored read_data ++ bytes)
complete_read-bytes read_data no_data h = sym (append-nil (stored read_data))
complete_read-bytes read_data read_error h = absurd h

-- The buffer that is returned is the audio.
pub buffer_of : (bytes : Bytes) → stored (if length bytes == 0 then none else some bytes) ≡ bytes
buffer_of [] = refl
buffer_of (b ∷ bytes) =
    by_test (λ (x : Option Bytes). stored x ≡ b ∷ bytes) (length (b ∷ bytes) == 0) _ _
      (λ q. absurd (ground (arith, q))) (λ q. refl)
