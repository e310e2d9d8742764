-- ===== src/Mp3/Demuxed.antt =====
-- `mp3_get_filter_meta` of src/format_mp3.c against the description of `Demux`.
use icecast_server.Prelude.{
  by_test, ltb→lt, ltb→le, subst, ℕ, zero, suc, ◌+◌, ◌-◌, ◌≤◌, ◌<◌, ◌≡◌, refl, sym, ap, ◌∙◌, inl,
  inr, false, not, List, [], ◌∷◌, ◌++◌, arith, ltb, leb, ◌==◌, Bytes, length, take, drop, map,
  append-nil, take-drop, length-take, length-drop,
}
use icecast_server.Mp3.{Mp3State, Filtered, begin_block, filter_block, filter_loop, filter_meta}
use icecast_server.Mp3.Demux.{Output, audio, Demux, feed, block_size, feed-append, feed-audio}
use icecast_server.Mp3.Reader.{View, consume, Shows, view_of, Agrees}
use icecast_server.Mp3.Opened.{begin_block-Open}
use icecast_server.Mp3.Blocks.{Ready, Continues, part_stored, Agrees-by, after_audio, block_taken}

-- Nothing but audio.
all_audio :
    (s : Mp3State) (d : Demux) (src bytes : Bytes)
    → Shows s d
    → 0 < length src
    → s.offset + length src ≤ s.inline_metadata_interval
    → Agrees
        (record {
          state = record s { offset = s.offset + length src };
          audio = bytes ++ src;
          ended = false;
        })
        (feed d src).0
        (consume (view_of s bytes) (feed d src).1)
all_audio s d src bytes v pos h =
    let fed = feed-audio src d (omega (arith, v.interval, v.since, h)) in
    let heard : feed d src ≡ (record d { since = d.since + length src }, map audio src ++ []) =
      fed
      ∙ ap (λ (o : List Output). (record d { since = d.since + length src }, o))
          (sym (append-nil (map audio src))) in
    Agrees-by (view_of s bytes) refl heard (
      after_audio src bytes s [] _ _ (record {
        heard = refl;
        ended = refl;
        current = λ e. (refl, refl);
        shows = λ e. record {
          interval = v.interval;
          since = ap (λ (k : ℕ). k + length src) v.since;
          within = h;
          part = v.part;
          block = elim v.block [ inl x ↦ inl x | inr g ↦ absurd (omega (arith, g.at_end, h, pos)) ];
        };
      }))

-- Audio up to the block.
some_audio :
    (s : Mp3State) (d : Demux) (m n : ℕ) (src bytes : Bytes)
    (next : Mp3State → Bytes → Bytes → Filtered)
    → Shows s d
    → 0 < m
    → m ≤ length src
    → length src ≤ suc n
    → s.offset + m ≡ s.inline_metadata_interval
    → ((s' : Mp3State) (rest heard : Bytes) (d' : Demux)
        → Shows s' d'
        → length rest ≤ n
        → Agrees
            (next s' rest heard)
            (feed d' rest).0
            (consume (view_of s' heard) (feed d' rest).1))
    → Agrees
        (next (record s { offset = s.offset + m }) (drop m src) (bytes ++ take m src))
        (feed d src).0
        (consume (view_of s bytes) (feed d src).1)
some_audio s d m n src bytes next v pos h k full go =
    let s1 = record s { offset = s.offset + m } in
    let d1 = record d { since = d.since + length (take m src) } in
    let len = length-take m src h in
    let first = feed-audio (take m src) d (omega (arith, v.interval, v.since, len, full)) in
    let fed : feed d src
        ≡ ((feed d1 (drop m src)).0, map audio (take m src) ++ (feed d1 (drop m src)).1) =
      ap (feed d) (sym (take-drop m src))
      ∙ feed-append (take m src) (drop m src) d
      ∙ simp first refl in
    let shows : Shows s1 d1 = record {
      interval = v.interval;
      since = omega (arith, v.since, len);
      within = omega (arith, full);
      part = v.part;
      block = elim v.block [ inl x ↦ inl x | inr g ↦ absurd (omega (arith, g.at_end, full, pos)) ];
    } in
    Agrees-by (view_of s bytes) refl fed (
      after_audio (take m src) bytes s (feed d1 (drop m src)).1 _ _ (
        go s1 (drop m src) (bytes ++ take m src) d1 shows
          (omega (arith, length-drop m src, k, pos))))

Shows-Ready :
    (s : Mp3State) (d : Demux) (b : ℕ) (src : Bytes)
    → Shows s d
    → s.offset ≡ s.inline_metadata_interval
    → Ready (begin_block s (b ∷ src)) (b ∷ src) d
Shows-Ready s d b src v full =
    let o = begin_block-Open s d b src v in
    record {
      interval = v.interval ∙ sym o.same_rest.1;
      since = v.since ∙ sym o.same_rest.0;
      full = o.same_rest.0 ∙ full ∙ sym o.same_rest.1;
      part = v.part ∙ sym o.same_build;
      size = o.size ∙ ap (λ (x : Bytes). block_size (x ++ b ∷ src)) (sym o.same_build);
      more = omega (arith, o.more, ap length o.same_build);
    }

block_view :
    (s : Mp3State) (d : Demux) (b : ℕ) (src bytes : Bytes)
    → Shows s d
    → view_of (begin_block s (b ∷ src)) bytes ≡ view_of s bytes
block_view s d b src bytes v =
    let o = begin_block-Open s d b src v in
    λ i. record {
      metadata = o.same_rest.2 i;
      inline_url = o.same_rest.3 i;
      heard = bytes;
      ended = false;
    }

-- The part of a round where metadata is next.
block_round :
    (s : Mp3State) (d : Demux) (b n : ℕ) (src bytes : Bytes) (next : Mp3State → Bytes → Filtered)
    → Ready s (b ∷ src) d
    → length (b ∷ src) ≤ suc n
    → Continues next n bytes
    → Agrees
        (filter_block next s (b ∷ src) bytes)
        (feed d (b ∷ src)).0
        (consume (view_of s bytes) (feed d (b ∷ src)).1)
unfolding filter_block
block_round s d b n src bytes next r h go =
    let remaining = s.build_metadata_len - length s.build_metadata in
    let fed = feed d (b ∷ src) in
    by_test (λ (f : Filtered). Agrees f fed.0 (consume (view_of s bytes) fed.1))
      (ltb (length (b ∷ src)) remaining) _ _
      (λ e. part_stored s d (b ∷ src) bytes r (omega arith) (ltb→lt _ _ e))
      (λ e. block_taken s d (b ∷ src) bytes n next r (ltb→le _ _ e) h go)

-- The loop, with rounds enough.
filter_loop-Agrees :
    (rounds : ℕ) (s : Mp3State) (d : Demux) (src bytes : Bytes)
    → Shows s d
    → length src ≤ rounds
    → Agrees
        (filter_loop rounds s src bytes)
        (feed d src).0
        (consume (view_of s bytes) (feed d src).1)
unfolding filter_loop feed
filter_loop-Agrees zero s d [] bytes v h = record {
  heard = refl;
  ended = refl;
  current = λ e. (refl, refl);
  shows = λ e. v;
}
filter_loop-Agrees (suc rounds) s d [] bytes v h = record {
  heard = refl;
  ended = refl;
  current = λ e. (refl, refl);
  shows = λ e. v;
}
filter_loop-Agrees zero s d (b ∷ src) bytes v h = absurd (omega arith)
filter_loop-Agrees (suc rounds) s d (b ∷ src) bytes v h =
    let m = s.inline_metadata_interval - s.offset in
    let ih = filter_loop-Agrees rounds in
    let s1 = begin_block s (b ∷ src) in
    let fed = feed d (b ∷ src) in
    let Goal : Filtered → Type 0 = λ f. Agrees f fed.0 (consume (view_of s bytes) fed.1) in
    by_test Goal (leb (suc (length src)) m) _ _
      (λ e. all_audio s d (b ∷ src) bytes v (omega arith) (ground (arith, e)))
      (λ more.
        by_test Goal (not (m == 0)) _ _
          (λ e.
            some_audio s d m rounds (b ∷ src) bytes (filter_loop rounds) v (ground (arith, e))
              (ground (arith, more)) h (ground (arith, e, v.within))
              (λ s' rest heard d' v' l. ih s' d' rest heard v' l))
          (λ e.
            let full : s.offset ≡ s.inline_metadata_interval = ground (arith, e, v.within) in
            subst
              (λ (w : View).
                Agrees
                  (filter_block (λ s' rest. filter_loop rounds s' rest bytes) s1 (b ∷ src) bytes)
                  fed.0 (consume w fed.1))
              (block_view s d b src bytes v)
              (block_round s1 d b rounds src bytes (λ s' rest. filter_loop rounds s' rest bytes)
                (Shows-Ready s d b src v full) h (λ s' rest d' v' l. ih s' d' rest bytes v' l))))

-- What `mp3_get_filter_meta` makes of the data that it read is what the description of the stream
-- makes of it, byte by byte: it keeps the audio, it takes the metadata of each complete block that is
-- not empty and not the current one, and it ends the stream exactly at such a block that is no title.
-- If it does not end, it is left as the description is, so the next data go on from there, however the
-- stream is cut.
pub filter_meta-Demuxed :
    (s : Mp3State) (d : Demux) (src : Bytes)
    → Shows s d
    → Agrees (filter_meta s src) (feed d src).0 (consume (view_of s []) (feed d src).1)
unfolding filter_meta
filter_meta-Demuxed s d src v = filter_loop-Agrees (length src) s d src [] v (omega arith)
