-- ===== src/Ebml/CopiesData.antt =====
-- The rounds that copy bytes to the data buffer.
use icecast_server.Prelude.{
  drop-append, starts_with, length-take, length-append, All-drop, take-drop, by_test, subst,
  append_assoc, take, length, drop, Bytes, ◌+◌, ◌-◌, ◌*◌, ◌≤◌, ◌<◌, ◌≡◌, refl, sym, ap, ◌∙◌, ◌⊎◌,
  inl, inr, false, Option, none, some, ◌++◌, arith, ltb, ◌==◌, if◌then◌else◌, ℕ,
}
use icecast_server.Ebml.State.{
  ParsingState, parsing_clusters, copying_to_data, Ebml, cluster_magic, slice_size,
}
use icecast_server.Ebml.Parser.{at_most, after_copy, copy_to_data}
use icecast_server.Ebml.Digits.{IsByte}
use icecast_server.Ebml.InOrder.{view, StateFits, in_header, HeaderFits, Shown, StartFits, InOrder}
use icecast_server.Ebml.Moves.{Keeps}
use icecast_server.Ebml.Copies.{at_most-le, le_trans, all_copied, room, shorter, left_over, moved}

module _ (captured : Option Bytes) (came sent : Bytes) (s : Ebml) (todo : Bytes)
    (i : InOrder captured came sent (view s) todo) where
  -- The data buffer while it is copied to.
  module _ (state : s.parse_state ≡ copying_to_data) where
    abbrev to_data : ℕ → ParsingState → Ebml
    to_data n next = record s {
      buffer = s.buffer ++ take n todo;
      copy_len = s.copy_len - n;
      parse_state = next;
    }

    whole : HeaderFits (view s) sent → s.header_size ≡ length s.header
    whole (inl b) = absurd (cc (b.early, state))
    whole (inr (size, past)) = size

    -- The magic of the last cluster, where more of it may have come.
    still-Shown :
        (n start : ℕ) (next : ParsingState)
        → n ≤ length todo
        → (next ≡ copying_to_data) ⊎ (s.copy_len ≤ n)
        → n ≤ s.copy_len
        → Shown start (view s)
        → Shown start (view (to_data n next))
    still-Shown n start next l further wanted (inl there) =
        inl (rw (length-append s.buffer (take n todo)) (omega (arith, there)))
    still-Shown n start next l (inl copies) wanted (inr (copying, flush, room)) = inr (
      copies,
      flush,
      rw (length-append s.buffer (take n todo), length-take n todo l) (omega (arith, wanted, room)),
    )
    still-Shown n start next l (inr all) wanted (inr (copying, flush, room)) =
        inl (
          rw (length-append s.buffer (take n todo), length-take n todo l)
            (omega (arith, all, room)))

    start_kept :
        (n : ℕ) (next : ParsingState) (o : Option ℕ)
        → n ≤ length todo
        → (next ≡ copying_to_data) ⊎ (s.copy_len ≤ n)
        → n ≤ s.copy_len
        → StartFits o (view s) todo
        → StartFits o (view (to_data n next)) (drop n todo)
    start_kept n next none l further wanted c = tt
    start_kept n next (some start) l further wanted c = record {
      within =
          rw (length-append s.buffer (take n todo))
            (let within = c.within in omega (arith, within));
      magic =
          ap (starts_with cluster_magic) (
            ap (λ (x : Bytes). x ++ drop n todo) (drop-append start s.buffer (take n todo) c.within)
            ∙ append_assoc (drop start s.buffer) (take n todo) (drop n todo)
            ∙ ap (λ (x : Bytes). drop start s.buffer ++ x) (take-drop n todo))
          ∙ c.magic;
      shown = still-Shown n start next l further wanted c.shown;
    }

    to_data-InOrder :
        (n : ℕ) (next : ParsingState)
        → in_header next ≡ false
        → StateFits next (s.copy_len - n) (drop n todo)
        → (next ≡ copying_to_data) ⊎ (s.copy_len ≤ n)
        → length s.buffer + n ≤ slice_size
        → n ≤ length todo
        → n ≤ s.copy_len
        → InOrder captured came sent (view (to_data n next)) (drop n todo)
    to_data-InOrder n next past f further fits l wanted = record {
      order = moved s.header sent s.buffer todo n ∙ i.order;
      bytes = All-drop IsByte n todo i.bytes;
      state = f;
      header = inr (whole i.header, past);
      kept = i.kept;
      reader = i.reader;
      start = start_kept n next s.cluster_start l further wanted i.start;
      buffer_within = rw (length-append s.buffer (take n todo), length-take n todo l) fits;
      header_within = i.header_within;
    }

    pub copy_to_data-Keeps : Keeps captured came sent (3 * length todo) (copy_to_data s todo)
    unfolding copy_to_data after_copy
    copy_to_data-Keeps =
        let wanted = at_most (length todo) s.copy_len in
        let n =
          if ltb slice_size (length s.buffer + wanted)
          then slice_size - length s.buffer
          else wanted in
        let (there, most) = at_most-le (length todo) s.copy_len in
        let (le_wanted, fits) = room (length s.buffer) wanted i.buffer_within in
        let l : n ≤ length todo = le_trans n wanted (length todo) le_wanted there in
        let k : n ≤ s.copy_len = le_trans n wanted s.copy_len le_wanted most in
        let some_len : 0 < s.copy_len =
          subst (λ (p : ParsingState). StateFits p s.copy_len todo) state i.state in
        by_test (Keeps captured came sent (3 * length todo)) (s.copy_len - n == 0) _ _
          (λ d. (
            to_data-InOrder n parsing_clusters refl tt (inr (all_copied n s.copy_len d)) fits l k,
            shorter todo n s.copy_len l some_len d,
          ))
          (λ d.
            to_data-InOrder n s.parse_state (ap in_header state)
              (subst (λ (p : ParsingState). StateFits p (s.copy_len - n) (drop n todo)) (sym state)
                (left_over n s.copy_len d))
              (inl state) fits l k)
