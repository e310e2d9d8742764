-- ===== src/Ebml/Copies.antt =====
-- The rounds that copy bytes.
use icecast_server.Prelude.{
  length-drop, length-take, length-append, ltb→le, All-drop, take-drop, by_test, subst,
  append_assoc, take, length, drop, Bytes, ◌+◌, ◌-◌, ◌*◌, ◌≤◌, ◌<◌, ◌≡◌, refl, sym, ap, ◌∙◌, inl,
  inr, true, false, Option, none, some, [], ◌++◌, arith, ltb, ◌==◌, if◌then◌else◌, ℕ,
}
use icecast_server.Ebml.State.{
  ParsingState, parsing_header, copying_to_header, Ebml, header_max_size, slice_size,
}
use icecast_server.Ebml.Parser.{at_most, after_copy, copy_to_header}
use icecast_server.Ebml.Digits.{IsByte}
use icecast_server.Ebml.InOrder.{
  ReaderFits, Captured, view, StateFits, is_early, BeforeClusters, HeaderFits, StartFits, InOrder,
}
use icecast_server.Ebml.Moves.{Keeps}

pub at_most-le : (n m : ℕ) → (at_most n m ≤ n) × (at_most n m ≤ m)
at_most-le n m = ground arith

-- The order after bytes have moved from one part to the next.
pub moved :
    (header sent buffer todo : Bytes) (n : ℕ)
    → header ++ (sent ++ ((buffer ++ take n todo) ++ drop n todo))
      ≡ header ++ (sent ++ (buffer ++ todo))
moved header sent buffer todo n =
    ap (λ (x : Bytes). header ++ (sent ++ x))
      (append_assoc buffer (take n todo) (drop n todo)
        ∙ ap (λ (x : Bytes). buffer ++ x) (take-drop n todo))

pub le_trans : (a b c : ℕ) → a ≤ b → b ≤ c → a ≤ c
le_trans a b c h k = omega arith

pub all_copied : (n len : ℕ) → (len - n == 0) ≡ true → len ≤ n
all_copied n len d = ground (arith, d)

-- What the data buffer has room for.
pub room :
    (position wanted : ℕ)
    → position ≤ slice_size
    → (let n = if ltb slice_size (position + wanted) then slice_size - position else wanted in
        (n ≤ wanted) × (position + n ≤ slice_size))
room position wanted h = ground (arith, h)

-- What was wanted has come, so there is less to parse.
pub shorter :
    (todo : Bytes) (n len : ℕ)
    → n ≤ length todo
    → 0 < len
    → (len - n == 0) ≡ true
    → 3 * length (drop n todo) + 2 < 3 * length todo
shorter todo n len there some_len d =
    rw (length-drop n todo) (less (length todo) n len there some_len d)
  where
    less : (l n len : ℕ) → n ≤ l → 0 < len → (len - n == 0) ≡ true → 3 * (l - n) + 2 < 3 * l
    less l n len there some_len d = ground (arith, there, some_len, d)

pub left_over : (n len : ℕ) → (len - n == 0) ≡ false → 0 < len - n
left_over n len d = ground (arith, d)

module _ (captured : Option Bytes) (came sent : Bytes) (s : Ebml) (todo : Bytes)
    (i : InOrder captured came sent (view s) todo) where
  -- The header while it is copied.
  module _ (state : s.parse_state ≡ copying_to_header) where
    early : HeaderFits (view s) sent → BeforeClusters (view s) sent
    early (inl b) = b
    early (inr (size, past)) = absurd (cc (past, state))

    abbrev to_header : ℕ → ParsingState → Ebml
    to_header n next = record s {
      header = s.header ++ take n todo;
      copy_len = s.copy_len - n;
      parse_state = next;
    }

    to_header-InOrder :
        (n : ℕ) (next : ParsingState)
        → is_early next ≡ true
        → StateFits next (s.copy_len - n) (drop n todo)
        → length s.header + n ≤ header_max_size
        → n ≤ length todo
        → InOrder captured came sent (view (to_header n next)) (drop n todo)
    to_header-InOrder n next is f fits l =
        let b = early i.header in
        record {
          order = order b.none_sent b.empty;
          bytes = All-drop IsByte n todo i.bytes;
          state = f;
          header = inl (record {
            early = is;
            none_sent = b.none_sent;
            empty = b.empty;
            no_start = b.no_start;
            no_size = b.no_size;
          });
          kept = still captured b i.kept i.reader;
          reader = i.reader;
          start =
              subst (λ (o : Option ℕ). StartFits o (view (to_header n next)) (drop n todo))
                (sym b.no_start) tt;
          buffer_within = i.buffer_within;
          header_within = rw (length-append s.header (take n todo), length-take n todo l) fits;
        }
      where
        still :
            (o : Option Bytes)
            → BeforeClusters (view s) sent
            → Captured o s.output_state s.header
            → ReaderFits (view s)
            → Captured o s.output_state (s.header ++ take n todo)
        still none b c r = c
        still (some header) b c (inl (reading, unread)) = absurd (cc (c.0, reading))
        still (some header) b c (inr (clusters, size)) =
            let none_yet = b.no_size in absurd (omega (arith, none_yet, size))

        order :
            sent ≡ []
            → s.buffer ≡ []
            → (s.header ++ take n todo) ++ (sent ++ (s.buffer ++ drop n todo)) ≡ came
        order none_sent empty =
            ap (λ (x : Bytes). (s.header ++ take n todo) ++ (x ++ (s.buffer ++ drop n todo)))
              none_sent
            ∙ ap (λ (x : Bytes). (s.header ++ take n todo) ++ (x ++ drop n todo)) empty
            ∙ append_assoc s.header (take n todo) (drop n todo)
            ∙ ap (λ (x : Bytes). s.header ++ x) (take-drop n todo)
            ∙ ap (λ (x : Bytes). s.header ++ (x ++ todo)) (sym empty)
            ∙ ap (λ (x : Bytes). s.header ++ (x ++ (s.buffer ++ todo))) (sym none_sent)
            ∙ i.order

    pub copy_to_header-Keeps : Keeps captured came sent (3 * length todo) (copy_to_header s todo)
    unfolding copy_to_header after_copy
    copy_to_header-Keeps =
        let n = at_most (length todo) s.copy_len in
        let (there, wanted) = at_most-le (length todo) s.copy_len in
        let some_len : 0 < s.copy_len =
          subst (λ (p : ParsingState). StateFits p s.copy_len todo) state i.state in
        by_test (Keeps captured came sent (3 * length todo))
          (ltb header_max_size (length s.header + n)) _ _ (λ e. tt)
          (λ e.
            let fits = ltb→le header_max_size (length s.header + n) e in
            by_test (Keeps captured came sent (3 * length todo)) (s.copy_len - n == 0) _ _
              (λ d. (
                to_header-InOrder n parsing_header refl tt fits there,
                shorter todo n s.copy_len there some_len d,
              ))
              (λ d.
                to_header-InOrder n s.parse_state (ap is_early state)
                  (subst (λ (p : ParsingState). StateFits p (s.copy_len - n) (drop n todo))
                    (sym state) (left_over n s.copy_len d))
                  fits there))
