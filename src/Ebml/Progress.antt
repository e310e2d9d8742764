-- ===== src/Ebml/Progress.antt =====
-- A round for a listener of a Matroska stream whose socket takes bytes.
use icecast_server.Prelude.{
  ==_iff, by_test, ap, true, [], ◌==◌, subst, length-drop, length-append, length-take, ◌+◌, ◌-◌,
  ◌≤◌, ◌<◌, ◌≡◌, refl, sym, ◌∙◌, false, Option, List, ◌∷◌, ◌++◌, arith, Bytes, ℕ, length, take,
  drop, All,
}
use icecast_server.Listener.{Sent, accepts}
use icecast_server.Ebml.State.{slice_size}
use icecast_server.Ebml.Parser.{at_most}
use icecast_server.Ebml.Output.{Refbuf}
use icecast_server.Ebml.Session.{sent_by}
use icecast_server.Ebml.Listener.{
  advance_queue, send_round, write_after, ebml_write_buf_to_client, call_write_to_client,
  advance_to, EbmlListener, client_send, sent_count, send_ebml_header, generic_write_to_client,
  Connection,
}
use icecast_server.Ebml.Delivered.{IsDelivering, left_of}

abbrev pub IsFull : Refbuf → Type 0
IsFull r = 0 < length r.bytes

-- No buffer is empty, and the current one is not sent before the header.
pub record IsReady (l : EbmlListener) : Type 0 where
  pub full : IsFull l.refbuf
  pub others : All IsFull l.next
  pub header_first : l.pos ≡ length l.refbuf.bytes → l.header_pos ≡ length l.header

-- A round that has sent something.
pub record Progresses (l l' : EbmlListener) (rest : List Sent) : Type 0 where
  pub socket : l'.con.socket ≡ rest
  pub no_error : l'.con.error ≡ false
  pub ready : IsReady l'
  pub fewer : length (left_of l') < length (left_of l)

Took : Bytes → Connection → List Sent → Option ℕ × Connection → Type 0
Took bytes con rest r =
    (r.1.socket ≡ rest)
    × (r.1.error ≡ con.error)
    × (0 < sent_count r.0)
    × (sent_count r.0 ≤ length bytes)

client_send-Took :
    (n : ℕ) (rest : List Sent) (bytes : Bytes) (con : Connection)
    → con.socket ≡ accepts n ∷ rest
    → 0 < n
    → 0 < length bytes
    → Took bytes con rest (client_send bytes con.socket con)
unfolding client_send Took
client_send-Took n rest bytes con q h k =
    subst (λ (s : List Sent). Took bytes con rest (client_send bytes s con)) (sym q)
      (refl, refl, ground (arith, h, k), ground arith)

-- What a call of either function needs to have.
pub record CanSend (n : ℕ) (rest : List Sent) (l : EbmlListener) : Type 0 where
  pub socket : l.con.socket ≡ accepts n ∷ rest
  pub no_error : l.con.error ≡ false
  pub takes : 0 < n
  pub ready : IsReady l

generic-Progresses :
    (n : ℕ) (rest : List Sent) (l : EbmlListener)
    → CanSend n rest l
    → l.header_pos ≡ length l.header
    → l.pos < length l.refbuf.bytes
    → Progresses l (generic_write_to_client l).1 rest
unfolding generic_write_to_client Took
generic-Progresses n rest l c d p =
    let bytes = drop l.pos l.refbuf.bytes in
    let size = length-drop l.pos l.refbuf.bytes in
    let (a, e, sent, within) =
      client_send-Took n rest bytes l.con c.socket c.takes (omega (arith, size, p)) in
    let k = sent_count (client_send bytes l.con.socket l.con).0 in
    record {
      socket = a;
      no_error = e ∙ c.no_error;
      ready = record { full = c.ready.full; others = c.ready.others; header_first = λ x. d };
      fewer = omega (
        arith,
        sent,
        within,
        size,
        length-drop (l.pos + k) l.refbuf.bytes,
        length-append (drop l.header_pos l.header)
            (drop (l.pos + k) l.refbuf.bytes ++ sent_by l.next),
        length-append (drop l.header_pos l.header) (bytes ++ sent_by l.next),
        length-append (drop (l.pos + k) l.refbuf.bytes) (sent_by l.next),
        length-append bytes (sent_by l.next),
      );
    }

header-Progresses :
    (n : ℕ) (rest : List Sent) (l : EbmlListener)
    → CanSend n rest l
    → l.header_pos < length l.header
    → Progresses l (send_ebml_header l).1 rest
unfolding send_ebml_header Took
header-Progresses n rest l c p =
    let there = drop l.header_pos l.header in
    let len = at_most (length l.header - l.header_pos) slice_size in
    let bytes = take len there in
    let size = length-drop l.header_pos l.header in
    let some_bytes : 0 < len = ground (arith, p) in
    let bounded : len ≤ length there = ground (arith, size) in
    let (a, e, sent, within) =
      client_send-Took n rest bytes l.con c.socket c.takes
        (omega (arith, length-take len there bounded, some_bytes)) in
    let k = sent_count (client_send bytes l.con.socket l.con).0 in
    let more = drop l.pos l.refbuf.bytes ++ sent_by l.next in
    record {
      socket = a;
      no_error = e ∙ c.no_error;
      ready = record {
        full = c.ready.full;
        others = c.ready.others;
        header_first = λ x. absurd (omega (arith, c.ready.header_first x, p));
      };
      fewer = omega (
        arith,
        sent,
        within,
        size,
        length-take len there bounded,
        length-drop (l.header_pos + k) l.header,
        length-append (drop (l.header_pos + k) l.header) more,
        length-append there more,
      );
    }

-- The first call after the header.
begins :
    (n : ℕ) (rest : List Sent) (l : EbmlListener)
    → CanSend n rest l
    → l.header_pos ≡ length l.header
    → l.pos < length l.refbuf.bytes
    → Progresses l (generic_write_to_client (record l { generic = true })).1 rest
begins n rest l c d p =
    let r = c.ready in
    let ready : IsReady (record l { generic = true }) = record {
      full = r.full;
      others = r.others;
      header_first = r.header_first;
    } in
    let x =
      generic-Progresses n rest (record l { generic = true })
        (record { socket = c.socket; no_error = c.no_error; takes = c.takes; ready = ready }) d p in
    record { socket = x.socket; no_error = x.no_error; ready = x.ready; fewer = x.fewer }

call-Progresses :
    (n : ℕ) (rest : List Sent) (l : EbmlListener)
    → CanSend n rest l
    → l.header_pos ≤ length l.header
    → (l.generic ≡ true → l.header_pos ≡ length l.header)
    → l.pos < length l.refbuf.bytes
    → Progresses l (call_write_to_client l).1 rest
unfolding call_write_to_client ebml_write_buf_to_client
call-Progresses n rest l c w g p =
    by_test (λ (r : Option ℕ × EbmlListener). Progresses l r.1 rest) l.generic _ _
      (λ e. generic-Progresses n rest l c (g e) p)
      (λ e.
        by_test (λ (r : Option ℕ × EbmlListener). Progresses l r.1 rest)
          (l.header_pos == length l.header) _ _
          (λ k. begins n rest l c ((==_iff l.header_pos (length l.header)).0 k) p)
          (λ k. header-Progresses n rest l c (ground (arith, k, w))))

-- The current buffer was sent, and there is a next one.
next_buffer :
    (n : ℕ) (rest : List Sent) (total : Bytes) (l : EbmlListener) (refbuf : Refbuf)
    (next : List Refbuf)
    → l.next ≡ refbuf ∷ next
    → CanSend n rest l
    → IsDelivering total l
    → l.pos ≡ length l.refbuf.bytes
    → Progresses l
        (call_write_to_client (record l { refbuf = refbuf; next = next; pos = 0 })).1
        rest
next_buffer n rest total l refbuf next q c i e =
    let (full, others) = subst (All IsFull) q c.ready.others in
    let ready : IsReady (record l { refbuf = refbuf; next = next; pos = 0 }) = record {
      full = full;
      others = others;
      header_first = λ x. absurd (omega (arith, x, full));
    } in
    let x =
      call-Progresses n rest (record l { refbuf = refbuf; next = next; pos = 0 })
        (record { socket = c.socket; no_error = c.no_error; takes = c.takes; ready = ready })
        i.header_within i.after_header full in
    record {
      socket = x.socket;
      no_error = x.no_error;
      ready = x.ready;
      fewer = omega (
        arith,
        x.fewer,
        e,
        ap (λ y. length (sent_by y)) q,
        length-drop l.pos l.refbuf.bytes,
        length-append (drop l.header_pos l.header) (drop l.pos l.refbuf.bytes ++ sent_by l.next),
        length-append (drop l.header_pos l.header) (refbuf.bytes ++ sent_by next),
        length-append (drop l.pos l.refbuf.bytes) (sent_by l.next),
      );
    }

advance-Progresses :
    (n : ℕ) (rest : List Sent) (total : Bytes) (l : EbmlListener) (next : List Refbuf)
    → l.next ≡ next
    → CanSend n rest l
    → IsDelivering total l
    → 0 < length (left_of l)
    → Progresses l (write_after l (advance_to next l)) rest
unfolding advance_to write_after
advance-Progresses n rest total l [] q c i h =
    by_test (λ (o : Option EbmlListener). Progresses l (write_after l o) rest)
      (l.pos == length l.refbuf.bytes) _ _
      (λ e. absurd (at_end ((==_iff l.pos (length l.refbuf.bytes)).0 e)))
      (λ e. call-Progresses n rest l c i.header_within i.after_header (ground (arith, e, i.within)))
  where
    at_end : l.pos ≡ length l.refbuf.bytes → ⊥
    at_end e = omega (
      arith,
      h,
      length-append (drop l.header_pos l.header) (drop l.pos l.refbuf.bytes ++ sent_by l.next),
      length-append (drop l.pos l.refbuf.bytes) (sent_by l.next),
      length-drop l.pos l.refbuf.bytes,
      length-drop l.header_pos l.header,
      c.ready.header_first e,
      ap (λ x. length (sent_by x)) q,
    )
advance-Progresses n rest total l (refbuf ∷ next) q c i h =
    by_test (λ (l' : EbmlListener). Progresses l (call_write_to_client l').1 rest)
      (l.pos == length l.refbuf.bytes) _ _
      (λ e.
        next_buffer n rest total l refbuf next q c i ((==_iff l.pos (length l.refbuf.bytes)).0 e))
      (λ e. call-Progresses n rest l c i.header_within i.after_header (ground (arith, e, i.within)))

pub round-Progresses :
    (n : ℕ) (rest : List Sent) (total : Bytes) (l : EbmlListener)
    → CanSend n rest l
    → IsDelivering total l
    → 0 < length (left_of l)
    → Progresses l (send_round l) rest
unfolding send_round advance_queue
round-Progresses n rest total l c i h =
    by_test (λ (l' : EbmlListener). Progresses l l' rest) l.con.error _ _
      (λ e. absurd (differ e c.no_error)) (λ e. advance-Progresses n rest total l l.next refl c i h)
  where
    differ : l.con.error ≡ true → ¬ (l.con.error ≡ false)
    differ p q = cc
