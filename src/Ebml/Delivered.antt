-- ===== src/Ebml/Delivered.antt =====
-- What a listener of a Matroska stream gets.
use icecast_server.Prelude.{
  ◌<◌, ◌≢◌, take-take, take-shorter, ◌+◌, ◌-◌, ◌≤◌, ◌≡◌, refl, sym, ap, ◌∙◌, true, false, Option,
  List, [], ◌∷◌, ◌++◌, arith, ◌==◌, Bytes, ℕ, length, take, drop, take-drop, drop-drop, length-drop,
  take-within, drop-all, append_assoc, append-nil, by_test, subst, ==_iff,
}
use icecast_server.Listener.{Sent, accepts, blocks, breaks}
use icecast_server.Ebml.State.{slice_size}
use icecast_server.Ebml.Parser.{at_most}
use icecast_server.Ebml.Output.{Refbuf}
use icecast_server.Ebml.Copies.{at_most-le}
use icecast_server.Ebml.Session.{sent_by}
use icecast_server.Ebml.Listener.{
  Connection, EbmlListener, client_send, sent_count, send_ebml_header, generic_write_to_client,
  ebml_write_buf_to_client, call_write_to_client, advance_to, advance_queue, write_after,
  send_round, Happens, arrives, sends_round, happens, all_happen,
}

-- What is still to be sent.
abbrev pub left_of : EbmlListener → Bytes
left_of l = drop l.header_pos l.header ++ (drop l.pos l.refbuf.bytes ++ sent_by l.next)

pub record IsDelivering (total : Bytes) (l : EbmlListener) : Type 0 where
  pub order : l.con.wire ++ left_of l ≡ total
  pub header_within : l.header_pos ≤ length l.header
  pub within : l.pos ≤ length l.refbuf.bytes
  pub after_header : l.generic ≡ true → l.header_pos ≡ length l.header
  pub data_after : 0 < l.pos → l.header_pos ≡ length l.header

-- What was sent is the beginning of what was to be sent.
unfoldable pub IsSent : Bytes → Connection → Option ℕ × Connection → Type 0
IsSent bytes con r =
    (sent_count r.0 ≤ length bytes) × (r.1.wire ≡ con.wire ++ take (sent_count r.0) bytes)

pub client_send-IsSent :
    (bytes : Bytes) (socket : List Sent) (con : Connection)
    → IsSent bytes con (client_send bytes socket con)
unfolding client_send IsSent
client_send-IsSent bytes [] con = (omega arith, sym (append-nil con.wire))
client_send-IsSent bytes (accepts n ∷ rest) con = ((at_most-le n (length bytes)).1, refl)
client_send-IsSent bytes (blocks ∷ rest) con = (omega arith, sym (append-nil con.wire))
client_send-IsSent bytes (breaks ∷ rest) con = (omega arith, sym (append-nil con.wire))

-- Bytes that go from the front of what is left to the wire.
sent_on :
    (wire wire' bytes : Bytes) (pos n : ℕ) (more : Bytes)
    → n ≤ length (drop pos bytes)
    → wire' ≡ wire ++ take n (drop pos bytes)
    → wire' ++ (drop (pos + n) bytes ++ more) ≡ wire ++ (drop pos bytes ++ more)
sent_on wire wire' bytes pos n more h e =
    ap (λ (x : Bytes). x ++ (drop (pos + n) bytes ++ more)) e
    ∙ append_assoc wire (take n (drop pos bytes)) (drop (pos + n) bytes ++ more)
    ∙ ap (λ (x : Bytes). wire ++ (take n (drop pos bytes) ++ (x ++ more)))
        (sym (drop-drop pos n bytes))
    ∙ ap (λ (x : Bytes). wire ++ x)
        (sym (append_assoc (take n (drop pos bytes)) (drop n (drop pos bytes)) more))
    ∙ ap (λ (x : Bytes). wire ++ (x ++ more)) (take-drop n (drop pos bytes))

pub generic-IsDelivering :
    (total : Bytes) (l : EbmlListener)
    → l.header_pos ≡ length l.header
    → IsDelivering total l
    → IsDelivering total (generic_write_to_client l).1
unfolding generic_write_to_client IsSent
generic-IsDelivering total l e i =
    let (count, wire) = client_send-IsSent (drop l.pos l.refbuf.bytes) l.con.socket l.con in
    let r = client_send (drop l.pos l.refbuf.bytes) l.con.socket l.con in
    let n = sent_count r.0 in
    let no_header : drop l.header_pos l.header ≡ [] =
      ap (λ k. drop k l.header) e ∙ drop-all l.header in
    record {
      order =
          ap (λ (x : Bytes). r.1.wire ++ (x ++ (drop (l.pos + n) l.refbuf.bytes ++ sent_by l.next)))
            no_header
          ∙ sent_on l.con.wire r.1.wire l.refbuf.bytes l.pos n (sent_by l.next) count wire
          ∙ ap (λ (x : Bytes). l.con.wire ++ (x ++ (drop l.pos l.refbuf.bytes ++ sent_by l.next)))
              (sym no_header)
          ∙ i.order;
      header_within = i.header_within;
      within = omega (arith, count, length-drop l.pos l.refbuf.bytes, i.within);
      after_header = λ g. e;
      data_after = λ k. e;
    }

pub header-IsDelivering :
    (total : Bytes) (l : EbmlListener)
    → l.generic ≡ false
    → l.header_pos ≢ length l.header
    → IsDelivering total l
    → IsDelivering total (send_ebml_header l).1
unfolding send_ebml_header IsSent
header-IsDelivering total l g h i =
    let len = at_most (length l.header - l.header_pos) slice_size in
    let bytes = take len (drop l.header_pos l.header) in
    let (count, wire) = client_send-IsSent bytes l.con.socket l.con in
    let r = client_send bytes l.con.socket l.con in
    let n = sent_count r.0 in
    let shorter : take n bytes ≡ take n (drop l.header_pos l.header) =
      take-take n len (drop l.header_pos l.header)
        (omega (arith, count, take-within len (drop l.header_pos l.header))) in
    let fits : n ≤ length (drop l.header_pos l.header) =
      omega (arith, count, take-shorter len (drop l.header_pos l.header)) in
    record {
      order =
          sent_on l.con.wire r.1.wire l.header l.header_pos n
            (drop l.pos l.refbuf.bytes ++ sent_by l.next) fits
            (wire ∙ ap (λ (x : Bytes). l.con.wire ++ x) shorter)
          ∙ i.order;
      header_within = omega (arith, fits, length-drop l.header_pos l.header, i.header_within);
      within = i.within;
      after_header = λ e. absurd (differ e);
      data_after = λ k. absurd (h (i.data_after k));
    }
  where
    differ : ¬ (l.generic ≡ true)
    differ e = cc

pub call-IsDelivering :
    (total : Bytes) (l : EbmlListener)
    → IsDelivering total l
    → IsDelivering total (call_write_to_client l).1
unfolding call_write_to_client ebml_write_buf_to_client
call-IsDelivering total l i =
    by_test (λ (r : Option ℕ × EbmlListener). IsDelivering total r.1) l.generic _ _
      (λ e. generic-IsDelivering total l (i.after_header e) i)
      (λ e.
        by_test (λ (r : Option ℕ × EbmlListener). IsDelivering total r.1)
          (l.header_pos == length l.header) _ _
          (λ k.
            let done = (==_iff l.header_pos (length l.header)).0 k in
            generic-IsDelivering total (record l { generic = true }) done
              (record {
                order = i.order;
                header_within = i.header_within;
                within = i.within;
                after_header = λ g. done;
                data_after = λ g. done;
              }))
          (λ k. header-IsDelivering total l e (ground (arith, k)) i))

pub advance-IsDelivering :
    (total : Bytes) (l : EbmlListener) (next : List Refbuf)
    → l.next ≡ next
    → IsDelivering total l
    → IsDelivering total (write_after l (advance_to next l))
unfolding advance_to write_after
advance-IsDelivering total l [] q i =
    by_test (λ (o : Option EbmlListener). IsDelivering total (write_after l o))
      (l.pos == length l.refbuf.bytes) _ _ (λ e. i) (λ e. call-IsDelivering total l i)
advance-IsDelivering total l (refbuf ∷ next) q i =
    by_test (λ (l' : EbmlListener). IsDelivering total (call_write_to_client l').1)
      (l.pos == length l.refbuf.bytes) _ _
      (λ e.
        call-IsDelivering total (record l { refbuf = refbuf; next = next; pos = 0 })
          (record {
            order = moved_on ((==_iff l.pos (length l.refbuf.bytes)).0 e) ∙ i.order;
            header_within = i.header_within;
            within = omega arith;
            after_header = i.after_header;
            data_after = λ k. absurd (omega (arith, k));
          }))
      (λ e. call-IsDelivering total l i)
  where
    moved_on :
        l.pos ≡ length l.refbuf.bytes
        → l.con.wire ++ (drop l.header_pos l.header ++ (refbuf.bytes ++ sent_by next))
          ≡ l.con.wire ++ left_of l
    moved_on e =
        ap (λ (x : Bytes). l.con.wire ++ (drop l.header_pos l.header ++ x))
          (ap sent_by (sym q)
            ∙ ap (λ (x : Bytes). x ++ sent_by l.next)
                (sym (ap (λ k. drop k l.refbuf.bytes) e ∙ drop-all l.refbuf.bytes)))

abbrev pub arrivals : List Happens → List Refbuf
arrivals [] = []
arrivals (arrives r ∷ hs) = r ∷ arrivals hs
arrivals (sends_round ∷ hs) = arrivals hs

pub sent_by-append : (rs qs : List Refbuf) → sent_by (rs ++ qs) ≡ sent_by rs ++ sent_by qs
sent_by-append [] qs = refl
sent_by-append (r ∷ rs) qs =
    ap (λ (x : Bytes). r.bytes ++ x) (sent_by-append rs qs)
    ∙ sym (append_assoc r.bytes (sent_by rs) (sent_by qs))

arrived-IsDelivering :
    (total : Bytes) (l : EbmlListener) (r : Refbuf)
    → IsDelivering total l
    → IsDelivering (total ++ r.bytes) (record l { next = l.next ++ r ∷ [] })
arrived-IsDelivering total l r i = record {
  order =
      ap
        (λ (x : Bytes).
          l.con.wire ++ (drop l.header_pos l.header ++ (drop l.pos l.refbuf.bytes ++ x)))
        (sent_by-append l.next (r ∷ [])
          ∙ ap (λ (x : Bytes). sent_by l.next ++ x) (append-nil r.bytes))
      ∙ regroup l.con.wire (drop l.header_pos l.header) (drop l.pos l.refbuf.bytes) (sent_by l.next)
          r.bytes
      ∙ ap (λ (x : Bytes). x ++ r.bytes) i.order;
  header_within = i.header_within;
  within = i.within;
  after_header = i.after_header;
  data_after = i.data_after;
}
  where
    regroup : (a b c d e : Bytes) → a ++ (b ++ (c ++ (d ++ e))) ≡ (a ++ (b ++ (c ++ d))) ++ e
    regroup a b c d e = simp append_assoc

pub send_round-IsDelivering :
    (total : Bytes) (l : EbmlListener) → IsDelivering total l → IsDelivering total (send_round l)
unfolding send_round advance_queue
send_round-IsDelivering total l i =
    by_test (IsDelivering total) l.con.error _ _ (λ e. i)
      (λ e. advance-IsDelivering total l l.next refl i)

pub all_happen-IsDelivering :
    (hs : List Happens) (total : Bytes) (l : EbmlListener)
    → IsDelivering total l
    → IsDelivering (total ++ sent_by (arrivals hs)) (all_happen hs l)
unfolding all_happen happens
all_happen-IsDelivering [] total l i =
    subst (λ (x : Bytes). IsDelivering x l) (sym (append-nil total)) i
all_happen-IsDelivering (arrives r ∷ hs) total l i =
    subst (λ (x : Bytes). IsDelivering x (all_happen hs (record l { next = l.next ++ r ∷ [] })))
      (append_assoc total r.bytes (sent_by (arrivals hs)))
      (all_happen-IsDelivering hs (total ++ r.bytes) (record l { next = l.next ++ r ∷ [] })
        (arrived-IsDelivering total l r i))
all_happen-IsDelivering (sends_round ∷ hs) total l i =
    all_happen-IsDelivering hs total (send_round l) (send_round-IsDelivering total l i)
