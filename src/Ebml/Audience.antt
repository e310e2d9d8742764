-- ===== src/Ebml/Audience.antt =====
-- The listeners of a source of a Matroska stream.
use icecast_server.Prelude.{
  subst, ◌≤◌, ◌≡◌, refl, sym, ap, ◌∙◌, true, false, Option, none, some, List, [], ◌∷◌, ◌++◌, arith,
  ◌==◌, Bytes, ℕ, length, by_test, All, All-append, append_assoc,
}
use icecast_server.Listener.{Sent}
use icecast_server.Ebml.Digits.{IsByte}
use icecast_server.Ebml.Output.{Refbuf}
use icecast_server.Ebml.Streamed.{joined}
use icecast_server.Ebml.Session.{new_source, play, sent_by, play-IsStreamed}
use icecast_server.Ebml.Listener.{
  EbmlListener, new_listener, create_client_data, generic_write_to_client, send_ebml_header,
  ebml_write_buf_to_client, call_write_to_client, advance_to, advance_queue, write_after,
  send_round, Happens, arrives, sends_round, happens, all_happen,
}
use icecast_server.Ebml.Delivered.{
  left_of, IsDelivering, arrivals, sent_by-append, all_happen-IsDelivering,
}
use icecast_server.Ebml.Progress.{IsFull, IsReady}
use icecast_server.Ebml.Complete.{Takes, CompletesIn, rounds-CompletesIn}

-- The buffers from the current one on are not empty.
abbrev HasFull : EbmlListener → Type 0
HasFull l = All IsFull (l.refbuf ∷ l.next)

call-HasFull : (l : EbmlListener) → HasFull l → HasFull (call_write_to_client l).1
unfolding call_write_to_client ebml_write_buf_to_client generic_write_to_client send_ebml_header
call-HasFull l h =
    by_test (λ (r : Option ℕ × EbmlListener). HasFull r.1) l.generic _ _ (λ e. h)
      (λ e.
        by_test (λ (r : Option ℕ × EbmlListener). HasFull r.1) (l.header_pos == length l.header) _ _
          (λ k. h) (λ k. h))

advance-HasFull :
    (l : EbmlListener) (next : List Refbuf)
    → l.next ≡ next
    → HasFull l
    → HasFull (write_after l (advance_to next l))
unfolding advance_to write_after
advance-HasFull l [] q h =
    by_test (λ (o : Option EbmlListener). HasFull (write_after l o))
      (l.pos == length l.refbuf.bytes) _ _ (λ e. h) (λ e. call-HasFull l h)
advance-HasFull l (refbuf ∷ next) q h =
    by_test (λ (l' : EbmlListener). HasFull (call_write_to_client l').1)
      (l.pos == length l.refbuf.bytes) _ _
      (λ e.
        call-HasFull (record l { refbuf = refbuf; next = next; pos = 0 })
          (subst (All IsFull) q h.1))
      (λ e. call-HasFull l h)

all_happen-HasFull :
    (hs : List Happens) (l : EbmlListener)
    → All IsFull (arrivals hs)
    → HasFull l
    → HasFull (all_happen hs l)
unfolding all_happen happens send_round advance_queue
all_happen-HasFull [] l a h = h
all_happen-HasFull (arrives r ∷ hs) l (full, a) h =
    all_happen-HasFull hs (record l { next = l.next ++ r ∷ [] }) a
      (h.0, All-append IsFull l.next (r ∷ []) h.1 (full, tt))
all_happen-HasFull (sends_round ∷ hs) l a h =
    all_happen-HasFull hs (send_round l) a
      (by_test HasFull l.con.error _ _ (λ e. h) (λ e. advance-HasFull l l.next refl h))

-- What a listener gets of the bytes of a source, where `before` stands before the buffers that it is given.
pub record IsDelivered (script : List Bytes) (before from : List Refbuf) (header : Bytes)
    (l : EbmlListener) : Type 0 where
  pub later : Bytes
  pub came : header ++ (sent_by before ++ (sent_by from ++ later)) ≡ joined script
  pub left : Bytes
  pub in_order : l.con.wire ++ left ≡ header ++ sent_by from
  pub complete :
      (m : ℕ)
      → All IsFull from
      → l.con.error ≡ false
      → Takes m l.con.socket
      → length left ≤ m
      → CompletesIn m (header ++ sent_by from) l

at_start-IsDelivering :
    (header : Bytes) (first : Refbuf) (next : List Refbuf) (socket : List Sent)
    → IsDelivering (header ++ sent_by (first ∷ next)) (new_listener header first next socket)
at_start-IsDelivering header first next socket = record {
  order = refl;
  header_within = omega arith;
  within = omega arith;
  after_header = λ g. absurd (differ g);
  data_after = λ k. absurd (omega (arith, k));
}
  where
    differ : ¬ (false ≡ true)
    differ g = cc g

All-split : (xs ys : List Refbuf) → All IsFull (xs ++ ys) → All IsFull xs × All IsFull ys
All-split [] ys a = (tt, a)
All-split (x ∷ xs) ys (full, a) = let (b, c) = All-split xs ys a in ((full, b), c)

given :
    (script : List Bytes) (before : List Refbuf) (first : Refbuf) (next : List Refbuf)
    (hs : List Happens) (socket : List Sent) (header later : Bytes)
    → header ++ (sent_by before ++ (sent_by (first ∷ (next ++ arrivals hs)) ++ later))
      ≡ joined script
    → IsDelivered script before
        (first ∷ (next ++ arrivals hs))
        header
        (all_happen hs (new_listener header first next socket))
given script before first next hs socket header later c =
    let from = first ∷ (next ++ arrivals hs) in
    let l = new_listener header first next socket in
    let l' = all_happen hs l in
    let total : (header ++ sent_by (first ∷ next)) ++ sent_by (arrivals hs)
        ≡ header ++ sent_by from =
      append_assoc header (sent_by (first ∷ next)) (sent_by (arrivals hs))
      ∙ ap (λ (x : Bytes). header ++ x) (sym (sent_by-append (first ∷ next) (arrivals hs))) in
    let i : IsDelivering (header ++ sent_by from) l' =
      subst (λ (x : Bytes). IsDelivering x l') total
        (all_happen-IsDelivering hs (header ++ sent_by (first ∷ next)) l
          (at_start-IsDelivering header first next socket)) in
    record {
      later = later;
      came = c;
      left = left_of l';
      in_order = i.order;
      complete = λ m full e t h.
          let (a, b) = All-split next (arrivals hs) full.1 in
          rounds-CompletesIn m (header ++ sent_by from) l' l'.con.socket refl t h e
            (ready l' i (all_happen-HasFull hs l b (full.0, a))) i;
    }
  where
    ready : {total : Bytes} (l' : EbmlListener) → IsDelivering total l' → HasFull l' → IsReady l'
    ready l' i h = record {
      full = h.0;
      others = h.1;
      header_first = λ q. i.data_after (omega (arith, q, h.0));
    }

-- From a new source whose calls of ebml_wrote all return the length, for a listener for which
-- ebml_create_client_data succeeds and that is put at any of the buffers that were returned, whatever its socket
-- takes while the later buffers arrive: the header, the buffers before, its buffers and more are the bytes that
-- came, what is on the wire is the beginning of the header and its buffers, and if no buffer is empty, there is
-- no error and the socket takes a byte at each call, as many rounds as there are bytes left put all of it on the
-- wire.
pub play-IsDelivered :
    (n : ℕ) (script : List Bytes) (before : List Refbuf) (first : Refbuf) (next : List Refbuf)
    (hs : List Happens) (socket : List Sent) (l : EbmlListener)
    → All (All IsByte) script
    → (play n script new_source).problem ≡ false
    → (play n script new_source).buffers ≡ before ++ first ∷ (next ++ arrivals hs)
    → create_client_data (play n script new_source).source.header first next socket ≡ some l
    → IsDelivered script before (first ∷ (next ++ arrivals hs)) l.header (all_happen hs l)
unfolding create_client_data
play-IsDelivered n script before first next hs socket l a p b c =
    by_header (play n script new_source).source.header refl c
  where
    regroup : (h a c r j : Bytes) → h ++ (a ++ (c ++ (r ++ j))) ≡ (h ++ ((a ++ c) ++ r)) ++ j
    regroup h a c r j = simp append_assoc

    from : List Refbuf
    from = first ∷ (next ++ arrivals hs)

    by_header :
        (o : Option Bytes)
        → (play n script new_source).source.header ≡ o
        → create_client_data o first next socket ≡ some l
        → IsDelivered script before from l.header (all_happen hs l)
    by_header none e k = cc
    by_header (some header) e k =
        let f = play-IsStreamed n script a p in
        let s = (play n script new_source).source in
        let rest = s.ebml.buffer ++ s.ebml.input_buffer in
        let l0 = new_listener header first next socket in
        let same : l0 ≡ l = ap (λ (x : Option EbmlListener). elim x [ none ↦ l0 | some y ↦ y ]) k in
        let all_sent = ap sent_by b ∙ sent_by-append before from in
        let came : header
              ++ (sent_by before
                  ++ (sent_by from ++ (rest ++ joined (play n script new_source).rest)))
            ≡ joined script =
          regroup header (sent_by before) (sent_by from) rest
            (joined (play n script new_source).rest)
          ∙ ap (λ (x : Bytes). (header ++ (x ++ rest)) ++ joined (play n script new_source).rest)
              (sym all_sent)
          ∙ ap
              (λ (x : Bytes).
                (x ++ (sent_by (play n script new_source).buffers ++ rest))
                ++ joined (play n script new_source).rest)
              (sym (f.order header e))
          ∙ ap (λ (x : Bytes). x ++ joined (play n script new_source).rest) f.in_order
          ∙ sym f.from_script in
        subst (λ (x : EbmlListener). IsDelivered script before from x.header (all_happen hs x)) same
          (given script before first next hs socket header
            (rest ++ joined (play n script new_source).rest) came)
