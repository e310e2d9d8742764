-- ===== src/Ebml/Complete.antt =====
-- A listener of a Matroska stream whose socket takes bytes.
use icecast_server.Prelude.{
  append-nil, ltb→lt, ltb→le, replicate, ap, inl, inr, [], ltb, Bool-cases, zero, suc, ◌≤◌, ◌<◌,
  ◌≡◌, refl, sym, ◌∙◌, false, List, ◌∷◌, ◌++◌, arith, Bytes, ℕ, length,
}
use icecast_server.Listener.{Sent, accepts, blocks, breaks}
use icecast_server.Ebml.Listener.{
  sends_round, happens, send_round, all_happen, Happens, EbmlListener,
}
use icecast_server.Ebml.Delivered.{send_round-IsDelivering, IsDelivering, left_of}
use icecast_server.Ebml.Progress.{IsReady, round-Progresses}

-- The next calls of the socket take a byte at least.
abbrev pub Takes : ℕ → List Sent → Type 0
Takes zero socket = Unit
Takes (suc m) (accepts n ∷ rest) = (0 < n) × Takes m rest
Takes (suc m) _ = ⊥

abbrev pub rounds_of : ℕ → List Happens
rounds_of k = replicate k sends_round

nothing_left : (xs : Bytes) → length xs ≤ 0 → xs ≡ []
nothing_left [] h = refl
nothing_left (x ∷ xs) h = absurd (omega (arith, h))

-- After some rounds, at most so many, all is on the wire.
abbrev pub CompletesIn : ℕ → Bytes → EbmlListener → Type 0
CompletesIn m total l = (k : ℕ) × (k ≤ m) × ((all_happen (rounds_of k) l).con.wire ≡ total)

completes_now :
    (m : ℕ) (total : Bytes) (l : EbmlListener)
    → length (left_of l) ≤ 0
    → IsDelivering total l
    → CompletesIn m total l
unfolding all_happen
completes_now m total l h i = (
  0,
  omega arith,
  sym (append-nil l.con.wire)
      ∙ ap (λ (x : Bytes). l.con.wire ++ x) (sym (nothing_left (left_of l) h))
      ∙ i.order,
)

completes_next :
    (m : ℕ) (total : Bytes) (l : EbmlListener)
    → CompletesIn m total (send_round l)
    → CompletesIn (suc m) total l
unfolding all_happen happens
completes_next m total l (k, h, e) = (suc k, omega (arith, h), e)

-- As many rounds as there are bytes left send them all.
pub rounds-CompletesIn :
    (m : ℕ) (total : Bytes) (l : EbmlListener) (socket : List Sent)
    → l.con.socket ≡ socket
    → Takes m socket
    → length (left_of l) ≤ m
    → l.con.error ≡ false
    → IsReady l
    → IsDelivering total l
    → CompletesIn m total l
rounds-CompletesIn zero total l socket q t h e r i = completes_now zero total l h i
rounds-CompletesIn (suc m) total l [] q t h e r i = elim t [ ]
rounds-CompletesIn (suc m) total l (blocks ∷ rest) q t h e r i = elim t [ ]
rounds-CompletesIn (suc m) total l (breaks ∷ rest) q t h e r i = elim t [ ]
rounds-CompletesIn (suc m) total l (accepts n ∷ rest) q (pos, t) h e r i =
    elim (Bool-cases (ltb 0 (length (left_of l)))) [
      | inl more ↦
          let p =
            round-Progresses n rest total l
              (record { socket = q; no_error = e; takes = pos; ready = r }) i
              (ltb→lt 0 (length (left_of l)) more) in
          completes_next m total l (
            rounds-CompletesIn m total (send_round l) rest p.socket t (omega (arith, p.fewer, h))
              p.no_error p.ready (send_round-IsDelivering total l i))
      | inr no_more ↦ completes_now (suc m) total l (ltb→le 0 (length (left_of l)) no_more) i
    ]
