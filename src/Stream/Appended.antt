-- ===== src/Stream/Appended.antt =====
-- The queue of src/source.c with one more buffer at its end.
use icecast_server.Prelude.{
  ℕ, ◌+◌, ◌%◌, ◌≤◌, ◌<◌, Bool, false, [], ◌∷◌, ◌++◌, ◌≡◌, refl, ap, arith, ◌==◌, if◌then◌else◌, inl,
  inr, ◌⊎◌,
}
use icecast_server.Stream.Counts.{Ascending, Below, burst_ref, Counted, Holds, total, total_from}
use icecast_server.Stream.{RefBuf, Queue, u32, new_buf, recount, addref, is_empty}

pub Below-Holds : (q : Queue) (hi p : ℕ) → Below hi q → Holds p q → p < hi
Below-Holds [] hi p k h = absurd h
Below-Holds (b ∷ q) hi p k (inl e) = omega arith
Below-Holds (b ∷ q) hi p k (inr h) = Below-Holds q hi p k.1 h

pub Below-weaken : (q : Queue) (hi hi' : ℕ) → hi ≤ hi' → Below hi q → Below hi' q
Below-weaken [] hi hi' h k = tt
Below-weaken (b ∷ q) hi hi' h k = (omega arith, Below-weaken q hi hi' h k.1)

pub Holds-append : (q r : Queue) (p : ℕ) → Holds p q → Holds p (q ++ r)
Holds-append [] r p h = absurd h
Holds-append (b ∷ q) r p (inl e) = inl e
Holds-append (b ∷ q) r p (inr h) = inr (Holds-append q r p h)

-- A buffer above all ids at the end.
module _ (x : RefBuf) where
  pub Ascending-snoc :
      (q : Queue) (lo : ℕ) → lo ≤ x.id → Below x.id q → Ascending lo q → Ascending lo (q ++ x ∷ [])
  Ascending-snoc [] lo l k a = (l, tt)
  Ascending-snoc (b ∷ q) lo l k a = (a.0, Ascending-snoc q (b.id + 1) (omega arith) k.1 a.1)

  pub Below-snoc : (q : Queue) → Below x.id q → Below (x.id + 1) (q ++ x ∷ [])
  Below-snoc [] k = (omega arith, tt)
  Below-snoc (b ∷ q) k = (omega arith, Below-snoc q k.1)

  pub Counted-snoc :
      (q : Queue) (point : ℕ) (refs : ℕ → ℕ)
      → x.count ≡ 1 + burst_ref point x.id + refs x.id
      → Counted point refs q
      → Counted point refs (q ++ x ∷ [])
  Counted-snoc [] point refs e c = (e, tt)
  Counted-snoc (b ∷ q) point refs e c = (c.0, Counted-snoc q point refs e c.1)

  pub total-snoc : (q : Queue) → total (q ++ x ∷ []) ≡ total q + x.len
  total-snoc [] = omega arith
  total-snoc (b ∷ q) = omega (arith, total-snoc q)

  pub total_from-snoc :
      (q : Queue) (point : ℕ)
      → point ≤ x.id
      → total_from point (q ++ x ∷ []) ≡ total_from point q + x.len
  total_from-snoc [] point h = ground arith
  total_from-snoc (b ∷ q) point h = ground (arith, total_from-snoc q point h)

  pub Holds-snoc : (q : Queue) → Holds x.id (q ++ x ∷ [])
  Holds-snoc [] = inl refl
  Holds-snoc (b ∷ q) = inr (Holds-snoc q)

-- The new buffer with the reference for the burst.
abbrev pub held_buf : ℕ → ℕ → Bool → RefBuf
held_buf p n sync = record { id = p; len = n; count = 2; sync_point = sync }

pub addref-snoc :
    (q : Queue) (p n : ℕ) (sync : Bool)
    → Below p q
    → addref p (q ++ new_buf p n sync ∷ []) ≡ q ++ held_buf p n sync ∷ []
unfolding addref
addref-snoc [] p n sync k = ground arith
addref-snoc (b ∷ q) p n sync k =
    let other : b.id == p ≡ false = ground arith in
    rw (other, recount) (ap (◌∷◌ b) (addref-snoc q p n sync k.1))

-- `burst_point` after the new buffer is linked.
abbrev pub start_point : Queue → ℕ → ℕ → ℕ
start_point q p point = if is_empty q then p else point

pub record Started (refs : ℕ → ℕ) (q : Queue) (p start offset : ℕ) : Type 0 where
  pub le_new : start ≤ p
  pub counted : Counted start refs q
  pub holds : (x : RefBuf) → x.id ≡ p → Holds start (q ++ x ∷ [])
  pub sum : offset ≡ total_from start q % u32

pub start_point-Started :
    (refs : ℕ → ℕ) (q : Queue) (p point offset : ℕ)
    → Below p q
    → Counted point refs q
    → (q ≡ []) ⊎ Holds point q
    → offset ≡ total_from point q % u32
    → Started refs q p (start_point q p point) offset
unfolding is_empty
start_point-Started refs [] p point offset k c h o = record {
  le_new = omega arith;
  counted = tt;
  holds = λ x e. inl e;
  sum = o;
}
start_point-Started refs (b ∷ q) p point offset k c (inl e) o = absurd (cc)
start_point-Started refs (b ∷ q) p point offset k c (inr h) o = record {
  le_new = omega (arith, Below-Holds (b ∷ q) p point k h);
  counted = c;
  holds = λ x e. Holds-append (b ∷ q) (x ∷ []) point h;
  sum = o;
}
