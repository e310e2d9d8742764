-- ===== src/Stream/Counts.antt =====
-- What the reference counts and the ids of the queue mean.
use icecast_server.Prelude.{
  List, ℕ, ◌+◌, ◌≤◌, ◌<◌, [], ◌∷◌, ◌≡◌, refl, arith, leb, ◌==◌, if◌then◌else◌, Bool-cases, inl, inr,
  ◌⊎◌,
}
use icecast_server.Stream.{Queue, recount, addref, release}

-- The ids grow along the queue, from `lo` on.
abbrev pub Ascending : ℕ → Queue → Type 0
Ascending lo [] = Unit
Ascending lo (b ∷ q) = (lo ≤ b.id) × Ascending (b.id + 1) q

abbrev pub Below : ℕ → Queue → Type 0
Below hi [] = Unit
Below hi (b ∷ q) = (b.id < hi) × Below hi q

-- 1 from the burst point on
abbrev pub burst_ref : ℕ → ℕ → ℕ
burst_ref point p = if leb point p then 1 else 0

-- Each buffer counts the queue's reference, the burst's from the burst point on, and its clients'.
abbrev pub Counted : ℕ → (ℕ → ℕ) → Queue → Type 0
Counted point refs [] = Unit
Counted point refs (b ∷ q) = (b.count ≡ 1 + burst_ref point b.id + refs b.id) × Counted point refs q

abbrev pub Holds : ℕ → Queue → Type 0
Holds p [] = ⊥
Holds p (b ∷ q) = (b.id ≡ p) ⊎ Holds p q

-- The sum of the lengths, and that from the burst point on.
abbrev pub total : Queue → ℕ
total [] = 0
total (b ∷ q) = b.len + total q

abbrev pub total_from : ℕ → Queue → ℕ
total_from point [] = 0
total_from point (b ∷ q) = (if leb point b.id then b.len else 0) + total_from point q

pub Ascending-weaken : (q : Queue) (lo lo' : ℕ) → lo' ≤ lo → Ascending lo q → Ascending lo' q
Ascending-weaken [] lo lo' h a = tt
Ascending-weaken (b ∷ q) lo lo' h a = (omega arith, a.1)

pub Holds-le : (q : Queue) (lo p : ℕ) → Ascending lo q → Holds p q → lo ≤ p
Holds-le [] lo p a h = absurd h
Holds-le (b ∷ q) lo p a (inl e) = omega arith
Holds-le (b ∷ q) lo p a (inr h) = omega (arith, Holds-le q (b.id + 1) p a.1 h)

-- One more reference, or one less, at `p`.
abbrev pub plus_at : ℕ → (ℕ → ℕ) → ℕ → ℕ
plus_at p refs x = if x == p then refs x + 1 else refs x

pub Counted-ext :
    (q : Queue) (point lo : ℕ) (refs refs' : ℕ → ℕ)
    → ((x : ℕ) → lo ≤ x → refs x ≡ refs' x)
    → Ascending lo q
    → Counted point refs q
    → Counted point refs' q
Counted-ext [] point lo refs refs' e a h = tt
Counted-ext (b ∷ q) point lo refs refs' e a h = (
  ground (arith, e b.id),
  Counted-ext q point (b.id + 1) refs refs' (λ x k. e x (omega arith)) a.1 h.1,
)

pub addref-Counted :
    (q : Queue) (point lo p : ℕ) (refs : ℕ → ℕ)
    → Ascending lo q
    → Counted point refs q
    → Counted point (plus_at p refs) (addref p q)
unfolding addref
addref-Counted [] point lo p refs a h = tt
addref-Counted (b ∷ q) point lo p refs a h = elim (Bool-cases (b.id == p)) [
  | inl e ↦ rw e (
    ground arith,
    Counted-ext q point (b.id + 1) refs (plus_at p refs) (λ x k. ground arith) a.1 h.1,
  )
  | inr e ↦ rw (e, recount) (ground arith, addref-Counted q point (b.id + 1) p refs a.1 h.1)
]

pub release-Counted :
    (q : Queue) (point lo p : ℕ) (refs : ℕ → ℕ)
    → Ascending lo q
    → Counted point (plus_at p refs) q
    → Counted point refs (release p q)
unfolding release
release-Counted [] point lo p refs a h = tt
release-Counted (b ∷ q) point lo p refs a h = elim (Bool-cases (b.id == p)) [
  | inl e ↦ rw e (
    ground arith,
    Counted-ext q point (b.id + 1) (plus_at p refs) refs (λ x k. ground arith) a.1 h.1,
  )
  | inr e ↦ rw (e, recount) (ground arith, release-Counted q point (b.id + 1) p refs a.1 h.1)
]

-- A change of counts keeps the ids and the lengths.
module _ (f : ℕ → ℕ) (p : ℕ) where
  pub recount-Ascending : (q : Queue) (lo : ℕ) → Ascending lo q → Ascending lo (recount f p q)
  unfolding recount
  recount-Ascending [] lo a = tt
  recount-Ascending (b ∷ q) lo a = ground (arith, recount-Ascending q (b.id + 1) a.1)

  pub recount-Below : (q : Queue) (hi : ℕ) → Below hi q → Below hi (recount f p q)
  unfolding recount
  recount-Below [] hi a = tt
  recount-Below (b ∷ q) hi a = ground (arith, recount-Below q hi a.1)

  pub recount-Holds : (q : Queue) (x : ℕ) → Holds x q → Holds x (recount f p q)
  unfolding recount
  recount-Holds [] x h = h
  recount-Holds (b ∷ q) x (inl e) = elim (Bool-cases (b.id == p)) [
    | inl t ↦ rw t (inl e)
    | inr t ↦ rw t (inl e)
  ]
  recount-Holds (b ∷ q) x (inr h) = elim (Bool-cases (b.id == p)) [
    | inl t ↦ rw t (inr h)
    | inr t ↦ rw t (inr (recount-Holds q x h))
  ]

  pub total-recount : (q : Queue) → total (recount f p q) ≡ total q
  unfolding recount
  total-recount [] = refl
  total-recount (b ∷ q) = ground (arith, total-recount q)

  pub total_from-recount : (q : Queue) (x : ℕ) → total_from x (recount f p q) ≡ total_from x q
  unfolding recount
  total_from-recount [] x = refl
  total_from-recount (b ∷ q) x = ground (arith, total_from-recount q x)

-- The buffers of a queue, in order.
abbrev pub ids : Queue → List ℕ
ids [] = []
ids (b ∷ q) = b.id ∷ ids q

ids-recount : (f : ℕ → ℕ) (p : ℕ) (q : Queue) → ids (recount f p q) ≡ ids q
unfolding recount
ids-recount f p [] = refl
ids-recount f p (b ∷ q) = ground (arith, ids-recount f p q)

pub ids-addref : (p : ℕ) (q : Queue) → ids (addref p q) ≡ ids q
unfolding addref
ids-addref p q = ids-recount _ p q

pub ids-release : (p : ℕ) (q : Queue) → ids (release p q) ≡ ids q
unfolding release
ids-release p q = ids-recount _ p q
