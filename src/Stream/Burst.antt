-- ===== src/Stream/Burst.antt =====
-- The pass that moves the burst point.
use icecast_server.Prelude.{
  ℕ, ◌+◌, ◌-◌, ◌%◌, ◌≤◌, ◌<◌, false, [], ◌∷◌, ◌≡◌, refl, arith, ltb, ◌==◌, Bool-cases, inl, inr,
  ◌⊎◌, ==_iff, ltb→le,
}
use icecast_server.Stream.Counts.{
  Ascending, Below, Counted, Holds, total, total_from, Ascending-weaken, Holds-le,
}
use icecast_server.Stream.{RefBuf, Queue, u32, u32_sub, BurstPass, kept, advance_burst}

abbrev pub IsLast : ℕ → Queue → Type 0
IsLast p [] = ⊥
IsLast p (b ∷ []) = b.id ≡ p
IsLast p (b ∷ c ∷ q) = IsLast p (c ∷ q)

-- Below all ids of a queue it does not matter where the burst point is.
Counted-point :
    (q : Queue) (lo p p' : ℕ) (refs : ℕ → ℕ)
    → p ≤ lo
    → p' ≤ lo
    → Ascending lo q
    → Counted p refs q
    → Counted p' refs q
Counted-point [] lo p p' refs h h' a c = tt
Counted-point (b ∷ q) lo p p' refs h h' a c =
    (ground arith, Counted-point q (b.id + 1) p p' refs (omega arith) (omega arith) a.1 c.1)

total_from-point :
    (q : Queue) (lo p p' : ℕ) → p ≤ lo → p' ≤ lo → Ascending lo q → total_from p q ≡ total_from p' q
total_from-point [] lo p p' h h' a = refl
total_from-point (b ∷ q) lo p p' h h' a =
    ground (arith, total_from-point q (b.id + 1) p p' (omega arith) (omega arith) a.1)

pub u32_sub-total : (o n r : ℕ) → o ≡ (n + r) % u32 → u32_sub o n ≡ r % u32
u32_sub-total o n r h = omega arith

-- What the pass over a queue `q` leaves.
pub record PassInv (lo size : ℕ) (refs : ℕ → ℕ) (q : Queue) (r : BurstPass) : Type 0 where
  pub ascending : Ascending lo r.queue
  pub below : (hi : ℕ) → Below hi q → Below hi r.queue
  pub counted : Counted r.point refs r.queue
  pub holds : Holds r.point r.queue
  pub offset : r.offset ≡ total_from r.point r.queue % u32
  pub same_total : total r.queue ≡ total q
  pub keeps : (p : ℕ) → Holds p q → Holds p r.queue
  pub done : (r.offset ≤ size) ⊎ IsLast r.point r.queue

module _ (size : ℕ) (refs : ℕ → ℕ) where
  -- The pass stops, or there is no next buffer.
  PassInv-stop :
      (lo point offset : ℕ) (q : Queue)
      → Ascending lo q
      → Holds point q
      → Counted point refs q
      → offset ≡ total_from point q % u32
      → (offset ≤ size) ⊎ IsLast point q
      → PassInv lo size refs q (record { queue = q; point = point; offset = offset })
  PassInv-stop lo point offset q a h c o d = record {
    ascending = a;
    below = λ hi k. k;
    counted = c;
    holds = h;
    offset = o;
    same_total = refl;
    keeps = λ p k. k;
    done = d;
  }

  IsLast-cons : (b : RefBuf) (p : ℕ) (q : Queue) → IsLast p q → IsLast p (b ∷ q)
  IsLast-cons b p [] h = absurd h
  IsLast-cons b p (c ∷ q) h = h

  -- A buffer before the burst point is passed; one at it has lost the burst's reference.
  PassInv-kept :
      (lo point : ℕ) (b b' : RefBuf) (q : Queue) (r : BurstPass)
      → b'.id ≡ b.id
      → b'.len ≡ b.len
      → lo ≤ b.id
      → b'.count ≡ 1 + refs b.id
      → PassInv (b.id + 1) size refs q r
      → PassInv lo size refs (b ∷ q) (kept b' r)
  PassInv-kept lo point b b' q r same_id same_len l c inv =
      let after = Holds-le r.queue (b.id + 1) r.point inv.ascending inv.holds in
      record {
        ascending = (
          omega arith,
          Ascending-weaken r.queue (b.id + 1) (b'.id + 1) (omega arith) inv.ascending,
        );
        below = λ hi k. (omega arith, inv.below hi k.1);
        counted = (ground (arith, same_id), inv.counted);
        holds = inr inv.holds;
        offset = ground (arith, inv.offset);
        same_total = omega (arith, inv.same_total);
        keeps = λ p. elim [ inl e ↦ inl (omega arith) | inr k ↦ inr (inv.keeps p k) ];
        done = elim inv.done [ inl d ↦ inl d | inr d ↦ inr (IsLast-cons b' r.point r.queue d) ];
      }

  -- The step: the next buffer `c` is the new burst point.
  next-Counted :
      (point : ℕ) (c : RefBuf) (q : Queue)
      → point ≤ c.id
      → Ascending (c.id + 1) q
      → Counted point refs (c ∷ q)
      → Counted c.id refs (c ∷ q)
  next-Counted point c q h a =
      Counted-point (c ∷ q) c.id point c.id refs h (omega arith) (omega arith, a)

  next_offset :
      (point offset : ℕ) (b c : RefBuf) (q : Queue)
      → b.id ≡ point
      → point ≤ c.id
      → Ascending (c.id + 1) q
      → offset ≡ total_from point (b ∷ c ∷ q) % u32
      → u32_sub offset b.len ≡ total_from c.id (c ∷ q) % u32
  next_offset point offset b c q e h a o =
      u32_sub-total offset b.len (total_from c.id (c ∷ q)) (
        ground
          (arith, o, total_from-point (c ∷ q) c.id point c.id h (omega arith) (omega arith, a)))

  pub advance_burst-PassInv :
      (q : Queue) (lo point offset : ℕ)
      → Ascending lo q
      → Holds point q
      → Counted point refs q
      → offset ≡ total_from point q % u32
      → PassInv lo size refs q (advance_burst size point offset q)
  unfolding advance_burst
  advance_burst-PassInv [] lo point offset a h c o = absurd h
  advance_burst-PassInv (b ∷ []) lo point offset a h c o =
      PassInv-stop lo point offset (b ∷ []) a h c o (inr (elim h [ inl e ↦ e | inr k ↦ absurd k ]))
  advance_burst-PassInv (b ∷ c ∷ q) lo point offset a h k o = elim (Bool-cases (b.id == point)) [
    | inr e ↦
        let before : b.id < point = earlier h e in
        rw e (
          PassInv-kept lo point b b (c ∷ q) _ refl refl a.0 (ground arith) (
            advance_burst-PassInv (c ∷ q) (b.id + 1) point offset a.1 (later h e) k.1
              (ground arith)))
    | inl e ↦ elim (Bool-cases (ltb size offset)) [
      | inl more ↦
          rw (e, more)
            (PassInv-kept lo point b (record b { count = b.count - 1 }) (c ∷ q) _ refl refl a.0
              (ground arith)
              (advance_burst-PassInv (c ∷ q) (b.id + 1) c.id (u32_sub offset b.len) a.1 (inl refl)
                (next-Counted point c q (ground arith) a.1.1 k.1)
                (next_offset point offset b c q ((==_iff b.id point).0 e) (ground arith) a.1.1 o)))
      | inr enough ↦
          rw (e, enough)
            (PassInv-stop lo point offset (b ∷ c ∷ q) a h k o (inl (ltb→le size offset enough)))
    ]
  ]
    where
      later : Holds point (b ∷ c ∷ q) → b.id == point ≡ false → Holds point (c ∷ q)
      later (inl x) e = absurd (ground arith)
      later (inr x) e = x

      earlier : Holds point (b ∷ c ∷ q) → b.id == point ≡ false → b.id < point
      earlier g e = omega (arith, Holds-le (c ∷ q) (b.id + 1) point a.1 (later g e))
