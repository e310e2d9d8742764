-- ===== src/Stream/Trim.antt =====
-- The loop that reduces the queue.
use icecast_server.Prelude.{
  ℕ, ◌+◌, ◌%◌, ◌≤◌, ◌<◌, false, [], ◌∷◌, ◌++◌, ◌≡◌, refl, ap, arith, ◌==◌, ◌||◌, Bool-cases, inl,
  inr, ◌⊎◌, All,
}
use icecast_server.Stream.Burst.{u32_sub-total}
use icecast_server.Stream.Counts.{Ascending, Counted, Holds, total, Ascending-weaken, Holds-le}
use icecast_server.Stream.{RefBuf, Queue, u32, u32_sub, is_empty, TrimPass, trim}

-- The first buffer is the burst point, or a client refers to it.
abbrev pub HeadUsed : ℕ → (ℕ → ℕ) → Queue → Type 0
HeadUsed point refs [] = ⊥
HeadUsed point refs (b ∷ q) = (b.id ≡ point) ⊎ (0 < refs b.id)

-- What the loop leaves of a queue: it frees the buffers before the burst point up to the first that a
-- client refers to, and no other.
pub record TrimInv (lo point : ℕ) (refs : ℕ → ℕ) (q : Queue) (r : TrimPass) : Type 0 where
  pub expected : r.unexpected ≡ false
  pub freed : Queue
  pub splits : q ≡ freed ++ r.queue
  pub unused : All (λ (b : RefBuf). (b.id < point) × (refs b.id ≡ 0)) freed
  pub head_used : HeadUsed point refs r.queue
  pub ascending : Ascending lo r.queue
  pub counted : Counted point refs r.queue
  pub holds : Holds point r.queue
  pub size : r.size ≡ total r.queue % u32

module _ (refs : ℕ → ℕ) where
  TrimInv-stop :
      (lo point size : ℕ) (q : Queue)
      → Ascending lo q
      → Holds point q
      → Counted point refs q
      → size ≡ total q % u32
      → HeadUsed point refs q
      → TrimInv lo point refs q (record { queue = q; size = size; unexpected = false })
  TrimInv-stop lo point size q a h c s u = record {
    expected = refl;
    freed = [];
    splits = refl;
    unused = tt;
    head_used = u;
    ascending = a;
    counted = c;
    holds = h;
    size = s;
  }

  TrimInv-freed :
      (lo point : ℕ) (b : RefBuf) (q : Queue) (r : TrimPass)
      → lo ≤ b.id
      → b.id < point
      → refs b.id ≡ 0
      → TrimInv (b.id + 1) point refs q r
      → TrimInv lo point refs (b ∷ q) r
  TrimInv-freed lo point b q r l before unused inv = record {
    expected = inv.expected;
    freed = b ∷ inv.freed;
    splits = ap (◌∷◌ b) inv.splits;
    unused = ((before, unused), inv.unused);
    head_used = inv.head_used;
    ascending = Ascending-weaken r.queue (b.id + 1) lo (omega arith) inv.ascending;
    counted = inv.counted;
    holds = inv.holds;
    size = inv.size;
  }

  pub trim-TrimInv :
      (q : Queue) (lo point size : ℕ)
      → Ascending lo q
      → Holds point q
      → Counted point refs q
      → size ≡ total q % u32
      → TrimInv lo point refs q (trim point size q)
  unfolding trim
  trim-TrimInv [] lo point size a h c s = absurd h
  trim-TrimInv (b ∷ q) lo point size a (inl e) c s =
      let shared : b.count == 1 ≡ false = ground arith in
      rw shared (TrimInv-stop lo point size (b ∷ q) a (inl e) c s (inl e))
  trim-TrimInv (b ∷ q) lo point size a (inr h) c s = elim (Bool-cases (b.count == 1)) [
    | inr shared ↦
        let before = Holds-le q (b.id + 1) point a.1 h in
        rw shared (TrimInv-stop lo point size (b ∷ q) a (inr h) c s (inr (ground arith)))
    | inl alone ↦
        let before = Holds-le q (b.id + 1) point a.1 h in
        let other : (is_empty q || b.id == point) ≡ false = filled q h (omega arith) in
        rw (alone, other)
          (TrimInv-freed lo point b q _ a.0 (omega arith) (ground arith) (
            trim-TrimInv q (b.id + 1) point (u32_sub size b.len) a.1 h c.1
              (u32_sub-total size b.len (total q) s)))
  ]
    where
      filled : (q' : Queue) → Holds point q' → b.id < point → (is_empty q' || b.id == point) ≡ false
      filled [] k l = absurd k
      filled (d ∷ q') k l = ground arith
