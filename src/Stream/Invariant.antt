-- ===== src/Stream/Invariant.antt =====
-- Well-formedness of the queue of src/source.c, through appending and reducing.
use icecast_server.Prelude.{
  ℕ, ◌+◌, ◌%◌, ◌≤◌, ◌<◌, Bool, false, [], ◌∷◌, ◌++◌, ◌≡◌, refl, ap, arith, ltb, Bool-cases, inl,
  inr, ◌⊎◌, All, subst, ◌∙◌,
}
use icecast_server.Stream.Burst.{IsLast, PassInv, advance_burst-PassInv}
use icecast_server.Stream.Counts.{Ascending, Below, Counted, Holds, total, total_from}
use icecast_server.Stream.Trim.{HeadUsed, trim-TrimInv}
use icecast_server.Stream.{
  trim, RefBuf, Queue, Stream, u32, u32_add, advance_burst, append_buffer, reduce_queue,
}
use icecast_server.Stream.Appended.{
  Below-Holds, Holds-append, Ascending-snoc, Below-snoc, Counted-snoc, total-snoc, total_from-snoc,
  held_buf, addref-snoc, start_point, start_point-Started,
}

-- The queue while its source runs; `refs p` is the number of listeners that refer to the buffer at `p`.
pub record IsStream (refs : ℕ → ℕ) (s : Stream) : Type 0 where
  pub ascending : Ascending 0 s.stream_data
  pub below : Below s.next_id s.stream_data
  pub counted : Counted s.burst_point refs s.stream_data
  pub point_in : (s.stream_data ≡ []) ⊎ Holds s.burst_point s.stream_data
  pub size : s.queue_size ≡ total s.stream_data % u32
  pub offset : s.burst_offset ≡ total_from s.burst_point s.stream_data % u32
  pub live : (p : ℕ) → 0 < refs p → Holds p s.stream_data

module _ (refs : ℕ → ℕ) (s : Stream) (v : IsStream refs s) (n : ℕ) (sync : Bool) where
  held : RefBuf
  held = held_buf s.next_id n sync

  unused : refs s.next_id ≡ 0
  unused = elim (Bool-cases (ltb 0 (refs s.next_id))) [
    | inl e ↦ absurd (
        omega (
          arith,
          Below-Holds s.stream_data s.next_id s.next_id v.below (v.live s.next_id (ground arith)),
        ))
    | inr e ↦ ground arith
  ]

  appended : PassInv 0 s.burst_size refs (s.stream_data ++ held ∷ []) (
      advance_burst s.burst_size
        (start_point s.stream_data s.next_id s.burst_point)
        (u32_add s.burst_offset n)
        (s.stream_data ++ held ∷ []))
  unfolding held
  appended =
      let q = s.stream_data in
      let start = start_point q s.next_id s.burst_point in
      let f =
        start_point-Started refs q s.next_id s.burst_point s.burst_offset v.below v.counted
          v.point_in v.offset in
      advance_burst-PassInv s.burst_size refs (q ++ held ∷ []) 0 start (u32_add s.burst_offset n)
        (Ascending-snoc held q 0 (omega arith) v.below v.ascending) (f.holds held refl)
        (Counted-snoc held q start refs (ground (arith, unused, f.le_new)) f.counted)
        (omega (arith, total_from-snoc held q start f.le_new, f.sum))

  append_buffer_pass : append_buffer n sync s ≡ (
      let r =
        advance_burst s.burst_size
          (start_point s.stream_data s.next_id s.burst_point)
          (u32_add s.burst_offset n)
          (s.stream_data ++ held ∷ []) in
      record s {
        stream_data = r.queue;
        burst_point = r.point;
        burst_offset = r.offset;
        queue_size = u32_add s.queue_size n;
        next_id = s.next_id + 1;
      })
  unfolding append_buffer held
  append_buffer_pass = rw (addref-snoc s.stream_data s.next_id n sync v.below)

  -- Appending a buffer keeps the queue well formed, for the same listeners. Afterwards the burst point
  -- is in the queue, and the data from it on is within `burst_size` (as the 32-bit counter has it), or
  -- it is the last buffer alone.
  pub append_buffer-IsStream :
      (let t = append_buffer n sync s in
        IsStream refs t
        × Holds t.burst_point t.stream_data
        × ((t.burst_offset ≤ s.burst_size) ⊎ IsLast t.burst_point t.stream_data))
  unfolding held
  append_buffer-IsStream =
      let inv = appended in
      let q = s.stream_data in
      rw append_buffer_pass (
        record {
          ascending = inv.ascending;
          below = inv.below (s.next_id + 1) (Below-snoc held q v.below);
          counted = inv.counted;
          point_in = inr inv.holds;
          size = omega (arith, v.size, inv.same_total, total-snoc held q);
          offset = inv.offset;
          live = λ p h. inv.keeps p (Holds-append q (held ∷ []) p (v.live p h));
        },
        inv.holds,
        inv.done,
      )

-- What holds of the whole queue holds of what the loop leaves.
module _ (point : ℕ) (refs : ℕ → ℕ) where
  Below-suffix : (f r : Queue) (hi : ℕ) → Below hi (f ++ r) → Below hi r
  Below-suffix [] r hi k = k
  Below-suffix (b ∷ f) r hi k = Below-suffix f r hi k.1

  total_from-suffix :
      (f r : Queue)
      → All (λ (b : RefBuf). (b.id < point) × (refs b.id ≡ 0)) f
      → total_from point (f ++ r) ≡ total_from point r
  total_from-suffix [] r u = refl
  total_from-suffix (b ∷ f) r u = ground (arith, total_from-suffix f r u.1)

  Holds-suffix :
      (f r : Queue) (p : ℕ)
      → All (λ (b : RefBuf). (b.id < point) × (refs b.id ≡ 0)) f
      → 0 < refs p
      → Holds p (f ++ r)
      → Holds p r
  Holds-suffix [] r p u k h = h
  Holds-suffix (b ∷ f) r p u k (inl e) = absurd (ground (arith, ap refs e))
  Holds-suffix (b ∷ f) r p u k (inr h) = Holds-suffix f r p u.1 k h

-- Reducing the queue never meets the unexpected state.  It frees exactly the buffers in front of the
-- first one that is the burst point or that a listener refers to, and keeps the queue well formed.
pub reduce_queue-IsStream :
    (refs : ℕ → ℕ) (s : Stream)
    → IsStream refs s
    → Holds s.burst_point s.stream_data
    → (let r = reduce_queue s in
        (r.1 ≡ false)
        × IsStream refs r.0
        × HeadUsed s.burst_point refs r.0.stream_data
        × ((freed : Queue) × (s.stream_data ≡ freed ++ r.0.stream_data)
            × All (λ (b : RefBuf). (b.id < s.burst_point) × (refs b.id ≡ 0)) freed))
unfolding reduce_queue
reduce_queue-IsStream refs s v h =
    let inv =
      trim-TrimInv refs s.stream_data 0 s.burst_point s.queue_size v.ascending h v.counted v.size in
    (
      inv.expected,
      record {
        ascending = inv.ascending;
        below =
            Below-suffix s.burst_point refs inv.freed _ s.next_id
              (subst (Below s.next_id) inv.splits v.below);
        counted = inv.counted;
        point_in = inr inv.holds;
        size = inv.size;
        offset =
            v.offset
            ∙ ap (λ t. t % u32)
                (ap (total_from s.burst_point) inv.splits
                  ∙ total_from-suffix s.burst_point refs inv.freed _ inv.unused);
        live = λ p k.
            Holds-suffix s.burst_point refs inv.freed _ p inv.unused k
              (subst (Holds p) inv.splits (v.live p k));
      },
      inv.head_used,
      (inv.freed, inv.splits, inv.unused),
    )

trim-empty :
    (q : Queue) (point size : ℕ)
    → q ≡ []
    → ((trim point size q).queue ≡ q)
      × ((trim point size q).size ≡ size)
      × ((trim point size q).unexpected ≡ false)
unfolding trim
trim-empty [] point size e = (refl, refl, refl)
trim-empty (b ∷ q) point size e = absurd (cc)

-- The same before any data has come.
pub reduce_any-IsStream :
    (refs : ℕ → ℕ) (s : Stream)
    → IsStream refs s
    → ((reduce_queue s).1 ≡ false) × IsStream refs (reduce_queue s).0
reduce_any-IsStream refs s v = elim v.point_in [
  | inr h ↦ let r = reduce_queue-IsStream refs s v h in (r.0, r.1)
  | inl e ↦
      let t = trim-empty s.stream_data s.burst_point s.queue_size e in
      unfold reduce_queue in
      (
        t.2,
        record {
          ascending = rw t.0 v.ascending;
          below = rw t.0 v.below;
          counted = rw t.0 v.counted;
          point_in = rw t.0 v.point_in;
          size = rw (t.0, t.1) v.size;
          offset = rw t.0 v.offset;
          live = rw t.0 v.live;
        },
      )
]
