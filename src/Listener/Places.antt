-- ===== src/Listener/Places.antt =====
-- The places of the queue that `find_client_start` of src/format.c can send a client to.
use icecast_server.Prelude.{
  ℕ, ◌≡◌, refl, subst, [], ◌∷◌, Option, none, some, ◌==◌, if◌then◌else◌, inl, inr, Bool-cases,
}
use icecast_server.Stream.Counts.{Holds}
use icecast_server.Stream.{RefBuf, Queue, Stream}
use icecast_server.Listener.Start.{
  from_point, skip_bytes, first_sync, last_buffer, from_burst, start_buffer, size_sub, as_size,
}
use icecast_server.Listener.Checks.{next_of}

first_sync-Holds : (q : Queue) (p : ℕ) → first_sync q ≡ some p → Holds p q
unfolding first_sync
first_sync-Holds [] p e = cc
first_sync-Holds (b ∷ q) p e = elim (Bool-cases b.sync_point) [
  | inl h ↦ inl (cc (rw h at e))
  | inr h ↦ inr (first_sync-Holds q p (rw h at e))
]

skip_bytes-Holds : (q : Queue) (n p : ℕ) → Holds p (skip_bytes n q) → Holds p q
unfolding skip_bytes
skip_bytes-Holds [] n p h = h
skip_bytes-Holds (b ∷ []) n p h = h
skip_bytes-Holds (b ∷ c ∷ q) n p h = elim (Bool-cases (n == 0)) [
  | inl e ↦ rw e at h
  | inr e ↦ inr (skip_bytes-Holds (c ∷ q) (size_sub n b.len) p (rw e at h))
]

from_point-Holds : (q : Queue) (x p : ℕ) → Holds p (from_point x q) → Holds p q
unfolding from_point
from_point-Holds [] x p h = h
from_point-Holds (b ∷ q) x p h = elim (Bool-cases (b.id == x)) [
  | inl e ↦ rw e at h
  | inr e ↦ inr (from_point-Holds q x p (rw e at h))
]

last_buffer-Holds : (q : Queue) (b : RefBuf) → last_buffer q ≡ some b → Holds b.id q
unfolding last_buffer
last_buffer-Holds [] b e = cc
last_buffer-Holds (c ∷ []) b e = inl (cc)
last_buffer-Holds (c ∷ d ∷ q) b e = inr (last_buffer-Holds (d ∷ q) b e)

pub next_of-Holds : (q : Queue) (x p : ℕ) → next_of x q ≡ some p → Holds p q
unfolding next_of
next_of-Holds [] x p e = cc
next_of-Holds (b ∷ []) x p e = cc
next_of-Holds (b ∷ c ∷ q) x p e = elim (Bool-cases (b.id == x)) [
  | inl h ↦ inr (inl (cc (rw h at e)))
  | inr h ↦ inr (next_of-Holds (c ∷ q) x p (rw h at e))
]

from_burst-Holds :
    (s : Stream) (o : Option ℕ) (p : ℕ) → from_burst s o ≡ some p → Holds p s.stream_data
unfolding from_burst
from_burst-Holds s o p e = from_point-Holds s.stream_data s.burst_point p (
    skip_bytes-Holds (from_point s.burst_point s.stream_data) (as_size o) p
      (first_sync-Holds _ p e))

-- A client starts at a buffer of the queue.
pub start_buffer-Holds :
    (s : Stream) (o : Option ℕ) (p : ℕ) → start_buffer s o ≡ some p → Holds p s.stream_data
unfolding start_buffer
start_buffer-Holds s (some k) p e = from_burst-Holds s (some k) p e
start_buffer-Holds s none p e = go (last_buffer s.stream_data) refl e
  where
    go :
        (l : Option RefBuf)
        → last_buffer s.stream_data ≡ l
        → (elim l [
          | none ↦ from_burst s none
          | some b ↦ if b.sync_point then some b.id else from_burst s none
        ])
          ≡ some p
        → Holds p s.stream_data
    go none f k = from_burst-Holds s none p k
    go (some b) f k = elim (Bool-cases b.sync_point) [
      | inl h ↦
          subst (λ y. Holds y s.stream_data) (cc (rw h at k)) (last_buffer-Holds s.stream_data b f)
      | inr h ↦ from_burst-Holds s none p (rw h at k)
    ]
