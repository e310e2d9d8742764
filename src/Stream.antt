-- ===== src/Stream.antt =====
-- The in-flight data queue of a source: the loop body of `source_main` in src/source.c that appends a
-- buffer, moves the burst point and reduces the queue, with `refbuf_addref` and `refbuf_release` of
-- src/refbuf.c.
--
-- A buffer's address is its `id`; a new buffer gets an id above all that are in use. The list is the
-- chain from `stream_data` along `next` to `stream_data_tail`. A buffer whose count falls to 0 has been
-- freed: it stays in the list with that count, so that a theorem can say that this does not happen.
-- `queue_size` and `burst_offset` are 32-bit and wrap around.
pub mod Counts
pub mod Burst
pub mod Trim
pub mod Appended
pub mod Invariant
pub mod References
use icecast_server.Prelude.{
  ℕ, ◌+◌, ◌-◌, ◌%◌, ◌^◌, Bool, true, false, not, ◌&&◌, ◌||◌, List, [], ◌∷◌, ◌++◌, Option, none,
  some, ltb, ◌==◌, if◌then◌else◌,
}

pub record RefBuf : Type 0 where
  pub id : ℕ
  pub len : ℕ
  pub count : ℕ
  pub sync_point : Bool

abbrev pub Queue : Type 0
Queue = List RefBuf

abbrev pub u32 : ℕ
u32 = 2 ^ 32

abbrev pub u32_add : ℕ → ℕ → ℕ
u32_add a b = (a + b) % u32

abbrev pub u32_sub : ℕ → ℕ → ℕ
u32_sub a b = (a + (u32 - b % u32)) % u32

-- Changes the count of the buffer at `p`.
pub recount : (ℕ → ℕ) → ℕ → Queue → Queue
recount f p [] = []
recount f p (b ∷ q) = if b.id == p then record b { count = f b.count } ∷ q else b ∷ recount f p q

-- `refbuf_addref` of a buffer of the queue
unfoldable pub addref : ℕ → Queue → Queue
unfolding recount
addref = recount (λ c. c + 1)

-- `refbuf_release` of a buffer of the queue
unfoldable pub release : ℕ → Queue → Queue
unfolding recount
release = recount (λ c. c - 1)

-- What the stream part of `source_t` holds.
pub record Stream : Type 0 where
  pub stream_data : Queue
  pub burst_point : ℕ
  pub burst_size : ℕ
  pub burst_offset : ℕ
  pub queue_size : ℕ
  pub queue_size_limit : ℕ
  pub next_id : ℕ

-- A buffer as `get_next_buffer` returns it, with the reference of `refbuf_new`.
abbrev pub new_buf : ℕ → ℕ → Bool → RefBuf
new_buf p n sync = record { id = p; len = n; count = 1; sync_point = sync }

unfoldable pub is_empty : Queue → Bool
is_empty [] = true
is_empty (b ∷ q) = false

-- `while (burst_offset > burst_size)`, as one pass along the queue: up to the burst point, then as long
-- as the test holds and there is a next buffer.
pub record BurstPass : Type 0 where
  pub queue : Queue
  pub point : ℕ
  pub offset : ℕ

abbrev pub kept : RefBuf → BurstPass → BurstPass
kept b r = record r { queue = b ∷ r.queue }

unfoldable pub advance_burst : ℕ → ℕ → ℕ → Queue → BurstPass
advance_burst size point offset [] = record { queue = []; point = point; offset = offset }
advance_burst size point offset (b ∷ []) = record { queue = b ∷ []; point = point; offset = offset }
advance_burst size point offset (b ∷ c ∷ q) =
    let walk = kept b (advance_burst size point offset (c ∷ q)) in
    let step =
      kept (record b { count = b.count - 1 })
        (advance_burst size c.id (u32_sub offset b.len) (c ∷ q)) in
    if not (b.id == point)
    then walk
    else if ltb size offset
    then step
    else record { queue = b ∷ c ∷ q; point = point; offset = offset }

-- `if (refbuf) { … }` of `source_main`, but for the dump file.
unfoldable pub append_buffer : ℕ → Bool → Stream → Stream
unfolding is_empty advance_burst addref
append_buffer n sync s =
    let q = addref s.next_id (s.stream_data ++ (new_buf s.next_id n sync ∷ [])) in
    let point = if is_empty s.stream_data then s.next_id else s.burst_point in
    let pass = advance_burst s.burst_size point (u32_add s.burst_offset n) q in
    record s {
      stream_data = pass.queue;
      burst_point = pass.point;
      burst_offset = pass.offset;
      queue_size = u32_add s.queue_size n;
      next_id = s.next_id + 1;
    }

-- `remove_from_q`
unfoldable pub must_reduce : Stream → Bool
must_reduce s = ltb s.queue_size_limit s.queue_size

pub record TrimPass : Type 0 where
  pub queue : Queue
  pub size : ℕ
  -- "queue state is unexpected"
  pub unexpected : Bool

-- `while (source->stream_data->_count == 1)`
unfoldable pub trim : ℕ → ℕ → Queue → TrimPass
unfolding is_empty
trim point size [] = record { queue = []; size = size; unexpected = false }
trim point size (b ∷ q) =
    let rest = trim point (u32_sub size b.len) q in
    if not (b.count == 1)
    then record { queue = b ∷ q; size = size; unexpected = false }
    else if is_empty q || b.id == point
    then record { queue = b ∷ q; size = size; unexpected = true }
    else rest

-- `lets reduce the queue`: the new stream, and whether the source has to stop.
unfoldable pub reduce_queue : Stream → Stream × Bool
unfolding trim
reduce_queue s =
    let pass = trim s.burst_point s.queue_size s.stream_data in
    (record s { stream_data = pass.queue; queue_size = pass.size }, pass.unexpected)
