-- ===== src/Listener/Start.antt =====
-- Where `find_client_start` of src/format.c puts a client.
use icecast_server.Prelude.{ℕ, ◌+◌, ◌-◌, ◌%◌, ◌^◌, [], ◌∷◌, Option, none, some, ◌==◌, if◌then◌else◌}
use icecast_server.Stream.{RefBuf, Queue, Stream}

-- The queue from a buffer on.
unfoldable pub from_point : ℕ → Queue → Queue
from_point p [] = []
from_point p (b ∷ q) = if b.id == p then b ∷ q else from_point p q

-- `size -= refbuf->len`, where `size_t` has 64 bits
abbrev pub size_sub : ℕ → ℕ → ℕ
size_sub a b = (a + (2 ^ 64 - b % 2 ^ 64)) % 2 ^ 64

-- `while (size > 0 && refbuf && refbuf->next)`
unfoldable pub skip_bytes : ℕ → Queue → Queue
skip_bytes size [] = []
skip_bytes size (b ∷ []) = b ∷ []
skip_bytes size (b ∷ c ∷ q) =
    let rest = skip_bytes (size_sub size b.len) (c ∷ q) in if size == 0 then b ∷ c ∷ q else rest

-- `while (refbuf)`: the first buffer that is a sync point
unfoldable pub first_sync : Queue → Option ℕ
first_sync [] = none
first_sync (b ∷ q) = if b.sync_point then some b.id else first_sync q

unfoldable pub last_buffer : Queue → Option RefBuf
last_buffer [] = none
last_buffer (b ∷ []) = some b
last_buffer (b ∷ c ∷ q) = last_buffer (c ∷ q)

-- `size_t size = client->intro_offset`
abbrev pub as_size : Option ℕ → ℕ
as_size none = 2 ^ 64 - 1
as_size (some k) = k

unfoldable pub from_burst : Stream → Option ℕ → Option ℕ
unfolding from_point skip_bytes first_sync
from_burst s offset =
    first_sync (skip_bytes (as_size offset) (from_point s.burst_point s.stream_data))

-- The buffer at which the client starts.
unfoldable pub start_buffer : Stream → Option ℕ → Option ℕ
unfolding last_buffer from_burst
start_buffer s (some k) = from_burst s (some k)
start_buffer s none = elim (last_buffer s.stream_data) [
  | none ↦ from_burst s none
  | some b ↦ if b.sync_point then some b.id else from_burst s none
]
