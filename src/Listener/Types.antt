-- ===== src/Listener/Types.antt =====
-- The client of a source, `client_set_queue` of src/client.c and `find_client_start` of src/format.c.
use icecast_server.Prelude.{ℕ, Bool, true, false, List, Option, none, some}
use icecast_server.Stream.{Queue, Stream, addref, release}
use icecast_server.Listener.Start.{start_buffer}

pub data CheckBuffer : Type 0 where
  check_http check_file advance_queue : CheckBuffer

pub data BufferRef : Type 0 where
  no_buffer : BufferRef
  own : ℕ → BufferRef
  queued : ℕ → BufferRef

-- `accepts n` takes at most `n` bytes; the other two return -1, `breaks` with the error flag set.
pub data Sent : Type 0 where
  accepts : ℕ → Sent
  blocks breaks : Sent

pub record Client : Type 0 where
  pub con_id : ℕ
  pub con_error : Bool
  -- 0 for none
  pub discon_time : ℕ
  pub respcode : ℕ
  pub refbuf : BufferRef
  pub pos : ℕ
  -- `none` is -1
  pub intro_offset : Option ℕ
  pub check_buffer : CheckBuffer
  pub socket : List Sent

pub record Env : Type 0 where
  pub now : ℕ
  -- what `format_prepare_headers` leaves in `refbuf->len`; `none` is its -1
  pub headers : Option ℕ
  -- `fseek` and `fread` of up to 4096 bytes at an offset: how many it read
  pub intro_file : Option (ℕ → ℕ)
  -- `source->client != NULL`
  pub has_client : Bool

abbrev pub refbuf_size : ℕ
refbuf_size = 4096

abbrev pub add_own : BufferRef → Queue → Queue
add_own (queued p) q = addref p q
add_own _ q = q

abbrev pub release_ref : BufferRef → Queue → Queue
release_ref (queued p) q = release p q
release_ref _ q = q

-- `client_set_queue`: the new buffer is referenced before the old one is released.
unfoldable pub set_queue : BufferRef → Client → Queue → Client × Queue
set_queue r c q = (record c { refbuf = r; pos = 0 }, release_ref c.refbuf (add_own r q))

-- The result of a `check_buffer` function; `ready` if it did not return -1.
pub record Checked : Type 0 where
  pub client : Client
  pub queue : Queue
  pub ready : Bool

abbrev pub give_up : Client → Queue → Checked
give_up c q = record { client = c; queue = q; ready = false }

abbrev pub go_on : Client → Queue → Checked
go_on c q = record { client = c; queue = q; ready = true }

-- `while (refbuf)` of `find_client_start`, at the buffer that it finds
unfoldable pub start_at : Option ℕ → Stream → Client → Checked
unfolding set_queue
start_at none s c = give_up c s.stream_data
start_at (some p) s c =
    let (c', q) = set_queue (queued p) c s.stream_data in
    give_up (record c' { check_buffer = advance_queue; intro_offset = none }) q

-- `find_client_start`, whose callers then return -1
unfoldable pub find_client_start : Stream → Client → Checked
unfolding start_at start_buffer
find_client_start s c = start_at (start_buffer s c.intro_offset) s c
