-- ===== src/Listener/Send.antt =====
-- `format_generic_write_to_client` of src/format.c and `send_to_listener` of src/source.c.
use icecast_server.Prelude.{
  ℕ, zero, suc, ◌+◌, ◌-◌, Bool, true, false, not, ◌&&◌, List, [], ◌∷◌, ltb, leb, ◌==◌,
  if◌then◌else◌,
}
use icecast_server.Stream.{Queue, Stream}
use icecast_server.Listener.Types.{
  CheckBuffer, check_file, BufferRef, queued, Sent, accepts, blocks, breaks, Client, Env,
}
use icecast_server.Listener.Checks.{check, ref_len}

abbrev min_of : ℕ → ℕ → ℕ
min_of a b = if ltb a b then a else b

-- `format_generic_write_to_client` of `len` bytes from `pos` on: the client after, and the bytes
-- written, 0 for a result of 0 or less.
unfoldable pub write_to_client : List Sent → Client → ℕ → Client × ℕ
write_to_client [] c len = (c, 0)
write_to_client (accepts n ∷ rest) c len =
    let sent = min_of n (len - c.pos) in (record c { pos = c.pos + sent; socket = rest }, sent)
write_to_client (blocks ∷ rest) c len = (record c { socket = rest }, 0)
write_to_client (breaks ∷ rest) c len = (record c { socket = rest; con_error = true }, 0)

pub record Sending : Type 0 where
  pub client : Client
  pub queue : Queue
  pub total_written : ℕ
  pub short_delay : Bool

-- `discon_time` is checked before the error flag.
abbrev pub check_time : Env → Client → Client
check_time env c =
    if not (c.discon_time == 0) && leb c.discon_time env.now
    then record c { con_error = true }
    else c

is_check_file : CheckBuffer → Bool
is_check_file check_file = true
is_check_file _ = false

abbrev pub stopped : Client → Queue → ℕ → Bool → Sending
stopped c q total short = record {
  client = c;
  queue = q;
  total_written = total;
  short_delay = short;
}

-- The loop of `send_to_listener`: `loop` rounds are left.
unfoldable pub send_loop : ℕ → Env → Stream → Client → ℕ → Bool → Sending
unfolding check write_to_client is_check_file
send_loop zero env s c total short =
    let c' = check_time env c in
    if c'.con_error
    then stopped c' s.stream_data total short
    else stopped c' s.stream_data total (if is_check_file c'.check_buffer then short else true)
send_loop (suc loop) env s c total short =
    let c' = check_time env c in
    let checked = check c'.check_buffer env s c' in
    let written =
      write_to_client checked.client.socket checked.client
        (ref_len checked.client.refbuf checked.queue) in
    let rest =
      send_loop loop env (record s { stream_data = checked.queue }) written.0 (total + written.1)
        short in
    if c'.con_error
    then stopped c' s.stream_data total short
    else if ltb 20000 total
    then stopped c' s.stream_data total (if is_check_file c'.check_buffer then short else true)
    else if not checked.ready
    then stopped checked.client checked.queue total short
    else if written.1 == 0
    then stopped written.0 checked.queue total short
    else rest

abbrev pub is_head : BufferRef → Queue → Bool
is_head (queued p) (b ∷ q) = b.id == p
is_head _ _ = false

-- `if (deletion_expected && client->refbuf && client->refbuf == source->stream_data)`
unfoldable pub drop_lagging : Bool → Sending → Sending
drop_lagging deletion_expected r =
    if deletion_expected && is_head r.client.refbuf r.queue
    then record r { client = record r.client { con_error = true } }
    else r

-- `send_to_listener`: the fourth argument is `deletion_expected`.
unfoldable pub send_to_listener : Env → Stream → Client → Bool → Bool → Sending
unfolding send_loop drop_lagging
send_to_listener env s c deletion_expected short =
    drop_lagging deletion_expected (send_loop 10 env s c 0 short)
