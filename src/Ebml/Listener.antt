-- ===== src/Ebml/Listener.antt =====
-- A listener of a Matroska stream: `ebml_create_client_data`, `ebml_write_buf_to_client` and `send_ebml_header` of
-- src/format_ebml.c, with `format_generic_write_to_client` and `format_advance_queue` of src/format.c.
--
-- The socket is a script, as for any listener; `wire` collects what it took. A result of -1 is `none`.
use icecast_server.Prelude.{
  ◌+◌, ◌-◌, Bool, true, false, Option, none, some, List, [], ◌∷◌, ◌++◌, ◌==◌, if◌then◌else◌, Bytes,
  ℕ, length, take, drop,
}
use icecast_server.Listener.{Sent, accepts, blocks, breaks}
use icecast_server.Ebml.State.{slice_size}
use icecast_server.Ebml.Parser.{at_most}
use icecast_server.Ebml.Output.{Refbuf}

-- `connection_t`, as far as sending goes.
pub record Connection : Type 0 where
  pub socket : List Sent
  pub error : Bool
  pub wire : Bytes

-- `ebml_client_data_t`, and of the client the buffer that it is at with those that follow, and whether
-- `write_to_client` is the generic function.
pub record EbmlListener : Type 0 where
  pub header : Bytes
  pub header_pos : ℕ
  pub refbuf : Refbuf
  pub next : List Refbuf
  pub pos : ℕ
  pub generic : Bool
  pub con : Connection

-- A client with its data, put at a buffer.
abbrev pub new_listener : Bytes → Refbuf → List Refbuf → List Sent → EbmlListener
new_listener header refbuf next socket = record {
  header = header;
  header_pos = 0;
  refbuf = refbuf;
  next = next;
  pos = 0;
  generic = false;
  con = record { socket = socket; error = false; wire = [] };
}

-- `ebml_create_client_data`: -1 without a header.
unfoldable pub create_client_data :
    Option Bytes → Refbuf → List Refbuf → List Sent → Option EbmlListener
create_client_data none refbuf next socket = none
create_client_data (some header) refbuf next socket = some (new_listener header refbuf next socket)

-- `client_send_bytes`
unfoldable pub client_send : Bytes → List Sent → Connection → Option ℕ × Connection
client_send bytes [] con = (none, con)
client_send bytes (accepts n ∷ rest) con =
    let sent = at_most n (length bytes) in
    (some sent, record con { socket = rest; wire = con.wire ++ take sent bytes })
client_send bytes (blocks ∷ rest) con = (none, record con { socket = rest })
client_send bytes (breaks ∷ rest) con = (none, record con { socket = rest; error = true })

abbrev pub sent_count : Option ℕ → ℕ
sent_count none = 0
sent_count (some n) = n

-- `send_ebml_header`
unfoldable pub send_ebml_header : EbmlListener → Option ℕ × EbmlListener
unfolding client_send
send_ebml_header l =
    let len = at_most (length l.header - l.header_pos) slice_size in
    let (ret, con) = client_send (take len (drop l.header_pos l.header)) l.con.socket l.con in
    (ret, record l { con = con; header_pos = l.header_pos + sent_count ret })

-- `format_generic_write_to_client`
unfoldable pub generic_write_to_client : EbmlListener → Option ℕ × EbmlListener
unfolding client_send
generic_write_to_client l =
    let (ret, con) = client_send (drop l.pos l.refbuf.bytes) l.con.socket l.con in
    (ret, record l { con = con; pos = l.pos + sent_count ret })

-- `ebml_write_buf_to_client`
unfoldable pub ebml_write_buf_to_client : EbmlListener → Option ℕ × EbmlListener
unfolding send_ebml_header generic_write_to_client
ebml_write_buf_to_client l =
    if l.header_pos == length l.header
    then generic_write_to_client (record l { generic = true })
    else send_ebml_header l

-- `client->write_to_client(client)`
unfoldable pub call_write_to_client : EbmlListener → Option ℕ × EbmlListener
unfolding ebml_write_buf_to_client generic_write_to_client
call_write_to_client l = if l.generic then generic_write_to_client l else ebml_write_buf_to_client l

unfoldable pub advance_to : List Refbuf → EbmlListener → Option EbmlListener
advance_to [] l = if l.pos == length l.refbuf.bytes then none else some l
advance_to (refbuf ∷ next) l = some (
    if l.pos == length l.refbuf.bytes
    then record l { refbuf = refbuf; next = next; pos = 0 }
    else l)

-- `format_advance_queue`
unfoldable pub advance_queue : EbmlListener → Option EbmlListener
unfolding advance_to
advance_queue l = advance_to l.next l

unfoldable pub write_after : EbmlListener → Option EbmlListener → EbmlListener
unfolding call_write_to_client
write_after l none = l
write_after l (some l') = (call_write_to_client l').1

-- A round of the loop of `send_to_listener`, which is left when the connection has died.
unfoldable pub send_round : EbmlListener → EbmlListener
unfolding write_after advance_queue
send_round l = let l' = write_after l (advance_queue l) in if l.con.error then l else l'

-- A buffer comes to the end of the queue, or a round is made.
pub data Happens : Type 0 where
  arrives : Refbuf → Happens
  sends_round : Happens

unfoldable pub happens : Happens → EbmlListener → EbmlListener
unfolding send_round
happens (arrives r) l = record l { next = l.next ++ r ∷ [] }
happens sends_round l = send_round l

unfoldable pub all_happen : List Happens → EbmlListener → EbmlListener
unfolding happens
all_happen [] l = l
all_happen (h ∷ hs) l = all_happen hs (happens h l)
