-- ===== src/Listener.antt =====
-- One listener of a source: `client_set_queue` of src/client.c, the `check_buffer` functions and the
-- generic write of src/format.c, and `send_to_listener` of src/source.c.
--
-- A client's `refbuf` is NULL, a buffer of its own (headers, intro file), of which only the length
-- matters here, or a buffer of the queue. The socket is a script: what each coming call of `con->send`
-- does. The clock, the length of the response headers and the intro file are in `Env`.
mod Start
mod Types
mod Checks
mod Send
mod Places
pub mod Keeps
pub mod Checked
pub mod Lagging
unfoldable pub use Start.*
unfoldable pub use Types.*
unfoldable pub use Checks.*
unfoldable pub use Send.*
