-- ===== src/Mp3.antt =====
-- Streams with ICY metadata: src/format_mp3.c.
--
-- A buffer's data is a list of bytes. A number of `unsigned int` that the code subtracts from never is
-- the smaller one, which is part of the invariants; so the subtraction of ℕ is the code's.
mod Types
mod Filter
mod Title
mod Tags
mod Send
mod Reading
pub mod Demux
pub mod Reader
pub mod Opened
pub mod Blocks
pub mod Demuxed
pub mod Wire
pub mod Sent
pub mod Written
pub mod Titled
pub mod Kept
pub mod Session
unfoldable pub use Types.*
unfoldable pub use Filter.*
unfoldable pub use Title.*
unfoldable pub use Tags.*
unfoldable pub use Send.*
unfoldable pub use Reading.*
