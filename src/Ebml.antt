-- ===== src/Ebml.antt =====
-- Matroska and WebM streams: src/format_ebml.c. `Numbers`, `Parser` and `Output` are the code.
pub mod Numbers
pub mod State
pub mod Parser
pub mod Output
pub mod Digits
pub mod VarInt
pub mod Tags
pub mod InOrder
pub mod Moves
pub mod Probes
pub mod Begins
pub mod Copies
pub mod CopiesData
pub mod Loop
pub mod Reads
pub mod Taken
pub mod Available
pub mod Streamed
pub mod Session
pub mod Listener
pub mod Delivered
pub mod Progress
pub mod Complete
pub mod Audience
