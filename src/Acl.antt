-- ===== src/Acl.antt =====
-- Access control lists: src/acl.c.
--
-- The pointer of an ACL is an `Option` where the code tests it: `none` is NULL. The request methods are
-- those of the HTTP parser's library, and `atoi` is the C library's: both are parameters. `time_t`,
-- `size_t` and `ssize_t` have 64 bits. The reference counter is left out.
mod Types
mod Setters
mod Xml
pub mod Items
pub mod Valid
pub mod Rules
pub mod Configured
unfoldable pub use Types.*
unfoldable pub use Setters.*
unfoldable pub use Xml.*
