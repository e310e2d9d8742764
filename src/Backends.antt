-- ===== src/Backends.antt =====
-- The backends that decide on a name and a password: src/auth_htpasswd.c and src/auth_static.c, and
-- `get_line` of src/util.c.
pub mod Lines
pub mod Password
pub mod Passed
pub mod Htpasswd
pub mod Read
pub mod Entries
pub mod Decided
pub mod Added
pub mod Accounts
pub mod Texts
pub mod Deleted
