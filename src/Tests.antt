-- ===== src/Tests.antt =====
-- Runs of the definitions on concrete inputs, and the theorems at inputs that meet their hypotheses.
mod Acl
mod Players
mod Files
mod Backends
mod Ebml
mod Avl
mod Stats
mod Events
mod Header
mod Mp3
mod Text
mod Uri
mod Mounts
mod Relays
mod Source
