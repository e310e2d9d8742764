-- ===== src/Stats.antt =====
-- The statistics and those who listen to them: src/stats.c. `Records`, `Changes`, `Process` and
-- `Thread` are the code.
pub mod Records
pub mod Changes
pub mod Process
pub mod View
pub mod Levels
pub mod Processed
pub mod SourceTrees
pub mod Sources
pub mod Thread
pub mod Streams
pub mod Listed
pub mod Walk
pub mod Current
pub mod Listeners
