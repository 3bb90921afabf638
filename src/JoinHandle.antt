-- ===== src/JoinHandle.antt =====
-- src/lib.rs, src/error.rs: `JoinHandle`, the handle of a spawned task on every runtime. `Runtimes` is
-- what the crate uses of the runtimes' own handles, `Handle` the states of a handle with `abort` and
-- `is_finished`, `Joining` the polls and the histories of a handle.
pub mod Runtimes
pub mod Handle
pub mod Joining
pub mod Told
pub mod Cause
pub mod Owed
pub mod Unclaimed
pub mod Examples
