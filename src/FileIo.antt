-- ===== src/FileIo.antt =====
-- src/fs/io.rs: the poll functions behind the `futures::io` and tokio traits of an open file. A
-- `Machine` is the file (`FileInner`), its `FileIo`, and the `World` of the backend, which holds the
-- file contents and the jobs in flight. Bytes are numbers, slices are lists. The backend's own file
-- methods, and the runtime that completes jobs, are the parameter `Backend`.
pub mod Operation
pub mod Internal
mod Entry
pub mod Buffer
pub mod Rounds
pub mod Writes
pub mod Seeks
pub mod Reads
pub mod Cancelled
pub mod TokioSeek
mod Examples
pub use Operation.*
pub use Internal.*
pub use Entry.*
