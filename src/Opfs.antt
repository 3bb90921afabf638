-- ===== src/Opfs.antt =====
-- src/fs/wasm.rs: files in the browser's origin-private file system. `Web` is what the browser does,
-- `Session` the state of the module and the errors, `Streams` the writers of a file, `Entries` the
-- lookups by path, `Files` an open file and how it is opened, `Tree` directories, copy and rename.
pub mod Web
pub mod Session
pub mod Streams
pub mod Entries
pub mod Files
pub mod Tree
pub mod Quiet
pub mod Looking
pub mod Closing
pub mod Keeping
pub mod Copied
pub mod Renaming
pub mod Opening
pub mod Contents
pub mod Plain
pub mod Reading
pub mod Refines
pub mod Sequence
pub mod RoundTrip
mod OneDirectory
mod Examples
