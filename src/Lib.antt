-- ===== src/Lib.antt =====
-- async-rt: one interface for spawning tasks, joining them, and using files and sockets on tokio,
-- smol, compio, a thread pool, a single-threaded executor of its own (lite) and wasm.
--
-- Parts and how they interact. The features of a build select one executor and one pair of entry
-- macros (src/global/executor.rs, src/lib.rs; Selection), and `#[async_rt::main]` picks the executor
-- or the driver that its arguments name (async-rt-macros/src/lib.rs; Macros). A spawn gives a
-- `JoinHandle` (src/lib.rs, src/error.rs; JoinHandle) over the handle of the runtime in use, which an
-- `AbortableJoinHandle` shares and aborts with its last reference (src/lib.rs; Abortable); a task
-- finds the executor that it runs on in a thread-local cell (src/task.rs; Context). A scope drives its
-- tasks inside the future that opened it (src/scoped.rs; Scope). Without another runtime the lite
-- executor drives the tasks (src/rt/lite.rs; Lite). An open file is a poll machine over the backend's
-- own file (src/fs/io.rs; FileIo), whose jobs compute positions with `seek_position` (Seek) and call
-- the methods of `FileRead` and `FileWrite` (ReadWrite). Files in a browser are named by paths that
-- src/fs/wasm.rs splits into names (WasmPath); their storage is reached through handles and promises
-- (Opfs). Without such a runtime files are the standard library's, used by jobs of a blocking pool
-- (src/fs/blocking.rs; Blocking).
--
-- How the code is modelled. A function that changes a `&mut` argument takes the state and returns it,
-- with its result, as a record. A poll returns `Poll`, an `io::Result` is `Result`, bytes are numbers
-- and slices lists of them. What other crates do is a record of operations that the definitions take
-- as an argument (`Host`, `Reader`, `Writer`, `Backend`, `Runtimes`, `Syntax`, `Texts`, `Web`,
-- `Stored`, `Tasks`, `Budget`, `Detaching`, `Native`, `Pool`, `Inner`), with the laws that the code
-- relies on as fields or as hypotheses of a section; each has an instance in the Examples module that
-- uses it, or beside it.
--   * Prelude: `Poll`, tests, lists and integers over the native numbers, `ErrorKind` and `Result`.
--   * Lite: `spawn`, `take_queued_tasks`, `register_waker`, the inner loop (`sweep`), a round of
--     `block_on` (`round`), its drop guards (`leave`) and the loop (`drive`). Each round is given the
--     tasks that other threads spawn before it and between its last two looks at the queue. Sweep and
--     Drive: one round. Parking: the wake-up. Exclusive: the driving flag.
--   * ReadWrite: the provided methods `read_exact`, `read_to_end`, `read_to_string` and `write_all`.
--   * Seek: `seek_position` on exact integers and u64 positions.
--   * FileIo: Operation has the jobs and their outputs (`poll_operation`, `apply_position`,
--     `finish_discarded`), Internal the loops `poll_internal_*`, Entry the entry points `poll_read`,
--     `poll_write`, `poll_flush` and `poll_seek` with their arms per backend.
--   * JoinHandle: Handle has the states with `abort` and `is_finished`, Joining the polls and the
--     histories of a handle; Told, Cause and Unclaimed have the invariants over histories, and Owed the
--     handle without poisoned states that Unclaimed compares a compio handle with.
--   * Abortable: `AbortableJoinHandle` as references to cells that share a `JoinHandle`. Ownership:
--     where the handles are. Dropping: the drop of a reference. Replacing: `replace`.
--   * Macros: `Arguments::parse` on what syn has parsed, and `expand_inner` up to the choice of the
--     driver or executor. Selection: the `cfg` conditions, as lists of the items that they keep.
--   * Context: the thread-local executor of a task, `executor`, `with_executor` with its guard, and
--     the poll of `WithExecutor`; `run` gives the code that uses them, nested in any way.
--   * Scope: `Scope::push`, `drive_scope` and the future of `scope` (src/scoped.rs) as polls on the
--     inbox, the set of futures and the waker. Accounting, Draining: where the tasks are. Waking: the
--     wake-up. Ending, Returning: the loops.
--   * ExecutorScope: `ScopeExecutor` and the future of `executor_scope` (src/scoped.rs), which joins
--     the handles that it tracks. Aborting: what the handles promise about aborts, and what a drop does
--     to them. Joining: what becomes of the tasks.
--   * Tracker: the counter of `TrackerExecutor` (src/tracker.rs).
--   * WasmPath: `split_path`, `split_parent`, `joined_path` on the components of a path.
--   * Opfs: async functions of src/fs/wasm.rs as steps on a `Session` (Prelude/Effect), which has the
--     cached root, the browser's storage and the list of the calls that change it. Web is the browser.
--     Session has `root`, `js_error` and how promises are awaited; Streams the writers (`write_at`,
--     `overwrite`, `truncate`); Entries the lookups and `remove_entry`; Files `open_file` and
--     `WasmFile`; Tree the methods of `WasmFileSystem`, `next_entry` and `copy_directory`. Quiet,
--     Looking, Keeping, Copied, Renaming, Closing and Opening have what these call, whatever the browser
--     answers; Contents, Plain, Reading, Refines, Sequence and RoundTrip what a file holds, for a
--     browser that keeps the laws of `Stored`.
--   * Blocking: the methods of `BlockingFileSystem` and `BlockingFile` as jobs of a blocking pool.
--     Direct: a job against the call in it. Reads and Writes: its reads under `read_exact`, and its
--     writes under `write_all`.
--
-- Fuel. `sweep` needs as much fuel as there are tasks, since a round moves the index on or removes a
-- task. The loops of FileIo need two rounds: one discards an operation of another kind, the next has
-- its own. `read_exact` and `write_all`, `read_to_end` and `read_to_string` need a step for every byte
-- and every interruption that is still to come; their theorems assume that much fuel and conclude that
-- the loop ends. `copy_directory` may meet directories of any depth and size, so it answers `none`
-- when its fuel is spent; what is said of a rename holds for any fuel. `drive_scope` and `scope` need
-- a step for each task in the scope and two for each that may still be pushed. `drive` runs for as
-- many rounds as arrivals are given; it need not end, since the driven future need not.
--
-- Not modelled. Wakers, apart from the one of the lite executor; memory orderings, a thread switch
-- being possible only where arrivals are given; `JoinHandle::replace`; coroutines and timeouts
-- (src/lib.rs); how the spawn methods of a scope wrap a future (src/scoped.rs); `set_executor` and its
-- entry lock, the drop of `WithExecutor`, and `yield_now` (src/task.rs); the adapters to tokio,
-- smol, compio, thread pool and wasm (src/rt) and of files and sockets (src/fs, src/net), which hand
-- calls on; the messages of errors; the delegating impls for `Rc`, `Arc` and `Either`; the tokens that
-- the macros emit.
pub mod Prelude
pub mod Lite
pub mod ReadWrite
pub mod Seek
pub mod FileIo
pub mod JoinHandle
pub mod Abortable
pub mod Macros
pub mod Scope
pub mod ExecutorScope
pub mod Tracker
pub mod Selection
pub mod Context
pub mod WasmPath
pub mod Opfs
pub mod Blocking
