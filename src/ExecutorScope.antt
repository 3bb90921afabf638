-- ===== src/ExecutorScope.antt =====
-- src/scoped.rs: `ScopeExecutor` and `executor_scope`. The inner executor with its
-- `AbortableJoinHandle`s, and the future of the closure, are a parameter, `Inner`; a `Task` is the
-- wrapped future that `spawn_tracked` hands on. Handles are numbered in the order of their spawns;
-- `joined` notes which of them have been waited for.
pub mod Aborting
pub mod Joining
mod Examples
use async_rt.Prelude.{ℕ, zero, suc, Bool, true, false, List, [], ◌∷◌, ◌++◌, Poll, ready, pending}

pub record Inner : Type 1 where
  pub World : Type 0
  pub Task : Type 0
  pub Handle : Type 0
  pub User : Type 0
  pub Output : Type 0
  pub spawn_abortable : Task → World → record { handle : Handle; world : World }
  pub abort : Handle → World → World
  -- The drop of a handle, which is the last reference to it.
  pub drop_handle : Handle → World → World
  pub poll_handle : Handle → World → record { is_ready : Bool; handle : Handle; world : World }
  -- A poll of the closure's future, with the tasks that it spawns through the scope.
  pub poll_user :
      User → World → record { poll : Poll Output; user : User; world : World; spawned : List Task }

pub record Tracked (inner : Inner) : Type 0 where
  pub number : ℕ
  pub handle : inner.Handle

-- `ScopeExecutor`.
pub record State (inner : Inner) : Type 0 where
  pub task_handles : List (Tracked inner)
  pub world : inner.World
  pub spawned : ℕ
  pub joined : List ℕ

-- Where the future of `executor_scope` is: in the closure's future, or in the loop over the handles.
pub data Phase (inner : Inner) : Type 0 where
  running : inner.User → Phase inner
  joining : List (Tracked inner) → inner.Output → Phase inner

pub record PolledScope (inner : Inner) : Type 0 where
  pub poll : Poll inner.Output
  pub phase : Phase inner
  pub state : State inner

module _ (inner : Inner) where
  open inner use {World, Task, Handle, User, Output}

  -- `spawn_tracked`.
  unfoldable pub spawn_tracked : Task → State inner → State inner
  spawn_tracked task s =
      let r = inner.spawn_abortable task s.world in
      record s {
        task_handles = s.task_handles ++ (record { number = s.spawned; handle = r.handle } ∷ []);
        world = r.world;
        spawned = suc s.spawned;
      }

  unfoldable pub spawn_all : List Task → State inner → State inner
  unfolding spawn_tracked
  spawn_all [] s = s
  spawn_all (task ∷ rest) s = spawn_all rest (spawn_tracked task s)

  -- What a poll of the handle at the head of the loop is followed by; `next` is the rest of the loop,
  -- and a handle that has been waited for is dropped.
  unfoldable pub after_handle :
      (State inner → PolledScope inner)
      → Bool
      → Tracked inner
      → List (Tracked inner)
      → Output
      → State inner
      → PolledScope inner
  after_handle next true h rest output s = next (record s {
    world = inner.drop_handle h.handle s.world;
    joined = s.joined ++ (h.number ∷ []);
  })
  after_handle next false h rest output s = record {
    poll = pending;
    phase = joining (h ∷ rest) output;
    state = s;
  }

  -- The loop over the handles, and the return of the result.
  unfoldable pub join_all : List (Tracked inner) → Output → State inner → PolledScope inner
  unfolding after_handle
  join_all [] output s = record { poll = ready output; phase = joining [] output; state = s }
  join_all (h ∷ rest) output s =
      let r = inner.poll_handle h.handle s.world in
      after_handle (join_all rest output) r.is_ready (record h { handle = r.handle }) rest output
        (record s { world = r.world })

  -- The handles are drained once the closure's future is ready.
  unfoldable pub after_user : Poll Output → User → State inner → PolledScope inner
  unfolding join_all
  after_user (ready output) user s = join_all s.task_handles output (record s { task_handles = [] })
  after_user pending user s = record { poll = pending; phase = running user; state = s }

  -- A poll of the future of `executor_scope`.
  unfoldable pub poll_scope : Phase inner → State inner → PolledScope inner
  unfolding after_user spawn_all
  poll_scope (running user) s =
      let r = inner.poll_user user s.world in
      after_user r.poll r.user (spawn_all r.spawned (record s { world = r.world }))
  poll_scope (joining handles output) s = join_all handles output s

  -- `abort_all`.
  unfoldable pub abort_all : List (Tracked inner) → State inner → State inner
  abort_all [] s = s
  abort_all (h ∷ rest) s = abort_all rest (record s { world = inner.abort h.handle s.world })

  -- The drop of a list of handles: each is the only reference, so that `Drop` of `InnerHandle` runs.
  unfoldable pub drop_all : List (Tracked inner) → State inner → State inner
  drop_all [] s = s
  drop_all (h ∷ rest) s = drop_all rest (record s { world = inner.drop_handle h.handle s.world })

  -- `Drop` of `ScopeExecutor`, and of its field.
  unfoldable pub drop_executor : State inner → State inner
  unfolding abort_all drop_all
  drop_executor s = drop_all s.task_handles (abort_all s.task_handles s)

  -- The drop of the future of `executor_scope`: first the handles of the loop.
  unfoldable pub drop_scope : Phase inner → State inner → State inner
  unfolding drop_executor
  drop_scope (running user) s = drop_executor s
  drop_scope (joining handles output) s = drop_executor (drop_all handles s)

  -- Polls, until the scope is ready; each with the world that it finds.
  unfoldable pub after_scope :
      (PolledScope inner → PolledScope inner) → PolledScope inner → PolledScope inner
  after_scope next r = elim r.poll [ ready output ↦ r | pending ↦ next r ]

  unfoldable pub polls : List World → PolledScope inner → PolledScope inner
  unfolding after_scope poll_scope
  polls [] p = p
  polls (w ∷ ws) p = after_scope (polls ws) (poll_scope p.phase (record (p.state) { world = w }))

  -- `executor_scope` before its first poll.
  unfoldable pub new : User → World → PolledScope inner
  new user w = record {
    poll = pending;
    phase = running user;
    state = record { task_handles = []; world = w; spawned = 0; joined = [] };
  }
