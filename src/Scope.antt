-- ===== src/Scope.antt =====
-- src/scoped.rs: `Scope`, `drive_scope` and `scope`. The tasks of a scope, `FuturesUnordered` and
-- `AtomicWaker` of the futures crate, and the future of the closure are a parameter, `Tasks`; a poll
-- acts on a `World` that all futures share, and lists the tasks that it has pushed into the scope.
pub mod Accounting
pub mod Ending
pub mod Draining
pub mod Returning
pub mod Waking
mod Examples
use async_rt.Prelude.{
  ℕ, zero, suc, ◌+◌, Bool, true, false, if◌then◌else◌, is_empty, Option, none, some, List, [], ◌∷◌,
  ◌++◌, length, ◌≡◌, ◌≢◌, Poll, ready, pending,
}

-- How many elements pass a test.
abbrev pub count {ℓ} : {A : Type ℓ} → (A → Bool) → List A → ℕ
count test [] = 0
count test (x ∷ xs) = if test x then suc (count test xs) else count test xs

-- What a `poll_next` does to the futures of the set: one that completes is taken out, an empty set
-- answers `None` and stays empty, and a set that waits has some and keeps them.
abbrev pub Kept :
    {Task : Type 0} → (Task → Bool) → Poll (Option Task) → List Task → List Task → Type 0
Kept test (ready (some task)) before after = count test before ≡ count test (task ∷ after)
Kept test (ready none) before after = (before ≡ []) × (after ≡ [])
Kept test pending before after = (after ≢ []) × (count test before ≡ count test after)

pub record Tasks : Type 1 where
  pub World : Type 0
  pub Task : Type 0
  pub User : Type 0
  pub Output : Type 0
  -- `FuturesUnordered`, with the futures in it.
  pub Active : Type 0
  pub members : Active → List Task
  pub nothing : Active
  pub members-nothing : members nothing ≡ []
  pub extend : Active → List Task → Active
  pub members-extend :
      (test : Task → Bool) (active : Active) (tasks : List Task)
      → count test (members (extend active tasks)) ≡ count test (members active) + count test tasks
  -- `poll_next`, with the future that has completed.
  pub poll_next :
      Active
      → World
      → record { poll : Poll (Option Task); active : Active; world : World; pushed : List Task }
  pub poll_next-Kept :
      (test : Task → Bool) (active : Active) (w : World)
      → Kept test (poll_next active w).poll (members active) (members (poll_next active w).active)
  -- What others push between the driver's registration and its last look at the inbox.
  pub meanwhile : World → record { world : World; pushed : List Task }
  pub poll_user :
      User → World → record { poll : Poll Output; user : User; world : World; pushed : List Task }
  -- `AtomicWaker`: `notified w` says that the driver's task has been woken.
  pub Waker : Type 0
  pub new_waker : Waker
  pub register : Waker → Waker
  pub wake : Waker → Waker
  pub notified : Waker → Bool
  pub notified-wake-register : (w : Waker) → notified (wake (register w)) ≡ true

-- `ScopeState` and the variable `active` of `scope`. All tasks that have been pushed, and all that have
-- completed, are noted.
pub record State (tasks : Tasks) : Type 0 where
  pub inbox : List tasks.Task
  pub waker : tasks.Waker
  pub active : tasks.Active
  pub world : tasks.World
  pub spawned : List tasks.Task
  pub completed : List tasks.Task

-- What `drive_scope` returns.
pub record Driven (tasks : Tasks) : Type 0 where
  pub made_progress : Bool
  pub empty : Bool
  pub state : State tasks

-- Where the future of `scope` is: in the first `poll_fn`, or in the second with the result.
pub data Phase (tasks : Tasks) : Type 0 where
  running : tasks.User → Phase tasks
  draining : tasks.Output → Phase tasks

pub record PolledScope (tasks : Tasks) : Type 0 where
  pub poll : Poll tasks.Output
  pub phase : Phase tasks
  pub state : State tasks

module _ (tasks : Tasks) where
  open tasks use {World, Task, User, Output}

  -- `Scope::push`.
  unfoldable pub push : Task → State tasks → State tasks
  push task s = record s {
    inbox = s.inbox ++ (task ∷ []);
    waker = tasks.wake s.waker;
    spawned = s.spawned ++ (task ∷ []);
  }

  unfoldable pub push_all : List Task → State tasks → State tasks
  push_all [] s = s
  push_all (task ∷ rest) s = push_all rest (push task s)

  unfoldable pub register : State tasks → State tasks
  register s = record s { waker = tasks.register s.waker }

  -- `active.extend(take(inbox))`.
  unfoldable pub absorb : State tasks → State tasks
  absorb s = record s { inbox = []; active = tasks.extend s.active s.inbox }

  -- The task that a poll has completed.
  unfoldable pub done : Poll (Option Task) → List Task
  done (ready (some task)) = task ∷ []
  done _ = []

  unfoldable pub poll_next : State tasks → record { poll : Poll (Option Task); state : State tasks }
  unfolding done
  poll_next s =
      let r = tasks.poll_next s.active s.world in
      record {
        poll = r.poll;
        state = push_all r.pushed (record s {
          active = r.active;
          world = r.world;
          completed = s.completed ++ done r.poll;
        });
      }

  unfoldable pub meanwhile : State tasks → State tasks
  meanwhile s = let r = tasks.meanwhile s.world in push_all r.pushed (record s { world = r.world })

  -- The last look at the inbox; `next` is the rest of the loop.
  unfoldable pub look :
      (Bool → State tasks → Option (Driven tasks))
      → Bool
      → Bool
      → State tasks
      → Option (Driven tasks)
  look next made_progress empty s =
      let t = meanwhile (register s) in
      if is_empty t.inbox
      then some (record { made_progress = made_progress; empty = empty; state = t })
      else next made_progress t

  -- The `match` of `drive_scope`.
  unfoldable pub after_poll :
      (Bool → State tasks → Option (Driven tasks))
      → Bool
      → Poll (Option Task)
      → State tasks
      → Option (Driven tasks)
  unfolding look
  after_poll next made_progress (ready (some task)) s = next true s
  after_poll next made_progress (ready none) s = look next made_progress true s
  after_poll next made_progress pending s = look next made_progress false s

  -- The loop of `drive_scope`; without fuel it is `none`.
  unfoldable pub drive_loop : ℕ → Bool → State tasks → Option (Driven tasks)
  drive_loop zero made_progress s = none
  drive_loop (suc fuel) made_progress s =
      let r = poll_next (absorb (register s)) in
      after_poll (drive_loop fuel) made_progress r.poll r.state

  unfoldable pub drive_scope : ℕ → State tasks → Option (Driven tasks)
  drive_scope fuel = drive_loop fuel false

  -- What the second `poll_fn` of `scope` answers.
  unfoldable pub drained : Output → Option (Driven tasks) → Option (PolledScope tasks)
  drained output none = none
  drained output (some d) = some (record {
    poll = if d.empty then ready output else pending;
    phase = draining output;
    state = d.state;
  })

  unfoldable pub drain : ℕ → Output → State tasks → Option (PolledScope tasks)
  unfolding drained
  drain fuel output s = drained output (drive_scope fuel s)

  -- What follows `drive_scope` in the first `poll_fn`; `next` is the rest of its loop.
  unfoldable pub after_drive :
      (User → State tasks → Option (PolledScope tasks))
      → User
      → Option (Driven tasks)
      → Option (PolledScope tasks)
  after_drive next user none = none
  after_drive next user (some d) =
      if d.made_progress
      then next user d.state
      else some (record { poll = pending; phase = running user; state = d.state })

  -- The `if let` on the poll of the closure's future.
  unfoldable pub after_user :
      ℕ
      → (User → State tasks → Option (PolledScope tasks))
      → Poll Output
      → User
      → State tasks
      → Option (PolledScope tasks)
  unfolding after_drive drain
  after_user fuel next (ready output) user s = drain fuel output s
  after_user fuel next pending user s = after_drive next user (drive_scope fuel s)

  -- The loop of the first `poll_fn`.
  unfoldable pub run_user : ℕ → User → State tasks → Option (PolledScope tasks)
  run_user zero user s = none
  run_user (suc fuel) user s =
      let r = tasks.poll_user user s.world in
      after_user fuel (run_user fuel) r.poll r.user
        (push_all r.pushed (record s { world = r.world }))

  -- A poll of the future of `scope`.
  unfoldable pub poll_scope : ℕ → Phase tasks → State tasks → Option (PolledScope tasks)
  poll_scope fuel (running user) s = run_user fuel user s
  poll_scope fuel (draining output) s = drain fuel output s

  -- Polls of `scope`, until it is ready; each has the tasks that others push before it.
  unfoldable pub after_scope :
      (Phase tasks → State tasks → Option (PolledScope tasks))
      → Option (PolledScope tasks)
      → Option (PolledScope tasks)
  after_scope next none = none
  after_scope next (some r) = elim r.poll [ ready output ↦ some r | pending ↦ next r.phase r.state ]

  unfoldable pub polls :
      ℕ → List (List Task) → Phase tasks → State tasks → Option (PolledScope tasks)
  polls fuel [] phase s = some (record { poll = pending; phase = phase; state = s })
  polls fuel (pushed ∷ rest) phase s =
      after_scope (polls fuel rest) (poll_scope fuel phase (push_all pushed s))

  -- `scope` before its first poll.
  unfoldable pub new : World → State tasks
  new world = record {
    inbox = [];
    waker = tasks.new_waker;
    active = tasks.nothing;
    world = world;
    spawned = [];
    completed = [];
  }
