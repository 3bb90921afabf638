-- ===== src/Scope/Draining.antt =====
-- `scope` of src/scoped.rs: when it returns, every task of the scope has completed.
use async_rt.Prelude.{
  ℕ, zero, suc, Bool, true, false, if◌then◌else◌, Option, none, some, List, [], ◌∷◌, ◌≡◌, ap, subst,
  arith, Poll, ready, pending,
}
use async_rt.Scope.{
  count, Tasks, State, Driven, Phase, running, draining, PolledScope, push_all, drive_scope,
  drained, drain, after_drive, after_user, run_user, poll_scope, after_scope, polls, new,
}
use async_rt.Scope.Accounting.{Accounted, Settled, Left, push_all-Accounted, drive_loop-Settled}

module _ (tasks : Tasks) (test : tasks.Task → Bool) where
  open tasks use {World, Task, User, Output, members}

  -- What holds once `scope` is ready: nothing is left, and all that was pushed has completed, once.
  abbrev pub Emptied : Poll Output → State tasks → Type 0
  Emptied (ready output) s =
      (s.inbox ≡ []) × (members s.active ≡ []) × (count test s.spawned ≡ count test s.completed)
  Emptied pending s = Unit {0}

  abbrev Answered : Option (PolledScope tasks) → Type 0
  Answered none = Unit {0}
  Answered (some r) = Accounted tasks test r.state × Emptied r.poll r.state

  all_completed :
      (output : Output) (s : State tasks)
      → Accounted tasks test s
      → s.inbox ≡ []
      → members s.active ≡ []
      → Emptied (ready output) s
  all_completed output s h i m = (i, m, omega (arith, h, ap (count test) i, ap (count test) m))

  drained-Answered :
      (output : Output) (d : Option (Driven tasks))
      → Settled tasks test d
      → Answered (drained tasks output d)
  unfolding drained
  drained-Answered output none h = tt
  drained-Answered output (some d) (h, i, l) = go d.empty l
    where
      go :
          (b : Bool)
          → Left tasks test b d.state
          → Accounted tasks test d.state × Emptied (if b then ready output else pending) d.state
      go true m = (h, all_completed output d.state h i m)
      go false m = (h, tt)

  after_drive-Answered :
      (next : User → State tasks → Option (PolledScope tasks)) (user : User)
      (d : Option (Driven tasks))
      → ((u : User) (s : State tasks) → Accounted tasks test s → Answered (next u s))
      → Settled tasks test d
      → Answered (after_drive tasks next user d)
  unfolding after_drive
  after_drive-Answered next user none rest h = tt
  after_drive-Answered next user (some d) rest (h, i, l) = go d.made_progress
    where
      go :
          (b : Bool)
          → Answered (
              if b
              then next user d.state
              else some (record { poll = pending; phase = running user; state = d.state }))
      go true = rest user d.state h
      go false = (h, tt)

  after_user-Answered :
      (fuel : ℕ) (next : User → State tasks → Option (PolledScope tasks)) (p : Poll Output)
      (user : User) (s : State tasks)
      → ((u : User) (t : State tasks) → Accounted tasks test t → Answered (next u t))
      → Accounted tasks test s
      → Answered (after_user tasks fuel next p user s)
  unfolding after_user drain drive_scope
  after_user-Answered fuel next (ready output) user s rest h =
      drained-Answered output (drive_scope tasks fuel s)
        (drive_loop-Settled tasks test fuel false s h)
  after_user-Answered fuel next pending user s rest h =
      after_drive-Answered next user (drive_scope tasks fuel s) rest
        (drive_loop-Settled tasks test fuel false s h)

  run_user-Answered :
      (fuel : ℕ) (user : User) (s : State tasks)
      → Accounted tasks test s
      → Answered (run_user tasks fuel user s)
  unfolding run_user
  run_user-Answered zero user s h = tt
  run_user-Answered (suc fuel) user s h =
      let r = tasks.poll_user user s.world in
      after_user-Answered fuel (run_user tasks fuel) r.poll r.user
        (push_all tasks r.pushed (record s { world = r.world })) (run_user-Answered fuel)
        (push_all-Accounted tasks test r.pushed (record s { world = r.world }) h)

  poll_scope-Answered :
      (fuel : ℕ) (phase : Phase tasks) (s : State tasks)
      → Accounted tasks test s
      → Answered (poll_scope tasks fuel phase s)
  unfolding poll_scope drain drive_scope
  poll_scope-Answered fuel (running user) s h = run_user-Answered fuel user s h
  poll_scope-Answered fuel (draining output) s h =
      drained-Answered output (drive_scope tasks fuel s)
        (drive_loop-Settled tasks test fuel false s h)

  after_scope-Answered :
      (next : Phase tasks → State tasks → Option (PolledScope tasks))
      (o : Option (PolledScope tasks))
      → ((phase : Phase tasks) (s : State tasks) → Accounted tasks test s → Answered (next phase s))
      → Answered o
      → Answered (after_scope tasks next o)
  unfolding after_scope
  after_scope-Answered next none rest h = tt
  after_scope-Answered next (some r) rest (h, e) = go r.poll e
    where
      go :
          (p : Poll Output)
          → Emptied p r.state
          → Answered (elim p [ ready output ↦ some r | pending ↦ next r.phase r.state ])
      go (ready output) q = (h, e)
      go pending q = rest r.phase r.state h

  polls-Answered :
      (fuel : ℕ) (pushed : List (List Task)) (phase : Phase tasks) (s : State tasks)
      → Accounted tasks test s
      → Answered (polls tasks fuel pushed phase s)
  unfolding polls
  polls-Answered fuel [] phase s h = (h, tt)
  polls-Answered fuel (pushes ∷ rest) phase s h =
      after_scope-Answered (polls tasks fuel rest)
        (poll_scope tasks fuel phase (push_all tasks pushes s)) (polls-Answered fuel rest)
        (poll_scope-Answered fuel phase (push_all tasks pushes s)
          (push_all-Accounted tasks test pushes s h))

  new-Accounted : (world : World) → Accounted tasks test (new tasks world)
  unfolding new
  new-Accounted world = omega (arith, ap (count test) tasks.members-nothing)

  -- When a new scope becomes ready, after any polls with any pushes before and during them, its inbox
  -- and its set of futures are empty, and of the tasks that pass any test as many have completed as
  -- have been pushed.
  pub polls-Emptied :
      (fuel : ℕ) (pushed : List (List Task)) (user : User) (world : World) (r : PolledScope tasks)
      → polls tasks fuel pushed (running user) (new tasks world) ≡ some r
      → Emptied r.poll r.state
  polls-Emptied fuel pushed user world r h =
      (subst Answered h
        (polls-Answered fuel pushed (running user) (new tasks world) (new-Accounted world))).1
