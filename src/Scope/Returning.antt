-- ===== src/Scope/Returning.antt =====
-- The calls of `drive_scope` and the polls of `scope` of src/scoped.rs return.
use async_rt.Prelude.{
  ℕ, zero, suc, ◌+◌, ◌≤◌, ◌<◌, Bool, true, false, if◌then◌else◌, Option, none, some, [], ◌≡◌, refl,
  arith, Poll, ready, pending,
}
use async_rt.Scope.{
  Tasks, State, Driven, Phase, running, draining, PolledScope, push_all, drive_loop, drive_scope,
  drained, drain, after_drive, after_user, run_user, poll_scope,
}
use async_rt.Scope.Accounting.{Accounted, Settled, Left, drive_loop-Settled}
use async_rt.Scope.Ending.{Budget, weight, push_all-weight, gain, Ended, drive_loop-Ended}

module _ (tasks : Tasks) (budget : Budget tasks) where
  open tasks use {World, Task, User, Output}

  -- `drive_scope` returns, if it has more fuel than the weight of the scope, twice the tasks that may
  -- still be pushed and the tasks that are there. It keeps the account of the tasks, empties the inbox,
  -- says whether the set of futures is empty, and makes the scope lighter if it says it made progress.
  pub drive_scope-Driven :
      (test : Task → Bool) (fuel : ℕ) (s : State tasks)
      → weight tasks budget s < fuel
      → Accounted tasks test s
      → (d : Driven tasks) × (drive_scope tasks fuel s ≡ some d)
        × Accounted tasks test d.state
        × (d.state.inbox ≡ [])
        × Left tasks test d.empty d.state
        × (weight tasks budget d.state + (if d.made_progress then 1 else 0) ≤ weight tasks budget s)
  unfolding drive_scope Ended gain
  drive_scope-Driven test fuel s light h =
      go (drive_loop tasks fuel false s) refl (drive_loop-Settled tasks test fuel false s h)
        (drive_loop-Ended tasks budget fuel false s light)
    where
      go :
          (o : Option (Driven tasks))
          → drive_loop tasks fuel false s ≡ o
          → Settled tasks test o
          → Ended tasks budget false (weight tasks budget s) o
          → (d : Driven tasks) × (drive_loop tasks fuel false s ≡ some d)
            × Accounted tasks test d.state
            × (d.state.inbox ≡ [])
            × Left tasks test d.empty d.state
            × (weight tasks budget d.state + (if d.made_progress then 1 else 0)
                ≤ weight tasks budget s)
      go none e settled ended = absurd ended
      go (some d) e (a, i, l) ended = (d, e, a, i, l, ended)

  Answers : ℕ → Option (PolledScope tasks) → Type 0
  Answers bound none = ⊥
  Answers bound (some r) = weight tasks budget r.state ≤ bound

  Answers-weaken : (a b : ℕ) (o : Option (PolledScope tasks)) → a ≤ b → Answers a o → Answers b o
  unfolding Answers
  Answers-weaken a b none le h = h
  Answers-weaken a b (some r) le h = omega (arith, le, h)

  drained-Answers :
      (output : Output) (bound : ℕ) (o : Option (Driven tasks))
      → Ended tasks budget false bound o
      → Answers bound (drained tasks output o)
  unfolding drained Answers Ended
  drained-Answers output bound none h = h
  drained-Answers output bound (some d) h = omega (arith, h)

  after_drive-Answers :
      (next : User → State tasks → Option (PolledScope tasks)) (user : User) (bound : ℕ)
      (o : Option (Driven tasks))
      → ((u : User) (s : State tasks)
          → weight tasks budget s < bound
          → Answers (weight tasks budget s) (next u s))
      → Ended tasks budget false bound o
      → Answers bound (after_drive tasks next user o)
  unfolding after_drive Answers Ended gain
  after_drive-Answers next user bound none rest h = h
  after_drive-Answers next user bound (some d) rest h = go d.made_progress h
    where
      go :
          (b : Bool)
          → weight tasks budget d.state + (if b then 1 else 0) ≤ bound
          → Answers bound (
              if b
              then next user d.state
              else some (record { poll = pending; phase = running user; state = d.state }))
      go true lighter =
          Answers-weaken (weight tasks budget d.state) bound (next user d.state)
            (omega (arith, lighter)) (rest user d.state (omega (arith, lighter)))
      go false le = omega (arith, le)

  after_user-Answers :
      (fuel : ℕ) (next : User → State tasks → Option (PolledScope tasks)) (p : Poll Output)
      (user : User) (s : State tasks)
      → ((u : User) (t : State tasks)
          → weight tasks budget t < weight tasks budget s
          → Answers (weight tasks budget t) (next u t))
      → weight tasks budget s < fuel
      → Answers (weight tasks budget s) (after_user tasks fuel next p user s)
  unfolding after_user drain drive_scope
  after_user-Answers fuel next (ready output) user s rest light =
      drained-Answers output (weight tasks budget s) (drive_scope tasks fuel s)
        (drive_loop-Ended tasks budget fuel false s light)
  after_user-Answers fuel next pending user s rest light =
      after_drive-Answers next user (weight tasks budget s) (drive_scope tasks fuel s) rest
        (drive_loop-Ended tasks budget fuel false s light)

  run_user-Answers :
      (fuel : ℕ) (user : User) (s : State tasks)
      → weight tasks budget s + 1 < fuel
      → Answers (weight tasks budget s) (run_user tasks fuel user s)
  unfolding run_user
  run_user-Answers zero user s h = absurd (omega (arith, h))
  run_user-Answers (suc fuel) user s h =
      let r = tasks.poll_user user s.world in
      let t = push_all tasks r.pushed (record s { world = r.world }) in
      let (pushed, inbox) = push_all-weight tasks budget r.pushed (record s { world = r.world }) in
      let light : weight tasks budget t ≤ weight tasks budget s =
        omega (arith, pushed, budget.poll_user-left user s.world) in
      Answers-weaken (weight tasks budget t) (weight tasks budget s)
        (after_user tasks fuel (run_user tasks fuel) r.poll r.user t) light
        (after_user-Answers fuel (run_user tasks fuel) r.poll r.user t
          (λ u v lighter. run_user-Answers fuel u v (omega (arith, lighter, light, h)))
          (omega (arith, light, h)))

  poll_scope-Answers :
      (fuel : ℕ) (phase : Phase tasks) (s : State tasks)
      → weight tasks budget s + 1 < fuel
      → Answers (weight tasks budget s) (poll_scope tasks fuel phase s)
  unfolding poll_scope drain drive_scope
  poll_scope-Answers fuel (running user) s h = run_user-Answers fuel user s h
  poll_scope-Answers fuel (draining output) s h =
      drained-Answers output (weight tasks budget s) (drive_scope tasks fuel s)
        (drive_loop-Ended tasks budget fuel false s (omega (arith, h)))

  -- A poll of `scope` returns, if it has a little more fuel than the weight of the scope, and leaves
  -- the scope no heavier than it was, so that the same fuel is enough for the next poll.
  pub poll_scope-Returns :
      (fuel : ℕ) (phase : Phase tasks) (s : State tasks)
      → weight tasks budget s + 1 < fuel
      → (r : PolledScope tasks) × (poll_scope tasks fuel phase s ≡ some r)
        × (weight tasks budget r.state ≤ weight tasks budget s)
  unfolding Answers
  poll_scope-Returns fuel phase s h =
      go (poll_scope tasks fuel phase s) refl (poll_scope-Answers fuel phase s h)
    where
      go :
          (o : Option (PolledScope tasks))
          → poll_scope tasks fuel phase s ≡ o
          → Answers (weight tasks budget s) o
          → (r : PolledScope tasks) × (poll_scope tasks fuel phase s ≡ some r)
            × (weight tasks budget r.state ≤ weight tasks budget s)
      go none e a = absurd a
      go (some r) e a = (r, e, a)
