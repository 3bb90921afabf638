-- ===== src/Scope/Waking.antt =====
-- `scope` of src/scoped.rs: a push wakes a driver that waits.
use async_rt.Prelude.{
  ℕ, zero, suc, Bool, true, false, if◌then◌else◌, is_empty, Option, none, some, List, [], ◌∷◌, ◌++◌,
  ◌≡◌, refl, sym, ◌∙◌, subst, Poll, ready, pending,
}
use async_rt.Scope.{
  Tasks, State, Driven, Phase, running, draining, PolledScope, push, push_all, register, absorb,
  poll_next, meanwhile, look, after_poll, drive_loop, drive_scope, drained, drain, after_drive,
  after_user, run_user, poll_scope,
}

module _ (tasks : Tasks) where
  open tasks use {World, Task, User, Output}

  -- The next push wakes the driver's task.
  abbrev pub Listening : State tasks → Type 0
  Listening s = tasks.notified (tasks.wake s.waker) ≡ true

  abbrev pub Waits : Poll Output → State tasks → Type 0
  Waits (ready output) s = Unit {0}
  Waits pending s = Listening s

  abbrev Waiting : Option (PolledScope tasks) → Type 0
  Waiting none = Unit {0}
  Waiting (some r) = Waits r.poll r.state

  Driving : Option (Driven tasks) → Type 0
  Driving none = Unit {0}
  Driving (some d) = Listening d.state

  not_empty : (xs : List Task) (x : Task) (ys : List Task) → is_empty (xs ++ (x ∷ ys)) ≡ false
  not_empty [] x ys = refl
  not_empty (y ∷ xs) x ys = refl

  stays :
      (ts : List Task) (s : State tasks)
      → is_empty s.inbox ≡ false
      → is_empty (push_all tasks ts s).inbox ≡ false
  unfolding push_all push
  stays [] s h = h
  stays (task ∷ rest) s h = stays rest (push tasks task s) (not_empty s.inbox task [])

  -- Pushes that leave the inbox empty are none.
  push_all-Listening :
      (ts : List Task) (s : State tasks)
      → is_empty (push_all tasks ts s).inbox ≡ true
      → Listening s
      → Listening (push_all tasks ts s)
  unfolding push_all push
  push_all-Listening [] s e h = h
  push_all-Listening (task ∷ rest) s e h =
      absurd (contradiction (sym e ∙ stays rest (push tasks task s) (not_empty s.inbox task [])))
    where
      contradiction : true ≡ false → ⊥
      contradiction q = cc

  look-Driving :
      (next : Bool → State tasks → Option (Driven tasks)) (made empty : Bool) (s : State tasks)
      → ((m : Bool) (t : State tasks) → Driving (next m t))
      → Driving (look tasks next made empty s)
  unfolding look meanwhile register Driving
  look-Driving next made empty s rest = go (is_empty t.inbox) refl
    where
      t : State tasks
      t = meanwhile tasks (register tasks s)

      go :
          (b : Bool)
          → is_empty t.inbox ≡ b
          → Driving (
              if b
              then some (record { made_progress = made; empty = empty; state = t })
              else next made t)
      go true e =
          let r = tasks.meanwhile s.world in
          push_all-Listening r.pushed (record (register tasks s) { world = r.world }) e
            (tasks.notified-wake-register s.waker)
      go false e = rest made t

  after_poll-Driving :
      (next : Bool → State tasks → Option (Driven tasks)) (made : Bool) (p : Poll (Option Task))
      (s : State tasks)
      → ((m : Bool) (t : State tasks) → Driving (next m t))
      → Driving (after_poll tasks next made p s)
  unfolding after_poll
  after_poll-Driving next made (ready (some task)) s rest = rest true s
  after_poll-Driving next made (ready none) s rest = look-Driving next made true s rest
  after_poll-Driving next made pending s rest = look-Driving next made false s rest

  drive_loop-Driving :
      (fuel : ℕ) (made : Bool) (s : State tasks) → Driving (drive_loop tasks fuel made s)
  unfolding drive_loop Driving
  drive_loop-Driving zero made s = tt
  drive_loop-Driving (suc fuel) made s =
      let r = poll_next tasks (absorb tasks (register tasks s)) in
      after_poll-Driving (drive_loop tasks fuel) made r.poll r.state (drive_loop-Driving fuel)

  drained-Waiting :
      (output : Output) (d : Option (Driven tasks)) → Driving d → Waiting (drained tasks output d)
  unfolding drained Driving
  drained-Waiting output none h = tt
  drained-Waiting output (some d) h = go d.empty
    where
      go : (b : Bool) → Waits (if b then ready output else pending) d.state
      go true = tt
      go false = h

  after_drive-Waiting :
      (next : User → State tasks → Option (PolledScope tasks)) (user : User)
      (d : Option (Driven tasks))
      → ((u : User) (s : State tasks) → Waiting (next u s))
      → Driving d
      → Waiting (after_drive tasks next user d)
  unfolding after_drive Driving
  after_drive-Waiting next user none rest h = tt
  after_drive-Waiting next user (some d) rest h = go d.made_progress
    where
      go :
          (b : Bool)
          → Waiting (
              if b
              then next user d.state
              else some (record { poll = pending; phase = running user; state = d.state }))
      go true = rest user d.state
      go false = h

  after_user-Waiting :
      (fuel : ℕ) (next : User → State tasks → Option (PolledScope tasks)) (p : Poll Output)
      (user : User) (s : State tasks)
      → ((u : User) (t : State tasks) → Waiting (next u t))
      → Waiting (after_user tasks fuel next p user s)
  unfolding after_user drain drive_scope
  after_user-Waiting fuel next (ready output) user s rest =
      drained-Waiting output (drive_scope tasks fuel s) (drive_loop-Driving fuel false s)
  after_user-Waiting fuel next pending user s rest =
      after_drive-Waiting next user (drive_scope tasks fuel s) rest
        (drive_loop-Driving fuel false s)

  run_user-Waiting :
      (fuel : ℕ) (user : User) (s : State tasks) → Waiting (run_user tasks fuel user s)
  unfolding run_user
  run_user-Waiting zero user s = tt
  run_user-Waiting (suc fuel) user s =
      let r = tasks.poll_user user s.world in
      after_user-Waiting fuel (run_user tasks fuel) r.poll r.user
        (push_all tasks r.pushed (record s { world = r.world })) (run_user-Waiting fuel)

  poll_scope-Waiting :
      (fuel : ℕ) (phase : Phase tasks) (s : State tasks) → Waiting (poll_scope tasks fuel phase s)
  unfolding poll_scope drain drive_scope
  poll_scope-Waiting fuel (running user) s = run_user-Waiting fuel user s
  poll_scope-Waiting fuel (draining output) s =
      drained-Waiting output (drive_scope tasks fuel s) (drive_loop-Driving fuel false s)

  -- A poll of `scope` that is not ready leaves the driver registered: the next push wakes it, also if
  -- others pushed while the driver took its last look at the inbox.
  pub poll_scope-Woken :
      (fuel : ℕ) (phase : Phase tasks) (s : State tasks) (task : Task) (r : PolledScope tasks)
      → poll_scope tasks fuel phase s ≡ some r
      → r.poll ≡ pending
      → tasks.notified (push tasks task r.state).waker ≡ true
  unfolding push
  poll_scope-Woken fuel phase s task r h e =
      subst (λ p. Waits p r.state) e (subst Waiting h (poll_scope-Waiting fuel phase s))
