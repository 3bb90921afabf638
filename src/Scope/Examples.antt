-- ===== src/Scope/Examples.antt =====
-- Tests of the scopes: a task is known by a number and completes when the clock has reached it; a poll
-- of a task that waits moves the clock.
use async_rt.Prelude.{
  ℕ, zero, suc, ◌+◌, Bool, true, false, ◌||◌, if◌then◌else◌, leb, Option, none, some, List, [], ◌∷◌,
  ◌≡◌, refl, arith, Poll, ready, pending, length, ◌≤◌, Bool-cases, inl, inr,
}
use async_rt.Scope.{
  count, Kept, Tasks, State, Driven, running, draining, PolledScope, push, push_all, register,
  absorb, done, poll_next, meanwhile, look, after_poll, drive_loop, drive_scope, drained, drain,
  after_drive, after_user, run_user, poll_scope, after_scope, polls, new,
}
use async_rt.Scope.Accounting.{Accounted, Left}
use async_rt.Scope.Ending.{Budget, weight}
use async_rt.Scope.Returning.{drive_scope-Driven, poll_scope-Returns}
use async_rt.Scope.Draining.{Emptied, polls-Emptied}
use async_rt.Scope.Waking.{poll_scope-Woken}

-- The clock, and how many tasks may still be pushed by polls.
record World : Type 0 where
  clock : ℕ
  pushes : ℕ

record Waker : Type 0 where
  registered : Bool
  notified : Bool

record Pushed : Type 0 where
  world : World
  pushed : List ℕ

abbrev pushed_by : ℕ → World → ℕ → Pushed
pushed_by task w zero = record { world = w; pushed = [] }
pushed_by task w (suc n) = record { world = record w { pushes = n }; pushed = task ∷ [] }

record PolledSet : Type 0 where
  poll : Poll (Option ℕ)
  active : List ℕ
  world : World
  pushed : List ℕ

abbrev polled : ℕ → List ℕ → World → Bool → PolledSet
polled task rest w true =
    let p = pushed_by (suc task) w w.pushes in
    record { poll = ready (some task); active = rest; world = p.world; pushed = p.pushed }
polled task rest w false = record {
  poll = pending;
  active = task ∷ rest;
  world = record w { clock = suc w.clock };
  pushed = [];
}

abbrev poll_set : List ℕ → World → PolledSet
poll_set [] w = record { poll = ready none; active = []; world = w; pushed = [] }
poll_set (task ∷ rest) w = polled task rest w (leb task w.clock)

record PolledUser : Type 0 where
  poll : Poll ℕ
  user : ℕ
  world : World
  pushed : List ℕ

abbrev polled_user : ℕ → World → PolledUser
polled_user zero w = record { poll = ready 42; user = zero; world = w; pushed = [] }
polled_user (suc n) w =
    let p = pushed_by n w w.pushes in
    record { poll = pending; user = n; world = p.world; pushed = p.pushed }

polled-Kept :
    (test : ℕ → Bool) (task : ℕ) (rest : List ℕ) (w : World) (b : Bool)
    → Kept test (polled task rest w b).poll (task ∷ rest) (polled task rest w b).active
polled-Kept test task rest w true = refl
polled-Kept test task rest w false = (λ e. cc, refl)

poll_set-Kept :
    (test : ℕ → Bool) (active : List ℕ) (w : World)
    → Kept test (poll_set active w).poll active (poll_set active w).active
poll_set-Kept test [] w = (refl, refl)
poll_set-Kept test (task ∷ rest) w = polled-Kept test task rest w (leb task w.clock)

abbrev appended : List ℕ → List ℕ → List ℕ
appended [] ys = ys
appended (x ∷ xs) ys = x ∷ appended xs ys

count-appended :
    (test : ℕ → Bool) (xs ys : List ℕ) → count test (appended xs ys) ≡ count test xs + count test ys
count-appended test [] ys = omega arith
count-appended test (x ∷ xs) ys = elim (Bool-cases (test x)) [
  | inl e ↦ rw e (omega (arith, count-appended test xs ys))
  | inr e ↦ rw e (count-appended test xs ys)
]

abbrev clocked : Tasks
clocked = record {
  World = World;
  Task = ℕ;
  User = ℕ;
  Output = ℕ;
  Active = List ℕ;
  members = λ active. active;
  nothing = [];
  members-nothing = refl;
  extend = appended;
  members-extend = count-appended;
  poll_next = λ active w.
      (let r = poll_set active w in
        record { poll = r.poll; active = r.active; world = r.world; pushed = r.pushed });
  poll_next-Kept = poll_set-Kept;
  meanwhile =
      λ w. (let p = pushed_by 0 w w.pushes in record { world = p.world; pushed = p.pushed });
  poll_user = λ user w.
      (let r = polled_user user w in
        record { poll = r.poll; user = r.user; world = r.world; pushed = r.pushed });
  Waker = Waker;
  new_waker = record { registered = false; notified = false };
  register = λ w. record { registered = true; notified = false };
  wake = λ w. record { registered = false; notified = w.registered || w.notified };
  notified = λ w. w.notified;
  notified-wake-register = λ w. refl;
}

pushed_by-left :
    (task : ℕ) (w : World) (n : ℕ)
    → w.pushes ≡ n
    → (pushed_by task w n).world.pushes + length (pushed_by task w n).pushed ≤ w.pushes
pushed_by-left task w zero e = omega arith
pushed_by-left task w (suc n) e = omega (arith, e)

polled-left :
    (task : ℕ) (rest : List ℕ) (w : World) (b : Bool)
    → (polled task rest w b).world.pushes + length (polled task rest w b).pushed ≤ w.pushes
polled-left task rest w true = pushed_by-left (suc task) w w.pushes refl
polled-left task rest w false = omega arith

poll_set-left :
    (active : List ℕ) (w : World)
    → (poll_set active w).world.pushes + length (poll_set active w).pushed ≤ w.pushes
poll_set-left [] w = omega arith
poll_set-left (task ∷ rest) w = polled-left task rest w (leb task w.clock)

polled_user-left :
    (user : ℕ) (w : World)
    → (polled_user user w).world.pushes + length (polled_user user w).pushed ≤ w.pushes
polled_user-left zero w = omega arith
polled_user-left (suc n) w = pushed_by-left n w w.pushes refl

abbrev pushes_left : Budget clocked
pushes_left = record {
  left = λ w. w.pushes;
  poll_next-left = poll_set-left;
  meanwhile-left = λ w. pushed_by-left 0 w w.pushes refl;
  poll_user-left = polled_user-left;
}

abbrev start : World
start = record { clock = 0; pushes = 3 }

-- Tasks 0 and 2 in a new scope.
abbrev two_tasks : State clocked
two_tasks = record {
  inbox = 0 ∷ 2 ∷ [];
  waker = record { registered = false; notified = false };
  active = [];
  world = start;
  spawned = 0 ∷ 2 ∷ [];
  completed = [];
}

abbrev small : ℕ → Bool
small n = leb n 1

drive_scope-Driven_example :
    (d : Driven clocked) × (drive_scope clocked 9 two_tasks ≡ some d)
    × Accounted clocked small d.state
    × (d.state.inbox ≡ [])
    × Left clocked small d.empty d.state
    × (weight clocked pushes_left d.state + (if d.made_progress then 1 else 0)
        ≤ weight clocked pushes_left two_tasks)
drive_scope-Driven_example =
    drive_scope-Driven clocked pushes_left small 9 two_tasks (omega arith) refl

poll_scope-Returns_example :
    (r : PolledScope clocked) × (poll_scope clocked 10 (running 2) two_tasks ≡ some r)
    × (weight clocked pushes_left r.state ≤ weight clocked pushes_left two_tasks)
poll_scope-Returns_example =
    poll_scope-Returns clocked pushes_left 10 (running 2) two_tasks (omega arith)

-- Tasks 3 and 4 are pushed before the first two polls.
abbrev pushes_before : List (List ℕ)
pushes_before = (3 ∷ []) ∷ (4 ∷ []) ∷ [] ∷ [] ∷ [] ∷ [] ∷ [] ∷ []

abbrev finished : PolledScope clocked
finished = record {
  poll = ready 42;
  phase = draining 42;
  state = record {
    inbox = [];
    waker = record { registered = true; notified = false };
    active = [];
    world = record { clock = 4; pushes = 0 };
    spawned = 3 ∷ 4 ∷ 0 ∷ 0 ∷ 4 ∷ [];
    completed = 3 ∷ 4 ∷ 0 ∷ 0 ∷ 4 ∷ [];
  };
}

polls-finished : polls clocked 12 pushes_before (running 5) (new clocked start) ≡ some finished
unfolding push push_all register absorb done poll_next meanwhile look after_poll drive_loop
    drive_scope drained drain after_drive after_user run_user poll_scope after_scope polls new
polls-finished = refl

polls-Emptied_example : Emptied clocked small (ready 42) finished.state
polls-Emptied_example = polls-Emptied clocked small 12 pushes_before 5 start finished polls-finished

-- Task 7 in a new scope; it waits.
abbrev late_task : State clocked
late_task = push clocked 7 (new clocked (record { clock = 0; pushes = 0 }))

abbrev waiting : PolledScope clocked
waiting = record {
  poll = pending;
  phase = running 4;
  state = record {
    inbox = [];
    waker = record { registered = true; notified = false };
    active = 7 ∷ [];
    world = record { clock = 1; pushes = 0 };
    spawned = 7 ∷ [];
    completed = [];
  };
}

poll_scope-waiting : poll_scope clocked 10 (running 5) late_task ≡ some waiting
unfolding push push_all register absorb done poll_next meanwhile look after_poll drive_loop
    drive_scope drained drain after_drive after_user run_user poll_scope new
poll_scope-waiting = refl

poll_scope-Woken_example : (push clocked 8 waiting.state).waker.notified ≡ true
poll_scope-Woken_example =
    poll_scope-Woken clocked 10 (running 5) late_task 8 waiting poll_scope-waiting refl
