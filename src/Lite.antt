-- ===== src/Lite.antt =====
-- src/rt/lite.rs: `LiteRuntimeExecutor`, the built-in single-threaded executor. A value of `Executor`
-- is what all clones share (`queued_tasks`, `waker`, `driving`); `Drive` is the frame of one call of
-- `block_on`. The futures and the `AtomicWaker` of the `futures` crate are a parameter, `Host`: a poll
-- acts on a `World` that all futures share, and lists the tasks that it has spawned on this executor.
pub mod Sweep
pub mod Drive
pub mod Parking
pub mod Exclusive
mod Examples
use async_rt.Prelude.{
  ℕ, zero, suc, ◌+◌, Bool, true, false, ◌||◌, if◌then◌else◌, Option, none, some, List, [], ◌∷◌,
  ◌++◌, length, is_empty, get_elem?, set, ◌≡◌,
}

-- How a poll of the future given to `block_on` ends.
pub data MainPoll (Output : Type 0) : Type 0 where
  done : Output → MainPoll Output
  waits : MainPoll Output
  unwinds : MainPoll Output

pub record Host : Type 1 where
  pub World : Type 0
  pub Task : Type 0
  pub Main : Type 0
  pub Output : Type 0
  pub Waker : Type 0
  -- Poll a queued task: whether it is ready, what is left of it, and the tasks spawned by the poll.
  pub poll_task :
      Task → World → record { is_ready : Bool; rest : Task; world : World; spawned : List Task }
  pub poll_main :
      Main
      → World
      → record { poll : MainPoll Output; rest : Main; world : World; spawned : List Task }
  -- `AtomicWaker`: `notified w` says that the driving thread has been unparked.
  pub register : Waker → Waker
  pub wake : Waker → Waker
  pub notified : Waker → Bool
  pub notified-wake-register : (w : Waker) → notified (wake (register w)) ≡ true
  pub notified-wake : (w : Waker) → notified w ≡ true → notified (wake w) ≡ true

pub record Executor (host : Host) : Type 0 where
  pub queued : List host.Task
  pub waker : host.Waker
  pub driving : Bool

-- The frame of `block_on`: the pinned future and `ActiveTasks::tasks`.
pub record Frame (host : Host) : Type 0 where
  pub executor : Executor host
  pub world : host.World
  pub future : host.Main
  pub active : List host.Task

-- The variables of the inner `while` loop, but for `index`.
pub record Progress (host : Host) : Type 0 where
  pub executor : Executor host
  pub world : host.World
  pub tasks : List host.Task
  pub made_progress : Bool

-- `Vec::swap_remove`: the last element takes the place of the removed one.
pub last_or {ℓ} : {A : Type ℓ} → A → List A → A
last_or d [] = d
last_or d (x ∷ xs) = last_or x xs

pub drop_last {ℓ} : {A : Type ℓ} → List A → List A
drop_last [] = []
drop_last (x ∷ []) = []
drop_last (x ∷ y ∷ xs) = x ∷ drop_last (y ∷ xs)

pub swap_remove {ℓ} : {A : Type ℓ} → List A → ℕ → List A
swap_remove [] index = []
swap_remove (x ∷ xs) index = drop_last (set (x ∷ xs) index (last_or x xs))

module _ (host : Host) where
  open host use {Task, Main, World, Output}

  -- `Executor::spawn`: queue the task, then wake the driver.
  pub spawn : Executor host → Task → Executor host
  spawn ex task = record ex { queued = ex.queued ++ (task ∷ []); waker = host.wake ex.waker }

  -- Spawns in a row, by the futures of a poll or by other threads.
  pub spawn_all : Executor host → List Task → Executor host
  spawn_all ex [] = ex
  spawn_all ex (task ∷ tasks) = spawn_all (spawn ex task) tasks

  -- Whether tasks were taken, the emptied queue, and the extended vector.
  pub take_queued_tasks :
      Executor host
      → List Task
      → record { taken : Bool; executor : Executor host; tasks : List Task }
  take_queued_tasks ex tasks =
      if is_empty ex.queued
      then record { taken = false; executor = ex; tasks = tasks }
      else record { taken = true; executor = record ex { queued = [] }; tasks = tasks ++ ex.queued }

  pub register_waker : Executor host → Executor host
  register_waker ex = record ex { waker = host.register ex.waker }

  -- One round of the inner loop, at a task that stands at `index`.
  poll_at : ℕ → Task → Progress host → Progress host
  poll_at index task p =
      let r = host.poll_task task p.world in
      record {
        executor = spawn_all p.executor r.spawned;
        world = r.world;
        tasks = if r.is_ready then swap_remove p.tasks index else set p.tasks index r.rest;
        made_progress = r.is_ready || p.made_progress;
      }

  next_index : ℕ → Task → Progress host → ℕ
  next_index index task p = if (host.poll_task task p.world).is_ready then index else suc index

  -- `while index < active.tasks.len()`. Every round brings `index` and the length one closer, so the
  -- length of `tasks` is enough fuel.
  pub sweep : ℕ → ℕ → Progress host → Progress host
  sweep zero index p = p
  sweep (suc fuel) index p = elim (get_elem? p.tasks index) [
    | none ↦ p
    | some task ↦ sweep fuel (next_index index task p) (poll_at index task p)
  ]

  -- How one round of the `loop` of `block_on` ends.
  pub data Round : Type 0 where
    returns : Output → Frame host → Round
    panics : Frame host → Round
    continues : Frame host → Round
    parks : Frame host → Round

  pub after_sweep : Main → List Task → Progress host → Round
  after_sweep future late p =
      let t = take_queued_tasks p.executor p.tasks in
      let u = take_queued_tasks (register_waker (spawn_all t.executor late)) t.tasks in
      if t.taken || p.made_progress
      then continues
          (record { executor = t.executor; world = p.world; future = future; active = t.tasks })
      else let frame : Frame host = record {
        executor = u.executor;
        world = p.world;
        future = future;
        active = u.tasks;
      } in
        if u.taken then continues frame else parks frame

  after_main : MainPoll Output → List Task → Frame host → Round
  after_main (MainPoll.done output) late f = returns output f
  after_main MainPoll.unwinds late f = panics f
  after_main MainPoll.waits late f = after_sweep f.future late (
      sweep (length f.active) 0 (record {
        executor = f.executor;
        world = f.world;
        tasks = f.active;
        made_progress = false;
      }))

  -- One round. Other threads spawn `early` before the round, and `late` between the two last checks.
  pub round : List Task → List Task → Frame host → Round
  round early late f =
      let t = take_queued_tasks (register_waker (spawn_all f.executor early)) f.active in
      let r = host.poll_main f.future f.world in
      after_main r.poll late (record {
        executor = spawn_all t.executor r.spawned;
        world = r.world;
        future = r.rest;
        active = t.tasks;
      })

  -- Leaving the frame, by a return or by a panic: `ActiveTasks::drop`, then `DriveGuard::drop`.
  pub leave : Frame host → Executor host
  leave f = record (f.executor) { queued = f.executor.queued ++ f.active; driving = false }

  pub data Outcome : Type 0 where
    already_driven : Executor host → Outcome
    returned : Output → Executor host → Outcome
    panicked : Executor host → Outcome
    running : Frame host → Outcome

  -- The loop, for as many rounds as there are pairs of arrivals.
  drive : List (List Task × List Task) → Frame host → Outcome
  drive [] f = running f
  drive ((early, late) ∷ arrivals) f = elim (round early late f) [
    | returns output f' ↦ returned output (leave f')
    | panics f' ↦ panicked (leave f')
    | continues f' ↦ drive arrivals f'
    | parks f' ↦ drive arrivals f'
  ]

  pub block_on : List (List Task × List Task) → Executor host → World → Main → Outcome
  block_on arrivals ex world future =
      let frame : Frame host = record {
        executor = record ex { driving = true };
        world = world;
        future = future;
        active = [];
      } in
      if ex.driving then already_driven ex else drive arrivals frame
