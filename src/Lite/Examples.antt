-- ===== src/Lite/Examples.antt =====
-- Runs of the `LiteRuntimeExecutor` model on concrete tasks, and the theorems at these inputs.
use async_rt.Prelude.{
  ℕ, zero, suc, ◌+◌, Bool, true, false, List, [], ◌∷◌, ◌≡◌, refl, if◌then◌else◌, ◌==◌, length,
}
use async_rt.Lite.{
  Host, Executor, Frame, MainPoll, Round, Outcome, spawn_all, take_queued_tasks, register_waker,
  after_sweep, poll_at, next_index, after_main, round, sweep, leave, drive, block_on, swap_remove,
  last_or, drop_last,
}
use async_rt.Lite.Drive.{start}
use async_rt.Lite.Parking.{Parked, round-Parked}
use async_rt.Lite.Exclusive.{Exclusive, block_on-Exclusive}

-- A task is the number of polls that it still wants. The world counts the polls. The future is ready
-- as soon as the world has reached its number.
abbrev counting_task : ℕ → ℕ → record { is_ready : Bool; rest : ℕ; world : ℕ; spawned : List ℕ }
counting_task zero w = record { is_ready = true; rest = 0; world = w + 1; spawned = [] }
counting_task (suc n) w = record { is_ready = false; rest = n; world = w + 1; spawned = [] }

abbrev counting_main : ℕ → ℕ → record { poll : MainPoll ℕ; rest : ℕ; world : ℕ; spawned : List ℕ }
counting_main n w = record {
  poll = if n == w then MainPoll.done w else MainPoll.waits;
  rest = n;
  world = w;
  spawned = [];
}

abbrev counting : Host
counting = record {
  World = ℕ;
  Task = ℕ;
  Main = ℕ;
  Output = ℕ;
  Waker = Bool;
  poll_task = counting_task;
  poll_main = counting_main;
  register = λ w. w;
  wake = λ w. true;
  notified = λ w. w;
  notified-wake-register = λ w. refl;
  notified-wake = λ w h. refl;
}

abbrev fresh : Executor counting
fresh = record { queued = 0 ∷ 2 ∷ 0 ∷ 1 ∷ []; waker = false; driving = false }

abbrev entered : Frame counting
entered = record { executor = record fresh { driving = true }; world = 0; future = 7; active = [] }

swap_remove_test : swap_remove {A = ℕ} (1 ∷ 2 ∷ 3 ∷ 4 ∷ []) 1 ≡ 1 ∷ 4 ∷ 3 ∷ []
unfolding swap_remove last_or drop_last
swap_remove_test = refl

-- Seven polls finish the four tasks but the last, which is given back to the queue.
block_on_test :
    block_on counting (([], []) ∷ ([], []) ∷ ([], []) ∷ []) fresh 0 6
    ≡ Outcome.returned 6 (record { queued = 0 ∷ []; waker = false; driving = false })
unfolding block_on drive round after_main after_sweep sweep take_queued_tasks register_waker
    spawn_all leave poll_at next_index swap_remove last_or drop_last
block_on_test = refl

block_on-Exclusive_example : Exclusive counting fresh (block_on counting (([], []) ∷ []) fresh 0 6)
block_on-Exclusive_example = block_on-Exclusive counting (([], []) ∷ []) fresh 0 6

abbrev idle : Frame counting
idle = record {
  executor = record { queued = []; waker = false; driving = true };
  world = 0;
  future = 7;
  active = 3 ∷ [];
}

abbrev parked : Frame counting
parked = record idle { world = 1; active = 2 ∷ [] }

idle_parks : round counting [] [] idle ≡ Round.parks parked
unfolding round after_main after_sweep sweep take_queued_tasks register_waker spawn_all poll_at
    next_index
idle_parks = refl

round-Parked_example :
    ((counting.poll_main idle.future idle.world).poll ≡ MainPoll.waits)
    × Parked counting []
        (sweep counting
          (length (start counting [] idle).tasks)
          0
          (start counting [] idle)).made_progress
        parked
round-Parked_example = round-Parked counting [] [] idle parked idle_parks
