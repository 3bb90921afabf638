-- ===== src/Tracker.antt =====
-- src/tracker.rs: `TrackerExecutor` and its counter, an `AtomicUsize`. The wrapped futures and jobs that
-- have not been dropped are listed; the inner executor, which owns them, polls and drops them in any
-- order.
pub mod Counting
mod Examples
use async_rt.Prelude.{
  ℕ, zero, suc, ◌+◌, ◌-◌, ◌%◌, ◌^◌, Option, none, some, List, [], ◌∷◌, ◌++◌, get_elem?,
}

abbrev pub usize_mod : ℕ
usize_mod = 2 ^ 64

-- `FutureCounter`, and the job with its `AtomicCounterDrop`.
pub data Wrapped : Type 0 where
  future_counter : Wrapped
  counter_drop : Wrapped

pub record Tracker : Type 0 where
  pub counter : ℕ
  pub alive : List Wrapped

-- `fetch_add(1)` and `fetch_sub(1)`, which wrap around.
unfoldable pub fetch_add : ℕ → ℕ
fetch_add n = (n + 1) % usize_mod

unfoldable pub fetch_sub : ℕ → ℕ
fetch_sub n = (n + (usize_mod - 1)) % usize_mod

-- `TrackerExecutor::new` and `count`.
unfoldable pub new : Tracker
new = record { counter = 0; alive = [] }

unfoldable pub count : Tracker → ℕ
count t = t.counter

-- `FutureCounter::new` in `spawn`, and `AtomicCounterDrop::new` in `spawn_blocking`.
unfoldable pub spawn : Tracker → Tracker
unfolding fetch_add
spawn t = record { counter = fetch_add t.counter; alive = t.alive ++ (future_counter ∷ []) }

unfoldable pub spawn_blocking : Tracker → Tracker
unfolding fetch_add
spawn_blocking t = record { counter = fetch_add t.counter; alive = t.alive ++ (counter_drop ∷ []) }

abbrev pub remove : List Wrapped → ℕ → List Wrapped
remove [] i = []
remove (x ∷ xs) zero = xs
remove (x ∷ xs) (suc i) = x ∷ remove xs i

-- `Drop` of `FutureCounter` and of `AtomicCounterDrop`.
unfoldable pub drop_wrapped : ℕ → Tracker → Tracker
unfolding fetch_sub
drop_wrapped i t = elim (get_elem? t.alive i) [
  | none ↦ t
  | some x ↦ record { counter = fetch_sub t.counter; alive = remove t.alive i }
]

-- What the users and the inner executor do.
pub data Event : Type 0 where
  spawns : Event
  spawns_blocking : Event
  drops : ℕ → Event

unfoldable pub happens : Event → Tracker → Tracker
unfolding spawn spawn_blocking drop_wrapped
happens spawns = spawn
happens spawns_blocking = spawn_blocking
happens (drops i) = drop_wrapped i

unfoldable pub history : List Event → Tracker → Tracker
unfolding happens
history [] t = t
history (e ∷ es) t = history es (happens e t)
