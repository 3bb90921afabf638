-- ===== src/Tracker/Examples.antt =====
-- Tests of the task counter.
use async_rt.Prelude.{◌%◌, List, [], ◌∷◌, length, ◌≡◌, refl}
use async_rt.Tracker.{
  usize_mod, new, count, Event, spawns, spawns_blocking, drops, history, happens, spawn,
  spawn_blocking, drop_wrapped, fetch_add, fetch_sub,
}
use async_rt.Tracker.Counting.{history-count}

-- Two tasks and a job; the second task, then the first, is dropped.
abbrev three_two : List Event
three_two = spawns ∷ spawns ∷ spawns_blocking ∷ drops 1 ∷ drops 0 ∷ []

one_left : count (history three_two new) ≡ 1
unfolding count history happens spawn spawn_blocking drop_wrapped fetch_add fetch_sub new
one_left = refl

history-count_example :
    count (history three_two new) ≡ length (history three_two new).alive % usize_mod
history-count_example = history-count three_two
