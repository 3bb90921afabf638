-- ===== src/ExecutorScope/Examples.antt =====
-- Tests of the executor scopes: a task ends when the world has reached its number, and the closure
-- spawns a task in every poll but the last. The world notes the handles of aborts and of drops.
use async_rt.Prelude.{
  arith, Bool, true, false, ◌||◌, ◌==◌, ℕ, zero, suc, leb, List, [], ◌∷◌, ◌≡◌, refl, Poll, ready,
  pending,
}
use async_rt.ExecutorScope.{
  Inner, spawn_tracked, spawn_all, after_handle, join_all, after_user, poll_scope, abort_all,
  drop_all, drop_executor, drop_scope, after_scope, polls, new,
}
use async_rt.ExecutorScope.Aborting.{Contract}
use async_rt.ExecutorScope.Joining.{Settled, drop_scope-Aborted}

record Clock : Type 0 where
  time : ℕ
  aborted : List ℕ
  dropped : List ℕ

abbrev at : ℕ → Clock
at n = record { time = n; aborted = []; dropped = [] }

record PolledUser : Type 0 where
  poll : Poll ℕ
  user : ℕ
  world : Clock
  spawned : List ℕ

abbrev poll_user : ℕ → Clock → PolledUser
poll_user zero w = record { poll = ready 42; user = zero; world = w; spawned = [] }
poll_user (suc n) w = record { poll = pending; user = n; world = w; spawned = suc n ∷ [] }

abbrev clock : Inner
clock = record {
  World = Clock;
  Task = ℕ;
  Handle = ℕ;
  User = ℕ;
  Output = ℕ;
  spawn_abortable = λ task w. record { handle = task; world = w };
  abort = λ h w. record w { aborted = h ∷ w.aborted };
  drop_handle = λ h w. record w { dropped = h ∷ w.dropped };
  poll_handle = λ h w. record { is_ready = leb h w.time; handle = h; world = w };
  poll_user = λ user w.
      (let r = poll_user user w in
        record { poll = r.poll; user = r.user; world = r.world; spawned = r.spawned });
}

abbrev has : ℕ → List ℕ → Bool
has h [] = false
has h (x ∷ xs) = h == x || has h xs

has-head : (h : ℕ) (xs : List ℕ) → has h (h ∷ xs) ≡ true
has-head h xs = ground arith

has-tail : (h x : ℕ) (xs : List ℕ) → has h xs ≡ true → has h (x ∷ xs) ≡ true
has-tail h x xs e = ground (arith, e)

abbrev keeps : Contract clock
keeps = record {
  requested = λ h w. has h w.aborted;
  released = λ h w. has h w.dropped;
  requested-Kept = (λ h g w. has-tail g h w.aborted, λ h g w e. e);
  released-Kept = (λ h g w e. e, λ h g w. has-tail g h w.dropped);
  requested-abort = λ h w. has-head h w.aborted;
  released-drop_handle = λ h w. has-head h w.dropped;
}

abbrev worlds : List Clock
worlds = at 0 ∷ at 0 ∷ at 1 ∷ at 2 ∷ []

-- The closure spawns the tasks 2 and 1; the last poll joins both.
polls-ready : (polls clock worlds (new clock 2 (at 0))).poll ≡ ready 42
unfolding polls after_scope poll_scope after_user spawn_all spawn_tracked join_all after_handle new
polls-ready = refl

abbrev two_polls_later : List Clock
two_polls_later = at 0 ∷ at 0 ∷ at 1 ∷ []

-- A drop after the third poll, in which the loop waits for the task 2: the task 2 is dropped, and the
-- executor has no handle.
dropped-aborted :
    let r = polls clock two_polls_later (new clock 2 (at 0)) in
    (drop_scope clock r.phase r.state).world.dropped ≡ 1 ∷ 2 ∷ []
unfolding polls after_scope poll_scope after_user spawn_all spawn_tracked join_all after_handle new
    drop_scope drop_executor drop_all abort_all
dropped-aborted = refl

-- A drop after the first poll, in which the executor has the task 2.
dropped_running-aborted :
    let r = polls clock (at 0 ∷ []) (new clock 2 (at 0)) in
    (drop_scope clock r.phase r.state).world
    ≡ record { time = 0; aborted = 2 ∷ []; dropped = 2 ∷ [] }
unfolding polls after_scope poll_scope after_user spawn_all spawn_tracked join_all after_handle new
    drop_scope drop_executor drop_all abort_all
dropped_running-aborted = refl

drop_scope-Aborted_example :
    let r = polls clock two_polls_later (new clock 2 (at 0)) in
    Settled clock 1 keeps r.phase r.state (drop_scope clock r.phase r.state).world
drop_scope-Aborted_example = drop_scope-Aborted clock 1 keeps two_polls_later 2 (at 0)
