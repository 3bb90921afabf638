-- ===== src/Lite/Parking.antt =====
-- When `LiteRuntimeExecutor::block_on` parks its thread, and that no wake-up is lost.
use async_rt.Prelude.{
  Bool, true, false, ◌||◌, List, [], ◌++◌, length, ◌≡◌, refl, sym, ap, ◌∙◌, inl, inr, arith,
  Bool-cases,
}
use async_rt.Lite.{
  Host, Executor, Progress, Frame, MainPoll, Round, spawn, spawn_all, take_queued_tasks,
  register_waker, after_sweep, after_main, round, sweep,
}
use Round.{parks}
use async_rt.Lite.Drive.{take_queued_tasks-Taken, queued-spawn_all, start, round_of_waits}

module _ (host : Host) where
  pub record Parked (late : List host.Task) (made_progress : Bool) (f : Frame host) : Type 0 where
    pub idle : f.executor.queued ≡ []
    pub nothing_late : late ≡ []
    pub no_progress : made_progress ≡ false
    pub wakeable : (task : host.Task) → host.notified (spawn host f.executor task).waker ≡ true

  abbrev executor_of : Executor host → Round host → Executor host
  executor_of ex (parks f) = f.executor
  executor_of ex _ = ex

  after_sweep-Parked :
      (future : host.Main) (late : List host.Task) (p : Progress host) (f : Frame host)
      → after_sweep host future late p ≡ parks f
      → Parked late p.made_progress f
  unfolding after_sweep register_waker spawn
  after_sweep-Parked future late p f e =
      let t = take_queued_tasks host p.executor p.tasks in
      let first = take_queued_tasks-Taken host p.executor p.tasks in
      let ex = register_waker host (spawn_all host t.executor late) in
      let second = take_queued_tasks-Taken host ex t.tasks in
      let u = take_queued_tasks host ex t.tasks in
      let arrived : ex.queued ≡ late =
        queued-spawn_all host t.executor late ∙ ap (λ xs. xs ++ late) first.emptied in
      elim (Bool-cases (t.taken || p.made_progress)) [
        | inl h ↦ cc (rw h at e)
        | inr h ↦ elim (Bool-cases u.taken) [
          | inl k ↦ cc (rw (h, k) at e)
          | inr k ↦
              let same : u.executor ≡ f.executor = ap (executor_of p.executor) (rw (h, k) at e) in
              record {
                idle = sym (ap (λ (x : Executor host). x.queued) same) ∙ second.emptied;
                nothing_late = sym arrived ∙ second.untaken k;
                no_progress = ground arith;
                wakeable = λ task. rw (← same, second.waker_kept) (host.notified-wake-register _);
              }
        ]
      ]

  after_main_parks :
      (m : MainPoll host.Output) (late : List host.Task) (g f : Frame host)
      → after_main host m late g ≡ parks f
      → m ≡ MainPoll.waits
  unfolding after_main
  after_main_parks (MainPoll.done output) late g f e = cc
  after_main_parks MainPoll.waits late g f e = refl
  after_main_parks MainPoll.unwinds late g f e = cc

  -- If a round ends by parking the thread, then the future had waited, no task of the sweep was
  -- ready, no other thread had queued a task up to the last check, the queue is empty, and the next
  -- spawn by any thread unparks the driver.
  pub round-Parked :
      (early late : List host.Task) (f g : Frame host)
      → round host early late f ≡ parks g
      → ((host.poll_main f.future f.world).poll ≡ MainPoll.waits)
        × Parked late
            (sweep host (length (start host early f).tasks) 0 (start host early f)).made_progress
            g
  unfolding round
  round-Parked early late f g e =
      let waited = after_main_parks _ late _ g e in
      (waited, after_sweep-Parked _ late _ g (sym (round_of_waits host early late f waited) ∙ e))
