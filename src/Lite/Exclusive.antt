-- ===== src/Lite/Exclusive.antt =====
-- The `driving` flag of `LiteRuntimeExecutor` (src/rt/lite.rs): one driver at a time, and the flag is
-- given back on every way out of `block_on`.
use async_rt.Prelude.{
  Bool, true, false, if◌then◌else◌, List, [], ◌∷◌, length, ◌≡◌, refl, sym, ap, ◌∙◌, arith,
}
use async_rt.Lite.{
  Host, Executor, Progress, Frame, MainPoll, Round, Outcome, spawn_all, take_queued_tasks,
  register_waker, after_sweep, after_main, round, sweep, leave, drive, block_on,
}
use Round.{returns, panics, continues, parks}
use Outcome.{already_driven, returned, panicked, running}
use async_rt.Lite.Sweep.{sweep-Swept}
use async_rt.Lite.Drive.{take_queued_tasks-Taken, driving-spawn_all}

module _ (host : Host) where
  abbrev frame_of : Round host → Frame host
  frame_of (returns output f) = f
  frame_of (panics f) = f
  frame_of (continues f) = f
  frame_of (parks f) = f

  driving-sweep :
      (p : Progress host) → (sweep host (length p.tasks) 0 p).executor.driving ≡ p.executor.driving
  driving-sweep p =
      let s = sweep-Swept host (length p.tasks) p [] p.tasks refl refl in
      ap (λ (e : Executor host). e.driving) s.executor ∙ driving-spawn_all host p.executor _

  driving-after_sweep :
      (future : host.Main) (late : List host.Task) (p : Progress host)
      → (frame_of (after_sweep host future late p)).executor.driving ≡ p.executor.driving
  unfolding after_sweep register_waker
  driving-after_sweep future late p =
      let t = take_queued_tasks host p.executor p.tasks in
      let ex = register_waker host (spawn_all host t.executor late) in
      ground (
        arith,
        (take_queued_tasks-Taken host p.executor p.tasks).driving_kept,
        (take_queued_tasks-Taken host ex t.tasks).driving_kept,
        driving-spawn_all host t.executor late,
      )

  driving-after_main :
      (m : MainPoll host.Output) (late : List host.Task) (f : Frame host)
      → (frame_of (after_main host m late f)).executor.driving ≡ f.executor.driving
  unfolding after_main
  driving-after_main (MainPoll.done output) late f = refl
  driving-after_main MainPoll.unwinds late f = refl
  driving-after_main MainPoll.waits late f = driving-after_sweep f.future late _ ∙ driving-sweep _

  driving-round :
      (early late : List host.Task) (f : Frame host)
      → (frame_of (round host early late f)).executor.driving ≡ f.executor.driving
  unfolding round register_waker
  driving-round early late f =
      let ex = register_waker host (spawn_all host f.executor early) in
      driving-after_main _ late _
      ∙ driving-spawn_all host _ _
      ∙ (take_queued_tasks-Taken host ex f.active).driving_kept
      ∙ driving-spawn_all host f.executor early

  abbrev pub Exclusive : Executor host → Outcome host → Type 0
  Exclusive before (already_driven ex) = (before.driving ≡ true) × (ex ≡ before)
  Exclusive before (returned output ex) = (before.driving ≡ false) × (ex.driving ≡ false)
  Exclusive before (panicked ex) = (before.driving ≡ false) × (ex.driving ≡ false)
  Exclusive before (running f) = (before.driving ≡ false) × (f.executor.driving ≡ true)

  drive-Exclusive :
      (before : Executor host) (arrivals : List (List host.Task × List host.Task)) (f : Frame host)
      → before.driving ≡ false
      → f.executor.driving ≡ true
      → Exclusive before (drive host arrivals f)
  unfolding drive leave
  drive-Exclusive before [] f b d = (b, d)
  drive-Exclusive before ((early, late) ∷ arrivals) f b d =
      go (round host early late f) refl (λ f' d'. drive-Exclusive before arrivals f' b d')
    where
      go :
          (r : Round host)
          → round host early late f ≡ r
          → ((f' : Frame host)
              → f'.executor.driving ≡ true
              → Exclusive before (drive host arrivals f'))
          → Exclusive before (drive host ((early, late) ∷ arrivals) f)
      go (returns output f') e next = rw (e, drive) (b, refl)
      go (panics f') e next = rw (e, drive) (b, refl)
      go (continues f') e next =
          rw (e, drive)
            (next f'
              (ap (λ r. (frame_of r).executor.driving) (sym e) ∙ driving-round early late f ∙ d))
      go (parks f') e next =
          rw (e, drive)
            (next f'
              (ap (λ r. (frame_of r).executor.driving) (sym e) ∙ driving-round early late f ∙ d))

  -- `block_on` panics, and leaves the executor as it was, exactly if another call drives it. A call
  -- that enters holds the flag for as long as it runs, over any number of rounds, and has given it
  -- back when it returns and when the future panics.
  pub block_on-Exclusive :
      (arrivals : List (List host.Task × List host.Task)) (ex : Executor host) (world : host.World)
      (future : host.Main)
      → Exclusive ex (block_on host arrivals ex world future)
  unfolding block_on
  block_on-Exclusive arrivals ex world future = go ex.driving refl
    where
      entered : Frame host
      entered = record {
        executor = record ex { driving = true };
        world = world;
        future = future;
        active = [];
      }

      go :
          (b : Bool)
          → ex.driving ≡ b
          → Exclusive ex (if b then already_driven ex else drive host arrivals entered)
      go true h = (h, refl)
      go false h = drive-Exclusive ex arrivals entered h refl
