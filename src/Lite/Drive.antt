-- ===== src/Lite/Drive.antt =====
-- The outer loop of `LiteRuntimeExecutor::block_on` (src/rt/lite.rs): what a round does with the
-- tasks, when the thread parks, and how the `driving` flag and the queue are given back.
use mathlib.Core.List.{append_assoc, append-nil}
use async_rt.Prelude.{false, List, [], ◌∷◌, ◌++◌, length, Perm, ◌≡◌, refl, sym, ◌∙◌, ◌⊎◌, arith}
use async_rt.Lite.{
  Host, Executor, Progress, Frame, MainPoll, Round, spawn, spawn_all, take_queued_tasks,
  register_waker, sweep, after_sweep, after_main, round,
}
use Round.{continues, parks}
use async_rt.Lite.Sweep.{pass}

module _ (host : Host) where
  pub queued-spawn_all :
      (ex : Executor host) (tasks : List host.Task)
      → (spawn_all host ex tasks).queued ≡ ex.queued ++ tasks
  unfolding spawn_all spawn
  queued-spawn_all ex [] = sym (append-nil ex.queued)
  queued-spawn_all ex (t ∷ ts) =
      queued-spawn_all (spawn host ex t) ts ∙ append_assoc ex.queued (t ∷ []) ts

  pub driving-spawn_all :
      (ex : Executor host) (tasks : List host.Task) → (spawn_all host ex tasks).driving ≡ ex.driving
  unfolding spawn_all spawn
  driving-spawn_all ex [] = refl
  driving-spawn_all ex (t ∷ ts) = driving-spawn_all (spawn host ex t) ts

  -- Taking leaves the queue empty, and moves what it held behind the active tasks.
  pub record Taken (ex : Executor host) (tasks : List host.Task) : Type 0 where
    pub emptied : (take_queued_tasks host ex tasks).executor.queued ≡ []
    pub moved : (take_queued_tasks host ex tasks).tasks ≡ tasks ++ ex.queued
    pub waker_kept : (take_queued_tasks host ex tasks).executor.waker ≡ ex.waker
    pub driving_kept : (take_queued_tasks host ex tasks).executor.driving ≡ ex.driving
    pub untaken : (take_queued_tasks host ex tasks).taken ≡ false → ex.queued ≡ []

  pub take_queued_tasks-Taken : (ex : Executor host) (tasks : List host.Task) → Taken ex tasks
  unfolding take_queued_tasks
  take_queued_tasks-Taken ex tasks = ground (arith, append-nil tasks)

  -- What the end of a round makes of the tasks: `kept` are those that it goes on with.
  pub record Settled (r : Round host) (f : Frame host) (future : host.Main) (world : host.World)
      (kept late : List host.Task) : Type 0 where
    pub outcome : (r ≡ continues f) ⊎ (r ≡ parks f)
    pub future_kept : f.future ≡ future
    pub world_kept : f.world ≡ world
    pub emptied : f.executor.queued ≡ []
    pub active : (f.active ≡ kept) ⊎ (f.active ≡ kept ++ late)

  -- After a round in which the future waited, `kept` being what a plain pass over `order` leaves.
  pub record PolledOnce (early late : List host.Task) (f : Frame host) : Type 0 where
    pub order : List host.Task
    pub once : Perm order (f.active ++ (f.executor.queued ++ early))
    pub next : Frame host
    pub settled :
        let m = host.poll_main f.future f.world in
        let q = pass host order m.world in
        Settled
          (round host early late f)
          next
          m.rest
          q.world
          (q.survivors ++ (m.spawned ++ q.spawned))
          late

  -- The start of the inner loop of a round.
  pub start : List host.Task → Frame host → Progress host
  start early f =
      let t =
        take_queued_tasks host (register_waker host (spawn_all host f.executor early)) f.active in
      let m = host.poll_main f.future f.world in
      record {
        executor = spawn_all host t.executor m.spawned;
        world = m.world;
        tasks = t.tasks;
        made_progress = false;
      }

  pub round_of_waits :
      (early late : List host.Task) (f : Frame host)
      → (host.poll_main f.future f.world).poll ≡ MainPoll.waits
      → round host early late f
        ≡ after_sweep host
            (host.poll_main f.future f.world).rest
            late
            (sweep host (length (start early f).tasks) 0 (start early f))
  unfolding round after_main start
  round_of_waits early late f h = rw (h, after_main)
