-- ===== src/JoinHandle/Owed.antt =====
-- `JoinHandle` of src/lib.rs on compio: the handle that its states stand for, which has no state without
-- a task or a result, and what the next poll of it has to report.
use async_rt.Prelude.{
  true, false, Option, none, some, List, [], ◌∷◌, ◌≡◌, refl, ap, ◌∙◌, subst, ◌⊎◌, inl, inr, Poll,
  ready, pending,
}
use async_rt.JoinHandle.Runtimes.{JoinError, JoinResult, joined, failed, CompioError, Runtimes}
use async_rt.JoinHandle.Handle.{
  running, cancelling, compio_ready, JoinHandle, compio_handle, Handled, poll_cancel,
  start_compio_cancel, abort, is_finished,
}
use async_rt.JoinHandle.Joining.{
  from_compio, compio_result, ready_map, poll_compio, poll, Event, aborts, checks, polls, elsewhere,
  happens, history,
}

-- A task that runs, one that is being cancelled, or the result that its cancelling future gave.
pub data Task (rt : Runtimes) : Type 0 where
  runs : rt.CompioHandle → Task rt
  cancels : rt.CancelFuture → Task rt
  gave : Option rt.Output → Task rt

pub record Owing (rt : Runtimes) : Type 0 where
  pub task : Task rt
  pub world : rt.World

module _ (rt : Runtimes) where
  open rt use {World, Output, CompioHandle, CancelFuture}

  -- The cancelling future is polled: its result is kept.
  abbrev pub asked_future : CancelFuture → World → Owing rt
  asked_future f w =
      let r = rt.cancel_poll f w in
      record {
        task = elim r.poll [ ready result ↦ gave result | pending ↦ cancels r.future ];
        world = r.world;
      }

  abbrev pub step : Event rt → Task rt → World → Owing rt
  step aborts (runs h) w = let c = rt.compio_cancel h w in asked_future c.future c.world
  step checks (cancels f) w = asked_future f w
  step polls (cancels f) w = asked_future f w
  step polls (runs h) w =
      let r = rt.compio_poll h w in record { task = runs r.handle; world = r.world }
  step (elsewhere g) t w = record { task = t; world = g w }
  step _ t w = record { task = t; world = w }

  abbrev pub steps : List (Event rt) → Owing rt → Owing rt
  steps [] o = o
  steps (e ∷ es) o = steps es (step e o.task o.world)

  -- What a result of the cancelling future, and one of the task, are reported as.
  abbrev pub cancel_report : Option Output → JoinResult Output
  cancel_report (some value) = joined value
  cancel_report none = failed JoinError.aborted

  abbrev pub task_report : CompioError ⊎ Output → JoinResult Output
  task_report (inr value) = joined value
  task_report (inl CompioError.compio_cancelled) = failed JoinError.cancelled
  task_report (inl CompioError.compio_panicked) = failed JoinError.panicked

  -- The answer that a poll owes.
  abbrev pub owed : Task rt → World → Poll (JoinResult Output)
  owed (runs h) w = elim (rt.compio_poll h w).poll [
    | ready r ↦ ready (task_report r)
    | pending ↦ pending
  ]
  owed (cancels f) w = elim (rt.cancel_poll f w).poll [
    | ready r ↦ ready (cancel_report r)
    | pending ↦ pending
  ]
  owed (gave r) w = ready (cancel_report r)

  -- No poll in the history was ready.
  abbrev pub Waited : List (Event rt) → Handled rt → Type 0
  Waited [] s = Unit {0}
  Waited (polls ∷ es) s =
      ((poll rt s.handle s.world).poll ≡ pending) × Waited es (happens rt polls s)
  Waited (e ∷ es) s = Waited es (happens rt e s)

  -- The state of the handle that stands for it.
  abbrev stored : Task rt → JoinHandle rt
  stored (runs h) = compio_handle (running (some h)) false
  stored (cancels f) = compio_handle (cancelling f) true
  stored (gave r) = compio_handle (compio_ready (some r)) true

  abbrev handled : Owing rt → Handled rt
  handled o = record { handle = stored o.task; world = o.world }

  abort-step : (t : Task rt) (w : World) → abort rt (stored t) w ≡ handled (step aborts t w)
  unfolding abort start_compio_cancel poll_cancel
  abort-step (runs h) w =
      let c = rt.compio_cancel h w in go (rt.cancel_poll c.future c.world).poll refl
    where
      go :
          (p : Poll (Option Output))
          → (rt.cancel_poll (rt.compio_cancel h w).future (rt.compio_cancel h w).world).poll ≡ p
          → abort rt (stored (runs h)) w ≡ handled (step aborts (runs h) w)
      go (ready r) e = rw (e, abort, start_compio_cancel, poll_cancel) refl
      go pending e = rw (e, abort, start_compio_cancel, poll_cancel) refl
  abort-step (cancels f) w = refl
  abort-step (gave r) w = refl

  check-step :
      (t : Task rt) (w : World)
      → happens rt checks (record { handle = stored t; world = w }) ≡ handled (step checks t w)
  unfolding happens is_finished
  check-step (runs h) w = refl
  check-step (cancels f) w = go (rt.cancel_poll f w).poll refl
    where
      go :
          (p : Poll (Option Output))
          → (rt.cancel_poll f w).poll ≡ p
          → happens rt checks (record { handle = stored (cancels f); world = w })
            ≡ handled (step checks (cancels f) w)
      go (ready r) e = rw (e, happens, is_finished) refl
      go pending e = rw (e, happens, is_finished) refl
  check-step (gave r) w = refl

  poll-step :
      (t : Task rt) (w : World)
      → (poll rt (stored t) w).poll ≡ pending
      → happens rt polls (record { handle = stored t; world = w }) ≡ handled (step polls t w)
  unfolding happens poll poll_compio ready_map
  poll-step (runs h) w = go (rt.compio_poll h w).poll refl
    where
      go :
          (p : Poll (CompioError ⊎ Output))
          → (rt.compio_poll h w).poll ≡ p
          → (poll rt (stored (runs h)) w).poll ≡ pending
          → happens rt polls (record { handle = stored (runs h); world = w })
            ≡ handled (step polls (runs h) w)
      go (ready (inl x)) e = rw (e, poll, poll_compio) (λ q. cc)
      go (ready (inr x)) e = rw (e, poll, poll_compio) (λ q. cc)
      go pending e = rw (e, happens, poll, poll_compio) (λ q. refl)
  poll-step (cancels f) w = go (rt.cancel_poll f w).poll refl
    where
      go :
          (p : Poll (Option Output))
          → (rt.cancel_poll f w).poll ≡ p
          → (poll rt (stored (cancels f)) w).poll ≡ pending
          → happens rt polls (record { handle = stored (cancels f); world = w })
            ≡ handled (step polls (cancels f) w)
      go (ready r) e = rw (e, poll, poll_compio) (λ q. cc)
      go pending e = rw (e, happens, poll, poll_compio) (λ q. refl)
  poll-step (gave r) w = λ q. cc

  -- After a history without a ready poll, the handle is the one that stands for the steps.
  pub history-steps :
      (es : List (Event rt)) (o : Owing rt)
      → Waited es (handled o)
      → history rt es (handled o) ≡ handled (steps es o)
  unfolding history happens
  history-steps [] o waits = refl
  history-steps (aborts ∷ es) o waits =
      let e = abort-step o.task o.world in
      ap (history rt es) e
      ∙ history-steps es (step aborts o.task o.world) (subst (Waited es) e waits)
  history-steps (checks ∷ es) o waits =
      let e = check-step o.task o.world in
      ap (history rt es) e
      ∙ history-steps es (step checks o.task o.world) (subst (Waited es) e waits)
  history-steps (polls ∷ es) o waits =
      let e = poll-step o.task o.world waits.0 in
      ap (history rt es) e
      ∙ history-steps es (step polls o.task o.world) (subst (Waited es) e waits.1)
  history-steps (elsewhere g ∷ es) o waits =
      history-steps es (step (elsewhere g) o.task o.world) waits

  -- The result of the task as `Future::poll` of `InnerCompioHandle` passes it on.
  abbrev passed : CompioError ⊎ Output → JoinResult (Option Output)
  passed (inl e) = failed (from_compio e)
  passed (inr v) = joined (some v)

  task_report_lem : (r : CompioError ⊎ Output) → compio_result rt false (passed r) ≡ task_report r
  unfolding compio_result from_compio
  task_report_lem (inl CompioError.compio_cancelled) = refl
  task_report_lem (inl CompioError.compio_panicked) = refl
  task_report_lem (inr v) = refl

  cancel_report_lem : (r : Option Output) → compio_result rt true (joined r) ≡ cancel_report r
  unfolding compio_result
  cancel_report_lem none = refl
  cancel_report_lem (some v) = refl

  pub poll-owed : (t : Task rt) (w : World) → (poll rt (stored t) w).poll ≡ owed t w
  unfolding poll poll_compio ready_map
  poll-owed (runs h) w = go (rt.compio_poll h w).poll refl
    where
      go :
          (p : Poll (CompioError ⊎ Output))
          → (rt.compio_poll h w).poll ≡ p
          → (poll rt (stored (runs h)) w).poll ≡ owed (runs h) w
      go (ready (inl x)) e =
          rw (e, poll, poll_compio, ready_map, owed) (ap ready (task_report_lem (inl x)))
      go (ready (inr x)) e =
          rw (e, poll, poll_compio, ready_map, owed) (ap ready (task_report_lem (inr x)))
      go pending e = rw (e, poll, poll_compio, ready_map, owed) refl
  poll-owed (cancels f) w = go (rt.cancel_poll f w).poll refl
    where
      go :
          (p : Poll (Option Output))
          → (rt.cancel_poll f w).poll ≡ p
          → (poll rt (stored (cancels f)) w).poll ≡ owed (cancels f) w
      go (ready r) e = rw (e, poll, poll_compio, ready_map, owed) (ap ready (cancel_report_lem r))
      go pending e = rw (e, poll, poll_compio, ready_map, owed) refl
  poll-owed (gave r) w = ap ready (cancel_report_lem r)
