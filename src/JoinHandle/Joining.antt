-- ===== src/JoinHandle/Joining.antt =====
-- src/lib.rs: the polls of a `JoinHandle`, and the histories of a handle: the calls of its methods in
-- any order, with changes of the world by tasks and runtimes in between.
use async_rt.Prelude.{
  Bool, ◌&&◌, if◌then◌else◌, Option, none, some, List, [], ◌∷◌, ◌⊎◌, inl, inr, Poll, ready, pending,
}
use async_rt.JoinHandle.Runtimes.{JoinError, JoinResult, joined, failed, CompioError, Runtimes}
use async_rt.JoinHandle.Handle.{
  InnerCompioHandle, running, cancelling, compio_ready, JoinHandle, tokio_handle, compio_handle,
  smol_handle, custom_handle, empty_handle, Handled, abort, is_finished,
}

pub record PolledHandle (rt : Runtimes) : Type 0 where
  pub poll : Poll (JoinResult rt.Output)
  pub handle : JoinHandle rt
  pub world : rt.World

pub record PolledCompio (rt : Runtimes) : Type 0 where
  pub poll : Poll (JoinResult (Option rt.Output))
  pub handle : InnerCompioHandle rt
  pub world : rt.World

-- `impl From<compio::runtime::JoinError> for JoinError`.
unfoldable pub from_compio : CompioError → JoinError
from_compio CompioError.compio_cancelled = JoinError.cancelled
from_compio CompioError.compio_panicked = JoinError.panicked

module _ (rt : Runtimes) where
  open rt use {World, Output, TokioError}

  -- `impl From<tokio::task::JoinError> for JoinError`.
  unfoldable pub from_tokio : TokioError → JoinError
  from_tokio e =
      if rt.is_cancelled e
      then JoinError.cancelled
      else if rt.is_panic e
      then JoinError.panicked
      else JoinError.unknown

  -- `Future::poll` of `InnerCompioHandle`.
  unfoldable pub poll_compio : InnerCompioHandle rt → World → PolledCompio rt
  poll_compio (running none) w = record {
    poll = ready (joined none);
    handle = running none;
    world = w;
  }
  poll_compio (running (some h)) w =
      let r = rt.compio_poll h w in
      elim r.poll [
        | ready (inr value) ↦ record {
          poll = ready (joined (some value));
          handle = running none;
          world = r.world;
        }
        | ready (inl e) ↦ record {
          poll = ready (failed (from_compio e));
          handle = running none;
          world = r.world;
        }
        | pending ↦ record { poll = pending; handle = running (some r.handle); world = r.world }
      ]
  poll_compio (cancelling future) w =
      let r = rt.cancel_poll future w in
      elim r.poll [
        | ready result ↦ record {
          poll = ready (joined result);
          handle = compio_ready none;
          world = r.world;
        }
        | pending ↦ record { poll = pending; handle = cancelling r.future; world = r.world }
      ]
  poll_compio (compio_ready (some result)) w = record {
    poll = ready (joined result);
    handle = compio_ready none;
    world = w;
  }
  poll_compio (compio_ready none) w = record {
    poll = ready (failed JoinError.empty);
    handle = compio_ready none;
    world = w;
  }

  -- The arms of the compio `match` in `JoinHandle::poll`, by `abort_requested`.
  unfoldable pub compio_result : Bool → JoinResult (Option Output) → JoinResult Output
  compio_result requested (joined (some value)) = joined value
  compio_result requested (joined none) =
      failed (if requested then JoinError.aborted else JoinError.empty)
  compio_result requested (failed e) = failed (if requested then JoinError.aborted else e)

  -- The arms of the tokio `match`.
  unfoldable pub tokio_result : Bool → TokioError ⊎ Output → JoinResult Output
  tokio_result requested (inr value) = joined value
  tokio_result requested (inl e) =
      failed (if rt.is_cancelled e && requested then JoinError.aborted else from_tokio e)

  -- A closed channel, or a task that async-task has dropped, is a cancelled task.
  unfoldable pub or_cancelled : Option (JoinResult Output) → JoinResult Output
  or_cancelled (some result) = result
  or_cancelled none = failed JoinError.cancelled

  -- `futures::ready!`, and what is done to the result.
  unfoldable pub ready_map : {A B : Type 0} → (A → B) → Poll A → Poll B
  ready_map f (ready a) = ready (f a)
  ready_map f pending = pending

  -- `Future::poll` of `JoinHandle`.
  unfoldable pub poll : JoinHandle rt → World → PolledHandle rt
  poll (tokio_handle slot requested) w =
      let r = rt.tokio_poll slot w in
      record {
        poll = ready_map (tokio_result requested) r.poll;
        handle = tokio_handle r.slot requested;
        world = r.world;
      }
  poll (compio_handle state requested) w =
      let r = poll_compio state w in
      record {
        poll = ready_map (compio_result requested) r.poll;
        handle = compio_handle r.handle requested;
        world = r.world;
      }
  poll (smol_handle slot h) w =
      let r = rt.smol_poll slot w in
      record {
        poll = ready_map or_cancelled r.poll;
        handle = smol_handle r.slot h;
        world = r.world;
      }
  poll (custom_handle slot h finished) w =
      let r = rt.receiver_poll slot w in
      record {
        poll = ready_map or_cancelled r.poll;
        handle = custom_handle r.slot h finished;
        world = r.world;
      }
  poll empty_handle w = record {
    poll = ready (failed JoinError.empty);
    handle = empty_handle;
    world = w;
  }

  -- What can happen to a handle: a call of one of its methods, or a change of the world elsewhere.
  pub data Event : Type 0 where
    aborts : Event
    checks : Event
    polls : Event
    elsewhere : (World → World) → Event

  unfoldable pub happens : Event → Handled rt → Handled rt
  happens aborts s = abort rt s.handle s.world
  happens checks s =
      let r = is_finished rt s.handle s.world in record { handle = r.handle; world = r.world }
  happens polls s = let r = poll s.handle s.world in record { handle = r.handle; world = r.world }
  happens (elsewhere f) s = record s { world = f s.world }

  unfoldable pub history : List Event → Handled rt → Handled rt
  history [] s = s
  history (e ∷ es) s = history es (happens e s)
