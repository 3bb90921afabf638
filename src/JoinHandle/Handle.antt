-- ===== src/JoinHandle/Handle.antt =====
-- src/lib.rs: the states of a `JoinHandle`, its constructors, `abort` and `is_finished`.
use async_rt.Prelude.{Bool, true, false, ◌||◌, Option, none, some, ready, pending}
use async_rt.JoinHandle.Runtimes.{Runtimes}

-- `InnerCompioHandle`; `compio_ready` is its variant `Ready`.
pub data InnerCompioHandle (rt : Runtimes) : Type 0 where
  running : Option rt.CompioHandle → InnerCompioHandle rt
  cancelling : rt.CancelFuture → InnerCompioHandle rt
  compio_ready : Option (Option rt.Output) → InnerCompioHandle rt

-- `JoinHandle` with its `InnerJoinHandle`; the `Bool` is `abort_requested`.
pub data JoinHandle (rt : Runtimes) : Type 0 where
  tokio_handle : rt.TokioSlot → Bool → JoinHandle rt
  compio_handle : InnerCompioHandle rt → Bool → JoinHandle rt
  smol_handle : rt.SmolSlot → rt.AbortHandle → JoinHandle rt
  custom_handle : rt.ReceiverSlot → rt.AbortHandle → rt.Finished → JoinHandle rt
  empty_handle : JoinHandle rt

pub record Checked (rt : Runtimes) : Type 0 where
  pub answer : Bool
  pub handle : JoinHandle rt
  pub world : rt.World

pub record Handled (rt : Runtimes) : Type 0 where
  pub handle : JoinHandle rt
  pub world : rt.World

module _ (rt : Runtimes) where
  open rt use {World}

  unfoldable pub tokio : rt.TokioHandle → JoinHandle rt
  tokio h = tokio_handle (rt.tokio_slot h) false

  unfoldable pub compio : rt.CompioHandle → JoinHandle rt
  compio h = compio_handle (running (some h)) false

  -- The first poll of the cancelling future: `future.poll_inner()`.
  unfoldable pub poll_cancel :
      rt.CancelFuture → World → record { handle : InnerCompioHandle rt; world : World }
  poll_cancel future w =
      let r = rt.cancel_poll future w in
      elim r.poll [
        | ready result ↦ record { handle = compio_ready (some result); world = r.world }
        | pending ↦ record { handle = cancelling r.future; world = r.world }
      ]

  -- `start_compio_cancel`: nothing happens but on a running task that has not been taken.
  unfoldable pub start_compio_cancel : InnerCompioHandle rt → Bool → World → Handled rt
  start_compio_cancel (running (some h)) requested w =
      let c = rt.compio_cancel h w in
      let r = poll_cancel c.future c.world in
      record { handle = compio_handle r.handle true; world = r.world }
  start_compio_cancel state requested w = record {
    handle = compio_handle state requested;
    world = w;
  }

  -- `JoinHandle::abort`.
  unfoldable pub abort : JoinHandle rt → World → Handled rt
  abort (tokio_handle slot requested) w = elim (rt.tokio_as_ref slot) [
    | none ↦ record { handle = tokio_handle slot requested; world = w }
    | some h ↦ record { handle = tokio_handle slot true; world = rt.tokio_abort h w }
  ]
  abort (compio_handle state requested) w = start_compio_cancel state requested w
  abort (smol_handle slot h) w = record { handle = smol_handle slot h; world = rt.abort_handle h w }
  abort (custom_handle slot h finished) w = record {
    handle = custom_handle slot h finished;
    world = rt.abort_handle h w;
  }
  abort empty_handle w = record { handle = empty_handle; world = w }

  -- `JoinHandle::is_finished`, which polls a compio task that is being cancelled.
  unfoldable pub is_finished : JoinHandle rt → World → Checked rt
  is_finished (tokio_handle slot requested) w = record {
    answer = elim (rt.tokio_as_ref slot) [ none ↦ true | some h ↦ rt.tokio_is_finished h w ];
    handle = tokio_handle slot requested;
    world = w;
  }
  is_finished (compio_handle (running none) requested) w = record {
    answer = true;
    handle = compio_handle (running none) requested;
    world = w;
  }
  is_finished (compio_handle (running (some h)) requested) w = record {
    answer = rt.compio_is_finished h w;
    handle = compio_handle (running (some h)) requested;
    world = w;
  }
  is_finished (compio_handle (cancelling future) requested) w =
      let r = rt.cancel_poll future w in
      elim r.poll [
        | ready result ↦ record {
          answer = true;
          handle = compio_handle (compio_ready (some result)) requested;
          world = r.world;
        }
        | pending ↦ record {
          answer = false;
          handle = compio_handle (cancelling r.future) requested;
          world = r.world;
        }
      ]
  is_finished (compio_handle (compio_ready result) requested) w = record {
    answer = true;
    handle = compio_handle (compio_ready result) requested;
    world = w;
  }
  is_finished (smol_handle slot h) w = record {
    answer = elim (rt.smol_is_finished slot w) [ none ↦ true | some b ↦ b ];
    handle = smol_handle slot h;
    world = w;
  }
  is_finished (custom_handle slot h finished) w = record {
    answer = rt.finished_load finished w || rt.receiver_is_none slot;
    handle = custom_handle slot h finished;
    world = w;
  }
  is_finished empty_handle w = record { answer = true; handle = empty_handle; world = w }
