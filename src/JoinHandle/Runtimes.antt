-- ===== src/JoinHandle/Runtimes.antt =====
-- `JoinError` of src/error.rs, and what src/lib.rs uses of other crates: the task handles of tokio, compio
-- and async-task, the one-shot channel, `AbortHandle` and `Optional`. Their `World` is the state that
-- tasks and handles share; wakers are left out.
use async_rt.Prelude.{Bool, Option, none, some, ◌≡◌, ◌⊎◌, Poll, pending}

-- `JoinError` of src/error.rs.
pub data JoinError : Type 0 where
  cancelled : JoinError
  aborted : JoinError
  panicked : JoinError
  empty : JoinError
  unknown : JoinError

pub data JoinResult {ℓ} (A : Type ℓ) : Type ℓ where
  joined : A → JoinResult A
  failed : JoinError → JoinResult A

-- `compio::runtime::JoinError`.
pub data CompioError : Type 0 where
  compio_cancelled : CompioError
  compio_panicked : CompioError

pub record Runtimes : Type 1 where
  pub World : Type 0
  pub Output : Type 0
  -- `tokio::task::JoinHandle`, an `Optional` of it, and `tokio::task::JoinError`.
  pub TokioHandle : Type 0
  pub TokioSlot : Type 0
  pub TokioError : Type 0
  pub tokio_slot : TokioHandle → TokioSlot
  pub tokio_as_ref : TokioSlot → Option TokioHandle
  pub tokio_poll :
      TokioSlot
      → World
      → record { poll : Poll (TokioError ⊎ Output); slot : TokioSlot; world : World }
  pub tokio_abort : TokioHandle → World → World
  pub tokio_is_finished : TokioHandle → World → Bool
  pub is_cancelled : TokioError → Bool
  pub is_panic : TokioError → Bool
  -- `compio::runtime::JoinHandle` and the future of its `cancel`.
  pub CompioHandle : Type 0
  pub CancelFuture : Type 0
  pub compio_poll :
      CompioHandle
      → World
      → record { poll : Poll (CompioError ⊎ Output); handle : CompioHandle; world : World }
  pub compio_is_finished : CompioHandle → World → Bool
  pub compio_cancel : CompioHandle → World → record { future : CancelFuture; world : World }
  pub cancel_poll :
      CancelFuture
      → World
      → record { poll : Poll (Option Output); future : CancelFuture; world : World }
  -- An `Optional` of `async_task::FallibleTask`.
  pub SmolSlot : Type 0
  pub smol_is_finished : SmolSlot → World → Option Bool
  pub smol_poll :
      SmolSlot
      → World
      → record { poll : Poll (Option (JoinResult Output)); slot : SmolSlot; world : World }
  -- An `Optional` of the channel's `Receiver`; `none` is its error, `Canceled`.
  pub ReceiverSlot : Type 0
  pub receiver_is_none : ReceiverSlot → Bool
  pub receiver_poll :
      ReceiverSlot
      → World
      → record { poll : Poll (Option (JoinResult Output)); slot : ReceiverSlot; world : World }
  pub AbortHandle : Type 0
  pub abort_handle : AbortHandle → World → World
  -- The flag that a `CompletionGuard` sets.
  pub Finished : Type 0
  pub finished_load : Finished → World → Bool
  -- A new `Optional` is full; an empty one waits, and stays empty.
  pub tokio_as_ref-slot : (h : TokioHandle) → tokio_as_ref (tokio_slot h) ≡ some h
  pub tokio_waits :
      (s : TokioSlot) → (w : World) → tokio_as_ref s ≡ none → (tokio_poll s w).poll ≡ pending
  pub tokio_stays_empty :
      (s : TokioSlot)
      → (w : World) → tokio_as_ref s ≡ none
      → tokio_as_ref (tokio_poll s w).slot ≡ none
