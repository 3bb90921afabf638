-- ===== src/JoinHandle/Examples.antt =====
-- A runtime for tests: the world is a number, and a task ends when it is 2 or more. A tokio task that
-- has been aborted, which sets the world to 9, ends as cancelled; a compio task that is cancelled
-- ends without a value.
use async_rt.Prelude.{
  ℕ, ◌+◌, true, false, ltb, if◌then◌else◌, Option, none, some, List, [], ◌∷◌, ◌≡◌, refl, ◌⊎◌, inl,
  inr, Poll, ready, pending,
}
use async_rt.JoinHandle.Runtimes.{JoinError, failed, CompioError, Runtimes}
use async_rt.JoinHandle.Handle.{tokio, compio, abort, is_finished, start_compio_cancel, poll_cancel}
use async_rt.JoinHandle.Joining.{
  poll, Event, aborts, checks, polls, elsewhere, happens, history, poll_compio, tokio_result,
  ready_map,
}
use async_rt.JoinHandle.Cause.{Reported, history-Reported}
use async_rt.JoinHandle.Owed.{runs, steps, owed, Waited}
use async_rt.JoinHandle.Unclaimed.{IsReady, history-Unclaimed, history-Checked}

-- The answer of a task in the world `w`.
abbrev ends : {A B : Type 0} → ℕ → A → B → Poll (A ⊎ B)
ends w e v = if ltb w 2 then pending else if ltb w 9 then ready (inr v) else ready (inl e)

abbrev slot_poll : Option (Unit {0}) → ℕ → Poll (Unit {0} ⊎ ℕ)
slot_poll none w = pending
slot_poll (some h) w = ends w tt 7

abbrev slot_left : Option (Unit {0}) → ℕ → Option (Unit {0})
slot_left none w = none
slot_left (some h) w = if ltb w 2 then some h else none

pub waits : (s : Option (Unit {0})) (w : ℕ) → s ≡ none → slot_poll s w ≡ pending
waits none w e = refl
waits (some h) w e = cc

pub stays : (s : Option (Unit {0})) (w : ℕ) → s ≡ none → slot_left s w ≡ none
stays none w e = refl
stays (some h) w e = cc

abbrev pub numbers : Runtimes
numbers = record {
  World = ℕ;
  Output = ℕ;
  TokioHandle = Unit {0};
  TokioSlot = Option (Unit {0});
  TokioError = Unit {0};
  tokio_slot = λ h. some h;
  tokio_as_ref = λ s. s;
  tokio_poll = λ s w. record { poll = slot_poll s w; slot = slot_left s w; world = w };
  tokio_abort = λ h w. 9;
  tokio_is_finished = λ h w. if ltb w 2 then false else true;
  is_cancelled = λ e. true;
  is_panic = λ e. false;
  CompioHandle = Unit {0};
  CancelFuture = Unit {0};
  compio_poll =
      λ h w. record { poll = ends w CompioError.compio_cancelled 7; handle = h; world = w };
  compio_is_finished = λ h w. if ltb w 2 then false else true;
  compio_cancel = λ h w. record { future = tt; world = w };
  cancel_poll =
      λ f w. record { poll = if ltb w 2 then pending else ready none; future = f; world = w };
  SmolSlot = Unit {0};
  smol_is_finished = λ s w. none;
  smol_poll = λ s w. record { poll = pending; slot = s; world = w };
  ReceiverSlot = Unit {0};
  receiver_is_none = λ s. true;
  receiver_poll = λ s w. record { poll = pending; slot = s; world = w };
  AbortHandle = Unit {0};
  abort_handle = λ h w. w;
  Finished = Unit {0};
  finished_load = λ f w. true;
  tokio_as_ref-slot = λ h. refl;
  tokio_waits = λ s w e. waits s w e;
  tokio_stays_empty = λ s w e. stays s w e;
}

-- A tokio task is polled too early, then aborted.
abbrev early_abort : List (Event numbers)
early_abort = polls ∷ aborts ∷ []

history-Reported_example :
    let s = history numbers early_abort (record { handle = tokio numbers tt; world = 0 }) in
    Reported true (poll numbers s.handle s.world).poll
history-Reported_example = history-Reported numbers (inl tt) early_abort 0

-- What is reported there.
early_abort_aborted :
    let s = history numbers early_abort (record { handle = tokio numbers tt; world = 0 }) in
    (poll numbers s.handle s.world).poll ≡ ready (failed JoinError.aborted)
unfolding history happens poll tokio abort tokio_result ready_map
early_abort_aborted = refl

-- A compio task is aborted and asked, and the world moves on.
abbrev asked : List (Event numbers)
asked = polls ∷ aborts ∷ checks ∷ elsewhere (λ w. w + 2) ∷ []

asked-Waited : Waited numbers asked (record { handle = compio numbers tt; world = 0 })
unfolding history happens poll compio poll_compio ready_map
asked-Waited = (refl, tt)

history-Unclaimed_example :
    let s = history numbers asked (record { handle = compio numbers tt; world = 0 }) in
    let o = steps numbers asked (record { task = runs tt; world = 0 }) in
    (poll numbers s.handle s.world).poll ≡ owed numbers o.task o.world
history-Unclaimed_example = history-Unclaimed numbers tt asked 0 asked-Waited

asked-answer :
    let s = history numbers asked (record { handle = compio numbers tt; world = 0 }) in
    (is_finished numbers s.handle s.world).answer ≡ true
unfolding history happens poll compio poll_compio ready_map is_finished abort start_compio_cancel
    poll_cancel
asked-answer = refl

history-Checked_example :
    let s = history numbers asked (record { handle = compio numbers tt; world = 0 }) in
    IsReady (poll numbers (is_finished numbers s.handle s.world).handle 5).poll
history-Checked_example = history-Checked numbers tt asked 0 5 asked-Waited refl asked-answer
