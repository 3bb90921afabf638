-- ===== src/JoinHandle/Unclaimed.antt =====
-- `JoinHandle` of src/lib.rs on compio: a result that no poll has returned yet is kept, whatever
-- `abort` and `is_finished`, which poll the cancelling future themselves, are called in between.
use async_rt.Prelude.{
  Bool, true, false, ◌||◌, Option, none, some, List, [], ◌∷◌, ◌≡◌, refl, ap, ◌∙◌, ◌⊎◌, inl, inr,
  Poll, ready, pending, subst,
}
use async_rt.JoinHandle.Runtimes.{CompioError, Runtimes}
use async_rt.JoinHandle.Handle.{
  running, cancelling, compio_ready, JoinHandle, compio_handle, Handled, compio, poll_cancel,
  start_compio_cancel, abort, is_finished, Checked,
}
use async_rt.JoinHandle.Joining.{
  ready_map, poll_compio, poll, Event, aborts, checks, polls, elsewhere, happens, history,
}
use async_rt.JoinHandle.Owed.{Owing, runs, steps, owed, Waited, history-steps, poll-owed}
use async_rt.JoinHandle.Told.{called}

abbrev pub IsReady : {A : Type 0} → Poll A → Type 0
IsReady (ready a) = Unit {0}
IsReady pending = ⊥

module _ (rt : Runtimes) where
  open rt use {World, Output, CompioHandle}

  -- The task is running and has not been aborted, or the cancelling future or its result is held.
  abbrev Held : Bool → JoinHandle rt → Type 0
  Held c (compio_handle (running (some h)) requested) = c ≡ false
  Held c (compio_handle (cancelling f) requested) = requested ≡ true
  Held c (compio_handle (compio_ready (some r)) requested) = requested ≡ true
  Held c _ = ⊥

  Held-cancel :
      (c : Bool) (f : rt.CancelFuture) (w : World)
      → Held c (compio_handle (poll_cancel rt f w).handle true)
  unfolding poll_cancel
  Held-cancel c f w = go (rt.cancel_poll f w).poll refl
    where
      go :
          (p : Poll (Option Output))
          → (rt.cancel_poll f w).poll ≡ p
          → Held c (compio_handle (poll_cancel rt f w).handle true)
      go (ready result) e = rw (e, Held, poll_cancel) refl
      go pending e = rw (e, Held, poll_cancel) refl

  Held-abort :
      (c : Bool) (h : JoinHandle rt) (w : World) → Held c h → Held true (abort rt h w).handle
  unfolding abort start_compio_cancel
  Held-abort c (compio_handle (running (some h)) requested) w held =
      Held-cancel true (rt.compio_cancel h w).future (rt.compio_cancel h w).world
  Held-abort c (compio_handle (running none) requested) w held = absurd held
  Held-abort c (compio_handle (cancelling f) requested) w held = held
  Held-abort c (compio_handle (compio_ready (some r)) requested) w held = held
  Held-abort c (compio_handle (compio_ready none) requested) w held = absurd held
  Held-abort c _ w held = absurd held

  Held-checks :
      (c : Bool) (h : JoinHandle rt) (w : World) → Held c h → Held c (is_finished rt h w).handle
  unfolding is_finished
  Held-checks c (compio_handle (running (some h)) requested) w held = held
  Held-checks c (compio_handle (running none) requested) w held = absurd held
  Held-checks c (compio_handle (cancelling f) requested) w held = go (rt.cancel_poll f w).poll refl
    where
      go :
          (p : Poll (Option Output))
          → (rt.cancel_poll f w).poll ≡ p
          → Held c (is_finished rt (compio_handle (cancelling f) requested) w).handle
      go (ready result) e = rw (e, Held, is_finished) held
      go pending e = rw (e, Held, is_finished) held
  Held-checks c (compio_handle (compio_ready (some r)) requested) w held = held
  Held-checks c (compio_handle (compio_ready none) requested) w held = absurd held
  Held-checks c _ w held = absurd held

  -- A held result survives a poll that is pending.
  Held-polls :
      (c : Bool) (h : JoinHandle rt) (w : World)
      → Held c h
      → (poll rt h w).poll ≡ pending
      → Held c (poll rt h w).handle
  unfolding poll poll_compio ready_map
  Held-polls c (compio_handle (running (some h)) requested) w held waits =
      go (rt.compio_poll h w).poll refl waits
    where
      go :
          (p : Poll (CompioError ⊎ Output))
          → (rt.compio_poll h w).poll ≡ p
          → (poll rt (compio_handle (running (some h)) requested) w).poll ≡ pending
          → Held c (poll rt (compio_handle (running (some h)) requested) w).handle
      go (ready (inl x)) e = rw (e, poll_compio) (λ q. cc)
      go (ready (inr x)) e = rw (e, poll_compio) (λ q. cc)
      go pending e = rw (e, Held, poll_compio) (λ q. held)
  Held-polls c (compio_handle (running none) requested) w held waits = absurd held
  Held-polls c (compio_handle (cancelling f) requested) w held waits =
      go (rt.cancel_poll f w).poll refl waits
    where
      go :
          (p : Poll (Option Output))
          → (rt.cancel_poll f w).poll ≡ p
          → (poll rt (compio_handle (cancelling f) requested) w).poll ≡ pending
          → Held c (poll rt (compio_handle (cancelling f) requested) w).handle
      go (ready result) e = rw (e, poll_compio) (λ q. cc)
      go pending e = rw (e, Held, poll_compio) (λ q. held)
  Held-polls c (compio_handle (compio_ready (some r)) requested) w held waits = cc
  Held-polls c (compio_handle (compio_ready none) requested) w held waits = absurd held
  Held-polls c _ w held waits = absurd held

  or_true : (b : Bool) → b || true ≡ true
  or_true true = refl
  or_true false = refl

  Held-history :
      (c : Bool) (es : List (Event rt)) (s : Handled rt)
      → Held c s.handle
      → Waited rt es s
      → Held (called rt es || c) (history rt es s).handle
  unfolding history happens
  Held-history c [] s held waits = held
  Held-history c (aborts ∷ es) s held waits =
      weaken (Held-history true es (happens rt aborts s) (Held-abort c s.handle s.world held) waits)
    where
      weaken :
          Held (called rt es || true) (history rt es (happens rt aborts s)).handle
          → Held true (history rt es (happens rt aborts s)).handle
      weaken =
          subst (λ b. Held b (history rt es (happens rt aborts s)).handle) (or_true (called rt es))
  Held-history c (checks ∷ es) s held waits =
      Held-history c es (happens rt checks s) (Held-checks c s.handle s.world held) waits
  Held-history c (polls ∷ es) s held waits =
      Held-history c es (happens rt polls s) (Held-polls c s.handle s.world held waits.0) waits.1
  Held-history c (elsewhere f ∷ es) s held waits =
      Held-history c es (happens rt (elsewhere f) s) held waits

  checked-Ready :
      (h : JoinHandle rt) (w w' : World)
      → Held true h
      → (is_finished rt h w).answer ≡ true
      → IsReady (poll rt (is_finished rt h w).handle w').poll
  unfolding is_finished poll poll_compio ready_map
  checked-Ready (compio_handle (running (some h)) requested) w w' held done = cc
  checked-Ready (compio_handle (running none) requested) w w' held done = absurd held
  checked-Ready (compio_handle (cancelling f) requested) w w' held done =
      go (rt.cancel_poll f w).poll refl done
    where
      checked : Checked rt
      checked = is_finished rt (compio_handle (cancelling f) requested) w

      go :
          (p : Poll (Option Output))
          → (rt.cancel_poll f w).poll ≡ p
          → checked.answer ≡ true
          → IsReady (poll rt checked.handle w').poll
      go (ready result) e = rw (e, is_finished) (λ q. tt)
      go pending e = rw (e, is_finished) (λ q. cc)
  checked-Ready (compio_handle (compio_ready (some r)) requested) w w' held done = tt
  checked-Ready (compio_handle (compio_ready none) requested) w w' held done = absurd held
  checked-Ready _ w w' held done = absurd held

  -- For a task on compio, after any history of its handle in which no poll was ready, the next poll
  -- answers what is owed: until `abort` starts a cancelling future, what the poll of the task itself
  -- says; then the result of that future, the one that `abort` or `is_finished` was given or else the one
  -- that this poll is given: its value if there is one, and `Aborted` otherwise.
  pub history-Unclaimed :
      (h : CompioHandle) (es : List (Event rt)) (w : World)
      → let start : Handled rt = record { handle = compio rt h; world = w } in
        let s = history rt es start in
        let o = steps rt es (record { task = runs h; world = w }) in
        Waited rt es start → (poll rt s.handle s.world).poll ≡ owed rt o.task o.world
  unfolding compio
  history-Unclaimed h es w waits =
      let start : Owing rt = record { task = runs h; world = w } in
      let o = steps rt es start in
      ap (λ s. (poll rt s.handle s.world).poll) (history-steps rt es start waits)
      ∙ poll-owed rt o.task o.world

  -- For a task on compio, after any history of its handle in which `abort` is called and no poll was
  -- ready: if `is_finished` answers true, the next poll is ready, in whatever state the world is then.
  pub history-Checked :
      (h : CompioHandle) (es : List (Event rt)) (w w' : World)
      → let start : Handled rt = record { handle = compio rt h; world = w } in
        let s = history rt es start in
        Waited rt es start
        → called rt es ≡ true
        → (is_finished rt s.handle s.world).answer ≡ true
        → IsReady (poll rt (is_finished rt s.handle s.world).handle w').poll
  unfolding compio
  history-Checked h es w w' waits asked =
      let start : Handled rt = record { handle = compio rt h; world = w } in
      let s = history rt es start in
      let held = Held-history false es start refl waits in
      checked-Ready s.handle s.world w' (subst (λ b. Held (b || false) s.handle) asked held)
