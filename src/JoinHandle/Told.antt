-- ===== src/JoinHandle/Told.antt =====
-- `JoinHandle` of src/lib.rs: the invariant `Told c`, which connects `abort_requested` with whether
-- `abort` has been called, over any history of a handle that tokio or compio made.
use async_rt.Prelude.{
  Bool, true, false, ◌||◌, Option, none, some, List, [], ◌∷◌, ◌≡◌, refl, sym, ◌∙◌, ◌⊎◌, inl, inr,
  Poll, ready, pending, subst, Option-cases,
}
use async_rt.JoinHandle.Runtimes.{CompioError, Runtimes}
use async_rt.JoinHandle.Handle.{
  InnerCompioHandle, running, cancelling, compio_ready, JoinHandle, tokio_handle, compio_handle,
  smol_handle, custom_handle, empty_handle, Handled, tokio, compio, poll_cancel,
  start_compio_cancel, abort, is_finished,
}
use async_rt.JoinHandle.Joining.{
  poll_compio, poll, Event, aborts, checks, polls, elsewhere, happens, history,
}

module _ (rt : Runtimes) where
  open rt use {World, Output, TokioHandle, CompioHandle}

  -- The handles that `InnerJoinHandle::tokio` and `InnerJoinHandle::compio` make.
  abbrev pub made : TokioHandle ⊎ CompioHandle → JoinHandle rt
  made (inl h) = tokio rt h
  made (inr h) = compio rt h

  abbrev pub is_abort : Event rt → Bool
  is_abort aborts = true
  is_abort _ = false

  -- Whether `abort` is called in a history.
  abbrev pub called : List (Event rt) → Bool
  called [] = false
  called (e ∷ es) = is_abort e || called es

  abbrev pub Told : Bool → JoinHandle rt → Type 0
  Told c (tokio_handle slot requested) =
      (requested ≡ true → c ≡ true)
      × (c ≡ true → (requested ≡ true) ⊎ (rt.tokio_as_ref slot ≡ none))
  Told c (compio_handle (running none) requested) = requested ≡ true → c ≡ true
  Told c (compio_handle (running (some h)) requested) = requested ≡ c
  Told c (compio_handle _ requested) = (requested ≡ true) × (c ≡ true)
  Told c _ = ⊥

  Told-cancel :
      (f : rt.CancelFuture) (w : World) → Told true (compio_handle (poll_cancel rt f w).handle true)
  unfolding poll_cancel
  Told-cancel f w = go (rt.cancel_poll f w).poll refl
    where
      go :
          (p : Poll (Option Output))
          → (rt.cancel_poll f w).poll ≡ p
          → Told true (compio_handle (poll_cancel rt f w).handle true)
      go (ready result) e = rw (e, Told, poll_cancel) (refl, refl)
      go pending e = rw (e, Told, poll_cancel) (refl, refl)

  Told-abort :
      (c : Bool) (h : JoinHandle rt) (w : World) → Told c h → Told true (abort rt h w).handle
  unfolding abort start_compio_cancel
  Told-abort c (tokio_handle slot requested) w told = elim (Option-cases (rt.tokio_as_ref slot)) [
    | inl e ↦ rw (e, Told, abort) ((λ _. refl), (λ _. inr e))
    | inr (h, e) ↦ rw (e, Told, abort) ((λ _. refl), (λ _. inl refl))
  ]
  Told-abort c (compio_handle (running none) requested) w told = λ _. refl
  Told-abort c (compio_handle (running (some h)) requested) w told =
      Told-cancel (rt.compio_cancel h w).future (rt.compio_cancel h w).world
  Told-abort c (compio_handle (cancelling f) requested) w told = (told.0, refl)
  Told-abort c (compio_handle (compio_ready r) requested) w told = (told.0, refl)
  Told-abort c (smol_handle slot h) w told = told
  Told-abort c (custom_handle slot h f) w told = told
  Told-abort c empty_handle w told = told

  Told-checks :
      (c : Bool) (h : JoinHandle rt) (w : World) → Told c h → Told c (is_finished rt h w).handle
  unfolding is_finished
  Told-checks c (tokio_handle slot requested) w told = told
  Told-checks c (compio_handle (running none) requested) w told = told
  Told-checks c (compio_handle (running (some h)) requested) w told = told
  Told-checks c (compio_handle (cancelling f) requested) w told = go (rt.cancel_poll f w).poll refl
    where
      go :
          (p : Poll (Option Output))
          → (rt.cancel_poll f w).poll ≡ p
          → Told c (is_finished rt (compio_handle (cancelling f) requested) w).handle
      go (ready result) e = rw (e, Told, is_finished) told
      go pending e = rw (e, Told, is_finished) told
  Told-checks c (compio_handle (compio_ready r) requested) w told = told
  Told-checks c (smol_handle slot h) w told = told
  Told-checks c (custom_handle slot h f) w told = told
  Told-checks c empty_handle w told = told

  Told-poll_compio :
      (c : Bool) (h : InnerCompioHandle rt) (requested : Bool) (w : World)
      → Told c (compio_handle h requested)
      → Told c (compio_handle (poll_compio rt h w).handle requested)
  unfolding poll_compio
  Told-poll_compio c (running none) requested w told = told
  Told-poll_compio c (running (some h)) requested w told = go (rt.compio_poll h w).poll refl
    where
      go :
          (p : Poll (CompioError ⊎ Output))
          → (rt.compio_poll h w).poll ≡ p
          → Told c (compio_handle (poll_compio rt (running (some h)) w).handle requested)
      go (ready (inl x)) e = rw (e, Told, poll_compio) (λ t. sym told ∙ t)
      go (ready (inr x)) e = rw (e, Told, poll_compio) (λ t. sym told ∙ t)
      go pending e = rw (e, Told, poll_compio) told
  Told-poll_compio c (cancelling f) requested w told = go (rt.cancel_poll f w).poll refl
    where
      go :
          (p : Poll (Option Output))
          → (rt.cancel_poll f w).poll ≡ p
          → Told c (compio_handle (poll_compio rt (cancelling f) w).handle requested)
      go (ready result) e = rw (e, Told, poll_compio) told
      go pending e = rw (e, Told, poll_compio) told
  Told-poll_compio c (compio_ready (some r)) requested w told = told
  Told-poll_compio c (compio_ready none) requested w told = told

  Told-polls : (c : Bool) (h : JoinHandle rt) (w : World) → Told c h → Told c (poll rt h w).handle
  unfolding poll
  Told-polls c (tokio_handle slot requested) w told = (
    told.0,
    λ hc. elim (told.1 hc) [ inl r ↦ inl r | inr e ↦ inr (rt.tokio_stays_empty slot w e) ],
  )
  Told-polls c (compio_handle h requested) w told = Told-poll_compio c h requested w told
  Told-polls c (smol_handle slot h) w told = told
  Told-polls c (custom_handle slot h f) w told = told
  Told-polls c empty_handle w told = told

  Told-happens :
      (c : Bool) (e : Event rt) (s : Handled rt)
      → Told c s.handle
      → Told (is_abort e || c) (happens rt e s).handle
  unfolding happens
  Told-happens c aborts s told = Told-abort c s.handle s.world told
  Told-happens c checks s told = Told-checks c s.handle s.world told
  Told-happens c polls s told = Told-polls c s.handle s.world told
  Told-happens c (elsewhere f) s told = told

  or_false : (b : Bool) → b || false ≡ b
  or_false true = refl
  or_false false = refl

  or_swap : (a b c : Bool) → (a || b) || c ≡ b || (a || c)
  or_swap true true c = refl
  or_swap true false c = refl
  or_swap false true c = refl
  or_swap false false c = refl

  pub Told-history :
      (c : Bool) (es : List (Event rt)) (s : Handled rt)
      → Told c s.handle
      → Told (c || called es) (history rt es s).handle
  unfolding history
  Told-history c [] s told = subst (λ b. Told b s.handle) (sym (or_false c)) told
  Told-history c (e ∷ es) s told =
      subst (λ b. Told b (history rt es (happens rt e s)).handle)
        (or_swap (is_abort e) c (called es))
        (Told-history (is_abort e || c) es (happens rt e s) (Told-happens c e s told))

  pub Told-made : (h : TokioHandle ⊎ CompioHandle) → Told false (made h)
  unfolding tokio compio
  Told-made (inl h) = ((λ e. e), (λ e. cc))
  Told-made (inr h) = refl
