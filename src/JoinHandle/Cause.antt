-- ===== src/JoinHandle/Cause.antt =====
-- `JoinHandle` of src/lib.rs, what a cancelled task is reported as.
use async_rt.Prelude.{
  Bool, true, false, if◌then◌else◌, Option, none, some, List, ◌≡◌, refl, sym, ◌∙◌, ◌⊎◌, inl, inr,
  Poll, ready, pending, ◌≢◌, Bool-cases, Option-cases,
}
use async_rt.JoinHandle.Runtimes.{JoinError, JoinResult, joined, failed, CompioError, Runtimes}
use async_rt.JoinHandle.Handle.{
  InnerCompioHandle, running, cancelling, compio_ready, JoinHandle, tokio_handle, compio_handle,
  smol_handle, custom_handle, empty_handle, Handled,
}
use async_rt.JoinHandle.Joining.{
  from_compio, from_tokio, tokio_result, compio_result, ready_map, poll_compio, poll, Event,
  history,
}
use async_rt.JoinHandle.Told.{Told, Told-history, Told-made, called, made}

-- `Aborted` only after a call of `abort`, `Cancelled` only without one.
abbrev pub Reported : {A : Type 0} → Bool → Poll (JoinResult A) → Type 0
Reported called (ready (failed JoinError.aborted)) = called ≡ true
Reported called (ready (failed JoinError.cancelled)) = called ≡ false
Reported called _ = Unit {0}

module _ (rt : Runtimes) where
  open rt use {World, Output, TokioHandle, CompioHandle}

  -- An error of a compio handle, as the arms of the `match` change it.
  aborted_if-Reported :
      (c requested : Bool) (e : JoinError)
      → (requested ≡ true → c ≡ true)
      → (e ≡ JoinError.cancelled → requested ≡ c)
      → e ≢ JoinError.aborted
      → Reported {A = Output} c (ready (failed (if requested then JoinError.aborted else e)))
  aborted_if-Reported c true e h same n = h refl
  aborted_if-Reported c false JoinError.cancelled h same n = sym (same refl)
  aborted_if-Reported c false JoinError.aborted h same n = absurd (n refl)
  aborted_if-Reported c false JoinError.panicked h same n = tt
  aborted_if-Reported c false JoinError.empty h same n = tt
  aborted_if-Reported c false JoinError.unknown h same n = tt

  joined-Reported :
      (c requested : Bool) (o : Option Output)
      → (requested ≡ true → c ≡ true)
      → Reported c (ready (compio_result rt requested (joined o)))
  unfolding compio_result
  joined-Reported c requested none h =
      aborted_if-Reported c requested JoinError.empty h (λ e. cc) (λ e. cc)
  joined-Reported c requested (some v) h = tt

  from_compio-Reported :
      (c requested : Bool) (e : CompioError)
      → requested ≡ c
      → Reported {A = Output} c (ready (compio_result rt requested (failed (from_compio e))))
  unfolding compio_result from_compio
  from_compio-Reported c requested CompioError.compio_cancelled h =
      aborted_if-Reported c requested JoinError.cancelled (λ r. sym h ∙ r) (λ e. h) (λ e. cc)
  from_compio-Reported c requested CompioError.compio_panicked h =
      aborted_if-Reported c requested JoinError.panicked (λ r. sym h ∙ r) (λ e. cc) (λ e. cc)

  tokio_result-Reported :
      (c requested : Bool) (r : rt.TokioError ⊎ Output)
      → requested ≡ c
      → Reported c (ready (tokio_result rt requested r))
  unfolding tokio_result from_tokio
  tokio_result-Reported c requested (inr v) h = tt
  tokio_result-Reported c requested (inl e) h = elim (Bool-cases (rt.is_cancelled e)) [
    | inl x ↦ elim (Bool-cases requested) [
      | inl y ↦ rw (x, y) (sym h ∙ y)
      | inr y ↦ rw (x, y) (sym h ∙ y)
    ]
    | inr x ↦ elim (Bool-cases (rt.is_panic e)) [ inl z ↦ rw (x, z) tt | inr z ↦ rw (x, z) tt ]
  ]

  taken-Reported :
      (c requested : Bool)
      → c ≡ true
      → Reported {A = Output} c (ready (compio_result rt requested (failed JoinError.empty)))
  unfolding compio_result
  taken-Reported c requested h =
      aborted_if-Reported c requested JoinError.empty (λ _. h) (λ e. cc) (λ e. cc)

  poll_compio-Reported :
      (c requested : Bool) (h : InnerCompioHandle rt) (w : World)
      → Told rt c (compio_handle h requested)
      → Reported c (ready_map rt (compio_result rt requested) (poll_compio rt h w).poll)
  unfolding poll_compio ready_map
  poll_compio-Reported c requested (running none) w told = joined-Reported c requested none told
  poll_compio-Reported c requested (running (some h)) w told = go (rt.compio_poll h w).poll refl
    where
      go :
          (p : Poll (CompioError ⊎ Output))
          → (rt.compio_poll h w).poll ≡ p
          → Reported c
              (ready_map rt (compio_result rt requested) (poll_compio rt (running (some h)) w).poll)
      go (ready (inl x)) e = rw (e, poll_compio) (from_compio-Reported c requested x told)
      go (ready (inr x)) e =
          rw (e, poll_compio) (joined-Reported c requested (some x) (λ r. sym told ∙ r))
      go pending e = rw (e, poll_compio) tt
  poll_compio-Reported c requested (cancelling f) w told = go (rt.cancel_poll f w).poll refl
    where
      go :
          (p : Poll (Option Output))
          → (rt.cancel_poll f w).poll ≡ p
          → Reported c
              (ready_map rt (compio_result rt requested) (poll_compio rt (cancelling f) w).poll)
      go (ready result) e = rw (e, poll_compio) (joined-Reported c requested result (λ _. told.1))
      go pending e = rw (e, poll_compio) tt
  poll_compio-Reported c requested (compio_ready (some r)) w told =
      joined-Reported c requested r (λ _. told.1)
  poll_compio-Reported c requested (compio_ready none) w told = taken-Reported c requested told.1

  both : (a b : Bool) → (a ≡ true → b ≡ true) → (b ≡ true → a ≡ true) → a ≡ b
  both true b f g = sym (f refl)
  both false true f g = g refl
  both false false f g = refl

  poll-Reported :
      (c : Bool) (h : JoinHandle rt) (w : World) → Told rt c h → Reported c (poll rt h w).poll
  unfolding poll ready_map
  poll-Reported c (tokio_handle slot requested) w told =
      elim (Option-cases (rt.tokio_as_ref slot)) [
        | inl e ↦ rw (rt.tokio_waits slot w e) tt
        | inr (h, e) ↦ go h e (rt.tokio_poll slot w).poll refl
      ]
    where
      go :
          (h : TokioHandle)
          → rt.tokio_as_ref slot ≡ some h
          → (p : Poll (rt.TokioError ⊎ Output)) → (rt.tokio_poll slot w).poll ≡ p
          → Reported c (poll rt (tokio_handle slot requested) w).poll
      go h full (ready r) e = rw e (
          tokio_result-Reported c requested r
            (both requested c told.0 (λ hc. elim (told.1 hc) [ inl q ↦ q | inr empty ↦ cc ])))
      go h full pending e = rw e tt
  poll-Reported c (compio_handle h requested) w told = poll_compio-Reported c requested h w told
  poll-Reported c (smol_handle slot h) w told = absurd told
  poll-Reported c (custom_handle slot h f) w told = absurd told
  poll-Reported c empty_handle w told = absurd told

  -- For a task on tokio or compio, after any history of its handle: a poll reports `Aborted` only if
  -- `abort` has been called through the handle, and `Cancelled` only if it has not.
  pub history-Reported :
      (h : TokioHandle ⊎ CompioHandle) (es : List (Event rt)) (w : World)
      → let s = history rt es (record { handle = made rt h; world = w }) in
        Reported (called rt es) (poll rt s.handle s.world).poll
  history-Reported h es w =
      let start : Handled rt = record { handle = made rt h; world = w } in
      let s = history rt es start in
      poll-Reported (called rt es) s.handle s.world
        (Told-history rt false es start (Told-made rt h))
