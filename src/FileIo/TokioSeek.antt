-- ===== src/FileIo/TokioSeek.antt =====
-- src/fs/io.rs: the tokio arm of `poll_seek`.
use async_rt.Prelude.{
  ℕ, suc, true, Option, none, some, Poll, ready, pending, ◌≡◌, ◌≢◌, refl, sym, ap, ◌∙◌, ◌⊎◌, inl,
  inr, Bool-cases,
}
use async_rt.Prelude.Io.{Result, ok, err}
use async_rt.Seek.{SeekFrom, same_request}
use async_rt.Seek.Laws.{same_request_iff}
use async_rt.FileIo.Operation.{Backend, Machine}
use async_rt.FileIo.Internal.{Polled}
use async_rt.FileIo.Entry.{start_tokio_seek, tokio_seek_loop}

module _ (backend : Backend) (position : SeekFrom) (was : Option SeekFrom)
    (at : backend.World) where
  -- The runtime's seek that is completed in this world has been started for this position: by the call
  -- before, or by this one.
  abbrev pub StartedFor : backend.World → Type 0
  StartedFor w =
      ((was ≡ some position) × (w ≡ at))
      ⊎ ((w₀ : backend.World) × ((backend.tokio_start_seek position w₀).result ≡ ok tt)
          × (w ≡ (backend.tokio_start_seek position w₀).world))

  abbrev pub Answered : Option (Poll (Result ℕ)) → Machine backend → Type 0
  Answered none m = ⊥
  Answered (some pending) m = m.io.futures_seek ≢ none
  Answered (some (ready (ok p))) m =
      (m.io.futures_seek ≡ none)
      × ((w : backend.World) × StartedFor w × ((backend.tokio_poll_complete w).poll ≡ ready (ok p)))
  Answered (some (ready (err kind))) m = m.io.futures_seek ≡ none

  abbrev Good : Polled backend ℕ → Type 0
  Good r = Answered r.result r.machine

  start-Good :
      (more : Machine backend → Polled backend ℕ) (m : Machine backend)
      → m.io.futures_seek ≡ none
      → ((m' : Machine backend)
          → m'.io.futures_seek ≡ some position
          → StartedFor m'.world
          → Good (more m'))
      → Good (start_tokio_seek backend more position m)
  unfolding start_tokio_seek
  start-Good more m e goes = go (backend.tokio_start_seek position m.world).result refl
    where
      go :
          (q : Result (Unit {0}))
          → (backend.tokio_start_seek position m.world).result ≡ q
          → Good (start_tokio_seek backend more position m)
      go (ok u) h = rw (h, start_tokio_seek) (goes _ refl (inr (m.world, h, refl)))
      go (err kind) h = rw (h, start_tokio_seek) e

  -- A round that finds its own seek started completes it, or waits.
  own-Good :
      (fuel : ℕ) (m : Machine backend)
      → m.io.futures_seek ≡ some position
      → StartedFor m.world
      → Good (tokio_seek_loop backend (suc fuel) position m)
  unfolding tokio_seek_loop
  own-Good fuel m e started = go (backend.tokio_poll_complete m.world).poll refl
    where
      same : same_request position position ≡ true
      same = (same_request_iff position position).1 refl

      go :
          (p : Poll (Result ℕ))
          → (backend.tokio_poll_complete m.world).poll ≡ p
          → Good (tokio_seek_loop backend (suc fuel) position m)
      go pending h = rw (e, tokio_seek_loop) (rw (h, tokio_seek_loop) (λ n. cc (sym e ∙ n)))
      go (ready (ok p)) h =
          rw (e, tokio_seek_loop) (rw (h, same, tokio_seek_loop) (refl, (m.world, started, h)))
      go (ready (err kind)) h = rw (e, tokio_seek_loop) (rw (h, same, tokio_seek_loop) refl)

  -- Two rounds of the loop are enough: it returns. While it waits, the seek in flight is remembered
  -- for the next call. A position is reported only as the completion of a seek that was started for
  -- exactly the requested position, by this call or by an earlier one that was left waiting; the
  -- completion of a seek for another position is used up and a new seek is started.
  pub tokio_seek_loop-Answered :
      (m : Machine backend)
      → m.io.futures_seek ≡ was
      → m.world ≡ at
      → let r = tokio_seek_loop backend 2 position m in Answered r.result r.machine
  unfolding tokio_seek_loop
  tokio_seek_loop-Answered m e w = go m.io.futures_seek refl
    where
      done : Machine backend
      done = record m {
        io = record (m.io) { futures_seek = none };
        world = (backend.tokio_poll_complete m.world).world;
      }

      more : Machine backend → Polled backend ℕ
      more = tokio_seek_loop backend 1 position

      found :
          (requested : SeekFrom) (q : Poll (Result ℕ))
          → m.io.futures_seek ≡ some requested
          → (backend.tokio_poll_complete m.world).poll ≡ q
          → Good (tokio_seek_loop backend 2 position m)
      found requested pending f h =
          rw (f, tokio_seek_loop) (rw (h, tokio_seek_loop) (λ n. cc (sym f ∙ n)))
      found requested (ready result) f h = elim (Bool-cases (same_request requested position)) [
        | inl s ↦
            rw (f, tokio_seek_loop)
              (rw (h, s, tokio_seek_loop)
                (answered result (sym e ∙ f ∙ ap some ((same_request_iff requested position).0 s))
                  h))
        | inr s ↦ rw (f, tokio_seek_loop) (rw (h, s, tokio_seek_loop) (restart result))
      ]
        where
          answered :
              (q : Result ℕ)
              → was ≡ some position
              → (backend.tokio_poll_complete m.world).poll ≡ ready q
              → Answered (some (ready q)) done
          answered (ok p) same k = (refl, (m.world, inl (same, w), k))
          answered (err kind) same k = refl

          restart :
              (q : Result ℕ)
              → Good (elim q [
                | ok p ↦ start_tokio_seek backend more position done
                | err kind ↦ record { result = some (ready (err kind)); machine = done }
              ])
          restart (ok p) = start-Good more done refl (own-Good 0)
          restart (err kind) = refl

      go :
          (o : Option SeekFrom)
          → m.io.futures_seek ≡ o
          → Good (tokio_seek_loop backend 2 position m)
      go none f = rw (f, tokio_seek_loop) (start-Good more m f (own-Good 0))
      go (some requested) f = found requested (backend.tokio_poll_complete m.world).poll f refl
