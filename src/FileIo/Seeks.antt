-- ===== src/FileIo/Seeks.antt =====
-- src/fs/io.rs: `poll_internal_seek` ends, and reports only positions of the seek that was asked for.
use async_rt.Prelude.{
  ℕ, true, false, Option, none, some, Poll, ready, pending, ◌≡◌, ◌≢◌, refl, sym, ap, ◌∙◌, ◌⊎◌, inl,
  inr, Bool-cases,
}
use async_rt.Prelude.Io.{Result, ok, err}
use async_rt.Seek.{SeekFrom, same_request}
use async_rt.Seek.Laws.{same_request_iff}
use async_rt.FileIo.Operation.{
  FileInner, blocking, Request, reads, writes, flushes, seeks, Operation, IoOutput, Completion,
  completed, lost, Backend, Machine, finish_discarded, poll_operation, output_at,
}
use async_rt.FileIo.Internal.{Polled, after_seek, discarded, poll_internal_seek}
use async_rt.FileIo.Rounds.{Did, CursorAt, poll_operation_cases, operation_or-none}

module _ (backend : Backend) (position : SeekFrom) where
  abbrev pub Reached : Option (Poll (Result ℕ)) → Machine backend → Type 0
  Reached none m = ⊥
  Reached (some pending) m = m.io.operation ≢ none
  Reached (some (ready (ok p))) m =
      (m.io.operation ≡ none)
      × Did backend (seeks position) (ok p)
      × CursorAt backend m.inner (some p)
  Reached (some (ready (err kind))) m = m.io.operation ≡ none

  abbrev Good : Polled backend ℕ → Type 0
  Good r = Reached r.result r.machine

  -- The loop may go on only after an operation that it has not started.
  abbrev Goes : (Machine backend → Polled backend ℕ) → Request → Type 0
  Goes more request =
      (request ≡ seeks position) ⊎ ((m : Machine backend) → m.io.operation ≡ none → Good (more m))

  foreign :
      (more : Machine backend → Polled backend ℕ) (request : Request)
      → request ≢ seeks position
      → Goes more request
      → (m : Machine backend) → m.io.operation ≡ none
      → Good (more m)
  foreign more request d (inl same) = absurd (d same)
  foreign more request d (inr goes) = goes

  discard-Good :
      (more : Machine backend → Polled backend ℕ) (m : Machine backend) (output : IoOutput)
      → m.io.operation ≡ none
      → ((m' : Machine backend) → m'.io.operation ≡ none → Good (more m'))
      → Good (elim (finish_discarded m.inner output).result [
        | ok u ↦ more (discarded backend m output)
        | err kind ↦ record {
          result = some (ready (err kind));
          machine = discarded backend m output;
        }
      ])
  discard-Good more m output e goes = go (finish_discarded m.inner output).result
    where
      go :
          (q : Result (Unit {0}))
          → Good (elim q [
            | ok u ↦ more (discarded backend m output)
            | err kind ↦ record {
              result = some (ready (err kind));
              machine = discarded backend m output;
            }
          ])
      go (ok u) = goes (discarded backend m output) e
      go (err kind) = e

  after_seek-Good :
      (more : Machine backend → Polled backend ℕ) (m : Machine backend) (file : FileInner)
      (request : Request) (c : Completion) (w : backend.World)
      → (backend.poll_job (record { file = file; request = request }) w).poll ≡ ready c
      → m.io.operation ≡ none
      → Goes more request
      → Good (after_seek backend more m position (ready (output_at file request c)))
  unfolding after_seek output_at
  after_seek-Good more m file (seeks asked) (completed (ok p) slice at) w h e g =
      elim (Bool-cases (same_request asked position)) [
        | inl s ↦ rw s (e, did s, (m.inner, refl))
        | inr s ↦ rw s (foreign more (seeks asked) (other s) g _ e)
      ]
    where
      did : same_request asked position ≡ true → Did backend (seeks position) (ok p)
      did s = record {
        file = file;
        world = w;
        slice = slice;
        position = at;
        completes =
            ap (λ b. (backend.poll_job (record { file = file; request = seeks b }) w).poll)
              (sym ((same_request_iff asked position).0 s))
            ∙ h;
      }

      request_of : Request → SeekFrom
      request_of (seeks b) = b
      request_of _ = position

      other : same_request asked position ≡ false → seeks asked ≢ seeks position
      other s q = cc (sym s ∙ (same_request_iff asked position).1 (ap request_of q))
  after_seek-Good more m file (seeks asked) (completed (err kind) slice at) w h e g = e
  after_seek-Good more m file (seeks asked) lost w h e g = e
  after_seek-Good more m file (reads n) (completed result slice at) w h e g =
      discard-Good more m _ e (foreign more (reads n) (λ q. cc) g)
  after_seek-Good more m file (reads n) lost w h e g =
      discard-Good more m _ e (foreign more (reads n) (λ q. cc) g)
  after_seek-Good more m file (writes b) (completed result slice at) w h e g =
      discard-Good more m _ e (foreign more (writes b) (λ q. cc) g)
  after_seek-Good more m file (writes b) lost w h e g =
      discard-Good more m _ e (foreign more (writes b) (λ q. cc) g)
  after_seek-Good more m blocking flushes (completed result slice at) w h e g =
      discard-Good more m _ e (foreign more flushes (λ q. cc) g)
  after_seek-Good more m _ flushes c w h e g =
      discard-Good more m _ e (foreign more flushes (λ q. cc) g)

  round-Good :
      (more : Machine backend → Polled backend ℕ) (o : Operation) (m : Machine backend)
      → Goes more o.request
      → let r = poll_operation backend o m in
        Good (after_seek backend more r.machine position r.poll)
  unfolding after_seek
  round-Good more o m g =
      poll_operation_cases backend (λ p m'. Good (after_seek backend more m' position p)) o m
        (λ w n. cc) (λ c w h. after_seek-Good more _ o.file o.request c m.world h refl g)

  own-Good :
      (m : Machine backend) → m.io.operation ≡ none → Good (poll_internal_seek backend 1 m position)
  unfolding poll_internal_seek
  own-Good m e =
      rw (operation_or-none backend (seeks position) m e)
        (round-Good (λ m'. poll_internal_seek backend 0 m' position) _ m (inl refl))

  -- Two rounds of `poll_internal_seek` are enough: it returns. While it waits, its operation stays
  -- pending for the next call. It reports a position only if a seek job for exactly this request has
  -- completed with it, and the cursor of the file is then this position.
  pub poll_internal_seek-Reached :
      (m : Machine backend)
      → let r = poll_internal_seek backend 2 m position in Reached r.result r.machine
  unfolding poll_internal_seek
  poll_internal_seek-Reached m =
      round-Good (λ m'. poll_internal_seek backend 1 m' position) _ m (inr own-Good)
