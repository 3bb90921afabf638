-- ===== src/FileIo/Writes.antt =====
-- src/fs/io.rs: `poll_internal_write` ends, and acknowledges only what it was given.
use async_rt.Prelude.{
  ℕ, true, false, Option, none, some, List, [], Poll, ready, pending, ◌≡◌, ◌≢◌, refl, sym, ap, ◌∙◌,
  ◌⊎◌, inl, inr, Bool-cases,
}
use async_rt.Prelude.Io.{Result, ok, err}
use async_rt.FileIo.Operation.{
  FileInner, Request, blocking, reads, writes, flushes, seeks, Operation, IoOutput, seek,
  Completion, completed, lost, Backend, Machine, finish_discarded, same_bytes, poll_operation,
  output_at, position_of,
}
use async_rt.FileIo.Internal.{Polled, after_write, discarded, poll_internal_write}
use async_rt.FileIo.Rounds.{
  CursorAt, Did, same_bytes_refl, eq_of_same_bytes, poll_operation_cases, operation_or-none,
}

module _ (backend : Backend) (buffer : List ℕ) where
  abbrev pub Acked : Option (Poll (Result ℕ)) → Machine backend → Type 0
  Acked none m = ⊥
  Acked (some pending) m = m.io.operation ≢ none
  Acked (some (ready (ok n))) m =
      (m.io.operation ≡ none)
      × ((d : Did backend (writes buffer) (ok n)) × CursorAt backend m.inner
            (position_of d.file (ok n) d.position))
  Acked (some (ready (err kind))) m = m.io.operation ≡ none

  abbrev Good : Polled backend ℕ → Type 0
  Good r = Acked r.result r.machine

  -- The loop may go on only after an operation that it has not started.
  abbrev Goes : (Machine backend → Polled backend ℕ) → Request → Type 0
  Goes more request =
      (request ≡ writes buffer) ⊎ ((m : Machine backend) → m.io.operation ≡ none → Good (more m))

  foreign :
      (more : Machine backend → Polled backend ℕ) (request : Request)
      → request ≢ writes buffer
      → Goes more request
      → (m : Machine backend) → m.io.operation ≡ none
      → Good (more m)
  foreign more request d (inl same) = absurd (d same)
  foreign more request d (inr goes) = goes

  discard-Good :
      (more : Machine backend → Polled backend ℕ) (m : Machine backend) (output : IoOutput)
      → m.io.operation ≡ none
      → ((m' : Machine backend) → m'.io.operation ≡ none → Good (more m'))
      → Good (elim (finish_discarded m.inner output).result [
        | ok u ↦ more (discarded backend m output)
        | err kind ↦ record {
          result = some (ready (err kind));
          machine = discarded backend m output;
        }
      ])
  discard-Good more m output e goes = go (finish_discarded m.inner output).result
    where
      go :
          (q : Result (Unit {0}))
          → Good (elim q [
            | ok u ↦ more (discarded backend m output)
            | err kind ↦ record {
              result = some (ready (err kind));
              machine = discarded backend m output;
            }
          ])
      go (ok u) = goes (discarded backend m output) e
      go (err kind) = e

  after_write-Good :
      (more : Machine backend → Polled backend ℕ) (m : Machine backend) (file : FileInner)
      (request : Request) (c : Completion) (w : backend.World)
      → (backend.poll_job (record { file = file; request = request }) w).poll ≡ ready c
      → m.io.operation ≡ none
      → Goes more request
      → Good (after_write backend more m buffer (ready (output_at file request c)))
  unfolding after_write output_at
  after_write-Good more m file (writes bytes) (completed (ok n) slice position) w h e g =
      elim (Bool-cases (same_bytes bytes buffer)) [
        | inl s ↦ rw s (e, (did s, (m.inner, refl)))
        | inr s ↦ rw s (foreign more (writes bytes) (other s) g _ e)
      ]
    where
      did : same_bytes bytes buffer ≡ true → Did backend (writes buffer) (ok n)
      did s = record {
        file = file;
        world = w;
        slice = slice;
        position = position;
        completes =
            ap (λ b. (backend.poll_job (record { file = file; request = writes b }) w).poll)
              (sym (eq_of_same_bytes bytes buffer s))
            ∙ h;
      }

      bytes_of : Request → List ℕ
      bytes_of (writes b) = b
      bytes_of _ = buffer

      other : same_bytes bytes buffer ≡ false → writes bytes ≢ writes buffer
      other s q = cc (sym s ∙ ap (λ b. same_bytes (bytes_of b) buffer) q ∙ same_bytes_refl buffer)
  after_write-Good more m file (writes bytes) (completed (err k) slice position) w h e g =
      elim (Bool-cases (same_bytes bytes buffer)) [ inl s ↦ rw s e | inr s ↦ rw s e ]
  after_write-Good more m file (writes bytes) lost w h e g =
      elim (Bool-cases (same_bytes [] buffer)) [ inl s ↦ rw s e | inr s ↦ rw s e ]
  after_write-Good more m file (reads n) (completed result slice position) w h e g =
      discard-Good more m _ e (foreign more (reads n) (λ q. cc) g)
  after_write-Good more m file (reads n) lost w h e g =
      discard-Good more m _ e (foreign more (reads n) (λ q. cc) g)
  after_write-Good more m blocking flushes (completed result slice position) w h e g =
      discard-Good more m _ e (foreign more flushes (λ q. cc) g)
  after_write-Good more m _ flushes c w h e g =
      discard-Good more m _ e (foreign more flushes (λ q. cc) g)
  after_write-Good more m file (seeks s) (completed result slice position) w h e g =
      discard-Good more m (seek s result) e (foreign more (seeks s) (λ q. cc) g)
  after_write-Good more m file (seeks s) lost w h e g =
      discard-Good more m _ e (foreign more (seeks s) (λ q. cc) g)

  round-Good :
      (more : Machine backend → Polled backend ℕ) (o : Operation) (m : Machine backend)
      → Goes more o.request
      → let r = poll_operation backend o m in
        Good (after_write backend more r.machine buffer r.poll)
  unfolding after_write
  round-Good more o m g =
      poll_operation_cases backend (λ p m'. Good (after_write backend more m' buffer p)) o m
        (λ w n. cc) (λ c w h. after_write-Good more _ o.file o.request c m.world h refl g)

  own-Good :
      (m : Machine backend) → m.io.operation ≡ none → Good (poll_internal_write backend 1 m buffer)
  unfolding poll_internal_write
  own-Good m e =
      rw (operation_or-none backend (writes buffer) m e)
        (round-Good (λ m'. poll_internal_write backend 0 m' buffer) _ m (inl refl))

  -- Two rounds of `poll_internal_write` are enough: it returns. While it waits, its operation stays
  -- pending for the next call. It reports a number of written bytes only if a write job for exactly
  -- this buffer has completed with that number, and the cursor is then the one of that job; so the
  -- result of a write that was started by an earlier call for other bytes is never reported.
  pub poll_internal_write-Acked :
      (m : Machine backend)
      → let r = poll_internal_write backend 2 m buffer in Acked r.result r.machine
  unfolding poll_internal_write
  poll_internal_write-Acked m =
      round-Good (λ m'. poll_internal_write backend 1 m' buffer) _ m (inr own-Good)
