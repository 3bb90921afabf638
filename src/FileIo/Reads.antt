-- ===== src/FileIo/Reads.antt =====
-- src/fs/io.rs: `poll_internal_read` ends, and loses no byte of the read that it reports.
use mathlib.Core.List.{append-nil}
use async_rt.Prelude.{
  ℕ, ◌≤◌, false, ltb, min, Option, none, some, List, [], ◌++◌, length, take, drop, Poll, ready,
  pending, ◌≡◌, ◌≢◌, refl, ap, ◌∙◌, ◌⊎◌, inl, inr, arith, Bool-cases, take-append-drop, take_front,
  drop_front, take_all, length-take, length-drop, length-append,
}
use async_rt.Prelude.Io.{Result, ok, err}
use async_rt.FileIo.Operation.{
  FileInner, blocking, Request, reads, writes, flushes, seeks, Operation, IoOutput, seek,
  Completion, completed, lost, FileIo, Backend, Machine, position_of, finish_discarded,
  poll_operation, output_at,
}
use async_rt.FileIo.Internal.{PolledRead, after_read, deliver, moved, discarded, poll_internal_read}
use async_rt.FileIo.Rounds.{Did, CursorAt, poll_operation_cases, operation_or-none}

-- The bytes of an earlier read that no caller has received yet.
abbrev pub leftover : FileIo → List ℕ
leftover io = drop io.buffered_read_position io.buffered_read

module _ (backend : Backend) (buffer : List ℕ) where
  -- `count` bytes are delivered at the front of the slice; with what is kept for later they are
  -- exactly the `n` bytes that the job has read.
  pub record Delivered (r : PolledRead backend) (count n : ℕ) (owned : List ℕ) : Type 0 where
    pub fits : n ≤ length owned
    pub in_slice : count ≤ length buffer
    pub same_length : length r.buffer ≡ length buffer
    pub lossless : take count r.buffer ++ leftover r.machine.io ≡ take n owned
    pub tail_kept : drop count r.buffer ≡ drop count buffer

  abbrev pub Got : Option (Poll (Result ℕ)) → PolledRead backend → Type 0
  Got none r = ⊥
  Got (some pending) r = (r.machine.io.operation ≢ none) × (r.buffer ≡ buffer)
  Got (some (ready (ok count))) r =
      (r.machine.io.operation ≡ none)
      × ((capacity n : ℕ) × (d : Did backend (reads capacity) (ok n)) × CursorAt backend
            r.machine.inner (position_of d.file (ok n) d.position)
          × Delivered r count n d.slice)
  Got (some (ready (err kind))) r = (r.machine.io.operation ≡ none) × (r.buffer ≡ buffer)

  abbrev Good : PolledRead backend → Type 0
  Good r = Got r.result r

  -- No operation is pending, and no byte is left over.
  abbrev Clear : Machine backend → Type 0
  Clear m = (m.io.operation ≡ none) × (leftover m.io ≡ [])

  abbrev More : Type 0
  More = Machine backend → PolledRead backend

  deliver-Good :
      (m : Machine backend) (n capacity : ℕ) (d : Did backend (reads capacity) (ok n))
      → Clear m
      → CursorAt backend m.inner (position_of d.file (ok n) d.position)
      → Good (deliver backend m buffer d.slice n)
  unfolding deliver
  deliver-Good m n capacity d (idle, none_left) cursor =
      elim (Bool-cases (ltb (length d.slice) n)) [
        | inl short ↦ rw short (idle, refl)
        | inr enough ↦ elim (Bool-cases (ltb k n)) [
          | inl more ↦
              rw (enough, more)
                (
                  idle,
                  (
                    capacity,
                    n,
                    d,
                    cursor,
                    record {
                      fits = fits enough;
                      in_slice = omega arith;
                      same_length = same_length enough;
                      lossless =
                          ap (λ xs. xs ++ drop k bytes) (take_front k bytes _ (long enough))
                          ∙ take-append-drop k bytes;
                      tail_kept = drop_front k bytes _ (long enough);
                    },
                  ),
                )
          | inr all ↦
              rw (enough, all)
                (
                  idle,
                  (
                    capacity,
                    n,
                    d,
                    cursor,
                    record {
                      fits = fits enough;
                      in_slice = omega arith;
                      same_length = same_length enough;
                      lossless =
                          ap (◌++◌ (take k (take k bytes ++ drop k buffer))) none_left
                          ∙ append-nil _
                          ∙ take_front k bytes _ (long enough)
                          ∙ take_all k bytes (ground (arith, size enough));
                      tail_kept = drop_front k bytes _ (long enough);
                    },
                  ),
                )
        ]
      ]
    where
      k : ℕ
      k = min (length buffer) n

      bytes : List ℕ
      bytes = take n d.slice

      fits : ltb (length d.slice) n ≡ false → n ≤ length d.slice
      fits e = ground arith

      size : ltb (length d.slice) n ≡ false → length bytes ≡ n
      size e = omega (arith, length-take {0} n d.slice, fits e)

      long : ltb (length d.slice) n ≡ false → k ≤ length bytes
      long e = omega (arith, size e)

      same_length :
          ltb (length d.slice) n ≡ false → length (take k bytes ++ drop k buffer) ≡ length buffer
      same_length e = omega (
        arith,
        length-append (take k bytes) (drop k buffer),
        length-take {0} k bytes,
        length-drop {0} k buffer,
        long e,
      )

  -- The loop may go on only after an operation that is no read, and changes no leftover bytes.
  abbrev Goes : More → Request → Type 0
  Goes more request =
      ((n : ℕ) × (request ≡ reads n)) ⊎ ((m : Machine backend) → Clear m → Good (more m))

  foreign :
      (more : More) (request : Request)
      → ((n : ℕ) → request ≢ reads n)
      → Goes more request
      → (m : Machine backend) → Clear m
      → Good (more m)
  foreign more request d (inl (n, same)) = absurd (d n same)
  foreign more request d (inr goes) = goes

  discard-Good :
      (more : More) (m : Machine backend) (output : IoOutput)
      → Clear m
      → ((m' : Machine backend) → Clear m' → Good (more m'))
      → Good (elim (finish_discarded m.inner output).result [
        | ok u ↦ more (discarded backend m output)
        | err kind ↦ record {
          result = some (ready (err kind));
          buffer = buffer;
          machine = discarded backend m output;
        }
      ])
  discard-Good more m output e goes = go (finish_discarded m.inner output).result
    where
      go :
          (q : Result (Unit {0}))
          → Good (elim q [
            | ok u ↦ more (discarded backend m output)
            | err kind ↦ record {
              result = some (ready (err kind));
              buffer = buffer;
              machine = discarded backend m output;
            }
          ])
      go (ok u) = goes (discarded backend m output) e
      go (err kind) = (e.0, refl)

  after_read-Good :
      (more : More) (m : Machine backend) (file : FileInner) (request : Request) (c : Completion)
      (w : backend.World)
      → (backend.poll_job (record { file = file; request = request }) w).poll ≡ ready c
      → Clear m
      → Goes more request
      → Good (after_read backend more m buffer (ready (output_at file request c)))
  unfolding after_read output_at
  after_read-Good more m file (reads cap) (completed (ok n) slice at) w h e g =
      deliver-Good (moved backend m (position_of file (ok n) at)) n cap
        (record { file = file; world = w; slice = slice; position = at; completes = h }) e
        (m.inner, refl)
  after_read-Good more m file (reads cap) (completed (err kind) slice at) w h e g = (e.0, refl)
  after_read-Good more m file (reads cap) lost w h e g = (e.0, refl)
  after_read-Good more m file (writes b) (completed result slice at) w h e g =
      discard-Good more m _ e (foreign more (writes b) (λ n q. cc) g)
  after_read-Good more m file (writes b) lost w h e g =
      discard-Good more m _ e (foreign more (writes b) (λ n q. cc) g)
  after_read-Good more m blocking flushes (completed result slice at) w h e g =
      discard-Good more m _ e (foreign more flushes (λ n q. cc) g)
  after_read-Good more m _ flushes c w h e g =
      discard-Good more m _ e (foreign more flushes (λ n q. cc) g)
  after_read-Good more m file (seeks s) (completed result slice at) w h e g =
      discard-Good more m (seek s result) e (foreign more (seeks s) (λ n q. cc) g)
  after_read-Good more m file (seeks s) lost w h e g =
      discard-Good more m _ e (foreign more (seeks s) (λ n q. cc) g)

  round-Good :
      (more : More) (o : Operation) (m : Machine backend)
      → leftover m.io ≡ []
      → Goes more o.request
      → let r = poll_operation backend o m in Good (after_read backend more r.machine buffer r.poll)
  unfolding after_read
  round-Good more o m l g =
      poll_operation_cases backend (λ p m'. Good (after_read backend more m' buffer p)) o m
        (λ w. (λ n. cc, refl))
        (λ c w h. after_read-Good more _ o.file o.request c m.world h (refl, l) g)

  own-Good : (m : Machine backend) → Clear m → Good (poll_internal_read backend 1 m buffer)
  unfolding poll_internal_read
  own-Good m (e, l) =
      rw (operation_or-none backend (reads (length buffer)) m e) (
        round-Good (λ m'. poll_internal_read backend 0 m' buffer) _ m l (inl (length buffer, refl)))

  -- If no byte is left over from an earlier read, two rounds of `poll_internal_read` are enough: it
  -- returns. While it waits, its operation stays pending and the slice is untouched. If it reports a
  -- number of bytes, some read job, perhaps one that an earlier call started with another capacity,
  -- has completed with `n` bytes, which the slice of the job holds: the bytes at the front of the
  -- caller's slice, followed by those that are now left over, are exactly these `n` bytes, and the rest
  -- of the slice is untouched. On an error the slice is untouched.
  pub poll_internal_read-Got :
      (m : Machine backend)
      → leftover m.io ≡ []
      → let r = poll_internal_read backend 2 m buffer in Got r.result r
  unfolding poll_internal_read
  poll_internal_read-Got m l =
      round-Good (λ m'. poll_internal_read backend 1 m' buffer) _ m l (inr own-Good)
