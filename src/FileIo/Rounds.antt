-- ===== src/FileIo/Rounds.antt =====
-- src/fs/io.rs: how a round of the internal loops uses the operation that it polls, and what the
-- three theorems on the loops (Writes, Seeks, Reads) share.
use async_rt.Prelude.{
  ℕ, true, Option, none, some, List, [], ◌∷◌, Poll, ready, pending, ◌≡◌, refl, arith,
}
use async_rt.Prelude.Io.{Result}
use async_rt.FileIo.Operation.{
  FileInner, Request, Operation, IoOutput, Completion, completed, Backend, Machine, apply_position,
  same_bytes, operation_or, poll_operation, output_of,
}

pub same_bytes_refl : (xs : List ℕ) → same_bytes xs xs ≡ true
unfolding same_bytes
same_bytes_refl [] = refl
same_bytes_refl (x ∷ xs) = ground (arith, same_bytes_refl xs)

pub eq_of_same_bytes : (xs ys : List ℕ) → same_bytes xs ys ≡ true → xs ≡ ys
unfolding same_bytes
eq_of_same_bytes [] [] h = refl
eq_of_same_bytes [] (y ∷ ys) h = cc
eq_of_same_bytes (x ∷ xs) [] h = cc
eq_of_same_bytes (x ∷ xs) (y ∷ ys) h = ground (arith, eq_of_same_bytes xs ys)

module _ (backend : Backend) where
  -- A job with this request has completed with this result.
  pub record Did (request : Request) (result : Result ℕ) : Type 0 where
    pub file : FileInner
    pub world : backend.World
    pub slice : List ℕ
    pub position : ℕ
    pub completes :
        (backend.poll_job (record { file = file; request = request }) world).poll
        ≡ ready (completed result slice position)

  -- The cursor of the file is where this position, if any, puts it.
  abbrev pub CursorAt : FileInner → Option ℕ → Type 0
  CursorAt inner position = (before : FileInner) × (inner ≡ apply_position before position)

  -- The machine after a poll: it differs in the pending operation and in the world.
  abbrev pub after_poll : Machine backend → Option Operation → backend.World → Machine backend
  after_poll m o w = record m { io = record (m.io) { operation = o }; world = w }

  -- A poll leaves the operation pending, or yields the output of its completion and no operation.
  pub poll_operation_cases {κ} :
      (P : Poll IoOutput → Machine backend → Type κ) (o : Operation) (m : Machine backend)
      → ((w : backend.World) → P pending (after_poll m (some o) w))
      → ((c : Completion) (w : backend.World)
          → (backend.poll_job o m.world).poll ≡ ready c
          → P (ready (output_of o c)) (after_poll m none w))
      → P (poll_operation backend o m).poll (poll_operation backend o m).machine
  unfolding poll_operation
  poll_operation_cases P o m waits ends = go (backend.poll_job o m.world).poll refl
    where
      go :
          (p : Poll Completion)
          → (backend.poll_job o m.world).poll ≡ p
          → P (poll_operation backend o m).poll (poll_operation backend o m).machine
      go pending h = rw (h, poll_operation) (waits _)
      go (ready c) h = rw (h, poll_operation) (ends c _ h)

  pub operation_or-none :
      (request : Request) (m : Machine backend)
      → m.io.operation ≡ none
      → operation_or backend request m ≡ record { file = m.inner; request = request }
  unfolding operation_or
  operation_or-none request m e = rw (e, operation_or)
