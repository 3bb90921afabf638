-- ===== src/FileIo/Buffer.antt =====
-- src/fs/io.rs: `poll_read` when an earlier read has left bytes over.
use async_rt.Prelude.{
  ℕ, ◌≤◌, ◌<◌, ◌+◌, ◌==◌, true, ltb, min, some, List, [], ◌∷◌, ◌++◌, length, take, drop, ready, ◌≡◌,
  refl, sym, ap, ◌∙◌, inl, inr, arith, Bool-cases, take-append-drop, length-drop, take_front,
  drop_front, drop_all, drop-drop,
}
use async_rt.Prelude.Io.{ok}
use async_rt.FileIo.Operation.{Backend, Machine}
use async_rt.FileIo.Internal.{PolledRead}
use async_rt.FileIo.Entry.{poll_read, read_buffered}
use async_rt.FileIo.Reads.{leftover}

module _ (backend : Backend) where
  -- The front of the leftover bytes goes to the front of the slice, and nothing else changes.
  pub record Drained (m : Machine backend) (buffer : List ℕ) (r : PolledRead backend) : Type 0 where
    pub count : ℕ
    pub result : r.result ≡ some (ready (ok count))
    pub as_many : count ≡ min (length buffer) (length (leftover m.io))
    pub in_order : take count r.buffer ++ leftover r.machine.io ≡ leftover m.io
    pub tail_kept : drop count r.buffer ≡ drop count buffer
    pub inner_kept : r.machine.inner ≡ m.inner
    pub operation_kept : r.machine.io.operation ≡ m.io.operation
    pub world_kept : r.machine.world ≡ m.world

  read_buffered-Drained :
      (m : Machine backend) (buffer : List ℕ)
      → 0 < length (leftover m.io)
      → Drained m buffer (read_buffered backend m buffer)
  unfolding read_buffered
  read_buffered-Drained m buffer h =
      elim (Bool-cases (m.io.buffered_read_position + count == length m.io.buffered_read)) [
        | inl all ↦ record {
          count = count;
          result = refl;
          as_many = refl;
          in_order = rw all (
              ap (λ xs. xs ++ []) front
              ∙ ap (λ xs. take count available ++ xs) (sym (drop_all count available (ended all)))
              ∙ take-append-drop count available);
          tail_kept = drop_front count available _ fits;
          inner_kept = refl;
          operation_kept = rw all;
          world_kept = refl;
        }
        | inr some_left ↦ record {
          count = count;
          result = refl;
          as_many = refl;
          in_order = rw some_left (
              ap (λ xs. xs ++ drop (m.io.buffered_read_position + count) m.io.buffered_read) front
              ∙ ap (λ xs. take count available ++ xs)
                  (sym (drop-drop m.io.buffered_read_position count _ m.io.buffered_read refl))
              ∙ take-append-drop count available);
          tail_kept = drop_front count available _ fits;
          inner_kept = refl;
          operation_kept = rw some_left;
          world_kept = refl;
        }
      ]
    where
      available : List ℕ
      available = leftover m.io

      count : ℕ
      count = min (length buffer) (length available)

      fits : count ≤ length available
      fits = omega arith

      front : take count (take count available ++ drop count buffer) ≡ take count available
      front = take_front count available (drop count buffer) fits

      ended :
          (m.io.buffered_read_position + count == length m.io.buffered_read) ≡ true
          → length available ≤ count
      ended e = ground (arith, length-drop {0} m.io.buffered_read_position m.io.buffered_read)

  -- If bytes are left over from an earlier read and the slice is not empty, `poll_read` is ready at
  -- once, whatever the backend does: it hands out as many of them as fit, at the front of the slice
  -- and in order, keeps the others, and changes neither the file, nor a pending operation, nor the
  -- rest of the slice.
  pub poll_read-Drained :
      (m : Machine backend) (buffer : List ℕ)
      → 0 < length buffer
      → 0 < length (leftover m.io)
      → Drained m buffer (poll_read backend m buffer)
  unfolding poll_read
  poll_read-Drained m [] h l = absurd (omega arith)
  poll_read-Drained m (x ∷ xs) h l =
      let open_ : ltb m.io.buffered_read_position (length m.io.buffered_read) ≡ true =
        ground (arith, length-drop {0} m.io.buffered_read_position m.io.buffered_read) in
      rw open_ (read_buffered-Drained m (x ∷ xs) l)
