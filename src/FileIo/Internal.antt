-- ===== src/FileIo/Internal.antt =====
-- src/fs/io.rs: the four loops `poll_internal_read`, `_write`, `_flush` and `_seek`. A round takes or
-- starts an operation and polls it; an output of another kind than asked for is discarded, and the
-- loop goes on. Two rounds are enough fuel (FileIo/Rounds.antt); `none` is a loop without fuel left.
use async_rt.Prelude.{
  ℕ, zero, suc, if◌then◌else◌, ltb, min, Option, none, some, List, ◌++◌, length, take, drop, Poll,
  ready, pending,
}
use async_rt.Prelude.Io.{Result, ok, err, ErrorKind}
use async_rt.Seek.{SeekFrom, same_request}
use async_rt.FileIo.Operation.{
  reads, writes, flushes, seeks, IoOutput, read, write, flush, seek, Backend, Machine,
  apply_position, finish_discarded, same_bytes, operation_or, poll_operation,
}

-- What a poll function returns, and the machine that it leaves.
pub record Polled (backend : Backend) (A : Type 0) : Type 0 where
  pub result : Option (Poll (Result A))
  pub machine : Machine backend

-- The same for a read, with the caller's buffer.
pub record PolledRead (backend : Backend) : Type 0 where
  pub result : Option (Poll (Result ℕ))
  pub buffer : List ℕ
  pub machine : Machine backend

module _ (backend : Backend) where
  abbrev pub moved : Machine backend → Option ℕ → Machine backend
  moved m position = record m { inner = apply_position m.inner position }

  abbrev pub discarded : Machine backend → IoOutput → Machine backend
  discarded m output = record m { inner = (finish_discarded m.inner output).inner }

  -- A completed read of `n` bytes into `owned`: the caller's slice is filled, the rest is kept.
  unfoldable pub deliver : Machine backend → List ℕ → List ℕ → ℕ → PolledRead backend
  deliver m buffer owned n =
      let bytes = take n owned in
      let copied = min (length buffer) n in
      let kept : Machine backend = record m {
        io = record (m.io) { buffered_read = bytes; buffered_read_position = copied };
      } in
      if ltb (length owned) n
      then record {
        result = some (ready (err ErrorKind.invalid_data));
        buffer = buffer;
        machine = m;
      }
      else record {
        result = some (ready (ok copied));
        buffer = take copied bytes ++ drop copied buffer;
        machine = if ltb copied n then kept else m;
      }

  -- The arms of the `match` of `poll_internal_read`; `more` is the rest of the loop.
  unfoldable pub after_read :
      (Machine backend → PolledRead backend)
      → Machine backend
      → List ℕ
      → Poll IoOutput
      → PolledRead backend
  unfolding deliver
  after_read more m buffer pending = record { result = some pending; buffer = buffer; machine = m }
  after_read more m buffer (ready (read (ok n) owned position)) =
      deliver (moved m position) buffer owned n
  after_read more m buffer (ready (read (err kind) owned position)) = record {
    result = some (ready (err kind));
    buffer = buffer;
    machine = moved m position;
  }
  after_read more m buffer (ready output) = elim (finish_discarded m.inner output).result [
    | ok u ↦ more (discarded m output)
    | err kind ↦ record {
      result = some (ready (err kind));
      buffer = buffer;
      machine = discarded m output;
    }
  ]

  unfoldable pub poll_internal_read : ℕ → Machine backend → List ℕ → PolledRead backend
  unfolding after_read
  poll_internal_read zero m buffer = record { result = none; buffer = buffer; machine = m }
  poll_internal_read (suc fuel) m buffer =
      let r = poll_operation backend (operation_or backend (reads (length buffer)) m) m in
      after_read (λ m'. poll_internal_read fuel m' buffer) r.machine buffer r.poll

  unfoldable pub after_write :
      (Machine backend → Polled backend ℕ)
      → Machine backend
      → List ℕ
      → Poll IoOutput
      → Polled backend ℕ
  after_write more m buffer pending = record { result = some pending; machine = m }
  after_write more m buffer (ready (write result written position)) =
      let repeat : Polled backend ℕ = elim result [
        | ok n ↦ more (moved m position)
        | err kind ↦ record { result = some (ready (err kind)); machine = moved m position }
      ] in
      if same_bytes written buffer
      then record { result = some (ready result); machine = moved m position }
      else repeat
  after_write more m buffer (ready output) = elim (finish_discarded m.inner output).result [
    | ok u ↦ more (discarded m output)
    | err kind ↦ record { result = some (ready (err kind)); machine = discarded m output }
  ]

  unfoldable pub poll_internal_write : ℕ → Machine backend → List ℕ → Polled backend ℕ
  unfolding after_write
  poll_internal_write zero m buffer = record { result = none; machine = m }
  poll_internal_write (suc fuel) m buffer =
      let r = poll_operation backend (operation_or backend (writes buffer) m) m in
      after_write (λ m'. poll_internal_write fuel m' buffer) r.machine buffer r.poll

  unfoldable pub after_flush :
      (Machine backend → Polled backend (Unit {0}))
      → Machine backend
      → Poll IoOutput
      → Polled backend (Unit {0})
  after_flush more m pending = record { result = some pending; machine = m }
  after_flush more m (ready (flush result)) = record { result = some (ready result); machine = m }
  after_flush more m (ready output) = elim (finish_discarded m.inner output).result [
    | ok u ↦ more (discarded m output)
    | err kind ↦ record { result = some (ready (err kind)); machine = discarded m output }
  ]

  unfoldable pub poll_internal_flush : ℕ → Machine backend → Polled backend (Unit {0})
  unfolding after_flush
  poll_internal_flush zero m = record { result = none; machine = m }
  poll_internal_flush (suc fuel) m =
      let r = poll_operation backend (operation_or backend flushes m) m in
      after_flush (poll_internal_flush fuel) r.machine r.poll

  unfoldable pub after_seek :
      (Machine backend → Polled backend ℕ)
      → Machine backend
      → SeekFrom
      → Poll IoOutput
      → Polled backend ℕ
  after_seek more m position pending = record { result = some pending; machine = m }
  after_seek more m position (ready (seek requested (ok p))) =
      let again = more (moved m (some p)) in
      if same_request requested position
      then record { result = some (ready (ok p)); machine = moved m (some p) }
      else again
  after_seek more m position (ready (seek requested (err kind))) = record {
    result = some (ready (err kind));
    machine = m;
  }
  after_seek more m position (ready output) = elim (finish_discarded m.inner output).result [
    | ok u ↦ more (discarded m output)
    | err kind ↦ record { result = some (ready (err kind)); machine = discarded m output }
  ]

  unfoldable pub poll_internal_seek : ℕ → Machine backend → SeekFrom → Polled backend ℕ
  unfolding after_seek
  poll_internal_seek zero m position = record { result = none; machine = m }
  poll_internal_seek (suc fuel) m position =
      let r = poll_operation backend (operation_or backend (seeks position) m) m in
      after_seek (λ m'. poll_internal_seek fuel m' position) r.machine position r.poll
