-- ===== src/FileIo/Operation.antt =====
-- src/fs/io.rs: `FileIo`, `IoOutput`, and the operations that a file starts, polls and discards.
use async_rt.Prelude.{
  ℕ, Bool, true, false, ◌==◌, ◌&&◌, Option, none, some, List, [], ◌∷◌, Poll, ready, pending,
}
use async_rt.Prelude.Io.{Result, ok, err, ErrorKind}
use async_rt.Seek.{SeekFrom}

-- `FileInner`. A Compio and a wasm file carry their cursor; the cursor of the others is the
-- backend's. The fields that never change (handles, flags) are the backend's too.
pub data FileInner : Type 0 where
  tokio smol blocking : FileInner
  compio wasm : ℕ → FileInner

-- The arguments of `read_operation`, `write_operation`, `flush_operation` and `seek_operation`.
pub data Request : Type 0 where
  reads : ℕ → Request
  writes : List ℕ → Request
  flushes : Request
  seeks : SeekFrom → Request

-- A boxed future in `FileIo::operation`: the copy of the file that it has captured, and the request.
pub record Operation : Type 0 where
  pub file : FileInner
  pub request : Request

pub data IoOutput : Type 0 where
  read : Result ℕ → List ℕ → Option ℕ → IoOutput
  write : Result ℕ → List ℕ → Option ℕ → IoOutput
  flush : Result (Unit {0}) → IoOutput
  seek : SeekFrom → Result ℕ → IoOutput

-- What the file method that an operation awaits has left: its result, the slice that it was given,
-- and the cursor of the captured file. `lost` is a `spawn_blocking` task that did not finish.
pub data Completion : Type 0 where
  completed : Result ℕ → List ℕ → ℕ → Completion
  lost : Completion

pub record FileIo : Type 0 where
  pub operation : Option Operation
  pub buffered_read : List ℕ
  pub buffered_read_position : ℕ
  pub futures_seek : Option SeekFrom
  pub tokio_seek : Option SeekFrom

pub record Backend : Type 1 where
  pub World : Type 0
  -- One poll of the awaited method, or of the blocking task. The first poll starts the job.
  pub poll_job : Operation → World → record { poll : Poll Completion; world : World }
  -- `poll_read`, `poll_write`, `poll_flush` of a tokio or Smol file, and `poll_seek` of a Smol file.
  pub native_read :
      FileInner → List ℕ → World → record { poll : Poll (Result ℕ); buffer : List ℕ; world : World }
  pub native_write : FileInner → List ℕ → World → record { poll : Poll (Result ℕ); world : World }
  pub native_flush : FileInner → World → record { poll : Poll (Result (Unit {0})); world : World }
  pub smol_seek : SeekFrom → World → record { poll : Poll (Result ℕ); world : World }
  -- `start_seek` and `poll_complete` of a tokio file.
  pub tokio_start_seek : SeekFrom → World → record { result : Result (Unit {0}); world : World }
  pub tokio_poll_complete : World → record { poll : Poll (Result ℕ); world : World }

pub record Machine (backend : Backend) : Type 0 where
  pub inner : FileInner
  pub io : FileIo
  pub world : backend.World

-- `result.as_ref().ok().map(|_| file.position)`.
unfoldable pub position_of : FileInner → Result ℕ → ℕ → Option ℕ
position_of (compio p) (ok n) position = some position
position_of (wasm p) (ok n) position = some position
position_of file result position = none

abbrev pub unit_result : Result ℕ → Result (Unit {0})
unit_result (ok n) = ok tt
unit_result (err kind) = err kind

-- The tails of the operations. The flush of a Compio or wasm file touches nothing. A tokio or Smol
-- file starts no operation.
unfoldable pub output_at : FileInner → Request → Completion → IoOutput
unfolding position_of
output_at file (reads capacity) (completed result buffer position) =
    read result buffer (position_of file result position)
output_at file (reads capacity) lost = read (err ErrorKind.other) [] none
output_at file (writes bytes) (completed result buffer position) =
    write result bytes (position_of file result position)
output_at file (writes bytes) lost = write (err ErrorKind.other) [] none
output_at blocking flushes (completed result buffer position) = flush (unit_result result)
output_at blocking flushes lost = flush (err ErrorKind.other)
output_at file flushes c = flush (ok tt)
output_at file (seeks request) (completed result buffer position) = seek request result
output_at file (seeks request) lost = seek request (err ErrorKind.other)

abbrev pub output_of : Operation → Completion → IoOutput
output_of o c = output_at o.file o.request c

unfoldable pub apply_position : FileInner → Option ℕ → FileInner
apply_position (compio p) (some position) = compio position
apply_position (wasm p) (some position) = wasm position
apply_position inner position = inner

-- `finish_discarded`: the file, and the error that stops the poll function.
unfoldable pub finish_discarded :
    FileInner → IoOutput → record { inner : FileInner; result : Result (Unit {0}) }
unfolding apply_position
finish_discarded inner (read result buffer position) = record {
  inner = apply_position inner position;
  result = unit_result result;
}
finish_discarded inner (write result buffer position) = record {
  inner = apply_position inner position;
  result = unit_result result;
}
finish_discarded inner (flush result) = record { inner = inner; result = result }
finish_discarded inner (seek request (ok position)) = record {
  inner = apply_position inner (some position);
  result = ok tt;
}
finish_discarded inner (seek request (err kind)) = record { inner = inner; result = err kind }

-- `written == buffer`.
unfoldable pub same_bytes : List ℕ → List ℕ → Bool
same_bytes [] [] = true
same_bytes (x ∷ xs) (y ∷ ys) = x == y && same_bytes xs ys
same_bytes _ _ = false

module _ (backend : Backend) where
  -- The operation that a poll function goes on with: the pending one, or a new one.
  unfoldable pub operation_or : Request → Machine backend → Operation
  operation_or request m = elim m.io.operation [
    | none ↦ record { file = m.inner; request = request }
    | some o ↦ o
  ]

  -- `poll_operation`.
  unfoldable pub poll_operation :
      Operation → Machine backend → record { poll : Poll IoOutput; machine : Machine backend }
  poll_operation o m =
      let r = backend.poll_job o m.world in
      elim r.poll [
        | pending ↦ record {
          poll = pending;
          machine = record m { io = record (m.io) { operation = some o }; world = r.world };
        }
        | ready c ↦ record {
          poll = ready (output_of o c);
          machine = record m { io = record (m.io) { operation = none }; world = r.world };
        }
      ]
