-- ===== src/FileIo/Examples.antt =====
-- A small backend, runs of the poll functions on it, and the theorems at these inputs.
use async_rt.Prelude.{
  ℕ, zero, suc, ◌+◌, ◌<◌, none, some, [], ◌∷◌, length, Poll, ready, pending, ◌≡◌, refl, arith,
}
use async_rt.Prelude.Io.{ok}
use async_rt.Seek.{SeekFrom, seek_position}
use async_rt.FileIo.Operation.{
  FileInner, compio, wasm, Request, reads, writes, flushes, seeks, Operation, Completion, completed,
  Backend, Machine, operation_or, poll_operation, output_at, apply_position,
}
use async_rt.FileIo.Internal.{poll_internal_read, poll_internal_write, poll_internal_seek}
use async_rt.FileIo.Entry.{poll_read, poll_seek, tokio_seek_loop}
use async_rt.FileIo.Writes.{Acked, poll_internal_write-Acked}
use async_rt.FileIo.Seeks.{Reached, poll_internal_seek-Reached}
use async_rt.FileIo.Reads.{leftover, Got, poll_internal_read-Got}
use async_rt.FileIo.Buffer.{Drained, poll_read-Drained}
use async_rt.FileIo.Cancelled.{stay, logical_position, poll_seek_skips-leftover}
use async_rt.FileIo.TokioSeek.{Answered, tokio_seek_loop-Answered}

abbrev cursor_of : FileInner → ℕ
cursor_of (compio p) = p
cursor_of (wasm p) = p
cursor_of _ = 0

abbrev answer : FileInner → Request → Completion
answer file (reads capacity) = completed (ok 4) (1 ∷ 2 ∷ 3 ∷ 4 ∷ []) (cursor_of file + 4)
answer file (writes bytes) = completed (ok (length bytes)) bytes (cursor_of file + length bytes)
answer file flushes = completed (ok 0) [] 0
answer file (seeks request) = completed (seek_position (cursor_of file) 10 request) [] 0

-- The world is the number of polls that a job still waits.
abbrev poll_slow : Operation → ℕ → record { poll : Poll Completion; world : ℕ }
poll_slow o zero = record { poll = ready (answer o.file o.request); world = 0 }
poll_slow o (suc n) = record { poll = pending; world = n }

abbrev slow : Backend
slow = record {
  World = ℕ;
  poll_job = poll_slow;
  native_read = λ file buffer w. record { poll = pending; buffer = buffer; world = w };
  native_write = λ file buffer w. record { poll = pending; world = w };
  native_flush = λ file w. record { poll = pending; world = w };
  smol_seek = λ request w. record { poll = pending; world = w };
  tokio_start_seek = λ request w. record { result = ok tt; world = w };
  tokio_poll_complete = λ w. record { poll = ready (ok 5); world = w };
}

abbrev opened : ℕ → Machine slow
opened wait = record {
  inner = compio 0;
  io = record {
    operation = none;
    buffered_read = [];
    buffered_read_position = 0;
    futures_seek = none;
    tokio_seek = none;
  };
  world = wait;
}

-- A read of four bytes waits and is given up; a read of one byte then receives the first of the four.
abbrev given_up : Machine slow
given_up = record (opened 0) {
  io = record {
    operation = some (record { file = compio 0; request = reads 4 });
    buffered_read = [];
    buffered_read_position = 0;
    futures_seek = none;
    tokio_seek = none;
  };
}

abbrev behind : Machine slow
behind = record (opened 0) {
  inner = compio 4;
  io = record {
    operation = none;
    buffered_read = 1 ∷ 2 ∷ 3 ∷ 4 ∷ [];
    buffered_read_position = 1;
    futures_seek = none;
    tokio_seek = none;
  };
}

poll_read_waits :
    poll_read slow (opened 1) (0 ∷ 0 ∷ 0 ∷ 0 ∷ [])
    ≡ record { result = some pending; buffer = 0 ∷ 0 ∷ 0 ∷ 0 ∷ []; machine = given_up }
unfolding poll_read poll_internal_read poll_operation operation_or
poll_read_waits = refl

poll_read_resumes :
    poll_read slow given_up (0 ∷ [])
    ≡ record { result = some (ready (ok 1)); buffer = 1 ∷ []; machine = behind }
unfolding poll_read poll_internal_read poll_operation operation_or output_at apply_position
poll_read_resumes = refl

-- A write of other bytes was given up.
abbrev stale : Machine slow
stale = record (opened 0) {
  io = record {
    operation = some (record { file = compio 0; request = writes (9 ∷ []) });
    buffered_read = [];
    buffered_read_position = 0;
    futures_seek = none;
    tokio_seek = none;
  };
}

poll_internal_write-Acked_example :
    let r = poll_internal_write slow 2 stale (5 ∷ 6 ∷ []) in
    Acked slow (5 ∷ 6 ∷ []) r.result r.machine
poll_internal_write-Acked_example = poll_internal_write-Acked slow (5 ∷ 6 ∷ []) stale

poll_internal_seek-Reached_example :
    let r = poll_internal_seek slow 2 stale (SeekFrom.start 3) in
    Reached slow (SeekFrom.start 3) r.result r.machine
poll_internal_seek-Reached_example = poll_internal_seek-Reached slow (SeekFrom.start 3) stale

poll_internal_read-Got_example :
    let r = poll_internal_read slow 2 given_up (0 ∷ []) in Got slow (0 ∷ []) r.result r
poll_internal_read-Got_example = poll_internal_read-Got slow (0 ∷ []) given_up refl

poll_read-Drained_example : Drained slow behind (0 ∷ 0 ∷ []) (poll_read slow behind (0 ∷ 0 ∷ []))
poll_read-Drained_example = poll_read-Drained slow behind (0 ∷ 0 ∷ []) (omega arith) (omega arith)

poll_seek_skips-leftover_example :
    let r = poll_seek slow behind stay in
    (r.result ≡ some (ready (ok 4)))
    × (leftover r.machine.io ≡ [])
    × (logical_position 4 behind.io < 4)
    × (logical_position 4 behind.io + length (leftover behind.io) ≡ 4)
poll_seek_skips-leftover_example =
    poll_seek_skips-leftover slow behind 4 10 [] 0 refl (omega arith) refl (omega arith)
      (omega arith) refl

tokio_seek_loop-Answered_example :
    let r = tokio_seek_loop slow 2 (SeekFrom.start 5) (opened 0) in
    Answered slow (SeekFrom.start 5) none 0 r.result r.machine
tokio_seek_loop-Answered_example =
    tokio_seek_loop-Answered slow (SeekFrom.start 5) none 0 (opened 0) refl refl
