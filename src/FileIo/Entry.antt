-- ===== src/FileIo/Entry.antt =====
-- src/fs/io.rs: `poll_read`, `poll_write`, `poll_flush` and `poll_seek`, which choose between the
-- bytes that an earlier read has left over, the runtime's own file, and the internal loops.
use async_rt.Prelude.{
  ℕ, zero, suc, ◌+◌, if◌then◌else◌, ltb, ◌==◌, min, none, some, List, [], ◌∷◌, ◌++◌, length, take,
  drop, ready, pending,
}
use async_rt.Prelude.Io.{ok, err}
use async_rt.Seek.{SeekFrom, same_request}
use async_rt.FileIo.Operation.{FileInner, tokio, smol, FileIo, Backend, Machine}
use async_rt.FileIo.Internal.{
  Polled, PolledRead, poll_internal_read, poll_internal_write, poll_internal_flush,
  poll_internal_seek,
}

-- Two rounds are enough for each loop.
abbrev pub rounds : ℕ
rounds = 2

module _ (backend : Backend) where
  -- `buffered_read.clear()` and `buffered_read_position = 0`.
  abbrev pub forget_buffered : FileIo → FileIo
  forget_buffered io = record io { buffered_read = []; buffered_read_position = 0 }

  -- The bytes left over by an earlier read, into the caller's slice.
  unfoldable pub read_buffered : Machine backend → List ℕ → PolledRead backend
  read_buffered m buffer =
      let available = drop m.io.buffered_read_position m.io.buffered_read in
      let count = min (length buffer) (length available) in
      let position = m.io.buffered_read_position + count in
      let io : FileIo = record (m.io) { buffered_read_position = position } in
      record {
        result = some (ready (ok count));
        buffer = take count available ++ drop count buffer;
        machine = record m {
          io = if position == length m.io.buffered_read then forget_buffered m.io else io;
        };
      }

  unfoldable pub native_read : Machine backend → List ℕ → PolledRead backend
  native_read m buffer =
      let r = backend.native_read m.inner buffer m.world in
      record { result = some r.poll; buffer = r.buffer; machine = record m { world = r.world } }

  unfoldable pub read_inner : FileInner → Machine backend → List ℕ → PolledRead backend
  unfolding native_read
  read_inner tokio m buffer = native_read m buffer
  read_inner smol m buffer = native_read m buffer
  read_inner inner m buffer = poll_internal_read backend rounds m buffer

  unfoldable pub poll_read : Machine backend → List ℕ → PolledRead backend
  unfolding read_buffered read_inner
  poll_read m [] = record { result = some (ready (ok 0)); buffer = []; machine = m }
  poll_read m (x ∷ xs) =
      if ltb m.io.buffered_read_position (length m.io.buffered_read)
      then read_buffered m (x ∷ xs)
      else read_inner m.inner m (x ∷ xs)

  unfoldable pub native_write : Machine backend → List ℕ → Polled backend ℕ
  native_write m buffer =
      let r = backend.native_write m.inner buffer m.world in
      record { result = some r.poll; machine = record m { world = r.world } }

  unfoldable pub write_inner : FileInner → Machine backend → List ℕ → Polled backend ℕ
  unfolding native_write
  write_inner tokio m buffer = native_write m buffer
  write_inner smol m buffer = native_write m buffer
  write_inner inner m buffer = poll_internal_write backend rounds m buffer

  unfoldable pub poll_write : Machine backend → List ℕ → Polled backend ℕ
  unfolding write_inner
  poll_write m [] = record { result = some (ready (ok 0)); machine = m }
  poll_write m (x ∷ xs) =
      let m' : Machine backend = record m { io = forget_buffered m.io } in
      write_inner m.inner m' (x ∷ xs)

  unfoldable pub native_flush : Machine backend → Polled backend (Unit {0})
  native_flush m =
      let r = backend.native_flush m.inner m.world in
      record { result = some r.poll; machine = record m { world = r.world } }

  unfoldable pub flush_inner : FileInner → Machine backend → Polled backend (Unit {0})
  unfolding native_flush
  flush_inner tokio m = native_flush m
  flush_inner smol m = native_flush m
  flush_inner inner m = poll_internal_flush backend rounds m

  unfoldable pub poll_flush : Machine backend → Polled backend (Unit {0})
  unfolding flush_inner
  poll_flush m = flush_inner m.inner m

  -- `start_seek(position)?` and `state.futures_seek = Some(position)`; `more` is the rest of the loop.
  unfoldable pub start_tokio_seek :
      (Machine backend → Polled backend ℕ) → SeekFrom → Machine backend → Polled backend ℕ
  start_tokio_seek more position m =
      let r = backend.tokio_start_seek position m.world in
      elim r.result [
        | ok u ↦
            more (record m { io = record (m.io) { futures_seek = some position }; world = r.world })
        | err kind ↦ record {
          result = some (ready (err kind));
          machine = record m { world = r.world };
        }
      ]

  -- The loop of the tokio arm of `poll_seek`.
  unfoldable pub tokio_seek_loop : ℕ → SeekFrom → Machine backend → Polled backend ℕ
  unfolding start_tokio_seek
  tokio_seek_loop zero position m = record { result = none; machine = m }
  tokio_seek_loop (suc fuel) position m =
      let more = tokio_seek_loop fuel position in
      let start = start_tokio_seek more position in
      let r = backend.tokio_poll_complete m.world in
      let done : Machine backend = record m {
        io = record (m.io) { futures_seek = none };
        world = r.world;
      } in
      elim m.io.futures_seek [
        | none ↦ start m
        | some requested ↦ elim r.poll [
          | pending ↦ record { result = some pending; machine = record m { world = r.world } }
          | ready result ↦
              let discard : Polled backend ℕ = elim result [
                | ok p ↦ start done
                | err kind ↦ record { result = some (ready (err kind)); machine = done }
              ] in
              if same_request requested position
              then record { result = some (ready result); machine = done }
              else discard
        ]
      ]

  unfoldable pub seek_inner : FileInner → SeekFrom → Machine backend → Polled backend ℕ
  unfolding tokio_seek_loop
  seek_inner tokio position m = tokio_seek_loop rounds position m
  seek_inner smol position m =
      let r = backend.smol_seek position m.world in
      record { result = some r.poll; machine = record m { world = r.world } }
  seek_inner inner position m = poll_internal_seek backend rounds m position

  unfoldable pub poll_seek : Machine backend → SeekFrom → Polled backend ℕ
  unfolding seek_inner
  poll_seek m position =
      let m' : Machine backend = record m { io = forget_buffered m.io } in
      seek_inner m.inner position m'
