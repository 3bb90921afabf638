-- ===== src/Opfs/Streams.antt =====
-- src/fs/wasm.rs: the writers of a file, `open_writer`, `finish_write`, `overwrite`, `write_at` and
-- `truncate`. JavaScript's numbers hold the integers up to `max_safe_integer`.
use async_rt.Prelude.{ℕ, Bool, true, false, if◌then◌else◌, ltb, is_empty, List}
use async_rt.Prelude.Io.{Result, ok, err, ErrorKind}
use async_rt.Prelude.Effect.{answer, give, raise, caught, ◌>>=◌}
use async_rt.Opfs.Web.{Web}
use async_rt.Opfs.Session.{
  EntryKind, creates_writable, seeks, writes, truncates, closes, aborts, Opfs, noted, awaited,
  settled_unit, called_unit,
}

abbrev pub max_safe_integer : ℕ
max_safe_integer = 9007199254740991

module _ (web : Web) where
  open web use {FileHandle, Stream}

  unfoldable pub open_writer : FileHandle → Bool → Opfs web Stream
  open_writer handle keep_existing_data s =
      let r = web.create_writable handle keep_existing_data s.disk in
      answer (awaited web EntryKind.file r.settled)
        (noted web (creates_writable handle keep_existing_data) (record s { disk = r.disk }))

  unfoldable pub stream_seek : Stream → ℕ → Opfs web (Unit {0})
  stream_seek stream position s =
      let r = web.stream_seek stream position s.disk in
      answer (called_unit web EntryKind.file r.called)
        (noted web (seeks stream position) (record s { disk = r.disk }))

  unfoldable pub stream_write : Stream → List ℕ → Opfs web (Unit {0})
  stream_write stream contents s =
      let r = web.stream_write stream contents s.disk in
      answer (called_unit web EntryKind.file r.called)
        (noted web (writes stream contents) (record s { disk = r.disk }))

  unfoldable pub stream_truncate : Stream → ℕ → Opfs web (Unit {0})
  stream_truncate stream size s =
      let r = web.stream_truncate stream size s.disk in
      answer (called_unit web EntryKind.file r.called)
        (noted web (truncates stream size) (record s { disk = r.disk }))

  unfoldable pub stream_close : Stream → Opfs web (Unit {0})
  stream_close stream s =
      let r = web.stream_close stream s.disk in
      answer (settled_unit web EntryKind.file r.settled)
        (noted web (closes stream) (record s { disk = r.disk }))

  -- `let _ = await_promise(stream.abort(), ..).await; return Err(error)`.
  unfoldable pub abort_with : {A : Type 0} → Stream → ErrorKind → Opfs web A
  abort_with stream error s =
      let r = web.stream_abort stream s.disk in
      answer (err error) (noted web (aborts stream) (record s { disk = r.disk }))

  -- An error aborts the stream, success closes it.
  unfoldable pub finish_result : Stream → Result (Unit {0}) → Opfs web (Unit {0})
  unfolding abort_with
  finish_result stream (err error) = abort_with stream error
  finish_result stream (ok u) = stream_close stream

  -- `finish_write`, of the operation that has been started on the stream.
  unfoldable pub finish_write : Stream → Opfs web (Unit {0}) → Opfs web (Unit {0})
  unfolding finish_result
  finish_write stream operation = caught operation (finish_result stream)

  -- `overwrite`.
  unfoldable pub overwrite : FileHandle → List ℕ → Opfs web (Unit {0})
  overwrite handle contents =
      open_writer handle false >>= λ stream. finish_write stream (stream_write stream contents)

  -- What follows the seek in `write_at`.
  unfoldable pub write_there : Stream → List ℕ → Result (Unit {0}) → Opfs web (Unit {0})
  write_there stream contents (err error) = abort_with stream error
  write_there stream contents (ok u) = finish_write stream (stream_write stream contents)

  -- `write_at`, with the tests on its arguments left out.
  unfoldable pub write_from : FileHandle → ℕ → List ℕ → Opfs web (Unit {0})
  unfolding write_there
  write_from handle position contents = open_writer handle true >>= λ stream.
      caught (stream_seek stream position) (write_there stream contents)

  -- `write_at`.
  unfoldable pub write_at : FileHandle → ℕ → List ℕ → Opfs web (Unit {0})
  write_at handle position contents =
      if is_empty contents
      then give tt
      else if ltb max_safe_integer position
      then raise ErrorKind.invalid_input
      else write_from handle position contents

  -- `truncate`.
  unfoldable pub truncate : FileHandle → ℕ → Opfs web (Unit {0})
  truncate handle size =
      if ltb max_safe_integer size
      then raise ErrorKind.invalid_input
      else (open_writer handle true >>= λ stream. finish_write stream (stream_truncate stream size))
