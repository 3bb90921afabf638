-- ===== src/Opfs/Files.antt =====
-- src/fs/wasm.rs: `WasmFile` and its `read`, `write`, `seek` and `set_len`, and how a file is opened.
-- A method of a file answers with the file as it leaves it. `usize` has 32 bits.
use async_rt.Prelude.{
  ℕ, ◌+◌, ◌-◌, ◌^◌, min, Bool, true, false, not, ◌&&◌, ◌||◌, if◌then◌else◌, ltb, leb, is_empty,
  length, take, drop, List, [], ◌++◌,
}
use async_rt.Prelude.Io.{Result, ok, err, ErrorKind}
use async_rt.Prelude.Effect.{answer, give, raise, caught, ◌>>=◌, ◌>>◌}
use async_rt.Seek.{SeekFrom, seek_position}
use async_rt.Opfs.Web.{Web}
use async_rt.Opfs.Session.{Opfs}
use async_rt.Opfs.Streams.{max_safe_integer, overwrite, write_at, truncate}
use async_rt.Opfs.Entries.{
  Metadata, wasm_file, wasm_directory, PathBuf, file_at, file_metadata, read_all,
}

-- `OpenOptions` of src/fs/open_options.rs.
pub record OpenOptions : Type 0 where
  pub read : Bool
  pub write : Bool
  pub append : Bool
  pub truncate : Bool
  pub create : Bool
  pub create_new : Bool

-- `Metadata::len`.
unfoldable pub metadata_len : Metadata → ℕ
metadata_len (wasm_file size) = size
metadata_len wasm_directory = 0

abbrev pub usize_max : ℕ
usize_max = 2 ^ 32 - 1

-- The checks of `open_file` on the options.
unfoldable pub check_options : OpenOptions → Result (Unit {0})
check_options o =
    if not o.read && not (o.write || o.append)
    then err ErrorKind.invalid_input
    else if (o.truncate || (o.create || o.create_new)) && not (o.write || o.append)
    then err ErrorKind.invalid_input
    else if o.truncate && o.append
    then err ErrorKind.invalid_input
    else ok tt

pub record WasmFile (web : Web) : Type 0 where
  pub handle : web.FileHandle
  pub readable : Bool
  pub writable : Bool
  pub append : Bool
  pub position : ℕ

-- What `read` returns: the number of bytes, the caller's buffer, and the file.
pub record ReadBytes (web : Web) : Type 0 where
  pub count : ℕ
  pub buffer : List ℕ
  pub file : WasmFile web

-- What `write` and `seek` return: a number, and the file.
pub record Moved (web : Web) : Type 0 where
  pub value : ℕ
  pub file : WasmFile web

module _ (web : Web) where
  -- `WasmFile::read` once the contents are there.
  unfoldable pub read_from : WasmFile web → List ℕ → List ℕ → ReadBytes web
  read_from file buffer contents =
      let start = min file.position usize_max in
      let count = min (length buffer) (length contents - start) in
      if leb (length contents) start || is_empty buffer
      then record { count = 0; buffer = buffer; file = file }
      else record {
        count = count;
        buffer = take count (drop start contents) ++ drop count buffer;
        file = record file { position = file.position + count };
      }

  -- `FileRead::read` of `WasmFile`.
  unfoldable pub read : WasmFile web → List ℕ → Opfs web (ReadBytes web)
  unfolding read_from
  read file buffer =
      if file.readable
      then (read_all web file.handle >>= λ contents. give (read_from file buffer contents))
      else raise ErrorKind.permission_denied

  -- The position of a write.
  unfoldable pub write_position : WasmFile web → Opfs web ℕ
  write_position file =
      if file.append
      then (file_metadata web file.handle >>= λ metadata. give (metadata_len metadata))
      else give file.position

  -- `FileWrite::write` of `WasmFile`.
  unfoldable pub write : WasmFile web → List ℕ → Opfs web (Moved web)
  unfolding write_position
  write file buffer =
      if file.writable
      then (write_position file >>= λ position.
          write_at web file.handle position buffer
          >> give (record {
            value = length buffer;
            file = record file { position = position + length buffer };
          }))
      else raise ErrorKind.permission_denied

  -- The end of the file, for a seek from it.
  unfoldable pub seek_end : WasmFile web → SeekFrom → Opfs web ℕ
  seek_end file (SeekFrom.end offset) =
      file_metadata web file.handle >>= λ metadata. give (metadata_len metadata)
  seek_end file _ = give 0

  -- The check on the new position.
  unfoldable pub seek_to : WasmFile web → ℕ → Opfs web (Moved web)
  seek_to file position =
      if ltb max_safe_integer position
      then raise ErrorKind.invalid_input
      else give (record { value = position; file = record file { position = position } })

  -- `FileSeek::seek` of `WasmFile`.
  unfoldable pub seek : WasmFile web → SeekFrom → Opfs web (Moved web)
  unfolding seek_end seek_to
  seek file request = seek_end file request >>= λ end_position.
      answer (seek_position file.position end_position request) >>= seek_to file

  -- `WasmFile::set_len`.
  unfoldable pub set_len : WasmFile web → ℕ → Opfs web (Unit {0})
  set_len file size =
      if file.writable then truncate web file.handle size else raise ErrorKind.permission_denied

  -- The `match` on the lookup for `create_new`.
  unfoldable pub must_be_new : Result web.FileHandle → Opfs web (Unit {0})
  must_be_new (ok handle) = raise ErrorKind.already_exists
  must_be_new (err ErrorKind.not_found) = give tt
  must_be_new (err ErrorKind.is_a_directory) = raise ErrorKind.already_exists
  must_be_new (err error) = raise error

  -- What `open_file` does once the options are checked.
  unfoldable pub open_checked : PathBuf web → OpenOptions → Opfs web (WasmFile web)
  unfolding must_be_new
  open_checked path o =
      (if o.create_new then caught (file_at web path false) must_be_new else give tt)
      >> file_at web path (o.create || o.create_new)
      >>= λ handle.
          (if o.truncate then overwrite web handle [] else give tt)
          >> give (record {
            handle = handle;
            readable = o.read;
            writable = o.write || o.append;
            append = o.append;
            position = 0;
          })

  -- `open_file`.
  unfoldable pub open_file : PathBuf web → OpenOptions → Opfs web (WasmFile web)
  unfolding check_options open_checked
  open_file path o = answer (check_options o) >> open_checked path o

  -- `FileSystem::open` and `FileSystem::create`.
  unfoldable pub open_path : PathBuf web → Opfs web (WasmFile web)
  open_path path = file_at web path false >>= λ handle.
      give (record {
        handle = handle;
        readable = true;
        writable = false;
        append = false;
        position = 0;
      })

  unfoldable pub create_path : PathBuf web → Opfs web (WasmFile web)
  create_path path = file_at web path true >>= λ handle.
      overwrite web handle []
      >> give (record {
        handle = handle;
        readable = false;
        writable = true;
        append = false;
        position = 0;
      })
