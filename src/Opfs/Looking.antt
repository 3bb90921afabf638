-- ===== src/Opfs/Looking.antt =====
-- src/fs/wasm.rs: the functions of the file system that only look change nothing.
use async_rt.Opfs.Streams.{max_safe_integer}
use async_rt.Prelude.{ℕ, true, false, List, ◌≡◌, refl, ltb}
use async_rt.Prelude.Io.{Result, ok, err, ErrorKind}
use async_rt.Prelude.Effect.{answer, give, raise, ◌>>=◌, ◌>>◌}
use async_rt.WasmPath.{joined_path}
use async_rt.Seek.{SeekFrom, seek_position}
use async_rt.Opfs.Web.{Web}
use async_rt.Opfs.Session.{Call, Session, Opfs}
use async_rt.Opfs.Entries.{
  Metadata, PathBuf, directory_at, names_of, file_at, file_metadata, read_all, path_metadata,
}
use async_rt.Opfs.Files.{
  WasmFile, read, read_from, seek, seek_end, seek_to, metadata_len, open_path,
}
use async_rt.Opfs.Tree.{read_file, read_dir, exists_result, try_exists, canonicalize, WasmReadDir}
use async_rt.Opfs.Quiet.{
  Keeps, Keeps-caught, Keeps-bind, Keeps-if, read_all-Keeps, file_metadata-Keeps,
  found_directory-Keeps, found_file-Keeps, path_metadata-Keeps,
}

module _ (web : Web) {V : Type 0} (view : List (Call web) → V) where
  pub read_file-Keeps : (path : PathBuf web) → Keeps web view (read_file web path)
  unfolding read_file
  read_file-Keeps path =
      Keeps-bind web view (file_at web path false) (read_all web) (found_file-Keeps web view path)
        (read_all-Keeps web view)

  pub read_dir-Keeps : (path : PathBuf web) → Keeps web view (read_dir web path)
  unfolding read_dir names_of
  read_dir-Keeps path =
      Keeps-bind web view (names_of web path)
        (λ names. directory_at web names false >>= λ d. opened names d) (λ s. refl)
        (λ names.
          Keeps-bind web view (directory_at web names false) (opened names)
            (found_directory-Keeps web view names) (λ d s. refl))
    where
      opened : List web.texts.Name → web.Directory → Opfs web (WasmReadDir web)
      opened names d s =
          give (record { iterator = web.entries d s.disk; path = joined_path web.texts names }) s

  exists_result-Keeps : (r : Result Metadata) → Keeps web view (exists_result web r)
  unfolding exists_result
  exists_result-Keeps (ok m) = λ s. refl
  exists_result-Keeps (err ErrorKind.not_found) = λ s. refl
  exists_result-Keeps (err e) = λ s. refl

  try_exists-Keeps : (path : PathBuf web) → Keeps web view (try_exists web path)
  unfolding try_exists
  try_exists-Keeps path =
      Keeps-caught web view (path_metadata web path) (exists_result web)
        (path_metadata-Keeps web view path) exists_result-Keeps

  canonicalize-Keeps : (path : PathBuf web) → Keeps web view (canonicalize web path)
  unfolding canonicalize names_of
  canonicalize-Keeps path =
      Keeps-bind web view (names_of web path)
        (λ names.
          path_metadata web (joined_path web.texts names) >> give (joined_path web.texts names))
        (λ s. refl)
        (λ names.
          Keeps-bind web view (path_metadata web (joined_path web.texts names))
            (λ _. give (joined_path web.texts names))
            (path_metadata-Keeps web view (joined_path web.texts names)) (λ _ s. refl))

  read-Keeps : (file : WasmFile web) (buffer : List ℕ) → Keeps web view (read web file buffer)
  unfolding read
  read-Keeps file buffer =
      Keeps-if web view file.readable
        (read_all web file.handle >>= λ contents. give (read_from web file buffer contents))
        (raise ErrorKind.permission_denied)
        (Keeps-bind web view (read_all web file.handle)
          (λ contents. give (read_from web file buffer contents))
          (read_all-Keeps web view file.handle) (λ c s. refl))
        (λ s. refl)

  seek_end-Keeps :
      (file : WasmFile web) (request : SeekFrom) → Keeps web view (seek_end web file request)
  unfolding seek_end
  seek_end-Keeps file (SeekFrom.end offset) =
      Keeps-bind web view (file_metadata web file.handle) (λ m. give (metadata_len m))
        (file_metadata-Keeps web view file.handle) (λ m s. refl)
  seek_end-Keeps file _ = λ s. refl

  seek_to-Keeps : (file : WasmFile web) (position : ℕ) → Keeps web view (seek_to web file position)
  unfolding seek_to
  seek_to-Keeps file position =
      Keeps-if web view (ltb max_safe_integer position) (raise ErrorKind.invalid_input)
        (give (record { value = position; file = record file { position = position } })) (λ s. refl)
        (λ s. refl)

  seek-Keeps : (file : WasmFile web) (request : SeekFrom) → Keeps web view (seek web file request)
  unfolding seek
  seek-Keeps file request =
      Keeps-bind web view (seek_end web file request)
        (λ length. answer (seek_position file.position length request) >>= seek_to web file)
        (seek_end-Keeps file request)
        (λ length.
          Keeps-bind web view (answer (seek_position file.position length request))
            (seek_to web file) (λ s. refl) (seek_to-Keeps file))

  open_path-Keeps : (path : PathBuf web) → Keeps web view (open_path web path)
  unfolding open_path
  open_path-Keeps path =
      Keeps-bind web view (file_at web path false) opened (found_file-Keeps web view path)
        (λ h s. refl)
    where
      opened : web.FileHandle → Opfs web (WasmFile web)
      opened handle = give (record {
        handle = handle;
        readable = true;
        writable = false;
        append = false;
        position = 0;
      })

-- Reading a file, its metadata, `try_exists`, `canonicalize`, `read_dir`, opening a file to read, and
-- `read` and `seek` of an open file make no call that changes a file or a directory, on any path and
-- whatever the browser answers.
pub looking-Quiet :
    (web : Web) (path : PathBuf web) (file : WasmFile web) (buffer : List ℕ) (request : SeekFrom)
    (s : Session web)
    → ((read_file web path s).state.calls ≡ s.calls)
      × ((path_metadata web path s).state.calls ≡ s.calls)
      × ((try_exists web path s).state.calls ≡ s.calls)
      × ((canonicalize web path s).state.calls ≡ s.calls)
      × ((read_dir web path s).state.calls ≡ s.calls)
      × ((open_path web path s).state.calls ≡ s.calls)
      × ((read web file buffer s).state.calls ≡ s.calls)
      × ((seek web file request s).state.calls ≡ s.calls)
looking-Quiet web path file buffer request s = (
  read_file-Keeps web (λ c. c) path s,
  path_metadata-Keeps web (λ c. c) path s,
  try_exists-Keeps web (λ c. c) path s,
  canonicalize-Keeps web (λ c. c) path s,
  read_dir-Keeps web (λ c. c) path s,
  open_path-Keeps web (λ c. c) path s,
  read-Keeps web (λ c. c) file buffer s,
  seek-Keeps web (λ c. c) file request s,
)
