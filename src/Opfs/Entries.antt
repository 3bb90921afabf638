-- ===== src/Opfs/Entries.antt =====
-- src/fs/wasm.rs: directories, files and metadata by path, and `remove_entry`.
use async_rt.Prelude.{ℕ, Bool, false, if◌then◌else◌, none, some, List, [], ◌∷◌}
use async_rt.Prelude.Io.{Result, ok, err, ErrorKind}
use async_rt.Prelude.Effect.{answer, give, raise, caught, ◌>>=◌, ◌>>◌}
use async_rt.WasmPath.{Component, pop, split_path, split_parent}
use async_rt.Opfs.Web.{Web}
use async_rt.Opfs.Session.{
  EntryKind, creates_file, creates_directory, removes, noted_if, Opfs, noted, awaited, settled_unit,
  root,
}

-- `Metadata` of a wasm build: its size is that of a file.
pub data Metadata : Type 0 where
  wasm_file : ℕ → Metadata
  wasm_directory : Metadata

module _ (web : Web) where
  open web use {Directory, FileHandle, JsFile}
  open web.texts use {Name}

  -- A path, by its components.
  abbrev pub PathBuf : Type 0
  PathBuf = List (Component web.texts)

  unfoldable pub get_directory_handle : Directory → Name → Bool → Opfs web Directory
  get_directory_handle directory name create s =
      let r = web.get_directory_handle directory name create s.disk in
      answer (awaited web EntryKind.directory r.settled)
        (noted_if web create (creates_directory directory name) (record s { disk = r.disk }))

  -- The same, where the handle is not used.
  unfoldable pub probe_directory : Directory → Name → Bool → Opfs web (Unit {0})
  probe_directory directory name create s =
      let r = web.get_directory_handle directory name create s.disk in
      answer (settled_unit web EntryKind.directory r.settled)
        (noted_if web create (creates_directory directory name) (record s { disk = r.disk }))

  unfoldable pub get_file_handle : Directory → Name → Bool → Opfs web FileHandle
  get_file_handle directory name create s =
      let r = web.get_file_handle directory name create s.disk in
      answer (awaited web EntryKind.file r.settled)
        (noted_if web create (creates_file directory name) (record s { disk = r.disk }))

  unfoldable pub probe_file : Directory → Name → Bool → Opfs web (Unit {0})
  probe_file directory name create s =
      let r = web.get_file_handle directory name create s.disk in
      answer (settled_unit web EntryKind.file r.settled)
        (noted_if web create (creates_file directory name) (record s { disk = r.disk }))

  -- The loop of `directory_at`.
  unfoldable pub descend : List Name → Bool → Directory → Opfs web Directory
  descend [] create directory = give directory
  descend (name ∷ names) create directory =
      get_directory_handle directory name create >>= descend names create

  -- `directory_at`.
  unfoldable pub directory_at : List Name → Bool → Opfs web Directory
  directory_at names create = root web >>= descend names create

  -- `split_path(path)?` and `split_parent(path)?`.
  unfoldable pub names_of : PathBuf → Opfs web (List Name)
  names_of path = answer (split_path web.texts path)

  unfoldable pub parent_of : PathBuf → Opfs web (List Name × Name)
  parent_of path = answer (split_parent web.texts path)

  -- `file_at`.
  unfoldable pub file_at : PathBuf → Bool → Opfs web FileHandle
  file_at path create = parent_of path >>= λ p.
      directory_at p.0 false >>= λ directory. get_file_handle directory p.1 create

  unfoldable pub get_file : FileHandle → Opfs web JsFile
  get_file handle s =
      let r = web.get_file handle s.disk in
      answer (awaited web EntryKind.file r.settled) (record s { disk = r.disk })

  -- The tests of `file_metadata` on the time, and its result.
  unfoldable pub metadata_of : JsFile → Result Metadata
  metadata_of file =
      if web.has_time file then ok (wasm_file (web.size file)) else err ErrorKind.other

  unfoldable pub file_metadata : FileHandle → Opfs web Metadata
  file_metadata handle = get_file handle >>= λ file. answer (metadata_of file)

  unfoldable pub array_buffer : JsFile → Opfs web (List ℕ)
  array_buffer file s =
      let r = web.array_buffer file s.disk in
      answer (awaited web EntryKind.file r.settled) (record s { disk = r.disk })

  -- `read_all`.
  unfoldable pub read_all : FileHandle → Opfs web (List ℕ)
  read_all handle = get_file handle >>= array_buffer

  -- The `match` in `path_metadata`: the entry is asked for as a file first.
  unfoldable pub metadata_result : Directory → Name → Result FileHandle → Opfs web Metadata
  metadata_result directory name (ok handle) = file_metadata handle
  metadata_result directory name (err ErrorKind.is_a_directory) =
      probe_directory directory name false >> give wasm_directory
  metadata_result directory name (err error) = raise error

  unfoldable pub path_metadata : PathBuf → Opfs web Metadata
  path_metadata path = names_of path >>= λ names. elim (pop names) [
    | none ↦ directory_at names false >> give wasm_directory
    | some (parent, name) ↦ directory_at parent false >>= λ directory.
        caught (get_file_handle directory name false) (metadata_result directory name)
  ]

  -- The check on the kind of the entry in `remove_entry`.
  unfoldable pub check_kind : EntryKind → Directory → Name → Opfs web (Unit {0})
  check_kind EntryKind.file directory name = probe_file directory name false
  check_kind EntryKind.directory directory name = probe_directory directory name false
  check_kind EntryKind.either directory name = give tt

  unfoldable pub remove_from : Directory → Name → Bool → EntryKind → Opfs web (Unit {0})
  remove_from directory name recursive kind s =
      let r = web.remove_entry directory name recursive s.disk in
      answer (settled_unit web kind r.settled)
        (noted web (removes name recursive) (record s { disk = r.disk }))

  unfoldable pub remove_entry : PathBuf → EntryKind → Bool → Opfs web (Unit {0})
  remove_entry path kind recursive = parent_of path >>= λ p. directory_at p.0 false >>= λ directory.
      check_kind kind directory p.1 >> remove_from directory p.1 recursive kind
