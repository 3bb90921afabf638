-- ===== src/Opfs/Tree.antt =====
-- src/fs/wasm.rs: whole files, and the tree of directories: `create_dir`, `read_dir`, the removals,
-- `rename`, `copy`, `canonicalize` and `try_exists`. `copy_directory` recurs on fuel, a unit for each
-- directory level and each entry.
use async_rt.Prelude.{
  ℕ, zero, suc, Bool, true, false, ◌&&◌, if◌then◌else◌, Option, none, some, List, [], ◌∷◌, ◌++◌,
  length,
}
use async_rt.Prelude.Io.{Result, ok, err, ErrorKind}
use async_rt.Prelude.Effect.{answer, give, raise, caught, ◌>>=◌, ◌>>◌}
use async_rt.WasmPath.{pop, joined_path, normal}
use async_rt.Opfs.Web.{
  Called, threw, promised, EntryValue, nameless, named_file, named_directory, named_other, Web,
}
use async_rt.Opfs.Session.{EntryKind, Opfs, awaited, js_error}
use async_rt.Opfs.Streams.{overwrite}
use async_rt.Opfs.Entries.{
  Metadata, wasm_file, wasm_directory, PathBuf, directory_at, names_of, file_at, file_metadata,
  read_all, path_metadata, remove_entry, probe_directory,
}

module _ (web : Web) where
  open web use {Directory, FileHandle, Entries}
  open web.texts use {Name}

  -- `FileSystem::read`, `read_to_string` and `write`; `is_utf8` is the test of `String::from_utf8`.
  unfoldable pub read_file : PathBuf web → Opfs web (List ℕ)
  read_file path = file_at web path false >>= read_all web

  unfoldable pub read_text : (List ℕ → Bool) → PathBuf web → Opfs web (List ℕ)
  read_text is_utf8 path = read_file path >>= λ contents.
      if is_utf8 contents then give contents else raise ErrorKind.invalid_data

  unfoldable pub write_file : PathBuf web → List ℕ → Opfs web (Unit {0})
  write_file path contents = file_at web path true >>= λ file. overwrite web file contents

  -- `create_dir`, after the lookup of the name.
  unfoldable pub make_new : Directory → Name → Result (Unit {0}) → Opfs web (Unit {0})
  make_new parent name (ok u) = raise ErrorKind.already_exists
  make_new parent name (err ErrorKind.not_a_directory) = raise ErrorKind.already_exists
  make_new parent name (err ErrorKind.not_found) = probe_directory web parent name true
  make_new parent name (err error) = raise error

  unfoldable pub create_dir : PathBuf web → Opfs web (Unit {0})
  unfolding make_new
  create_dir path = names_of web path >>= λ names. elim (pop names) [
    | none ↦ raise ErrorKind.already_exists
    | some (parents, name) ↦ directory_at web parents false >>= λ parent.
        caught (probe_directory web parent name false) (make_new parent name)
  ]

  unfoldable pub create_dir_all : PathBuf web → Opfs web (Unit {0})
  create_dir_all path = names_of web path >>= λ names. directory_at web names true >> give tt

  unfoldable pub remove_dir : PathBuf web → Opfs web (Unit {0})
  remove_dir path = remove_entry web path EntryKind.directory false

  unfoldable pub remove_dir_all : PathBuf web → Opfs web (Unit {0})
  remove_dir_all path = remove_entry web path EntryKind.directory true

  unfoldable pub remove_file : PathBuf web → Opfs web (Unit {0})
  remove_file path = remove_entry web path EntryKind.file false

  unfoldable pub copy : PathBuf web → PathBuf web → Opfs web ℕ
  copy from to = read_file from >>= λ contents. write_file to contents >> give (length contents)

  -- An entry of a directory: its name, and its handle if it is a file.
  pub record WasmDirEntry : Type 0 where
    pub path : PathBuf web
    pub name : Name
    pub kind : Option FileHandle

  -- `WasmReadDir`.
  pub record WasmReadDir : Type 0 where
    pub iterator : Entries
    pub path : PathBuf web

  -- The value of `next`, as `next_entry` takes it apart.
  unfoldable pub entry_of : PathBuf web → EntryValue Name FileHandle → Result WasmDirEntry
  entry_of path nameless = err ErrorKind.other
  entry_of path (named_file name (some handle)) = ok (record {
    path = path ++ (normal (web.texts.of_str name) ∷ []);
    name = name;
    kind = some handle;
  })
  entry_of path (named_file name none) = err ErrorKind.other
  entry_of path (named_directory name true) =
      ok (record { path = path ++ (normal (web.texts.of_str name) ∷ []); name = name; kind = none })
  entry_of path (named_directory name false) = err ErrorKind.other
  entry_of path (named_other name) = err ErrorKind.other

  unfoldable pub advance :
      Called web.JsError (Option (EntryValue Name FileHandle))
      → Result (Option (EntryValue Name FileHandle))
  advance (threw e) = err (js_error (web.error_name e) EntryKind.either)
  advance (promised p) = awaited web EntryKind.either p

  unfoldable pub optional_entry :
      PathBuf web → Option (EntryValue Name FileHandle) → Result (Option WasmDirEntry)
  unfolding entry_of
  optional_entry path none = ok none
  optional_entry path (some v) = elim (entry_of path v) [ ok e ↦ ok (some e) | err k ↦ err k ]

  -- `next_entry`, with the iterator as it leaves it.
  unfoldable pub next_entry : WasmReadDir → Opfs web (Option WasmDirEntry × WasmReadDir)
  unfolding advance optional_entry
  next_entry d s =
      let r = web.next d.iterator s.disk in
      (answer (advance r.called) >>= λ v.
      answer (optional_entry d.path v) >>= λ e. give (e, record d { iterator = r.rest }))
        (record s { disk = r.disk })

  unfoldable pub read_dir : PathBuf web → Opfs web WasmReadDir
  read_dir path = names_of web path >>= λ names. directory_at web names false >>= λ directory. λ s.
      give (record { iterator = web.entries directory s.disk; path = joined_path web.texts names })
        s

  -- Whether the entry is a directory: `entry.file_type().await?.is_dir()`.
  unfoldable pub kind_is_dir : Option FileHandle → Opfs web Bool
  kind_is_dir none = give true
  kind_is_dir (some handle) = file_metadata web handle >> give false

  unfoldable pub is_dir : WasmDirEntry → Opfs web Bool
  unfolding kind_is_dir
  is_dir e = kind_is_dir e.kind

  -- `Vec` equality, and `starts_with`, on names.
  unfoldable pub same_names : List Name → List Name → Bool
  same_names [] [] = true
  same_names (a ∷ rest) (b ∷ bs) = web.same_name a b && same_names rest bs
  same_names _ _ = false

  unfoldable pub starts_with : List Name → List Name → Bool
  starts_with names [] = true
  starts_with [] (b ∷ bs) = false
  starts_with (a ∷ rest) (b ∷ bs) = web.same_name a b && starts_with rest bs

  -- `path.join(name)`.
  abbrev pub joined : PathBuf web → Name → PathBuf web
  joined path name = path ++ (normal (web.texts.of_str name) ∷ [])

  -- What follows a copy that may have run out of fuel.
  unfoldable pub finished :
      Opfs web (Option (Unit {0})) → Option (Unit {0}) → Opfs web (Option (Unit {0}))
  finished next none = give none
  finished next (some u) = next

  -- What the loop of `copy_directory` does with an entry: `copy_child` copies a directory, `next` is
  -- the rest of the loop.
  unfoldable pub copy_entry :
      (PathBuf web → PathBuf web → Opfs web (Option (Unit {0})))
      → Opfs web (Option (Unit {0}))
      → PathBuf web
      → Option WasmDirEntry
      → Opfs web (Option (Unit {0}))
  copy_entry copy_child next to none = give (some tt)
  copy_entry copy_child next to (some e) = is_dir e >>= λ directory.
      (if directory
        then copy_child e.path (joined to e.name)
        else (copy e.path (joined to e.name) >> give (some tt)))
      >>= finished next

  unfoldable mutual
    -- `copy_directory`; without fuel it is `none`, a run that is not over.
    pub copy_directory : ℕ → PathBuf web → PathBuf web → Opfs web (Option (Unit {0}))
    copy_directory zero from to = give none
    copy_directory (suc fuel) from to =
        create_dir_all to >> read_dir from >>= λ d. copy_entries fuel d to

    -- Its `while` loop.
    pub copy_entries : ℕ → WasmReadDir → PathBuf web → Opfs web (Option (Unit {0}))
    copy_entries zero d to = give none
    copy_entries (suc fuel) d to =
        next_entry d >>= λ r. copy_entry (copy_directory fuel) (copy_entries fuel r.1 to) to r.0

  -- A rename of a path that is a file, and of one that is a directory.
  unfoldable pub move_file : PathBuf web → PathBuf web → Opfs web (Option (Unit {0}))
  move_file from to = copy from to >>= λ len. remove_file from >> give (some tt)

  unfoldable pub move_directory : ℕ → PathBuf web → PathBuf web → Opfs web (Option (Unit {0}))
  move_directory fuel from to = names_of web from >>= λ from_names. names_of web to >>= λ to_names.
      if starts_with to_names from_names
      then raise ErrorKind.invalid_input
      else (copy_directory fuel from to >>= finished (remove_dir_all from >> give (some tt)))

  unfoldable pub move_entry :
      ℕ → PathBuf web → PathBuf web → Metadata → Opfs web (Option (Unit {0}))
  unfolding move_file move_directory
  move_entry fuel from to (wasm_file size) = move_file from to
  move_entry fuel from to wasm_directory = move_directory fuel from to

  -- `rename`, of the names of both paths. Joined paths are equal if their names are.
  unfoldable pub rename_names : ℕ → List Name → List Name → Opfs web (Option (Unit {0}))
  rename_names fuel from_names to_names =
      let from = joined_path web.texts from_names in
      let to = joined_path web.texts to_names in
      if same_names from_names to_names
      then (path_metadata web from >> give (some tt))
      else (path_metadata web from >>= move_entry fuel from to)

  -- `rename`.
  unfoldable pub rename : ℕ → PathBuf web → PathBuf web → Opfs web (Option (Unit {0}))
  rename fuel from to = names_of web from >>= λ from_names.
      names_of web to >>= λ to_names. rename_names fuel from_names to_names

  unfoldable pub canonicalize : PathBuf web → Opfs web (PathBuf web)
  canonicalize path = names_of web path >>= λ names.
      path_metadata web (joined_path web.texts names) >> give (joined_path web.texts names)

  -- The `match` of `try_exists`.
  unfoldable pub exists_result : Result Metadata → Opfs web Bool
  exists_result (ok metadata) = give true
  exists_result (err ErrorKind.not_found) = give false
  exists_result (err error) = raise error

  unfoldable pub try_exists : PathBuf web → Opfs web Bool
  unfolding exists_result
  try_exists path = caught (path_metadata web path) exists_result
