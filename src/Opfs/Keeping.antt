-- ===== src/Opfs/Keeping.antt =====
-- src/fs/wasm.rs: a rename removes its source only after the copy is complete.
use async_rt.Prelude.{
  ℕ, zero, suc, Bool, true, false, ◌||◌, if◌then◌else◌, Option, none, some, List, [], ◌∷◌, ◌++◌,
  ◌≡◌, refl, ap, length,
}
use async_rt.Prelude.Io.{Result, ok, err}
use async_rt.Prelude.Effect.{answer, give, ◌>>=◌, ◌>>◌}
use async_rt.Opfs.Web.{Web, EntryValue}
use async_rt.Opfs.Session.{
  Call, creates_file, creates_directory, creates_writable, writes, closes, aborts, removes, Opfs,
}
use async_rt.Opfs.Streams.{
  open_writer, stream_write, stream_close, abort_with, finish_result, finish_write, overwrite,
}
use async_rt.Opfs.Entries.{
  Metadata, wasm_file, wasm_directory, PathBuf, directory_at, names_of, file_at, file_metadata,
}
use async_rt.Opfs.Tree.{
  read_file, write_file, copy, create_dir_all, read_dir, WasmReadDir, WasmDirEntry, next_entry,
  advance, optional_entry, is_dir, finished, copy_directory, copy_entries, joined, kind_is_dir,
  copy_entry,
}
use async_rt.Opfs.Quiet.{
  Keeps, Keeps-caught, Keeps-bind, Keeps-if, file_metadata-Keeps, directory_at-Keeps, file_at-Keeps,
  get_file_handle-Keeps,
}
use async_rt.Opfs.Looking.{read_file-Keeps, read_dir-Keeps}

module _ (web : Web) where
  open web use {FileHandle, Stream, Directory}
  open web.texts use {Name}

  abbrev is_removal : Call web → Bool
  is_removal (removes name recursive) = true
  is_removal _ = false

  -- Whether something has been removed.
  abbrev pub removed : List (Call web) → Bool
  removed [] = false
  removed (call ∷ calls) = is_removal call || removed calls

  removed-append :
      (calls : List (Call web)) (c : Call web)
      → is_removal c ≡ false
      → removed (calls ++ (c ∷ [])) ≡ removed calls
  removed-append [] c h = rw h refl
  removed-append (x ∷ calls) c h = ap (λ b. is_removal x || b) (removed-append calls c h)

  Unremoving : {A : Type 0} → Opfs web A → Type 0
  Unremoving m = Keeps web removed m

  stream_write-Keeps :
      (stream : Stream) (contents : List ℕ) → Keeps web removed (stream_write web stream contents)
  unfolding stream_write
  stream_write-Keeps stream contents s = removed-append s.calls (writes stream contents) refl

  finish_result-Keeps :
      (stream : Stream) (r : Result (Unit {0})) → Keeps web removed (finish_result web stream r)
  unfolding finish_result stream_close abort_with
  finish_result-Keeps stream (ok u) = λ s. removed-append s.calls (closes stream) refl
  finish_result-Keeps stream (err e) = λ s. removed-append s.calls (aborts stream) refl

  overwrite-Keeps :
      (handle : FileHandle) (contents : List ℕ) → Keeps web removed (overwrite web handle contents)
  unfolding overwrite finish_write open_writer
  overwrite-Keeps handle contents =
      Keeps-bind web removed (open_writer web handle false)
        (λ stream. finish_write web stream (stream_write web stream contents))
        (λ s. removed-append s.calls (creates_writable handle false) refl)
        (λ stream.
          Keeps-caught web removed (stream_write web stream contents) (finish_result web stream)
            (stream_write-Keeps stream contents) (finish_result-Keeps stream))

  unseen :
      (d : Directory) (n : Name) (calls : List (Call web))
      → (removed (calls ++ (creates_file d n ∷ [])) ≡ removed calls)
        × (removed (calls ++ (creates_directory d n ∷ [])) ≡ removed calls)
  unseen d n calls = (
    removed-append calls (creates_file d n) refl,
    removed-append calls (creates_directory d n) refl,
  )

  write_file-Keeps :
      (path : PathBuf web) (contents : List ℕ) → Keeps web removed (write_file web path contents)
  unfolding write_file
  write_file-Keeps path contents =
      Keeps-bind web removed (file_at web path true) (λ file. overwrite web file contents)
        (file_at-Keeps web removed path true (get_file_handle-Keeps web removed true unseen))
        (λ h. overwrite-Keeps h contents)

  pub copy-Keeps : (from to : PathBuf web) → Keeps web removed (copy web from to)
  unfolding copy
  copy-Keeps from to =
      Keeps-bind web removed (read_file web from)
        (λ contents. write_file web to contents >> give (length contents))
        (read_file-Keeps web removed from)
        (λ contents.
          Keeps-bind web removed (write_file web to contents) (λ _. give (length contents))
            (write_file-Keeps to contents) (λ _ s. refl))

  create_dir_all-Keeps : (path : PathBuf web) → Keeps web removed (create_dir_all web path)
  unfolding create_dir_all names_of
  create_dir_all-Keeps path =
      Keeps-bind web removed (names_of web path) (λ names. directory_at web names true >> give tt)
        (λ s. refl)
        (λ names.
          Keeps-bind web removed (directory_at web names true) (λ _. give tt)
            (directory_at-Keeps web removed true unseen names) (λ _ s. refl))

  next_entry-Keeps : (d : WasmReadDir web) → Keeps web removed (next_entry web d)
  unfolding next_entry
  next_entry-Keeps d s =
      let r = web.next d.iterator s.disk in
      Keeps-bind web removed (answer (advance web r.called)) (found r.rest) (λ s. refl)
        (λ v.
          Keeps-bind web removed (answer (optional_entry web d.path v)) (λ e. left r.rest e)
            (λ s. refl) (λ e s. refl))
        (record s { disk = r.disk })
    where
      left :
          web.Entries
          → Option (WasmDirEntry web)
          → Opfs web (Option (WasmDirEntry web) × WasmReadDir web)
      left rest e = give (e, record d { iterator = rest })

      found :
          web.Entries
          → Option (EntryValue Name FileHandle)
          → Opfs web (Option (WasmDirEntry web) × WasmReadDir web)
      found rest v = answer (optional_entry web d.path v) >>= left rest

  is_dir-Keeps : (e : WasmDirEntry web) → Keeps web removed (is_dir web e)
  unfolding is_dir kind_is_dir
  is_dir-Keeps e = kind_is_dir-Keeps e.kind
    where
      kind_is_dir-Keeps : (o : Option FileHandle) → Keeps web removed (kind_is_dir web o)
      kind_is_dir-Keeps none = λ s. refl
      kind_is_dir-Keeps (some handle) =
          Keeps-bind web removed (file_metadata web handle) (λ _. give false)
            (file_metadata-Keeps web removed handle) (λ _ s. refl)

  finished-Keeps :
      (next : Opfs web (Option (Unit {0})))
      → Keeps web removed next
      → (o : Option (Unit {0})) → Keeps web removed (finished web next o)
  unfolding finished
  finished-Keeps next h none = λ s. refl
  finished-Keeps next h (some u) = h

  copy_entry-Keeps :
      (copy_child : PathBuf web → PathBuf web → Opfs web (Option (Unit {0})))
      (next : Opfs web (Option (Unit {0})))
      → ((from to : PathBuf web) → Keeps web removed (copy_child from to))
      → Keeps web removed next
      → (to : PathBuf web) (o : Option (WasmDirEntry web))
      → Keeps web removed (copy_entry web copy_child next to o)
  unfolding copy_entry
  copy_entry-Keeps copy_child next h g to none = λ s. refl
  copy_entry-Keeps copy_child next h g to (some e) =
      Keeps-bind web removed (is_dir web e) (λ directory. chosen directory >>= finished web next)
        (is_dir-Keeps e)
        (λ directory.
          Keeps-bind web removed (chosen directory) (finished web next)
            (Keeps-if web removed directory (copy_child e.path (joined web to e.name)) (copied_file)
              (h e.path (joined web to e.name))
              (Keeps-bind web removed (copy web e.path (joined web to e.name)) (λ _. give (some tt))
                (copy-Keeps e.path (joined web to e.name)) (λ _ s. refl)))
            (finished-Keeps next g))
    where
      copied_file : Opfs web (Option (Unit {0}))
      copied_file = copy web e.path (joined web to e.name) >> give (some tt)

      chosen : Bool → Opfs web (Option (Unit {0}))
      chosen directory = if directory then copy_child e.path (joined web to e.name) else copied_file

  mutual
    unfolding copy_directory copy_entries

    pub copy_directory-Keeps :
        (fuel : ℕ) (from to : PathBuf web) → Keeps web removed (copy_directory web fuel from to)
    copy_directory-Keeps zero from to = λ s. refl
    copy_directory-Keeps (suc fuel) from to =
        Keeps-bind web removed (create_dir_all web to >> read_dir web from)
          (λ d. copy_entries web fuel d to)
          (Keeps-bind web removed (create_dir_all web to) (λ _. read_dir web from)
            (create_dir_all-Keeps to) (λ _. read_dir-Keeps web removed from))
          (λ d. copy_entries-Keeps fuel d to)

    copy_entries-Keeps :
        (fuel : ℕ) (d : WasmReadDir web) (to : PathBuf web)
        → Keeps web removed (copy_entries web fuel d to)
    copy_entries-Keeps zero d to = λ s. refl
    copy_entries-Keeps (suc fuel) d to =
        Keeps-bind web removed (next_entry web d)
          (λ r. copy_entry web (copy_directory web fuel) (copy_entries web fuel r.1 to) to r.0)
          (next_entry-Keeps d)
          (λ r.
            copy_entry-Keeps (copy_directory web fuel) (copy_entries web fuel r.1 to)
              (copy_directory-Keeps fuel) (copy_entries-Keeps fuel r.1 to) to r.0)

  -- What a rename copies, by what the source is.
  abbrev pub transfer : ℕ → PathBuf web → PathBuf web → Metadata → Opfs web (Option (Unit {0}))
  transfer fuel from to (wasm_file size) = copy web from to >> give (some tt)
  transfer fuel from to wasm_directory = copy_directory web fuel from to
