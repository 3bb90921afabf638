-- ===== src/Opfs/Quiet.antt =====
-- src/fs/wasm.rs: functions that only look. `Keeps P m` says that no run of `m` changes what `P` reads
-- off the calls, whatever the browser answers; it is closed under the ways in which functions are put
-- together.
use mathlib.Core.List.{append-nil}
use async_rt.Prelude.{
  Bool, true, false, if◌then◌else◌, Option, none, some, List, [], ◌∷◌, ◌++◌, ◌≡◌, refl, ap, ◌∙◌,
}
use async_rt.Prelude.Io.{Result, ok, err, ErrorKind}
use async_rt.Prelude.Effect.{answer, give, caught, proceed, ◌>>=◌, ◌>>◌}
use async_rt.WasmPath.{pop}
use async_rt.Opfs.Web.{Web}
use async_rt.Opfs.Session.{
  Call, Session, Opfs, root, navigator_storage, get_directory, keep_root, cached_root, creates_file,
  creates_directory,
}
use async_rt.Opfs.Entries.{
  Metadata, wasm_directory, PathBuf, get_directory_handle, get_file_handle, probe_directory,
  probe_file, descend, directory_at, names_of, parent_of, file_at, get_file, file_metadata,
  array_buffer, read_all, metadata_result, path_metadata, metadata_of,
}

module _ (web : Web) where
  open web use {Directory, FileHandle}
  open web.texts use {Name}

  module _ {V : Type 0} (view : List (Call web) → V) where
    abbrev pub Keeps : {A : Type 0} → Opfs web A → Type 0
    Keeps m = (s : Session web) → view (m s).state.calls ≡ view s.calls

    pub Keeps-answer : {A : Type 0} (r : Result A) → Keeps (answer r)
    Keeps-answer r s = refl

    pub Keeps-caught :
        {A B : Type 0} (m : Opfs web A) (k : Result A → Opfs web B)
        → Keeps m
        → ((r : Result A) → Keeps (k r))
        → Keeps (caught m k)
    Keeps-caught m k h g s = g (m s).result (m s).state ∙ h s

    pub Keeps-proceed :
        {A B : Type 0} (f : A → Opfs web B)
        → ((a : A) → Keeps (f a))
        → (r : Result A) → Keeps (proceed f r)
    Keeps-proceed f g (ok a) s = g a s
    Keeps-proceed f g (err e) s = refl

    pub Keeps-bind :
        {A B : Type 0} (m : Opfs web A) (f : A → Opfs web B)
        → Keeps m
        → ((a : A) → Keeps (f a))
        → Keeps (m >>= f)
    Keeps-bind m f h g = Keeps-caught m (proceed f) h (Keeps-proceed f g)

    pub Keeps-if :
        {A : Type 0} (b : Bool) (m k : Opfs web A) → Keeps m → Keeps k → Keeps (if b then m else k)
    Keeps-if true m k h g = h
    Keeps-if false m k h g = g

    cached_root-Keeps : (o : Option Directory) → Keeps (cached_root web o)
    unfolding cached_root navigator_storage get_directory keep_root
    cached_root-Keeps (some d) = λ s. refl
    cached_root-Keeps none =
        Keeps-bind (navigator_storage web >> get_directory web) (keep_root web)
          (Keeps-bind (navigator_storage web) (λ _. get_directory web) (λ s. refl) (λ _ s. refl))
          (λ d s. refl)

    pub root-Keeps : Keeps (root web)
    unfolding root
    root-Keeps s = cached_root-Keeps s.root s

    pub read_all-Keeps : (handle : FileHandle) → Keeps (read_all web handle)
    unfolding read_all get_file array_buffer
    read_all-Keeps handle =
        Keeps-bind (get_file web handle) (array_buffer web) (λ s. refl) (λ f s. refl)

    pub file_metadata-Keeps : (handle : FileHandle) → Keeps (file_metadata web handle)
    unfolding file_metadata get_file
    file_metadata-Keeps handle =
        Keeps-bind (get_file web handle) (λ file. answer (metadata_of web file)) (λ s. refl)
          (λ f s. refl)

    -- Lookups that may create an entry, where the view does not see the creation.
    module _ (create : Bool)
        (unseen : (d : Directory) (n : Name) (calls : List (Call web))
          → (view (calls ++ (if create then creates_file d n ∷ [] else [])) ≡ view calls)
            × (view (calls ++ (if create then creates_directory d n ∷ [] else []))
                ≡ view calls)) where
      pub get_directory_handle-Keeps :
          (d : Directory) (n : Name) → Keeps (get_directory_handle web d n create)
      unfolding get_directory_handle
      get_directory_handle-Keeps d n s = (unseen d n s.calls).1

      pub probe_directory-Keeps :
          (d : Directory) (n : Name) → Keeps (probe_directory web d n create)
      unfolding probe_directory
      probe_directory-Keeps d n s = (unseen d n s.calls).1

      pub get_file_handle-Keeps :
          (d : Directory) (n : Name) → Keeps (get_file_handle web d n create)
      unfolding get_file_handle
      get_file_handle-Keeps d n s = (unseen d n s.calls).0

      pub probe_file-Keeps : (d : Directory) (n : Name) → Keeps (probe_file web d n create)
      unfolding probe_file
      probe_file-Keeps d n s = (unseen d n s.calls).0

      descend-Keeps : (names : List Name) (d : Directory) → Keeps (descend web names create d)
      unfolding descend
      descend-Keeps [] d = λ s. refl
      descend-Keeps (n ∷ names) d =
          Keeps-bind (get_directory_handle web d n create) (descend web names create)
            (get_directory_handle-Keeps d n) (descend-Keeps names)

      pub directory_at-Keeps : (names : List Name) → Keeps (directory_at web names create)
      unfolding directory_at
      directory_at-Keeps names =
          Keeps-bind (root web) (descend web names create) root-Keeps (descend-Keeps names)

    -- Without the option `create` nothing is noted.
    unseen_false :
        (d : Directory) (n : Name) (calls : List (Call web))
        → (view (calls ++ []) ≡ view calls) × (view (calls ++ []) ≡ view calls)
    unseen_false d n calls = (ap view (append-nil calls), ap view (append-nil calls))

    pub found_directory-Keeps : (names : List Name) → Keeps (directory_at web names false)
    found_directory-Keeps = directory_at-Keeps false unseen_false

    pub probed_file-Keeps : (d : Directory) (n : Name) → Keeps (probe_file web d n false)
    probed_file-Keeps = probe_file-Keeps false unseen_false

    pub probed_directory-Keeps : (d : Directory) (n : Name) → Keeps (probe_directory web d n false)
    probed_directory-Keeps = probe_directory-Keeps false unseen_false

    -- A file below the directories of its path.
    pub file_at-Keeps :
        (path : PathBuf web) (create : Bool)
        → ((d : Directory) (n : Name) → Keeps (get_file_handle web d n create))
        → Keeps (file_at web path create)
    unfolding file_at parent_of
    file_at-Keeps path create h =
        Keeps-bind (parent_of web path)
          (λ p. directory_at web p.0 false >>= λ d. get_file_handle web d p.1 create) (λ s. refl)
          (λ p.
            Keeps-bind (directory_at web p.0 false) (λ d. get_file_handle web d p.1 create)
              (found_directory-Keeps p.0) (λ d. h d p.1))

    pub found_file-Keeps : (path : PathBuf web) → Keeps (file_at web path false)
    found_file-Keeps path = file_at-Keeps path false (get_file_handle-Keeps false unseen_false)

    metadata_result-Keeps :
        (d : Directory) (n : Name) (r : Result FileHandle) → Keeps (metadata_result web d n r)
    unfolding metadata_result
    metadata_result-Keeps d n (ok handle) = file_metadata-Keeps handle
    metadata_result-Keeps d n (err ErrorKind.is_a_directory) =
        Keeps-bind (probe_directory web d n false) (λ _. give wasm_directory)
          (probed_directory-Keeps d n) (λ _ s. refl)
    metadata_result-Keeps d n (err e) = λ s. refl

    pub path_metadata-Keeps : (path : PathBuf web) → Keeps (path_metadata web path)
    unfolding path_metadata names_of
    path_metadata-Keeps path =
        Keeps-bind (names_of web path) (λ names. of_names names (pop names)) (λ s. refl)
          (λ names. of_names-Keeps names (pop names))
      where
        of_names : List Name → Option (List Name × Name) → Opfs web Metadata
        of_names names o = elim o [
          | none ↦ directory_at web names false >> give wasm_directory
          | some (parent, name) ↦ directory_at web parent false >>= λ directory.
              caught (get_file_handle web directory name false) (metadata_result web directory name)
        ]

        of_names-Keeps :
            (names : List Name) (o : Option (List Name × Name)) → Keeps (of_names names o)
        of_names-Keeps names none =
            Keeps-bind (directory_at web names false) (λ _. give wasm_directory)
              (found_directory-Keeps names) (λ _ s. refl)
        of_names-Keeps names (some (parent, name)) =
            Keeps-bind (directory_at web parent false)
              (λ d. caught (get_file_handle web d name false) (metadata_result web d name))
              (found_directory-Keeps parent)
              (λ d.
                Keeps-caught (get_file_handle web d name false) (metadata_result web d name)
                  (get_file_handle-Keeps false unseen_false d name) (metadata_result-Keeps d name))
