-- ===== src/Opfs/Opening.antt =====
-- `open_file` of src/fs/wasm.rs: which options it accepts, and what it opens.
use async_rt.Prelude.{Bool, true, false, ◌||◌, if◌then◌else◌, [], ◌≡◌, refl, ◌⊎◌, inl, inr, arith}
use async_rt.Prelude.Io.{Result, ok, err, ErrorKind}
use async_rt.Prelude.Effect.{Answer, give, caught, proceed, ◌>>◌}
use async_rt.Opfs.Web.{Web}
use async_rt.Opfs.Session.{Session, Opfs}
use async_rt.Opfs.Streams.{overwrite}
use async_rt.Opfs.Entries.{PathBuf, file_at}
use async_rt.Opfs.Files.{OpenOptions, WasmFile, check_options, must_be_new, open_checked, open_file}

-- A file is opened to read or to write; it is created or truncated only to write, and not truncated
-- to append.
abbrev pub IsValid : OpenOptions → Type 0
IsValid o =
    ((o.read ≡ true) ⊎ (o.write ≡ true) ⊎ (o.append ≡ true))
    × (((o.truncate ≡ false) × (o.create ≡ false) × (o.create_new ≡ false))
        ⊎ (o.write ≡ true)
        ⊎ (o.append ≡ true))
    × ((o.truncate ≡ false) ⊎ (o.append ≡ false))

check_options-IsValid : (o : OpenOptions) → check_options o ≡ ok tt → IsValid o
unfolding check_options
check_options-IsValid o h = ground arith

check_options-error :
    (o : OpenOptions) (e : ErrorKind) → check_options o ≡ err e → e ≡ ErrorKind.invalid_input
unfolding check_options
check_options-error o e h = ground arith

module _ (web : Web) (path : PathBuf web) (o : OpenOptions) (s : Session web) where
  -- An open file has the options; with `create_new` there was no file before. An error is either met
  -- while the file is looked up, with valid options, or `InvalidInput` before anything is done.
  abbrev pub Opened : Answer (Session web) (WasmFile web) → Result (WasmFile web) → Type 0
  Opened r (ok file) =
      IsValid o
      × (file.readable ≡ o.read)
      × (file.writable ≡ (o.write || o.append))
      × (file.append ≡ o.append)
      × (file.position ≡ 0)
      × ((o.create_new ≡ false) ⊎ ((file_at web path false s).result ≡ err ErrorKind.not_found))
  Opened r (err e) = IsValid o ⊎ ((e ≡ ErrorKind.invalid_input) × (r.state ≡ s))

  -- The lookup for `create_new` goes on only if there is no file.
  must_be_new-not_found :
      (r : Result web.FileHandle) (t : Session web)
      → (must_be_new web r t).result ≡ ok tt
      → r ≡ err ErrorKind.not_found
  unfolding must_be_new
  must_be_new-not_found (ok h) t e = cc
  must_be_new-not_found (err ErrorKind.not_found) t e = refl
  must_be_new-not_found (err k) t e = cc

  abbrev first : Bool → Opfs web (Unit {0})
  first b = if b then caught (file_at web path false) (must_be_new web) else give tt

  first-not_found :
      (b : Bool)
      → (first b s).result ≡ ok tt
      → (b ≡ false) ⊎ ((file_at web path false s).result ≡ err ErrorKind.not_found)
  first-not_found true e =
      inr
        (must_be_new-not_found (file_at web path false s).result (file_at web path false s).state e)
  first-not_found false e = inl refl

  opened : web.FileHandle → WasmFile web
  opened handle = record {
    handle = handle;
    readable = o.read;
    writable = o.write || o.append;
    append = o.append;
    position = 0;
  }

  open_checked-Opened :
      IsValid o → Opened (open_checked web path o s) (open_checked web path o s).result
  unfolding open_checked opened
  open_checked-Opened v = go (first o.create_new s).result (first o.create_new s).state refl
    where
      truncated : web.FileHandle → Opfs web (WasmFile web)
      truncated handle =
          (if o.truncate then overwrite web handle [] else give tt) >> give (opened handle)

      last :
          (handle : web.FileHandle) (r : Result (Unit {0})) (t : Session web)
          → (first o.create_new s).result ≡ ok tt
          → Opened
              (proceed (λ _. give (opened handle)) r t)
              (proceed (λ _. give (opened handle)) r t).result
      last handle (ok u) t e = (v, refl, refl, refl, refl, first-not_found o.create_new e)
      last handle (err k) t e = inl v

      found :
          (r : Result web.FileHandle) (t : Session web)
          → (first o.create_new s).result ≡ ok tt
          → Opened (proceed truncated r t) (proceed truncated r t).result
      found (err k) t e = inl v
      found (ok handle) t e =
          last handle ((if o.truncate then overwrite web handle [] else give tt) t).result
            ((if o.truncate then overwrite web handle [] else give tt) t).state e

      looked : Unit {0} → Opfs web web.FileHandle
      looked u = file_at web path (o.create || o.create_new)

      go :
          (r : Result (Unit {0})) (t : Session web)
          → (first o.create_new s).result ≡ r
          → let a = caught (λ x. proceed looked r t) (proceed truncated) s in Opened a a.result
      go (err k) t e = inl v
      go (ok u) t e = found (looked tt t).result (looked tt t).state e

  -- Opening a file with any options, path and answers of the browser: `open_file` succeeds only with
  -- valid options, gives the file the access that they ask for and the position 0, and with
  -- `create_new` only if the lookup had found no file; invalid options are `InvalidInput`, and then
  -- nothing has been looked up or changed.
  pub open_file-Opened : Opened (open_file web path o s) (open_file web path o s).result
  unfolding open_file
  open_file-Opened = go (check_options o) refl
    where
      go :
          (r : Result (Unit {0}))
          → check_options o ≡ r
          → let a = proceed (λ _. open_checked web path o) r s in Opened a a.result
      go (ok u) e = open_checked-Opened (check_options-IsValid o e)
      go (err k) e = inr (check_options-error o k e, refl)
