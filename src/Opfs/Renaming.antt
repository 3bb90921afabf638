-- ===== src/Opfs/Renaming.antt =====
-- `rename` of src/fs/wasm.rs: the source is removed only after it has been copied.
use async_rt.Prelude.{
  ℕ, Bool, true, false, if◌then◌else◌, Option, none, some, List, ◌≡◌, refl, sym, ap, ◌∙◌, subst,
}
use async_rt.Prelude.Io.{Result, ok, err, ErrorKind}
use async_rt.Prelude.Effect.{Answer, answer, give, raise, proceed, ◌>>=◌, ◌>>◌}
use async_rt.WasmPath.{split_path, joined_path}
use async_rt.Opfs.Web.{Web}
use async_rt.Opfs.Session.{Session, Opfs}
use async_rt.Opfs.Entries.{Metadata, wasm_file, wasm_directory, PathBuf, names_of, path_metadata}
use async_rt.Opfs.Tree.{
  copy, copy_directory, finished, remove_file, remove_dir_all, starts_with, same_names, move_file,
  move_directory, move_entry, rename, rename_names,
}
use async_rt.Opfs.Quiet.{Keeps-bind, path_metadata-Keeps}
use async_rt.Opfs.Copied.{Copied, transfer-Copied}
use async_rt.Opfs.Keeping.{removed, transfer, copy-Keeps, copy_directory-Keeps}

module _ (web : Web) where
  transfer-Keeps :
      (fuel : ℕ) (from to : PathBuf web) (m : Metadata) (s : Session web)
      → removed web (transfer web fuel from to m s).state.calls ≡ removed web s.calls
  transfer-Keeps fuel from to (wasm_file size) s =
      Keeps-bind web (removed web) (copy web from to) (λ _. give (some tt)) (copy-Keeps web from to)
        (λ _ t. refl) s
  transfer-Keeps fuel from to wasm_directory s = copy_directory-Keeps web fuel from to s

  -- What a rename removes, by what the source is.
  abbrev pub removal : PathBuf web → Metadata → Opfs web (Option (Unit {0}))
  removal from (wasm_file size) = remove_file web from >> give (some tt)
  removal from wasm_directory = remove_dir_all web from >> give (some tt)

  -- All of the source has been copied from the session `s`, nothing has been removed until then, and
  -- then only the source, which leaves the session `u`.
  abbrev pub Moved : PathBuf web → PathBuf web → Metadata → Session web → Session web → Type 0
  Moved from to m s u =
      (t : Session web) × (Copied web from to m s t
        × (removed web t.calls ≡ false)
        × (u ≡ (removal from m t).state))

  contradiction : (t : Session web) → removed web t.calls ≡ false → removed web t.calls ≡ true → ⊥
  contradiction t e f = absurd (go (sym e ∙ f))
    where
      go : false ≡ true → ⊥
      go q = cc

  Moved-transfer :
      (fuel : ℕ) (from to : PathBuf web) (m : Metadata) (s u : Session web)
      → removed web s.calls ≡ false
      → (transfer web fuel from to m s).result ≡ ok (some tt)
      → u ≡ (removal from m (transfer web fuel from to m s).state).state
      → Moved from to m s u
  Moved-transfer fuel from to m s u before done e = (
    (transfer web fuel from to m s).state,
    (transfer-Copied web fuel from to m s done, transfer-Keeps fuel from to m s ∙ before, e),
  )

  move_file-Moved :
      (fuel size : ℕ) (from to : PathBuf web) (s : Session web)
      → removed web s.calls ≡ false
      → removed web (move_file web from to s).state.calls ≡ true
      → Moved from to (wasm_file size) s (move_file web from to s).state
  unfolding move_file
  move_file-Moved fuel size from to s before = go (copy web from to s).result refl
    where
      t : Session web
      t = (copy web from to s).state

      after : Result ℕ → Answer (Session web) (Option (Unit {0}))
      after r = proceed (λ _. remove_file web from >> give (some tt)) r t

      copied : Result ℕ → Answer (Session web) (Option (Unit {0}))
      copied r = proceed (λ _. give (some tt)) r t

      go :
          (r : Result ℕ)
          → (copy web from to s).result ≡ r
          → removed web (after (copy web from to s).result).state.calls ≡ true
          → Moved from to (wasm_file size) s (after (copy web from to s).result).state
      go (ok n) e h =
          Moved-transfer fuel from to (wasm_file size) s (after (copy web from to s).result).state
            before (ap (λ r. (copied r).result) e)
            (ap (λ r. (after r).state) e
              ∙ ap (λ r. (removal from (wasm_file size) (copied r).state).state) (sym e))
      go (err k) e h = absurd (
          contradiction t (copy-Keeps web from to s ∙ before)
            (sym (ap (λ r. removed web (after r).state.calls) e) ∙ h))

  none-stays :
      (next : Opfs web (Option (Unit {0}))) (t : Session web) → (finished web next none t).state ≡ t
  unfolding finished
  none-stays next t = refl

  some-removes :
      (next : Opfs web (Option (Unit {0}))) (u : Unit {0}) (t : Session web)
      → (finished web next (some u) t).state ≡ (next t).state
  unfolding finished
  some-removes next u t = refl

  move_directory-Moved :
      (fuel : ℕ) (from to : PathBuf web) (s : Session web)
      → removed web s.calls ≡ false
      → removed web (move_directory web fuel from to s).state.calls ≡ true
      → Moved from to wasm_directory s (move_directory web fuel from to s).state
  unfolding move_directory names_of
  move_directory-Moved fuel from to s before =
      go (split_path web.texts from) (split_path web.texts to)
    where
      moved : Opfs web (Option (Unit {0}))
      moved =
          copy_directory web fuel from to
          >>= finished web (remove_dir_all web from >> give (some tt))

      t : Session web
      t = (copy_directory web fuel from to s).state

      after : Result (Option (Unit {0})) → Answer (Session web) (Option (Unit {0}))
      after r = proceed (finished web (remove_dir_all web from >> give (some tt))) r t

      Is : Answer (Session web) (Option (Unit {0})) → Type 0
      Is a = removed web a.state.calls ≡ true → Moved from to wasm_directory s a.state

      nothing :
          (r : Result (Option (Unit {0})))
          → (copy_directory web fuel from to s).result ≡ r
          → (after r).state ≡ t
          → Is (moved s)
      nothing r e f h = absurd (
          contradiction t (copy_directory-Keeps web fuel from to s ∙ before)
            (sym (ap (λ u. removed web u.calls) (ap (λ x. (after x).state) e ∙ f)) ∙ h))

      copied :
          (r : Result (Option (Unit {0})))
          → (copy_directory web fuel from to s).result ≡ r
          → Is (moved s)
      copied (ok none) e =
          nothing (ok none) e (none-stays (remove_dir_all web from >> give (some tt)) t)
      copied (ok (some u)) e = λ h.
          Moved-transfer fuel from to wasm_directory s (moved s).state before e (
            ap (λ x. (after x).state) e
            ∙ some-removes (remove_dir_all web from >> give (some tt)) u t)
      copied (err k) e = nothing (err k) e refl

      tested : (b : Bool) → Is ((if b then raise ErrorKind.invalid_input else moved) s)
      tested true = λ h. absurd (contradiction s before h)
      tested false = copied (copy_directory web fuel from to s).result refl

      inside : List web.texts.Name → List web.texts.Name → Opfs web (Option (Unit {0}))
      inside fn tn = if starts_with web tn fn then raise ErrorKind.invalid_input else moved

      go : (f t : Result (List web.texts.Name)) → Is (proceed (λ fn. answer t >>= inside fn) f s)
      go (err e) t = λ h. absurd (contradiction s before h)
      go (ok fn) (err e) = λ h. absurd (contradiction s before h)
      go (ok fn) (ok tn) = tested (starts_with web tn fn)

  move_entry-Moved :
      (fuel : ℕ) (from to : PathBuf web) (m : Metadata) (s : Session web)
      → removed web s.calls ≡ false
      → removed web (move_entry web fuel from to m s).state.calls ≡ true
      → Moved from to m s (move_entry web fuel from to m s).state
  unfolding move_entry
  move_entry-Moved fuel from to (wasm_file size) s = move_file-Moved fuel size from to s
  move_entry-Moved fuel from to wasm_directory s = move_directory-Moved fuel from to s

  -- What a rename that has removed something has done, from the session `s` to the session `u`: the
  -- source has been looked up, copied and removed.
  abbrev pub Removed : PathBuf web → PathBuf web → Session web → Session web → Type 0
  Removed from to s u =
      let m = path_metadata web from s in
      (metadata : Metadata) × ((m.result ≡ ok metadata) × Moved from to metadata m.state u)

  rename_names-Removed :
      (fuel : ℕ) (from_names to_names : List web.texts.Name) (s : Session web)
      → removed web s.calls ≡ false
      → removed web (rename_names web fuel from_names to_names s).state.calls ≡ true
      → Removed
          (joined_path web.texts from_names)
          (joined_path web.texts to_names)
          s
          (rename_names web fuel from_names to_names s).state
  unfolding rename_names
  rename_names-Removed fuel from_names to_names s before =
      tested (same_names web from_names to_names)
    where
      from : PathBuf web
      from = joined_path web.texts from_names

      to : PathBuf web
      to = joined_path web.texts to_names

      t : Session web
      t = (path_metadata web from s).state

      looked : removed web t.calls ≡ false
      looked = path_metadata-Keeps web (removed web) from s ∙ before

      Is : Answer (Session web) (Option (Unit {0})) → Type 0
      Is a = removed web a.state.calls ≡ true → Removed from to s a.state

      only_looked : Opfs web (Option (Unit {0}))
      only_looked = path_metadata web from >> give (some tt)

      moved :
          (r : Result Metadata)
          → (path_metadata web from s).result ≡ r
          → Is (proceed (move_entry web fuel from to) r t)
      moved (err e) q h = absurd (contradiction t looked h)
      moved (ok m) q h = (m, (q, move_entry-Moved fuel from to m t looked h))

      tested :
          (b : Bool)
          → Is (
              (if b then only_looked else (path_metadata web from >>= move_entry web fuel from to))
                s)
      tested true h = absurd (
          contradiction (only_looked s).state
            (Keeps-bind web (removed web) (path_metadata web from) (λ _. give (some tt))
                (path_metadata-Keeps web (removed web) from) (λ _ t. refl) s
              ∙ before)
            h)
      tested false h = moved (path_metadata web from s).result refl h

  rename_lem :
      (fuel : ℕ) (from to : PathBuf web) (from_names to_names : List web.texts.Name)
      (s : Session web)
      → split_path web.texts from ≡ ok from_names
      → split_path web.texts to ≡ ok to_names
      → rename web fuel from to s ≡ rename_names web fuel from_names to_names s
  unfolding rename names_of
  rename_lem fuel from to from_names to_names s e f = rw (e, f) refl

  -- If a rename of two valid paths removes anything, and nothing was removed before, it has looked up
  -- the source and copied it before without an error: a file with all that it was read to give, a
  -- directory with each entry that it was read to give, until it gave none, and each directory in it in
  -- the same way; when the copy ended, nothing was removed, and what is done after it is the removal of
  -- the source.
  pub rename-Removed :
      (fuel : ℕ) (from to : PathBuf web) (from_names to_names : List web.texts.Name)
      (s : Session web)
      → split_path web.texts from ≡ ok from_names
      → split_path web.texts to ≡ ok to_names
      → removed web s.calls ≡ false
      → removed web (rename web fuel from to s).state.calls ≡ true
      → Removed
          (joined_path web.texts from_names)
          (joined_path web.texts to_names)
          s
          (rename web fuel from to s).state
  rename-Removed fuel from to from_names to_names s e f before after =
      let same = rename_lem fuel from to from_names to_names s e f in
      subst
        (λ a. Removed (joined_path web.texts from_names) (joined_path web.texts to_names) s a.state)
        (sym same)
        (rename_names-Removed fuel from_names to_names s before
          (ap (λ a. removed web a.state.calls) (sym same) ∙ after))
