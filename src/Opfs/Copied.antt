-- ===== src/Opfs/Copied.antt =====
-- `rename` of src/fs/wasm.rs: what a complete copy of a file, or of a directory with all that it holds,
-- consists of.
use async_rt.Prelude.{
  ℕ, zero, suc, Bool, true, false, if◌then◌else◌, Option, none, some, List, ◌≡◌, refl, sym, ap, ◌∙◌,
  subst, length,
}
use async_rt.Prelude.Io.{ok}
use async_rt.Prelude.Effect.{give, bind-ok, ◌>>=◌, ◌>>◌}
use async_rt.Opfs.Web.{Web}
use async_rt.Opfs.Session.{Session, Opfs}
use async_rt.Opfs.Entries.{Metadata, wasm_file, wasm_directory, PathBuf}
use async_rt.Opfs.Tree.{
  WasmDirEntry, WasmReadDir, read_file, write_file, create_dir_all, read_dir, next_entry, is_dir,
  joined, copy, copy_directory, finished, copy_entry, copy_entries,
}
use async_rt.Opfs.Keeping.{transfer}

module _ (web : Web) where
  -- The call succeeds in the session `s`, with this value, and leaves the session `t`.
  abbrev pub Does : {A : Type 0} → Opfs web A → Session web → A → Session web → Type 0
  Does m s a t = ((m s).result ≡ ok a) × ((m s).state ≡ t)

  -- All that the file has been read to give has been written to the other path.
  abbrev pub FileCopied : PathBuf web → PathBuf web → Session web → Session web → Type 0
  FileCopied from to s t =
      (contents : List ℕ) × (u : Session web) × (Does (read_file web from) s contents u
        × Does (write_file web to contents) u tt t)

  mutual
    -- The destination has been created, and each entry that the directory has been read to give has
    -- been copied into it.
    pub data TreeCopied : PathBuf web → PathBuf web → Session web → Session web → Type 0 where
      tree :
          {from to : PathBuf web} {s t : Session web} (d : WasmReadDir web) (u v : Session web)
          → Does (create_dir_all web to) s tt u
          → Does (read_dir web from) u d v
          → EntriesCopied d to v t
          → TreeCopied from to s t

    -- The rest of the entries: each file has been copied, and each directory with all that it holds,
    -- until the directory gave no entry.
    pub data EntriesCopied
        : WasmReadDir web → PathBuf web → Session web → Session web → Type 0 where
      no_entry :
          {d : WasmReadDir web} {to : PathBuf web} {s t : Session web} (rest : WasmReadDir web)
          → Does (next_entry web d) s (none, rest) t
          → EntriesCopied d to s t
      file_entry :
          {d : WasmReadDir web} {to : PathBuf web} {s t : Session web} (e : WasmDirEntry web)
          (rest : WasmReadDir web) (u v w : Session web)
          → Does (next_entry web d) s (some e, rest) u
          → Does (is_dir web e) u false v
          → FileCopied e.path (joined web to e.name) v w
          → EntriesCopied rest to w t
          → EntriesCopied d to s t
      directory_entry :
          {d : WasmReadDir web} {to : PathBuf web} {s t : Session web} (e : WasmDirEntry web)
          (rest : WasmReadDir web) (u v w : Session web)
          → Does (next_entry web d) s (some e, rest) u
          → Does (is_dir web e) u true v
          → TreeCopied e.path (joined web to e.name) v w
          → EntriesCopied rest to w t
          → EntriesCopied d to s t

  -- By what the source is.
  abbrev pub Copied : PathBuf web → PathBuf web → Metadata → Session web → Session web → Type 0
  Copied from to (wasm_file size) s t = FileCopied from to s t
  Copied from to wasm_directory s t = TreeCopied from to s t

  copy-FileCopied :
      (from to : PathBuf web) (s : Session web)
      → ((copy web from to >> give (some tt)) s).result ≡ ok (some tt)
      → FileCopied from to s ((copy web from to >> give (some tt)) s).state
  unfolding copy
  copy-FileCopied from to s h =
      let (n, e, q) = bind-ok (copy web from to) (λ _. give (some tt)) s (some tt) h in
      let (contents, e', q') =
        bind-ok (read_file web from)
          (λ contents. write_file web to contents >> give (length contents)) s n e in
      let u = (read_file web from s).state in
      let (_, e'', q'') =
        bind-ok (write_file web to contents) (λ _. give (length contents)) u n
          (sym (ap (λ a. a.result) q') ∙ e) in
      (
        contents,
        u,
        (
          (e', refl),
          (
            e'',
            sym (ap (λ a. a.state) q'') ∙ sym (ap (λ a. a.state) q') ∙ sym (ap (λ a. a.state) q),
          ),
        ),
      )

  -- A part that may run out of fuel, and what follows it.
  finished-ok :
      (m next : Opfs web (Option (Unit {0}))) (s : Session web)
      → ((m >>= finished web next) s).result ≡ ok (some tt)
      → ((m s).result ≡ ok (some tt)) × ((m >>= finished web next) s ≡ next (m s).state)
  unfolding finished
  finished-ok m next s h =
      let (o, e, q) = bind-ok m (finished web next) s (some tt) h in
      go o e q (sym (ap (λ a. a.result) q) ∙ h)
    where
      go :
          (o : Option (Unit {0}))
          → (m s).result ≡ ok o
          → (m >>= finished web next) s ≡ finished web next o (m s).state
          → (finished web next o (m s).state).result ≡ ok (some tt)
          → ((m s).result ≡ ok (some tt)) × ((m >>= finished web next) s ≡ next (m s).state)
      go (some u) e q k = (e, q)
      go none e q k = cc

  copy_entry-Copied :
      (copy_child : PathBuf web → PathBuf web → Opfs web (Option (Unit {0})))
      (next : WasmReadDir web → Opfs web (Option (Unit {0}))) (d rest : WasmReadDir web)
      (to : PathBuf web) (o : Option (WasmDirEntry web)) (s : Session web)
      → ((from to : PathBuf web) (s : Session web)
          → (copy_child from to s).result ≡ ok (some tt)
          → TreeCopied from to s (copy_child from to s).state)
      → ((s : Session web)
          → (next rest s).result ≡ ok (some tt)
          → EntriesCopied rest to s (next rest s).state)
      → (next_entry web d s).result ≡ ok (o, rest)
      → (copy_entry web copy_child (next rest) to o (next_entry web d s).state).result
        ≡ ok (some tt)
      → EntriesCopied d to s
          (copy_entry web copy_child (next rest) to o (next_entry web d s).state).state
  unfolding copy_entry
  copy_entry-Copied copy_child next d rest to none s trees entries e h = no_entry rest (e, refl)
  copy_entry-Copied copy_child next d rest to (some x) s trees entries e h =
      let (b, f, q) =
        bind-ok (is_dir web x) (λ b. chosen b >>= finished web (next rest)) u (some tt) h in
      subst (EntriesCopied d to s) (sym (ap (λ a. a.state) q))
        (go b f (sym (ap (λ a. a.result) q) ∙ h))
    where
      u : Session web
      u = (next_entry web d s).state

      v : Session web
      v = (is_dir web x u).state

      chosen : Bool → Opfs web (Option (Unit {0}))
      chosen b =
          if b
          then copy_child x.path (joined web to x.name)
          else (copy web x.path (joined web to x.name) >> give (some tt))

      go :
          (b : Bool)
          → (is_dir web x u).result ≡ ok b
          → ((chosen b >>= finished web (next rest)) v).result ≡ ok (some tt)
          → EntriesCopied d to s ((chosen b >>= finished web (next rest)) v).state
      go true f k =
          let (a, q) = finished-ok (chosen true) (next rest) v k in
          let w = (chosen true v).state in
          subst (EntriesCopied d to s) (sym (ap (λ a. a.state) q)) (
            directory_entry x rest u v w (e, refl) (f, refl)
              (trees x.path (joined web to x.name) v a)
              (entries w (sym (ap (λ a. a.result) q) ∙ k)))
      go false f k =
          let (a, q) = finished-ok (chosen false) (next rest) v k in
          let w = (chosen false v).state in
          subst (EntriesCopied d to s) (sym (ap (λ a. a.state) q)) (
            file_entry x rest u v w (e, refl) (f, refl)
              (copy-FileCopied x.path (joined web to x.name) v a)
              (entries w (sym (ap (λ a. a.result) q) ∙ k)))

  mutual
    unfolding copy_directory copy_entries

    copy_directory-Copied :
        (fuel : ℕ) (from to : PathBuf web) (s : Session web)
        → (copy_directory web fuel from to s).result ≡ ok (some tt)
        → TreeCopied from to s (copy_directory web fuel from to s).state
    copy_directory-Copied zero from to s h = cc
    copy_directory-Copied (suc fuel) from to s h =
        let (d, e, q) =
          bind-ok (create_dir_all web to >> read_dir web from) (λ d. copy_entries web fuel d to) s
            (some tt) h in
        let (c, f, p) = bind-ok (create_dir_all web to) (λ _. read_dir web from) s d e in
        let u = (create_dir_all web to s).state in
        let v = (read_dir web from u).state in
        let same : copy_directory web (suc fuel) from to s ≡ copy_entries web fuel d to v =
          q ∙ ap (λ a. copy_entries web fuel d to a.state) p in
        subst (TreeCopied from to s) (sym (ap (λ a. a.state) same)) (
          tree d u v (f, refl) (sym (ap (λ a. a.result) p) ∙ e, refl)
            (copy_entries-Copied fuel d to v (sym (ap (λ a. a.result) same) ∙ h)))

    copy_entries-Copied :
        (fuel : ℕ) (d : WasmReadDir web) (to : PathBuf web) (s : Session web)
        → (copy_entries web fuel d to s).result ≡ ok (some tt)
        → EntriesCopied d to s (copy_entries web fuel d to s).state
    copy_entries-Copied zero d to s h = cc
    copy_entries-Copied (suc fuel) d to s h =
        let (r, e, q) =
          bind-ok (next_entry web d)
            (λ r. copy_entry web (copy_directory web fuel) (copy_entries web fuel r.1 to) to r.0) s
            (some tt) h in
        subst (EntriesCopied d to s) (sym (ap (λ a. a.state) q)) (
          copy_entry-Copied (copy_directory web fuel) (λ rest. copy_entries web fuel rest to) d r.1
            to r.0 s (copy_directory-Copied fuel) (copy_entries-Copied fuel r.1 to) e
            (sym (ap (λ a. a.result) q) ∙ h))

  pub transfer-Copied :
      (fuel : ℕ) (from to : PathBuf web) (m : Metadata) (s : Session web)
      → (transfer web fuel from to m s).result ≡ ok (some tt)
      → Copied from to m s (transfer web fuel from to m s).state
  transfer-Copied fuel from to (wasm_file size) s h = copy-FileCopied from to s h
  transfer-Copied fuel from to wasm_directory s h = copy_directory-Copied fuel from to s h
