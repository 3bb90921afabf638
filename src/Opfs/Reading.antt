-- ===== src/Opfs/Reading.antt =====
-- `FileRead::read` of `WasmFile` of src/fs/wasm.rs, and the length of a file, against a plain file.
use async_rt.Prelude.{
  ℕ, ◌+◌, ◌-◌, ◌≤◌, min, Bool, true, false, ◌||◌, if◌then◌else◌, is_empty, leb, length, take, drop,
  List, [], ◌∷◌, ◌++◌, ◌≡◌, refl, sym, ap, ◌∙◌, Bool-cases, inl, inr, arith,
}
use async_rt.Prelude.Io.{ok, ErrorKind}
use async_rt.Prelude.Effect.{give, raise, ◌>>=◌, bind-ok, ok-injective}
use async_rt.Opfs.Web.{Web}
use async_rt.Opfs.Session.{Session, Opfs}
use async_rt.Opfs.Entries.{read_all, file_metadata}
use async_rt.Opfs.Files.{WasmFile, ReadBytes, usize_max, metadata_len, read_from, read}
use async_rt.Opfs.Contents.{Stored, read_all-contents, file_metadata-contents}
use async_rt.Opfs.Plain.{Plain}

empty-length : (xs : List ℕ) → is_empty xs ≡ true → length xs ≡ 0
empty-length [] e = refl
empty-length (x ∷ xs) e = cc

within_memory :
    (len position m : ℕ) (x : Bool)
    → len ≤ m
    → (leb len (min position m) || x) ≡ false
    → min position m ≡ position
within_memory len position m x h e = ground arith

nothing_left :
    (len position m n : ℕ) (x : Bool)
    → len ≤ m
    → (x ≡ true → n ≡ 0)
    → (leb len (min position m) || x) ≡ true
    → min n (len - position) ≡ 0
nothing_left len position m n true h z e = omega (arith, z refl)
nothing_left len position m n false h z e = ground arith

module _ (web : Web) where
  -- The answer of a read of `count` bytes at `start`.
  unfoldable pub taken : WasmFile web → List ℕ → List ℕ → ℕ → ℕ → ReadBytes web
  taken file buffer bytes start count = record {
    count = count;
    buffer = take count (drop start bytes) ++ drop count buffer;
    file = record file { position = file.position + count };
  }

  read_from_lem :
      (file : WasmFile web) (buffer bytes : List ℕ)
      → length bytes ≤ usize_max
      → read_from web file buffer bytes
        ≡ taken file buffer bytes file.position (min (length buffer) (length bytes - file.position))
  unfolding read_from taken
  read_from_lem file buffer bytes h =
      elim (Bool-cases (leb (length bytes) (min file.position usize_max) || is_empty buffer)) [
        | inl e ↦ rw (e) (nothing ∙ ap (taken file buffer bytes file.position) (sym (none_left e)))
        | inr e ↦ rw (e) (
            ap (λ start. taken file buffer bytes start (min (length buffer) (length bytes - start)))
              (in_memory e))
      ]
    where
      nothing :
          record { count = 0; buffer = buffer; file = file }
          ≡ taken file buffer bytes file.position 0
      nothing =
          ap (λ p. record { count = 0; buffer = buffer; file = record file { position = p } })
            (omega arith)

      none_left :
          (leb (length bytes) (min file.position usize_max) || is_empty buffer) ≡ true
          → min (length buffer) (length bytes - file.position) ≡ 0
      none_left e =
          nothing_left (length bytes) file.position usize_max (length buffer) (is_empty buffer) h
            (empty-length buffer) e

      in_memory :
          (leb (length bytes) (min file.position usize_max) || is_empty buffer) ≡ false
          → min file.position usize_max ≡ file.position
      in_memory e = within_memory (length bytes) file.position usize_max (is_empty buffer) h e

  module _ (handle : web.FileHandle) (stored : Stored web handle)
      (readable writable append : Bool) where
    open stored use {contents}

    -- The open file, at a position.
    abbrev pub file_at_position : ℕ → WasmFile web
    file_at_position position = record {
      handle = handle;
      readable = readable;
      writable = writable;
      append = append;
      position = position;
    }

    -- The plain file that it stands for.
    abbrev pub plain : ℕ → Session web → Plain
    plain position s = record { bytes = contents s.disk; position = position }

    pub read-Agrees :
        (p : ℕ) (buffer : List ℕ) (s : Session web) (r : ReadBytes web)
        → (read web (file_at_position p) buffer s).result ≡ ok r
        → (r
            ≡ taken
                (file_at_position p)
                buffer
                (contents s.disk)
                p
                (min (length buffer) (length (contents s.disk) - p)))
          × (contents (read web (file_at_position p) buffer s).state.disk ≡ contents s.disk)
    unfolding read
    read-Agrees p buffer s r h = go readable h
      where
        filled : List ℕ → ReadBytes web
        filled bytes =
            taken (file_at_position p) buffer bytes p (min (length buffer) (length bytes - p))

        loaded : Opfs web (ReadBytes web)
        loaded =
            read_all web handle >>= λ bytes. give (read_from web (file_at_position p) buffer bytes)

        go :
            (b : Bool)
            → ((if b then loaded else raise ErrorKind.permission_denied) s).result ≡ ok r
            → (r ≡ filled (contents s.disk))
              × (contents ((if b then loaded else raise ErrorKind.permission_denied) s).state.disk
                  ≡ contents s.disk)
        go false e = cc
        go true e =
            let (bytes, found, q) =
              bind-ok (read_all web handle)
                (λ bytes. give (read_from web (file_at_position p) buffer bytes)) s r e in
            let (whole, small, kept) = read_all-contents web handle stored s bytes found in
            (
              sym (
                    ok-injective (read_from web (file_at_position p) buffer bytes) r
                      (sym (ap (λ a. a.result) q) ∙ e))
                  ∙ (read_from_lem (file_at_position p) buffer bytes small ∙ ap filled whole),
              ap (λ a. contents a.state.disk) q ∙ kept,
            )

    -- The length of the file, by its metadata.
    unfoldable pub length_of : Opfs web ℕ
    length_of = file_metadata web handle >>= λ m. give (metadata_len m)

    pub length_of-Agrees :
        (s : Session web) (n : ℕ)
        → (length_of s).result ≡ ok n
        → (n ≡ length (contents s.disk)) × (contents (length_of s).state.disk ≡ contents s.disk)
    unfolding length_of
    length_of-Agrees s n h =
        let (m, found, q) = bind-ok (file_metadata web handle) (λ m. give (metadata_len m)) s n h in
        let (whole, kept) = file_metadata-contents web handle stored s m found in
        (
          sym (ok-injective (metadata_len m) n (sym (ap (λ a. a.result) q) ∙ h)) ∙ whole,
          ap (λ a. contents a.state.disk) q ∙ kept,
        )
