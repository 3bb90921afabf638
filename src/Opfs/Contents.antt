-- ===== src/Opfs/Contents.antt =====
-- src/fs/wasm.rs: what `WasmFile` reads and writes, for a browser that stores files as the File System
-- Standard says. A writer collects changes in a copy of the contents; its close replaces the contents,
-- an abort drops the copy.
use async_rt.Prelude.{
  ℕ, ◌+◌, ◌-◌, ◌≤◌, Bool, true, false, if◌then◌else◌, is_empty, ltb, length, take, drop, replicate,
  List, [], ◌++◌, ◌≡◌, refl, sym, ap, ◌∙◌, Bool-cases, inl, inr, arith,
}
use async_rt.Prelude.Io.{Result, ok, err, ErrorKind}
use async_rt.Prelude.Effect.{answer, give, raise, caught, bind-ok}
use async_rt.Opfs.Web.{Settled, resolved, unexpected, rejected, Web}
use async_rt.Opfs.Session.{EntryKind, Session, Opfs, awaited, settled_unit, called_unit}
use async_rt.Opfs.Streams.{
  open_writer, stream_seek, stream_write, stream_close, finish_write, finish_result, write_there,
  abort_with, write_from, write_at, max_safe_integer,
}
use async_rt.Opfs.Entries.{
  get_file, array_buffer, read_all, file_metadata, metadata_of, Metadata, wasm_file,
}
use async_rt.Opfs.Files.{usize_max, metadata_len}

-- Bytes written at a position: the gap behind the end is filled with zeros.
unfoldable pub put : ℕ → List ℕ → List ℕ → List ℕ
put position bytes contents =
    take position contents
    ++ (replicate (position - length contents) 0
        ++ (bytes ++ drop (position + length bytes) contents))

-- What `write_at` stores: nothing for no bytes.
abbrev pub stored_at : ℕ → List ℕ → List ℕ → List ℕ
stored_at position bytes old = if is_empty bytes then old else put position bytes old

-- One file of the storage, by its handle.
pub record Stored (web : Web) (handle : web.FileHandle) : Type 0 where
  pub contents : web.Disk → List ℕ
  -- What a `File` has when it is taken.
  pub snapshot : web.JsFile → List ℕ
  pub staged : web.Stream → web.Disk → List ℕ
  pub cursor : web.Stream → web.Disk → ℕ
  -- Whether a stream writes to this file.
  pub is_writer : web.Stream → Bool
  pub get_file-snapshot :
      (d : web.Disk) (f : web.JsFile)
      → (web.get_file handle d).settled ≡ resolved f
      → snapshot f ≡ contents d
  pub get_file-contents : (d : web.Disk) → contents (web.get_file handle d).disk ≡ contents d
  pub size-snapshot : (f : web.JsFile) → web.size f ≡ length (snapshot f)
  -- A buffer fits the memory.
  pub array_buffer-snapshot :
      (f : web.JsFile) (d : web.Disk) (bytes : List ℕ)
      → (web.array_buffer f d).settled ≡ resolved bytes
      → (bytes ≡ snapshot f) × (length bytes ≤ usize_max)
  pub array_buffer-contents :
      (f : web.JsFile) (d : web.Disk) → contents (web.array_buffer f d).disk ≡ contents d
  pub create_writable-staged :
      (keep : Bool) (d : web.Disk) (stream : web.Stream)
      → (web.create_writable handle keep d).settled ≡ resolved stream
      → staged stream (web.create_writable handle keep d).disk ≡ (if keep then contents d else [])
  pub create_writable-is_writer :
      (keep : Bool) (d : web.Disk) (stream : web.Stream)
      → (web.create_writable handle keep d).settled ≡ resolved stream
      → is_writer stream ≡ true
  pub stream_seek-cursor :
      (stream : web.Stream) (position : ℕ) (d : web.Disk)
      → called_unit web EntryKind.file (web.stream_seek stream position d).called ≡ ok tt
      → (cursor stream (web.stream_seek stream position d).disk ≡ position)
        × (staged stream (web.stream_seek stream position d).disk ≡ staged stream d)
  pub stream_write-staged :
      (stream : web.Stream) (bytes : List ℕ) (d : web.Disk)
      → called_unit web EntryKind.file (web.stream_write stream bytes d).called ≡ ok tt
      → staged stream (web.stream_write stream bytes d).disk
        ≡ put (cursor stream d) bytes (staged stream d)
  pub stream_close-contents :
      (stream : web.Stream) (d : web.Disk)
      → is_writer stream ≡ true
      → settled_unit web EntryKind.file (web.stream_close stream d).settled ≡ ok tt
      → contents (web.stream_close stream d).disk ≡ staged stream d

module _ (web : Web) (handle : web.FileHandle) (stored : Stored web handle) where
  open stored use {contents, staged, cursor, snapshot}

  awaited-ok :
      {A : Type 0} (k : EntryKind) (p : Settled web.JsError A) (a : A)
      → awaited web k p ≡ ok a
      → p ≡ resolved a
  unfolding awaited
  awaited-ok k (resolved b) a h = cc
  awaited-ok k unexpected a h = cc
  awaited-ok k (rejected e) a h = cc

  pub read_all-contents :
      (s : Session web) (bytes : List ℕ)
      → (read_all web handle s).result ≡ ok bytes
      → (bytes ≡ contents s.disk)
        × (length bytes ≤ usize_max)
        × (contents (read_all web handle s).state.disk ≡ contents s.disk)
  unfolding read_all get_file array_buffer
  read_all-contents s bytes h =
      let (f, e, q) = bind-ok (get_file web handle) (array_buffer web) s bytes h in
      let taken = awaited-ok EntryKind.file (web.get_file handle s.disk).settled f e in
      let d = (web.get_file handle s.disk).disk in
      let loaded =
        awaited-ok EntryKind.file (web.array_buffer f d).settled bytes
          (sym (ap (λ a. a.result) q) ∙ h) in
      let (same, small) = stored.array_buffer-snapshot f d bytes loaded in
      (
        same ∙ stored.get_file-snapshot s.disk f taken,
        small,
        ap (λ a. contents a.state.disk) q
            ∙ (stored.array_buffer-contents f d ∙ stored.get_file-contents s.disk),
      )

  metadata_of-size :
      (f : web.JsFile) (m : Metadata) → metadata_of web f ≡ ok m → metadata_len m ≡ web.size f
  unfolding metadata_of metadata_len
  metadata_of-size f m h = elim (Bool-cases (web.has_time f)) [
    | inl e ↦ go (sym (timed e) ∙ h)
    | inr e ↦ ground arith
  ]
    where
      timed : web.has_time f ≡ true → metadata_of web f ≡ ok (wasm_file (web.size f))
      timed e = rw e refl

      go : Result.ok (wasm_file (web.size f)) ≡ ok m → metadata_len m ≡ web.size f
      go q = ap metadata_len (injected q)
        where
          injected : Result.ok (wasm_file (web.size f)) ≡ ok m → m ≡ wasm_file (web.size f)
          injected q' = cc

  pub file_metadata-contents :
      (s : Session web) (m : Metadata)
      → (file_metadata web handle s).result ≡ ok m
      → (metadata_len m ≡ length (contents s.disk))
        × (contents (file_metadata web handle s).state.disk ≡ contents s.disk)
  unfolding file_metadata get_file
  file_metadata-contents s m h =
      let (f, e, q) = bind-ok (get_file web handle) (λ file. answer (metadata_of web file)) s m h in
      let taken = awaited-ok EntryKind.file (web.get_file handle s.disk).settled f e in
      (
        metadata_of-size f m (sym (ap (λ a. a.result) q) ∙ h)
            ∙ (stored.size-snapshot f ∙ ap length (stored.get_file-snapshot s.disk f taken)),
        ap (λ a. contents a.state.disk) q ∙ stored.get_file-contents s.disk,
      )

  -- A write on a writer, and the close behind it.
  finish_write-contents :
      (stream : web.Stream) (bytes : List ℕ) (s : Session web)
      → stored.is_writer stream ≡ true
      → (finish_write web stream (stream_write web stream bytes) s).result ≡ ok tt
      → contents (finish_write web stream (stream_write web stream bytes) s).state.disk
        ≡ put (cursor stream s.disk) bytes (staged stream s.disk)
  unfolding finish_write stream_write finish_result stream_close abort_with
  finish_write-contents stream bytes s w h =
      go (called_unit web EntryKind.file (web.stream_write stream bytes s.disk).called) refl h
    where
      written : Session web
      written = (stream_write web stream bytes s).state

      go :
          (r : Result (Unit {0}))
          → called_unit web EntryKind.file (web.stream_write stream bytes s.disk).called ≡ r
          → (finish_result web stream r written).result ≡ ok tt
          → contents (finish_result web stream r written).state.disk
            ≡ put (cursor stream s.disk) bytes (staged stream s.disk)
      go (ok u) e q =
          stored.stream_close-contents stream written.disk w q
          ∙ stored.stream_write-staged stream bytes s.disk e
      go (err k) e q = cc

  write_there-contents :
      (stream : web.Stream) (bytes : List ℕ) (s : Session web) (r : Result (Unit {0}))
      → stored.is_writer stream ≡ true
      → (write_there web stream bytes r s).result ≡ ok tt
      → (r ≡ ok tt)
        × (contents (write_there web stream bytes r s).state.disk
            ≡ put (cursor stream s.disk) bytes (staged stream s.disk))
  unfolding write_there abort_with
  write_there-contents stream bytes s (ok u) w h = (refl, finish_write-contents stream bytes s w h)
  write_there-contents stream bytes s (err k) w h = cc

  write_from-contents :
      (position : ℕ) (bytes : List ℕ) (s : Session web)
      → (write_from web handle position bytes s).result ≡ ok tt
      → contents (write_from web handle position bytes s).state.disk
        ≡ put position bytes (contents s.disk)
  unfolding write_from open_writer stream_seek
  write_from-contents position bytes s h =
      let user = λ (stream : web.Stream).
        caught (stream_seek web stream position) (write_there web stream bytes) in
      let (stream, e, q) = bind-ok (open_writer web handle true) user s tt h in
      let opened = (open_writer web handle true s).state in
      let sought = (stream_seek web stream position opened).state in
      let made =
        awaited-ok EntryKind.file (web.create_writable handle true s.disk).settled stream e in
      let (found, put_there) =
        write_there-contents stream bytes sought
          (called_unit web EntryKind.file (web.stream_seek stream position opened.disk).called)
          (stored.create_writable-is_writer true s.disk stream made)
          (sym (ap (λ a. a.result) q) ∙ h) in
      let (at_position, kept) = stored.stream_seek-cursor stream position opened.disk found in
      ap (λ a. contents a.state.disk) q
      ∙ (put_there
          ∙ (ap (λ p. put p bytes (staged stream sought.disk)) at_position
              ∙ ap (put position bytes)
                  (kept ∙ stored.create_writable-staged true s.disk stream made)))

  pub write_at-contents :
      (position : ℕ) (bytes : List ℕ) (s : Session web)
      → (write_at web handle position bytes s).result ≡ ok tt
      → contents (write_at web handle position bytes s).state.disk
        ≡ stored_at position bytes (contents s.disk)
  unfolding write_at
  write_at-contents position bytes s h = go (is_empty bytes) (ltb max_safe_integer position) h
    where
      write : Bool → Bool → Opfs web (Unit {0})
      write empty far =
          if empty
          then give tt
          else if far
          then raise ErrorKind.invalid_input
          else write_from web handle position bytes

      go :
          (empty far : Bool)
          → (write empty far s).result ≡ ok tt
          → contents (write empty far s).state.disk
            ≡ (if empty then contents s.disk else put position bytes (contents s.disk))
      go true far q = refl
      go false true q = cc
      go false false q = write_from-contents position bytes s q
