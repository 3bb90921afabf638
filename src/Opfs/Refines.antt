-- ===== src/Opfs/Refines.antt =====
-- `WasmFile` of src/fs/wasm.rs implements a plain file: every call that succeeds does what the same call
-- does to the plain file.
use async_rt.Prelude.{
  ℕ, ◌+◌, Bool, true, false, if◌then◌else◌, ltb, length, List, [], ◌≡◌, refl, sym, ap, ◌∙◌,
}
use async_rt.Prelude.Io.{Result, ok, err, ErrorKind}
use async_rt.Prelude.Effect.{answer, give, raise, ◌>>=◌, ◌>>◌, bind-ok, ok-injective}
use async_rt.Seek.{SeekFrom, seek_position}
use async_rt.Opfs.Web.{Web}
use async_rt.Opfs.Session.{Session, Opfs}
use async_rt.Opfs.Streams.{write_at, max_safe_integer}
use async_rt.Opfs.Files.{
  WasmFile, ReadBytes, Moved, read, write_position, write, seek_end, seek_to, seek,
}
use async_rt.Opfs.Contents.{Stored, stored_at, write_at-contents}
use async_rt.Opfs.Plain.{
  Plain, FileCall, reads, writes, seeks, Done, plain_read, plain_write, plain_call,
}
use async_rt.Opfs.Reading.{taken, file_at_position, plain, read-Agrees, length_of, length_of-Agrees}

module _ (web : Web) where
  -- The same call on a `WasmFile`.
  unfoldable pub file_call : FileCall → WasmFile web → Opfs web (Done (WasmFile web))
  file_call (reads buffer) file = read web file buffer >>= λ r.
      give (record { reply = record { number = r.count; buffer = r.buffer }; file = r.file })
  file_call (writes bytes) file = write web file bytes >>= λ m.
      give (record { reply = record { number = m.value; buffer = [] }; file = m.file })
  file_call (seeks request) file = seek web file request >>= λ m.
      give (record { reply = record { number = m.value; buffer = [] }; file = m.file })

  module _ (handle : web.FileHandle) (stored : Stored web handle)
      (readable writable append : Bool) where
    open stored use {contents}

    abbrev here : ℕ → WasmFile web
    here = file_at_position web handle stored readable writable append

    -- What the code answers and leaves, against what the plain file does.
    abbrev pub Agrees : Done (WasmFile web) → Session web → Done Plain → Type 0
    Agrees d s p =
        (d.reply ≡ p.reply) × (d.file ≡ here p.file.position) × (contents s.disk ≡ p.file.bytes)

    place : ℕ → Session web → ℕ
    place p s = if append then length (contents s.disk) else p

    write_position-Agrees :
        (p : ℕ) (s : Session web) (n : ℕ)
        → (write_position web (here p) s).result ≡ ok n
        → (n ≡ place p s) × (contents (write_position web (here p) s).state.disk ≡ contents s.disk)
    unfolding write_position place length_of
    write_position-Agrees p s n h = go append h
      where
        go :
            (b : Bool)
            → ((if b then length_of web handle stored readable writable append else give p)
                s).result
              ≡ ok n
            → (n ≡ (if b then length (contents s.disk) else p))
              × (contents
                    ((if b then length_of web handle stored readable writable append else give p)
                      s).state.disk
                  ≡ contents s.disk)
        go true e = length_of-Agrees web handle stored readable writable append s n e
        go false e = (sym (ok-injective p n e), refl)

    write-Agrees :
        (p : ℕ) (bytes : List ℕ) (s : Session web) (m : Moved web)
        → (write web (here p) bytes s).result ≡ ok m
        → (m ≡ record { value = length bytes; file = here (place p s + length bytes) })
          × (contents (write web (here p) bytes s).state.disk
              ≡ stored_at (place p s) bytes (contents s.disk))
    unfolding write
    write-Agrees p bytes s m h = go writable h
      where
        moved : ℕ → Moved web
        moved position = record { value = length bytes; file = here (position + length bytes) }

        put_there : ℕ → Opfs web (Moved web)
        put_there position = write_at web handle position bytes >> give (moved position)

        written : Opfs web (Moved web)
        written = write_position web (here p) >>= put_there

        go :
            (b : Bool)
            → ((if b then written else raise ErrorKind.permission_denied) s).result ≡ ok m
            → (m ≡ moved (place p s))
              × (contents ((if b then written else raise ErrorKind.permission_denied) s).state.disk
                  ≡ stored_at (place p s) bytes (contents s.disk))
        go false e = cc
        go true e =
            let (position, found, q) = bind-ok (write_position web (here p)) put_there s m e in
            let t = (write_position web (here p) s).state in
            let (at_place, kept) = write_position-Agrees p s position found in
            let (u, done, q') =
              bind-ok (write_at web handle position bytes) (λ _. give (moved position)) t m
                (sym (ap (λ a. a.result) q) ∙ e) in
            (
              sym (ok-injective (moved position) m (sym (ap (λ a. a.result) (q ∙ q')) ∙ e))
                  ∙ ap moved at_place,
              ap (λ a. contents a.state.disk) (q ∙ q')
                  ∙ (write_at-contents web handle stored position bytes t done
                      ∙ (ap (stored_at position bytes) kept
                          ∙ ap (λ n. stored_at n bytes (contents s.disk)) at_place)),
            )

    seek_end-Agrees :
        (p : ℕ) (request : SeekFrom) (s : Session web) (n : ℕ)
        → (seek_end web (here p) request s).result ≡ ok n
        → (seek_position p n request ≡ seek_position p (length (contents s.disk)) request)
          × (contents (seek_end web (here p) request s).state.disk ≡ contents s.disk)
    unfolding seek_end seek_position length_of
    seek_end-Agrees p (SeekFrom.start k) s n h = (refl, refl)
    seek_end-Agrees p (SeekFrom.current k) s n h = (refl, refl)
    seek_end-Agrees p (SeekFrom.end k) s n h =
        let (whole, kept) = length_of-Agrees web handle stored readable writable append s n h in
        (ap (λ l. seek_position p l (SeekFrom.end k)) whole, kept)

    seek_to-Agrees :
        (p n : ℕ) (t : Session web) (m : Moved web)
        → (seek_to web (here p) n t).result ≡ ok m
        → (m ≡ record { value = n; file = here n }) × ((seek_to web (here p) n t).state ≡ t)
    unfolding seek_to
    seek_to-Agrees p n t m h = go (ltb max_safe_integer n) h
      where
        there : Moved web
        there = record { value = n; file = here n }

        go :
            (far : Bool)
            → ((if far then raise ErrorKind.invalid_input else give there) t).result ≡ ok m
            → (m ≡ there)
              × (((if far then raise ErrorKind.invalid_input else give there) t).state ≡ t)
        go true e = cc
        go false e = (sym (ok-injective there m e), refl)

    seek-Agrees :
        (p : ℕ) (request : SeekFrom) (s : Session web) (m : Moved web)
        → (seek web (here p) request s).result ≡ ok m
        → (seek_position p (length (contents s.disk)) request ≡ ok m.value)
          × (m.file ≡ here m.value)
          × (contents (seek web (here p) request s).state.disk ≡ contents s.disk)
    unfolding seek
    seek-Agrees p request s m h =
        let sought = λ (length : ℕ).
          (let there : Opfs web ℕ = answer (seek_position p length request) in
            there >>= seek_to web (here p)) in
        let (n, found, q) = bind-ok (seek_end web (here p) request) sought s m h in
        let t = (seek_end web (here p) request s).state in
        let (same_place, kept) = seek_end-Agrees p request s n found in
        let (k, placed, q') =
          bind-ok (answer (seek_position p n request)) (seek_to web (here p)) t m
            (sym (ap (λ a. a.result) q) ∙ h) in
        let (moved, stays) = seek_to-Agrees p k t m (sym (ap (λ a. a.result) (q ∙ q')) ∙ h) in
        (
          sym same_place ∙ (placed ∙ ap (λ x. ok x.value) (sym moved)),
          ap (λ x. x.file) moved ∙ ap (λ x. here x.value) (sym moved),
          ap (λ a. contents a.state.disk) (q ∙ q') ∙ (ap (λ x. contents x.disk) stays ∙ kept),
        )

    -- What a plain file does, where the code has an answer.
    abbrev pub Follows : Done (WasmFile web) → Session web → Result (Done Plain) → Type 0
    Follows d s (ok p) = Agrees d s p
    Follows d s (err k) = ⊥

    -- A call that succeeds does what the call of the plain file does: the number and the bytes that it
    -- returns, the contents and the position that it leaves; the file keeps its access.
    pub file_call-Follows :
        (call : FileCall) (p : ℕ) (s : Session web) (d : Done (WasmFile web))
        → (file_call call (here p) s).result ≡ ok d
        → Follows d
            (file_call call (here p) s).state
            (plain_call append call (plain web handle stored readable writable append p s))
    unfolding file_call plain_call plain_read plain_write place taken
    file_call-Follows (reads buffer) p s d h =
        let told = λ (r : ReadBytes web).
          (let reply : Done (WasmFile web) = record {
            reply = record { number = r.count; buffer = r.buffer };
            file = r.file;
          } in
            reply) in
        let (r, found, q) = bind-ok (read web (here p) buffer) (λ r. give (told r)) s d h in
        let (same_bytes, kept) =
          read-Agrees web handle stored readable writable append p buffer s r found in
        let d_is = sym (ok-injective (told r) d (sym (ap (λ a. a.result) q) ∙ h)) in
        (
          ap (λ x. x.reply) d_is ∙ ap (λ x. (told x).reply) same_bytes,
          ap (λ x. x.file) d_is ∙ ap (λ x. (told x).file) same_bytes,
          ap (λ a. contents a.state.disk) q ∙ kept,
        )
    file_call-Follows (writes bytes) p s d h =
        let told = λ (m : Moved web).
          (let reply : Done (WasmFile web) = record {
            reply = record { number = m.value; buffer = [] };
            file = m.file;
          } in
            reply) in
        let (m, found, q) = bind-ok (write web (here p) bytes) (λ m. give (told m)) s d h in
        let (same_move, stored_there) = write-Agrees p bytes s m found in
        let d_is = sym (ok-injective (told m) d (sym (ap (λ a. a.result) q) ∙ h)) in
        (
          ap (λ x. x.reply) d_is ∙ ap (λ x. (told x).reply) same_move,
          ap (λ x. x.file) d_is ∙ ap (λ x. (told x).file) same_move,
          ap (λ a. contents a.state.disk) q ∙ stored_there,
        )
    file_call-Follows (seeks request) p s d h =
        let told = λ (m : Moved web).
          (let reply : Done (WasmFile web) = record {
            reply = record { number = m.value; buffer = [] };
            file = m.file;
          } in
            reply) in
        let (m, found, q) = bind-ok (seek web (here p) request) (λ m. give (told m)) s d h in
        let (placed, moved, kept) = seek-Agrees p request s m found in
        let d_is = sym (ok-injective (told m) d (sym (ap (λ a. a.result) q) ∙ h)) in
        rw (placed, plain_call)
          (
            ap (λ x. x.reply) d_is,
            ap (λ x. x.file) d_is ∙ moved,
            ap (λ a. contents a.state.disk) q ∙ kept,
          )
