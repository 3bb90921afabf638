-- ===== src/Opfs/Sequence.antt =====
-- `WasmFile` of src/fs/wasm.rs over many calls: a run of the code is a run of the plain file, and a
-- read gives back what was written.
use async_rt.Prelude.{ℕ, Bool, List, [], ◌∷◌, ◌≡◌, refl, sym, ap, ◌∙◌, subst}
use async_rt.Prelude.Io.{Result, ok, err}
use async_rt.Prelude.Effect.{give, ◌>>=◌, bind-ok, ok-injective}
use async_rt.Opfs.Web.{Web}
use async_rt.Opfs.Session.{Session, Opfs}
use async_rt.Opfs.Files.{WasmFile}
use async_rt.Opfs.Contents.{Stored}
use async_rt.Opfs.Plain.{Plain, FileCall, Reply, Done, plain_call}
use async_rt.Opfs.Reading.{file_at_position}
use async_rt.Opfs.Refines.{file_call, Follows, file_call-Follows}

-- The answers of a run, and the file behind it.
pub record Ran (F : Type 0) : Type 0 where
  pub replies : List Reply
  pub file : F

-- A run behind one more call.
unfoldable pub after_call : {F : Type 0} → Reply → Result (Ran F) → Result (Ran F)
after_call reply (ok r) = ok (record { replies = reply ∷ r.replies; file = r.file })
after_call reply (err k) = err k

unfoldable pub plain_run : Bool → List FileCall → Plain → Result (Ran Plain)
plain_run append [] f = ok (record { replies = []; file = f })
plain_run append (call ∷ calls) f = elim (plain_call append call f) [
  | err k ↦ err k
  | ok d ↦ after_call d.reply (plain_run append calls d.file)
]

module _ (web : Web) where
  unfoldable pub file_run : List FileCall → WasmFile web → Opfs web (Ran (WasmFile web))
  file_run [] file = give (record { replies = []; file = file })
  file_run (call ∷ calls) file = file_call web call file >>= λ d.
      file_run calls d.file >>= λ r. give (record { replies = d.reply ∷ r.replies; file = r.file })

  module _ (handle : web.FileHandle) (stored : Stored web handle)
      (readable writable append : Bool) where
    open stored use {contents}

    abbrev pub open_at : ℕ → WasmFile web
    open_at = file_at_position web handle stored readable writable append

    -- The replies, the position and the contents of a run.
    abbrev pub RunAgrees : Ran (WasmFile web) → Session web → Result (Ran Plain) → Type 0
    RunAgrees r s (ok p) =
        (r.replies ≡ p.replies)
        × (r.file ≡ open_at p.file.position)
        × (contents s.disk ≡ p.file.bytes)
    RunAgrees r s (err k) = ⊥

    told : Reply → Ran (WasmFile web) → Ran (WasmFile web)
    told reply r = record { replies = reply ∷ r.replies; file = r.file }

    after_call-RunAgrees :
        (a b : Reply) (r : Ran (WasmFile web)) (s : Session web) (x : Result (Ran Plain))
        → a ≡ b
        → RunAgrees r s x
        → RunAgrees (told a r) s (after_call b x)
    unfolding after_call told
    after_call-RunAgrees a b r s (ok p) same (replies, file, bytes) = (cc, file, bytes)
    after_call-RunAgrees a b r s (err k) same h = h

    -- A run of reads, writes and seeks that all succeed answers what a plain file answers to the same
    -- calls, and leaves the contents and the position that the plain file has.
    pub file_run-Refines :
        (calls : List FileCall) (p : ℕ) (s : Session web) (r : Ran (WasmFile web))
        → (file_run calls (open_at p) s).result ≡ ok r
        → RunAgrees r
            (file_run calls (open_at p) s).state
            (plain_run append calls (record { bytes = contents s.disk; position = p }))
    unfolding file_run plain_run told
    file_run-Refines [] p s r h =
        let same = sym (ok-injective (record { replies = []; file = open_at p }) r h) in
        (ap (λ x. x.replies) same, ap (λ x. x.file) same, refl)
    file_run-Refines (call ∷ calls) p s r h =
        let (d, found, q) = bind-ok (file_call web call (open_at p)) rest s r h in
        let t = (file_call web call (open_at p) s).state in
        let (r', found', q') =
          bind-ok (file_run calls d.file) (λ x. give (told d.reply x)) t r
            (sym (ap (λ a. a.result) q) ∙ h) in
        let r_is = ok-injective (told d.reply r') r (sym (ap (λ a. a.result) (q ∙ q')) ∙ h) in
        let ends = ap (λ a. a.state) (q ∙ q') in
        go (file_run-Refines calls) d t r' r_is found' ends
          (plain_call append call (record { bytes = contents s.disk; position = p }))
          (file_call-Follows web handle stored readable writable append call p s d found)
      where
        rest : Done (WasmFile web) → Opfs web (Ran (WasmFile web))
        rest d = file_run calls d.file >>= λ x. give (told d.reply x)

        go :
            ((p' : ℕ) (s' : Session web) (r' : Ran (WasmFile web))
              → (file_run calls (open_at p') s').result ≡ ok r'
              → RunAgrees r'
                  (file_run calls (open_at p') s').state
                  (plain_run append calls (record { bytes = contents s'.disk; position = p' })))
            → (d : Done (WasmFile web)) (t : Session web) (r' : Ran (WasmFile web))
            → told d.reply r' ≡ r
            → (file_run calls d.file t).result ≡ ok r'
            → (file_run (call ∷ calls) (open_at p) s).state ≡ (file_run calls d.file t).state
            → (x : Result (Done Plain)) → Follows web handle stored readable writable append d t x
            → RunAgrees r (file_run (call ∷ calls) (open_at p) s).state (elim x [
              | err k ↦ err k
              | ok e ↦ after_call e.reply (plain_run append calls e.file)
            ])
        go before d t r' r_is found' ends (ok e) (same, file, bytes) =
            let q = e.file.position in
            let from_there =
              before q t r' (ap (λ f. (file_run calls f t).result) (sym file) ∙ found') in
            let plainly =
              subst
                (λ b.
                  RunAgrees r' (file_run calls (open_at q) t).state
                    (plain_run append calls (record { bytes = b; position = q })))
                bytes from_there in
            let inner =
              subst (λ f. RunAgrees r' (file_run calls f t).state (plain_run append calls e.file))
                (sym file) plainly in
            let outer =
              after_call-RunAgrees d.reply e.reply r' (file_run calls d.file t).state
                (plain_run append calls e.file) same inner in
            let whole =
              subst
                (λ x.
                  RunAgrees x (file_run calls d.file t).state
                    (after_call e.reply (plain_run append calls e.file)))
                r_is outer in
            subst (λ u. RunAgrees r u (after_call e.reply (plain_run append calls e.file)))
              (sym ends) whole
        go before d t r' r_is found' ends (err k) h = h
