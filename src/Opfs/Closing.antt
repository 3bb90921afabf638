-- ===== src/Opfs/Closing.antt =====
-- src/fs/wasm.rs: every writer that is opened is closed or aborted.
use async_rt.Prelude.{List, [], ◌∷◌, ◌++◌, ◌≡◌}
use async_rt.Prelude.Io.{Result, err}
use async_rt.Opfs.Web.{Web}
use async_rt.Opfs.Session.{
  Call, creates_writable, seeks, writes, truncates, closes, aborts, Session, Opfs,
}

module _ (web : Web) where
  open web use {FileHandle, Stream}

  -- The calls on an open writer, and what they end in: a close, or an abort and an error.
  abbrev pub Ended : Stream → Result (Unit {0}) → List (Call web) → Type 0
  Ended stream r (closes stream' ∷ []) = stream' ≡ stream
  Ended stream (err e) (aborts stream' ∷ []) = stream' ≡ stream
  Ended stream r (seeks stream' p ∷ calls) = (stream' ≡ stream) × Ended stream r calls
  Ended stream r (writes stream' b ∷ calls) = (stream' ≡ stream) × Ended stream r calls
  Ended stream r (truncates stream' n ∷ calls) = (stream' ≡ stream) × Ended stream r calls
  Ended stream r _ = ⊥

  -- Nothing at all; a writer that could not be opened; or one that is opened for this file and ended.
  abbrev pub Clean : FileHandle → Result (Unit {0}) → List (Call web) → Type 0
  Clean handle r [] = Unit {0}
  Clean handle (err e) (creates_writable handle' keep ∷ []) = handle' ≡ handle
  Clean handle r (creates_writable handle' keep ∷ calls) =
      (handle' ≡ handle) × ((stream : Stream) × Ended stream r calls)
  Clean handle r _ = ⊥

  -- What a run of `m` adds to the calls satisfies `P`, with its result.
  abbrev pub Adds : {A : Type 0} → (Result A → List (Call web) → Type 0) → Opfs web A → Type 0
  Adds P m =
      (s : Session web)
      → (added : List (Call web)) × (((m s).state.calls ≡ s.calls ++ added) × P (m s).result added)
