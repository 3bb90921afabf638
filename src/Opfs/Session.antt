-- ===== src/Opfs/Session.antt =====
-- src/fs/wasm.rs: the cached root directory, the kinds of errors, and how promises are awaited. The
-- calls that change files are noted in `calls`, in their order.
use Prim.Native.String.{String}
use text.Mathlib.Text.{◌==◌}
use async_rt.Prelude.{ℕ, Bool, if◌then◌else◌, Option, none, some, List, [], ◌∷◌, ◌++◌}
use async_rt.Prelude.Io.{Result, ok, err, ErrorKind}
use async_rt.Prelude.Effect.{Effect, answer, give, ◌>>=◌, ◌>>◌}
use async_rt.Opfs.Web.{
  Settled, resolved, unexpected, rejected, Called, threw, promised, Lookup, Web,
}

pub data EntryKind : Type 0 where
  file directory either : EntryKind

-- `TypeMismatchError`, by the kind of entry that was asked for.
unfoldable pub mismatch : EntryKind → ErrorKind
mismatch EntryKind.file = ErrorKind.is_a_directory
mismatch EntryKind.directory = ErrorKind.not_a_directory
mismatch EntryKind.either = ErrorKind.invalid_input

-- `js_error`, without the message.
unfoldable pub js_error : String → EntryKind → ErrorKind
js_error name entry =
    if name == "NotFoundError"
    then ErrorKind.not_found
    else if name == "NotAllowedError"
    then ErrorKind.permission_denied
    else if name == "SecurityError"
    then ErrorKind.permission_denied
    else if name == "TypeMismatchError"
    then mismatch entry
    else if name == "InvalidModificationError"
    then ErrorKind.directory_not_empty
    else if name == "NoModificationAllowedError"
    then ErrorKind.resource_busy
    else if name == "QuotaExceededError"
    then ErrorKind.quota_exceeded
    else if name == "AbortError"
    then ErrorKind.interrupted
    else ErrorKind.other

-- A call that changes what is stored.
pub data Call (web : Web) : Type 0 where
  creates_file : web.Directory → web.texts.Name → Call web
  creates_directory : web.Directory → web.texts.Name → Call web
  creates_writable : web.FileHandle → Bool → Call web
  seeks : web.Stream → ℕ → Call web
  writes : web.Stream → List ℕ → Call web
  truncates : web.Stream → ℕ → Call web
  closes : web.Stream → Call web
  aborts : web.Stream → Call web
  removes : web.texts.Name → Bool → Call web

-- `ROOT`, the storage, and the calls so far.
pub record Session (web : Web) : Type 0 where
  pub root : Option web.Directory
  pub disk : web.Disk
  pub calls : List (Call web)

module _ (web : Web) where
  open web use {JsError, Directory}

  abbrev pub Opfs : Type 0 → Type 0
  Opfs A = Effect (Session web) A

  -- A lookup is noted if it may create the entry.
  abbrev pub noted_if : Bool → Call web → Session web → Session web
  noted_if create call s = record s { calls = s.calls ++ (if create then call ∷ [] else []) }

  abbrev pub noted : Call web → Session web → Session web
  noted call s = record s { calls = s.calls ++ (call ∷ []) }

  -- `cast(await_promise(..).await?)`.
  unfoldable pub awaited : {A : Type 0} → EntryKind → Settled JsError A → Result A
  awaited entry (resolved a) = ok a
  awaited entry unexpected = err ErrorKind.other
  awaited entry (rejected e) = err (js_error (web.error_name e) entry)

  -- `await_promise(..).await?` without a cast.
  unfoldable pub settled_unit : {A : Type 0} → EntryKind → Settled JsError A → Result (Unit {0})
  settled_unit entry (rejected e) = err (js_error (web.error_name e) entry)
  settled_unit entry _ = ok tt

  -- `.map_err(js_error)` on a call that may throw, and the wait for its promise.
  unfoldable pub called_unit : {A : Type 0} → EntryKind → Called JsError A → Result (Unit {0})
  called_unit entry (threw e) = err (js_error (web.error_name e) entry)
  called_unit entry (promised p) = settled_unit entry p

  -- The lookup in `root`.
  unfoldable pub manager : Lookup JsError → Result (Unit {0})
  manager (Lookup.lookup_threw e) = err (js_error (web.error_name e) EntryKind.either)
  manager Lookup.missing = err ErrorKind.unsupported
  manager Lookup.found_other = err ErrorKind.other
  manager Lookup.found_manager = ok tt

  unfoldable pub navigator_storage : Opfs (Unit {0})
  navigator_storage s =
      let r = web.storage s.disk in answer (manager r.lookup) (record s { disk = r.disk })

  unfoldable pub get_directory : Opfs Directory
  get_directory s =
      let r = web.get_directory s.disk in
      answer (awaited EntryKind.directory r.settled) (record s { disk = r.disk })

  unfoldable pub keep_root : Directory → Opfs Directory
  keep_root d s = give d (record s { root = some d })

  -- The cached directory, or a lookup that is cached.
  unfoldable pub cached_root : Option Directory → Opfs Directory
  cached_root (some d) = give d
  cached_root none = navigator_storage >> get_directory >>= keep_root

  -- `root`.
  unfoldable pub root : Opfs Directory
  unfolding cached_root
  root s = cached_root s.root s
