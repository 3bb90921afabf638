-- ===== src/Opfs/Web.antt =====
-- What src/fs/wasm.rs uses of the browser: the storage manager and the handles of the origin-private
-- file system, as the web-sys crate gives them. A call is answered at once, with the storage as the
-- call leaves it; `Settled` is how its promise ends. The texts of paths are those of WasmPath.
use Prim.Native.String.{String}
use async_rt.Prelude.{ℕ, Bool, true, Option, List, ◌≡◌, ◌↔◌}
use async_rt.WasmPath.{Texts}

-- A promise: `unexpected` resolves to a value that the cast to its type refuses.
pub data Settled (E A : Type 0) : Type 0 where
  resolved : A → Settled E A
  unexpected : Settled E A
  rejected : E → Settled E A

-- A call that may throw before it makes its promise.
pub data Called (E A : Type 0) : Type 0 where
  threw : E → Called E A
  promised : Settled E A → Called E A

-- The lookup of `navigator.storage`.
pub data Lookup (E : Type 0) : Type 0 where
  lookup_threw : E → Lookup E
  missing : Lookup E
  found_other : Lookup E
  found_manager : Lookup E

-- The pair that a directory iterator resolves to: the name, if it is a text, and what the handle is.
pub data EntryValue (Name FileHandle : Type 0) : Type 0 where
  nameless : EntryValue Name FileHandle
  named_file : Name → Option FileHandle → EntryValue Name FileHandle
  named_directory : Name → Bool → EntryValue Name FileHandle
  named_other : Name → EntryValue Name FileHandle

pub record Web : Type 1 where
  pub texts : Texts
  pub same_name : texts.Name → texts.Name → Bool
  pub same_name_iff : (a b : texts.Name) → (same_name a b ≡ true) ↔ (a ≡ b)
  pub Disk : Type 0
  -- A JavaScript error value, and its property `name`, empty without one.
  pub JsError : Type 0
  pub error_name : JsError → String
  pub Directory : Type 0
  pub FileHandle : Type 0
  pub JsFile : Type 0
  pub Stream : Type 0
  pub Entries : Type 0
  pub storage : Disk → record { lookup : Lookup JsError; disk : Disk }
  pub get_directory : Disk → record { settled : Settled JsError Directory; disk : Disk }
  -- The `Bool` is the option `create`.
  pub get_file_handle :
      Directory
      → texts.Name
      → Bool
      → Disk
      → record { settled : Settled JsError FileHandle; disk : Disk }
  pub get_directory_handle :
      Directory
      → texts.Name
      → Bool
      → Disk
      → record { settled : Settled JsError Directory; disk : Disk }
  -- The `Bool` is the option `recursive`.
  pub remove_entry :
      Directory
      → texts.Name
      → Bool
      → Disk
      → record { settled : Settled JsError (Unit {0}); disk : Disk }
  pub entries : Directory → Disk → Entries
  -- `none` is the result with `done`.
  pub next : Entries → Disk → record {
    called : Called JsError (Option (EntryValue texts.Name FileHandle));
    rest : Entries;
    disk : Disk;
  }
  pub get_file : FileHandle → Disk → record { settled : Settled JsError JsFile; disk : Disk }
  pub size : JsFile → ℕ
  -- Whether `lastModified` is a number from which `UNIX_EPOCH` gives a time.
  pub has_time : JsFile → Bool
  pub array_buffer : JsFile → Disk → record { settled : Settled JsError (List ℕ); disk : Disk }
  -- The `Bool` is the option `keepExistingData`.
  pub create_writable :
      FileHandle → Bool → Disk → record { settled : Settled JsError Stream; disk : Disk }
  pub stream_seek : Stream → ℕ → Disk → record { called : Called JsError (Unit {0}); disk : Disk }
  pub stream_write :
      Stream → List ℕ → Disk → record { called : Called JsError (Unit {0}); disk : Disk }
  pub stream_truncate :
      Stream → ℕ → Disk → record { called : Called JsError (Unit {0}); disk : Disk }
  pub stream_close : Stream → Disk → record { settled : Settled JsError (Unit {0}); disk : Disk }
  pub stream_abort : Stream → Disk → record { settled : Settled JsError (Unit {0}); disk : Disk }
