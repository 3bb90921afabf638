-- ===== src/Opfs/OneDirectory.antt =====
-- A storage for the tests of src/fs/wasm.rs: one directory, whose files are known by numbers.
use Prim.Native.String.{String}
use async_rt.Prelude.{
  ℕ, zero, suc, ◌≤◌, Bool, true, false, if◌then◌else◌, leb, ◌==◌, Option, none, some, List, [], ◌≡◌,
  ◌↔◌, refl, sym, ◌∙◌, subst, ap, arith, take, length, Bool-cases, inl, inr,
}
use async_rt.WasmPath.{Texts}
use async_rt.Opfs.Web.{Web, Settled, resolved, rejected, promised, found_manager}
use async_rt.Opfs.Files.{usize_max}
use async_rt.Opfs.Contents.{Stored, put}

abbrev pub text : ℕ → Option ℕ
text zero = none
text (suc n) = some n

abbrev pub numbers : Texts
numbers = record { Os = ℕ; Name = ℕ; to_str = text; of_str = λ n. suc n; to_str-of_str = λ n. refl }

-- The files, and what the open writer has collected.
pub record Disk : Type 0 where
  pub files : ℕ → Option (List ℕ)
  pub staged : List ℕ
  pub cursor : ℕ

abbrev pub set_file : ℕ → Option (List ℕ) → Disk → Disk
set_file name contents d = record d { files = λ n. if n == name then contents else d.files n }

abbrev pub bytes_of : Option (List ℕ) → List ℕ
bytes_of none = []
bytes_of (some bytes) = bytes

abbrev pub lookup_file :
    ℕ → Bool → Disk → Option (List ℕ) → record { settled : Settled String ℕ; disk : Disk }
lookup_file name create d (some bytes) = record { settled = resolved name; disk = d }
lookup_file name true d none = record { settled = resolved name; disk = set_file name (some []) d }
lookup_file name false d none = record { settled = rejected "NotFoundError"; disk = d }

abbrev pub loaded_settled : List ℕ → Bool → Settled String (List ℕ)
loaded_settled f fits = if fits then resolved f else rejected "NotReadableError"

pub same_number : (a b : ℕ) → (a == b ≡ true) ↔ (a ≡ b)
same_number a b = (λ h. ground arith, λ h. ground arith)

abbrev pub one_directory : Web
one_directory = record {
  texts = numbers;
  same_name = λ a b. a == b;
  same_name_iff = same_number;
  Disk = Disk;
  JsError = String;
  error_name = λ e. e;
  Directory = Unit {0};
  FileHandle = ℕ;
  JsFile = List ℕ;
  Stream = ℕ;
  Entries = Unit {0};
  storage = λ d. record { lookup = found_manager; disk = d };
  get_directory = λ d. record { settled = resolved tt; disk = d };
  get_file_handle = λ _ name create d. lookup_file name create d (d.files name);
  get_directory_handle = λ _ name create d. record { settled = rejected "NotFoundError"; disk = d };
  remove_entry =
      λ _ name recursive d. record { settled = resolved tt; disk = set_file name none d };
  entries = λ _ d. tt;
  next = λ _ d. record { called = promised (resolved none); rest = tt; disk = d };
  get_file = λ handle d. record { settled = resolved (bytes_of (d.files handle)); disk = d };
  size = λ file. length file;
  has_time = λ file. true;
  array_buffer =
      λ file d. record { settled = loaded_settled file (leb (length file) usize_max); disk = d };
  create_writable = λ handle keep d. record {
    settled = resolved handle;
    disk = record d { staged = if keep then bytes_of (d.files handle) else []; cursor = 0 };
  };
  stream_seek = λ stream position d. record {
    called = promised (resolved tt);
    disk = record d { cursor = position };
  };
  stream_write = λ stream bytes d. record {
    called = promised (resolved tt);
    disk = record d { staged = put d.cursor bytes d.staged; cursor = d.cursor };
  };
  stream_truncate = λ stream size d. record {
    called = promised (resolved tt);
    disk = record d { staged = take size d.staged };
  };
  stream_close =
      λ stream d. record { settled = resolved tt; disk = set_file stream (some d.staged) d };
  stream_abort = λ stream d. record { settled = resolved tt; disk = d };
}

pub resolved-injective :
    {A : Type 0} (a b : A) → ◌≡◌ {A = Settled String A} (resolved a) (resolved b) → a ≡ b
resolved-injective a b h = cc

pub loaded :
    (f bytes : List ℕ)
    → loaded_settled f (leb (length f) usize_max) ≡ resolved bytes
    → (bytes ≡ f) × (length bytes ≤ usize_max)
loaded f bytes h = elim (Bool-cases (leb (length f) usize_max)) [
  | inl e ↦
      (let same = resolved-injective f bytes (sym (kept (leb (length f) usize_max) e) ∙ h) in
        (sym same, subst (λ xs. length xs ≤ usize_max) same (ground arith)))
  | inr e ↦ absurd (refused (leb (length f) usize_max) e h)
]
  where
    kept : (b : Bool) → b ≡ true → loaded_settled f b ≡ resolved f
    kept b e = ap (loaded_settled f) e

    refused : (b : Bool) → b ≡ false → loaded_settled f b ≡ resolved bytes → ⊥
    refused true e q = cc
    refused false e q = cc

pub replaced :
    (stream : ℕ) (d : Disk)
    → (stream == 1) ≡ true
    → bytes_of ((set_file stream (some d.staged) d).files 1) ≡ d.staged
replaced stream d w = ground arith

-- The file 1 of this storage.
abbrev pub first_file : Stored one_directory 1
first_file = record {
  contents = λ d. bytes_of (d.files 1);
  snapshot = λ file. file;
  staged = λ stream d. d.staged;
  cursor = λ stream d. d.cursor;
  is_writer = λ stream. stream == 1;
  get_file-snapshot = λ d f h. sym (resolved-injective (bytes_of (d.files 1)) f h);
  get_file-contents = λ d. refl;
  size-snapshot = λ f. refl;
  array_buffer-snapshot = λ f d bytes h. loaded f bytes h;
  array_buffer-contents = λ f d. refl;
  create_writable-staged = λ keep d stream h. refl;
  create_writable-is_writer =
      λ keep d stream h. ap (λ n. n == 1) (sym (resolved-injective 1 stream h));
  stream_seek-cursor = λ stream position d h. (refl, refl);
  stream_write-staged = λ stream bytes d h. refl;
  stream_close-contents = λ stream d w h. replaced stream d w;
}
