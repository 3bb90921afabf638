-- ===== src/WasmPath.antt =====
-- src/fs/wasm.rs: the paths of the OPFS file system, `split_path`, `split_parent` and `joined_path`. A
-- path is the list of its components, as `std::path::Path::components` gives them; the texts of the
-- platform, and which of them are UTF-8, are a parameter.
pub mod Normal
mod Examples
use async_rt.Prelude.{ℕ, suc, ◌+◌, Option, none, some, List, [], ◌∷◌, ◌++◌, ◌≡◌}
use async_rt.Prelude.Io.{ErrorKind, Result, ok, err, ◌>>=◌}

-- `OsStr::to_str`, and the text of a `String` back on the platform.
pub record Texts : Type 1 where
  pub Os : Type 0
  pub Name : Type 0
  pub to_str : Os → Option Name
  pub of_str : Name → Os
  pub to_str-of_str : (n : Name) → to_str (of_str n) ≡ some n

-- `std::path::Component`.
pub data Component (texts : Texts) : Type 0 where
  root_dir : Component texts
  cur_dir : Component texts
  parent_dir : Component texts
  normal : texts.Os → Component texts
  path_prefix : Component texts

-- `Vec::pop`: the rest and the last element.
unfoldable pub pop {ℓ} : {A : Type ℓ} → List A → Option (List A × A)
pop [] = none
pop (x ∷ xs) = elim (pop xs) [ none ↦ some ([], x) | some (ys, y) ↦ some (x ∷ ys, y) ]

module _ (texts : Texts) where
  open texts use {Name}

  -- The `match` on one component.
  unfoldable pub component : List Name → Component texts → Result (List Name)
  component names root_dir = ok names
  component names cur_dir = ok names
  component names parent_dir = elim (pop names) [
    | none ↦ err ErrorKind.invalid_input
    | some (rest, last) ↦ ok rest
  ]
  component names (normal os) = elim (texts.to_str os) [
    | none ↦ err ErrorKind.invalid_input
    | some name ↦ ok (names ++ (name ∷ []))
  ]
  component names path_prefix = err ErrorKind.invalid_input

  -- The loop of `split_path`.
  unfoldable pub components : List Name → List (Component texts) → Result (List Name)
  components names [] = ok names
  components names (c ∷ cs) = component names c >>= λ names'. components names' cs

  unfoldable pub split_path : List (Component texts) → Result (List Name)
  split_path = components []

  unfoldable pub split_parent : List (Component texts) → Result (List Name × Name)
  split_parent path = split_path path >>= λ names. elim (pop names) [
    | none ↦ err ErrorKind.invalid_input
    | some r ↦ ok r
  ]

  -- What the pushes of the names add to a path.
  unfoldable pub pushed : List Name → List (Component texts)
  pushed [] = []
  pushed (name ∷ names) = normal (texts.of_str name) ∷ pushed names

  -- `joined_path`: a push of one name after another to the root.
  unfoldable pub joined_path : List Name → List (Component texts)
  joined_path names = root_dir ∷ pushed names
