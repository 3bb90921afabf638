-- ===== src/Prelude/Io.antt =====
-- `std::io::Result`: the error kinds that the crate builds or tests for, and the chain of `?`.
use mathlib.Core.Bool.{Bool, true, false}

-- `std::io::ErrorKind`. `uncategorized n` stands for any kind that the crate does not name.
pub data ErrorKind : Type 0 where
  not_found permission_denied already_exists invalid_input invalid_data : ErrorKind
  unexpected_eof write_zero interrupted unsupported other : ErrorKind
  is_a_directory not_a_directory directory_not_empty resource_busy quota_exceeded : ErrorKind

pub data Result {ℓ} (A : Type ℓ) : Type ℓ where
  ok : A → Result A
  err : ErrorKind → Result A

infixl 5 ◌>>=◌
abbrev pub ◌>>=◌ {ℓ κ} : {A : Type ℓ} {B : Type κ} → Result A → (A → Result B) → Result B
ok a >>= f = f a
err e >>= f = err e

-- `error.kind() == io::ErrorKind::Interrupted`.
abbrev pub is_interrupted : ErrorKind → Bool
is_interrupted ErrorKind.interrupted = true
is_interrupted _ = false
