-- ===== src/ReadWrite.antt =====
-- src/fs/io.rs: the provided methods of the traits `FileRead` and `FileWrite`. The required methods
-- `read` and `write` are a parameter: every backend supplies its own. A byte is a number. A slice is a
-- list, and a call that is given a slice returns it as the callee has left it.
pub mod Reading
pub mod Appending
pub mod Writing
pub mod Examples
use async_rt.Prelude.{
  ℕ, zero, suc, ◌+◌, ◌-◌, ◌≤◌, ◌<◌, Bool, if◌then◌else◌, ltb, List, [], ◌∷◌, ◌++◌, length, take,
  drop, replicate, ◌≡◌,
}
use async_rt.Prelude.Io.{Result, ok, err, ErrorKind, is_interrupted}

-- How a loop over `read` or `write` ends: `panicked` is a slice index out of range, and `stuck` is a
-- loop of the model that ran out of fuel.
pub data Outcome {ℓ} (A : Type ℓ) : Type ℓ where
  finished : Result A → Outcome A
  panicked : Outcome A
  stuck : Outcome A

-- A value with a required method `FileRead::read`.
pub record Reader : Type 1 where
  pub State : Type 0
  pub read : State → List ℕ → record { result : Result ℕ; buffer : List ℕ; state : State }

pub record Writer : Type 1 where
  pub State : Type 0
  pub write : State → List ℕ → record { result : Result ℕ; state : State }

module _ (reader : Reader) where
  open reader use {State, read}

  pub record Filled {ℓ} (A : Type ℓ) : Type ℓ where
    pub outcome : Outcome A
    pub bytes : List ℕ
    pub state : State

  -- `read_exact`: the bytes are those of the whole buffer.
  pub read_exact : ℕ → State → List ℕ → Filled (Unit {0})
  read_exact fuel s [] = record { outcome = finished (ok tt); bytes = []; state = s }
  read_exact zero s (x ∷ xs) = record { outcome = stuck; bytes = x ∷ xs; state = s }
  read_exact (suc fuel) s (x ∷ xs) =
      let r = read s (x ∷ xs) in
      let again = read_exact fuel r.state r.buffer in
      elim r.result [
        | ok zero ↦ record {
          outcome = finished (err ErrorKind.unexpected_eof);
          bytes = r.buffer;
          state = r.state;
        }
        | ok (suc n) ↦
            let more = read_exact fuel r.state (drop (suc n) r.buffer) in
            let all : Filled (Unit {0}) = record more {
              bytes = take (suc n) r.buffer ++ more.bytes;
            } in
            if ltb (length r.buffer) (suc n)
            then record { outcome = panicked; bytes = r.buffer; state = r.state }
            else all
        | err kind ↦
            if is_interrupted kind
            then again
            else record { outcome = finished (err kind); bytes = r.buffer; state = r.state }
      ]

  -- The loop of `read_to_end`: `start` is the length of the output before it, `buffer` the chunk.
  pub read_to_end_from : ℕ → ℕ → State → List ℕ → List ℕ → Filled ℕ
  read_to_end_from zero start s buffer output = record {
    outcome = stuck;
    bytes = output;
    state = s;
  }
  read_to_end_from (suc fuel) start s buffer output =
      let r = read s buffer in
      let again = read_to_end_from fuel start r.state r.buffer output in
      elim r.result [
        | ok zero ↦ record {
          outcome = finished (ok (length output - start));
          bytes = output;
          state = r.state;
        }
        | ok (suc n) ↦
            let more =
              read_to_end_from fuel start r.state r.buffer (output ++ take (suc n) r.buffer) in
            if ltb (length r.buffer) (suc n)
            then record { outcome = panicked; bytes = output; state = r.state }
            else more
        | err kind ↦
            if is_interrupted kind
            then again
            else record { outcome = finished (err kind); bytes = output; state = r.state }
      ]

  -- `[0; 8 * 1024]`.
  pub chunk : List ℕ
  chunk = replicate 8192 0

  pub read_to_end : ℕ → State → List ℕ → Filled ℕ
  read_to_end fuel s output = read_to_end_from fuel (length output) s chunk output

  -- `String::from_utf8` is a parameter; a string is its bytes.
  string_of : (List ℕ → Bool) → List ℕ → Filled ℕ → Filled ℕ
  string_of is_utf8 output r = elim r.outcome [
    | finished (ok n) ↦
        if is_utf8 r.bytes
        then record r { bytes = output ++ r.bytes }
        else record r { outcome = finished (err ErrorKind.invalid_data); bytes = output }
    | other ↦ record r { outcome = other; bytes = output }
  ]

  pub read_to_string : (List ℕ → Bool) → ℕ → State → List ℕ → Filled ℕ
  read_to_string is_utf8 fuel s output = string_of is_utf8 output (read_to_end fuel s [])

module _ (writer : Writer) where
  open writer use {State, write}

  pub record Sent : Type 0 where
    pub outcome : Outcome (Unit {0})
    pub state : State

  pub write_all : ℕ → State → List ℕ → Sent
  write_all fuel s [] = record { outcome = finished (ok tt); state = s }
  write_all zero s (x ∷ xs) = record { outcome = stuck; state = s }
  write_all (suc fuel) s (x ∷ xs) =
      let r = write s (x ∷ xs) in
      let again = write_all fuel r.state (x ∷ xs) in
      elim r.result [
        | ok zero ↦ record { outcome = finished (err ErrorKind.write_zero); state = r.state }
        | ok (suc n) ↦
            let more = write_all fuel r.state (drop (suc n) (x ∷ xs)) in
            if ltb (length (x ∷ xs)) (suc n)
            then record { outcome = panicked; state = r.state }
            else more
        | err kind ↦
            if is_interrupted kind
            then again
            else record { outcome = finished (err kind); state = r.state }
      ]
