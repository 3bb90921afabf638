-- ===== src/ReadWrite/Examples.antt =====
-- A file that is read and written a byte at a time, with interruptions, and the theorems at it.
use mathlib.Core.List.{append-nil}
use async_rt.Prelude.{
  ℕ, zero, suc, ◌≤◌, ◌<◌, true, List, [], ◌∷◌, ◌++◌, length, take, ◌≡◌, refl, arith,
}
use async_rt.Prelude.Io.{Result, ok, err, ErrorKind, is_interrupted}
use async_rt.ReadWrite.{
  Reader, Writer, finished, read_exact, read_to_end, read_to_string, write_all,
}
use async_rt.ReadWrite.Reading.{HonestReader, Exact, read_exact-Exact}
use async_rt.ReadWrite.Appending.{Appended, read_to_end-Appended, Decoded, read_to_string-Decoded}
use async_rt.ReadWrite.Writing.{HonestWriter, Written, write_all-Written}

-- The bytes left, and the interruptions to come.
abbrev pub Tape : Type 0
Tape = List ℕ × ℕ

abbrev pub read_byte : Tape → List ℕ → record { result : Result ℕ; buffer : List ℕ; state : Tape }
read_byte (bytes, suc p) b = record {
  result = err ErrorKind.interrupted;
  buffer = b;
  state = (bytes, p);
}
read_byte ([], zero) b = record { result = ok 0; buffer = b; state = ([], 0) }
read_byte (y ∷ ys, zero) [] = record { result = ok 0; buffer = []; state = (y ∷ ys, 0) }
read_byte (y ∷ ys, zero) (x ∷ xs) = record { result = ok 1; buffer = y ∷ xs; state = (ys, 0) }

abbrev pub tape : Reader
tape = record { State = Tape; read = read_byte }

pub keeps_length : (s : Tape) (b : List ℕ) → length (read_byte s b).buffer ≡ length b
keeps_length (bytes, suc p) b = refl
keeps_length ([], zero) b = refl
keeps_length (y ∷ ys, zero) [] = refl
keeps_length (y ∷ ys, zero) (x ∷ xs) = refl

pub reads :
    (s : Tape) (b : List ℕ) (n : ℕ)
    → (read_byte s b).result ≡ ok n
    → (n ≤ length b)
      × (s.0 ≡ take n (read_byte s b).buffer ++ (read_byte s b).state.0)
      × ((read_byte s b).state.1 ≤ s.1)
reads (bytes, suc p) b n e = cc
reads ([], zero) b n e = ground arith
reads (y ∷ ys, zero) [] n e = ground arith
reads (y ∷ ys, zero) (x ∷ xs) n e = ground arith

pub ends : (s : Tape) (b : List ℕ) → (read_byte s b).result ≡ ok 0 → 0 < length b → s.0 ≡ []
ends (bytes, suc p) b e h = cc
ends ([], zero) b e h = refl
ends (y ∷ ys, zero) [] e h = absurd (omega arith)
ends (y ∷ ys, zero) (x ∷ xs) e h = ground arith

pub fails :
    (s : Tape) (b : List ℕ) (k : ErrorKind)
    → (read_byte s b).result ≡ err k
    → (read_byte s b).state.0 ≡ s.0
fails (bytes, suc p) b k e = refl
fails ([], zero) b k e = refl
fails (y ∷ ys, zero) [] k e = refl
fails (y ∷ ys, zero) (x ∷ xs) k e = cc

pub tires :
    (s : Tape) (b : List ℕ) (k : ErrorKind)
    → (read_byte s b).result ≡ err k
    → is_interrupted k ≡ true
    → (read_byte s b).state.1 < s.1
tires (bytes, suc p) b k e h = omega arith
tires ([], zero) b k e h = cc
tires (y ∷ ys, zero) [] k e h = cc
tires (y ∷ ys, zero) (x ∷ xs) k e h = cc

abbrev pub tape_honest : HonestReader tape
tape_honest = record {
  remaining = λ s. s.0;
  patience = λ s. s.1;
  keeps_length = keeps_length;
  reads = reads;
  ends = ends;
  fails = fails;
  tires = tires;
}

abbrev pub three : Tape
three = (7 ∷ 8 ∷ 9 ∷ [], 2)

read_exact_test :
    read_exact tape 9 three (0 ∷ 0 ∷ [])
    ≡ record { outcome = finished (ok tt); bytes = 7 ∷ 8 ∷ []; state = (9 ∷ [], 0) }
unfolding read_exact
read_exact_test = refl

read_exact-Exact_example :
    let r = read_exact tape 9 three (0 ∷ 0 ∷ []) in
    Exact tape tape_honest three 2 r.outcome r.bytes r.state
read_exact-Exact_example = read_exact-Exact tape tape_honest 9 three (0 ∷ 0 ∷ []) (omega arith)

read_to_end-Appended_example :
    let r = read_to_end tape 6 three (1 ∷ []) in
    Appended tape tape_honest three 1 (1 ∷ []) r.outcome r.bytes r.state
read_to_end-Appended_example = read_to_end-Appended tape tape_honest 6 three (1 ∷ []) (omega arith)

read_to_string-Decoded_example :
    let r = read_to_string tape (λ b. true) 6 three (1 ∷ []) in
    Decoded tape tape_honest (λ b. true) three (1 ∷ []) r.outcome r.bytes
read_to_string-Decoded_example =
    read_to_string-Decoded tape tape_honest (λ b. true) 6 three (1 ∷ []) (omega arith)

abbrev pub write_byte : Tape → List ℕ → record { result : Result ℕ; state : Tape }
write_byte (sink, suc p) b = record { result = err ErrorKind.interrupted; state = (sink, p) }
write_byte (sink, zero) [] = record { result = ok 0; state = (sink, 0) }
write_byte (sink, zero) (x ∷ xs) = record { result = ok 1; state = (sink ++ (x ∷ []), 0) }

abbrev pub log : Writer
log = record { State = Tape; write = write_byte }

pub writes :
    (s : Tape) (b : List ℕ) (n : ℕ)
    → (write_byte s b).result ≡ ok n
    → (n ≤ length b)
      × ((write_byte s b).state.0 ≡ s.0 ++ take n b)
      × ((write_byte s b).state.1 ≤ s.1)
writes (sink, suc p) b n e = cc
writes (sink, zero) [] n e = ground (arith, append-nil sink)
writes (sink, zero) (x ∷ xs) n e = ground arith

pub write_fails :
    (s : Tape) (b : List ℕ) (k : ErrorKind)
    → (write_byte s b).result ≡ err k
    → (write_byte s b).state.0 ≡ s.0
write_fails (sink, suc p) b k e = refl
write_fails (sink, zero) [] k e = refl
write_fails (sink, zero) (x ∷ xs) k e = cc

pub write_tires :
    (s : Tape) (b : List ℕ) (k : ErrorKind)
    → (write_byte s b).result ≡ err k
    → is_interrupted k ≡ true
    → (write_byte s b).state.1 < s.1
write_tires (sink, suc p) b k e h = omega arith
write_tires (sink, zero) [] k e h = cc
write_tires (sink, zero) (x ∷ xs) k e h = cc

abbrev pub log_honest : HonestWriter log
log_honest = record {
  sink = λ s. s.0;
  patience = λ s. s.1;
  writes = writes;
  fails = write_fails;
  tires = write_tires;
}

write_all-Written_example :
    let r = write_all log 9 three (1 ∷ 2 ∷ []) in
    Written log log_honest three (1 ∷ 2 ∷ []) r.outcome r.state
write_all-Written_example = write_all-Written log log_honest 9 three (1 ∷ 2 ∷ []) (omega arith)
