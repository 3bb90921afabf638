-- ===== src/ReadWrite/Appending.antt =====
-- `FileRead::read_to_end` and `read_to_string` of src/fs/io.rs, over a reader that keeps the contract.
use mathlib.Core.List.{append_assoc, append-nil}
use async_rt.Prelude.{
  ℕ, zero, suc, ◌+◌, ◌≤◌, ◌<◌, Bool, true, false, ltb, List, [], ◌++◌, length, take, replicate, ◌≡◌,
  refl, sym, ap, ◌∙◌, ◌⊎◌, inl, inr, arith, Bool-cases, subst, length-append, length-take,
}
use async_rt.Prelude.Io.{Result, ok, err, ErrorKind, is_interrupted}
use async_rt.ReadWrite.{
  Reader, Outcome, finished, panicked, stuck, Filled, read_to_end_from, read_to_end, chunk,
  string_of, read_to_string,
}
use async_rt.ReadWrite.Reading.{HonestReader, Reported}

length-replicate : (n a : ℕ) → length (replicate n a) ≡ n
length-replicate zero a = refl
length-replicate (suc n) a = ap suc (length-replicate n a)

module _ (reader : Reader) (honest : HonestReader reader) where
  open reader use {State, read}
  open honest use {remaining, patience}

  -- What the loop of `read_to_end` promises, with `start` the length of the caller's output.
  abbrev pub Appended : State → ℕ → List ℕ → Outcome ℕ → List ℕ → State → Type 0
  Appended s start output (finished (ok n)) bytes s' =
      (bytes ≡ output ++ remaining s) × (n + start ≡ length bytes) × (remaining s' ≡ [])
  Appended s start output (finished (err kind)) bytes s' =
      (got : List ℕ) × (bytes ≡ output ++ got)
      × (remaining s ≡ got ++ remaining s')
      × Reported reader honest kind
  Appended s start output panicked bytes s' = ⊥
  Appended s start output stuck bytes s' = ⊥

  Appended-extend :
      (s s' : State) (start : ℕ) (output got : List ℕ) (o : Outcome ℕ) (bytes : List ℕ) (t : State)
      → remaining s ≡ got ++ remaining s'
      → Appended s' start (output ++ got) o bytes t
      → Appended s start output o bytes t
  Appended-extend s s' start output got (finished (ok n)) bytes t e (a, b, c) =
      (rw e (a ∙ append_assoc output got (remaining s')), b, c)
  Appended-extend s s' start output got (finished (err kind)) bytes t e (more, a, b, c) = (
    got ++ more,
    a ∙ append_assoc output got more,
    rw (e, b) (sym (append_assoc got more (remaining t))),
    c,
  )
  Appended-extend s s' start output got panicked bytes t e h = absurd h
  Appended-extend s s' start output got stuck bytes t e h = absurd h

  read_to_end_from-Appended :
      (fuel start : ℕ) (s : State) (buffer output : List ℕ)
      → length (remaining s) + patience s < fuel
      → 0 < length buffer
      → start ≤ length output
      → let r = read_to_end_from reader fuel start s buffer output in
        Appended s start output r.outcome r.bytes r.state
  unfolding read_to_end_from
  read_to_end_from-Appended zero start s b output h room st = absurd (omega arith)
  read_to_end_from-Appended (suc fuel) start s b output h room st =
      go (read s b).result refl (read_to_end_from-Appended fuel start)
    where
      s' : State
      s' = (read s b).state

      buffer : List ℕ
      buffer = (read s b).buffer

      go :
          (q : Result ℕ)
          → (read s b).result ≡ q
          → ((t : State) (c out : List ℕ)
              → length (remaining t) + patience t < fuel
              → 0 < length c
              → start ≤ length out
              → let r = read_to_end_from reader fuel start t c out in
                Appended t start out r.outcome r.bytes r.state)
          → let r = read_to_end_from reader (suc fuel) start s b output in
            Appended s start output r.outcome r.bytes r.state
      go (ok zero) e ih =
          let empty = honest.ends s b e room in
          rw (e, read_to_end_from)
            (rw empty (sym (append-nil output)), omega arith, sym (honest.reads s b 0 e).1 ∙ empty)
      go (ok (suc n)) e ih =
          let facts = honest.reads s b (suc n) e in
          let same = honest.keeps_length s b in
          let fits : ltb (length buffer) (suc n) ≡ false = ground (arith, facts.0, same) in
          let got = take (suc n) buffer in
          let r = read_to_end_from reader fuel start s' buffer (output ++ got) in
          let size : length got ≡ suc n =
            omega (arith, facts.0, same, length-take {0} (suc n) buffer) in
          let fewer : length (remaining s) ≡ length got + length (remaining s') =
            ap (λ xs. length xs) facts.1 ∙ length-append got (remaining s') in
          let rest =
            ih s' buffer (output ++ got) (omega (arith, facts.2)) (omega arith)
              (omega (arith, length-append output got)) in
          rw (e, read_to_end_from, fits)
            (Appended-extend s s' start output got r.outcome r.bytes r.state facts.1 rest)
      go (err kind) e ih =
          let same = honest.keeps_length s b in
          let kept = honest.fails s b kind e in
          elim (Bool-cases (is_interrupted kind)) [
            | inl i ↦
                let r = read_to_end_from reader fuel start s' buffer output in
                let tired = honest.tires s b kind e i in
                let size : length (remaining s') ≡ length (remaining s) =
                  ap (λ xs. length xs) kept in
                let rest = ih s' buffer output (omega arith) (omega arith) st in
                rw (e, read_to_end_from, i)
                  (Appended-extend s s' start output [] r.outcome r.bytes r.state (sym kept) (
                    subst (λ out. Appended s' start out r.outcome r.bytes r.state)
                      (sym (append-nil output)) rest))
            | inr i ↦
                rw (e, read_to_end_from, i)
                  (
                    [],
                    sym (append-nil output),
                    sym kept,
                    record { at = s; into = b; reported = e; final = i },
                  )
          ]

  -- With a round for each byte, each interruption and the end, `read_to_end` returns. On success it
  -- has appended all that was left of the file to the output, and counts exactly those bytes. On an
  -- error, which is the reader's own, it has appended exactly what was consumed.
  pub read_to_end-Appended :
      (fuel : ℕ) (s : State) (output : List ℕ)
      → length (remaining s) + patience s < fuel
      → let r = read_to_end reader fuel s output in
        Appended s (length output) output r.outcome r.bytes r.state
  unfolding read_to_end chunk
  read_to_end-Appended fuel s output h =
      read_to_end_from-Appended fuel (length output) s (chunk reader) output h
        (rw (length-replicate 8192 0) (omega arith)) (omega arith)

  -- What `read_to_string` promises: the text, or the output as it was.
  abbrev pub Decoded : (List ℕ → Bool) → State → List ℕ → Outcome ℕ → List ℕ → Type 0
  Decoded is_utf8 s output (finished (ok n)) bytes =
      (is_utf8 (remaining s) ≡ true) × (bytes ≡ output ++ remaining s) × (n ≡ length (remaining s))
  Decoded is_utf8 s output (finished (err kind)) bytes =
      (bytes ≡ output)
      × (((kind ≡ ErrorKind.invalid_data) × (is_utf8 (remaining s) ≡ false))
          ⊎ Reported reader honest kind)
  Decoded is_utf8 s output panicked bytes = ⊥
  Decoded is_utf8 s output stuck bytes = ⊥

  string_of-Decoded :
      (is_utf8 : List ℕ → Bool) (s : State) (output : List ℕ) (r : Filled reader ℕ)
      → Appended s 0 [] r.outcome r.bytes r.state
      → let q = string_of reader is_utf8 output r in Decoded is_utf8 s output q.outcome q.bytes
  unfolding string_of
  string_of-Decoded is_utf8 s output r = go r.outcome refl
    where
      go :
          (o : Outcome ℕ)
          → r.outcome ≡ o
          → Appended s 0 [] o r.bytes r.state
          → let q = string_of reader is_utf8 output r in Decoded is_utf8 s output q.outcome q.bytes
      go (finished (ok n)) e (a, b, c) = elim (Bool-cases (is_utf8 r.bytes)) [
        | inl u ↦
            rw (e, string_of, u)
              (rw e (rw a at u, ap (◌++◌ output) a, omega (arith, ap (λ xs. length xs) a)))
        | inr u ↦ rw (e, string_of, u) (refl, inl (refl, rw a at u))
      ]
      go (finished (err kind)) e (got, a, b, c) = rw (e, string_of) (refl, inr c)
      go panicked e h = absurd h
      go stuck e h = absurd h

  -- With enough fuel `read_to_string` returns: either the rest of the file is valid UTF-8, and exactly
  -- it is appended, or an error is returned and the caller's string is as it was.
  pub read_to_string-Decoded :
      (is_utf8 : List ℕ → Bool) (fuel : ℕ) (s : State) (output : List ℕ)
      → length (remaining s) + patience s < fuel
      → let r = read_to_string reader is_utf8 fuel s output in
        Decoded is_utf8 s output r.outcome r.bytes
  unfolding read_to_string
  read_to_string-Decoded is_utf8 fuel s output h =
      string_of-Decoded is_utf8 s output (read_to_end reader fuel s [])
        (read_to_end-Appended fuel s [] h)
