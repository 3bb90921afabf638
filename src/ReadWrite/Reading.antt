-- ===== src/ReadWrite/Reading.antt =====
-- `FileRead::read_exact` of src/fs/io.rs, over a reader that keeps the contract of `std::io::Read`.
use mathlib.Core.List.{append_assoc}
use async_rt.Prelude.{
  ℕ, zero, suc, ◌+◌, ◌≤◌, ◌<◌, true, false, ltb, List, [], ◌∷◌, ◌++◌, length, take, drop, ◌≡◌, refl,
  sym, ◌∙◌, subst, ◌⊎◌, inl, inr, arith, Bool-cases, length-append, length-take, length-drop,
}
use async_rt.Prelude.Io.{Result, ok, err, ErrorKind, is_interrupted}
use async_rt.ReadWrite.{Reader, Outcome, finished, panicked, stuck, read_exact}

-- The contract: `remaining` is what is still to be read, and `patience` bounds the interruptions in a
-- row. A read gives the next bytes, and none only at the end.
pub record HonestReader (reader : Reader) : Type 0 where
  pub remaining : reader.State → List ℕ
  pub patience : reader.State → ℕ
  pub keeps_length : (s : reader.State) (b : List ℕ) → length (reader.read s b).buffer ≡ length b
  pub reads :
      (s : reader.State) (b : List ℕ) (n : ℕ)
      → (reader.read s b).result ≡ ok n
      → (n ≤ length b)
        × (remaining s ≡ take n (reader.read s b).buffer ++ remaining (reader.read s b).state)
        × (patience (reader.read s b).state ≤ patience s)
  pub ends :
      (s : reader.State) (b : List ℕ)
      → (reader.read s b).result ≡ ok 0
      → 0 < length b
      → remaining s ≡ []
  pub fails :
      (s : reader.State) (b : List ℕ) (kind : ErrorKind)
      → (reader.read s b).result ≡ err kind
      → remaining (reader.read s b).state ≡ remaining s
  pub tires :
      (s : reader.State) (b : List ℕ) (kind : ErrorKind)
      → (reader.read s b).result ≡ err kind
      → is_interrupted kind ≡ true
      → patience (reader.read s b).state < patience s

module _ (reader : Reader) (honest : HonestReader reader) where
  open reader use {State, read}
  open honest use {remaining, patience}

  -- The reader itself has reported this error, and it is no interruption.
  pub record Reported (kind : ErrorKind) : Type 0 where
    pub at : State
    pub into : List ℕ
    pub reported : (read at into).result ≡ err kind
    pub final : is_interrupted kind ≡ false

  -- What `read_exact` promises for `n` bytes from `s`.
  abbrev pub Exact : State → ℕ → Outcome (Unit {0}) → List ℕ → State → Type 0
  Exact s n (finished (ok _)) bytes s' = (length bytes ≡ n) × (remaining s ≡ bytes ++ remaining s')
  Exact s n (finished (err kind)) bytes s' =
      ((kind ≡ ErrorKind.unexpected_eof) × (length (remaining s) < n) × (remaining s' ≡ []))
      ⊎ ((got : List ℕ) × (remaining s ≡ got ++ remaining s') × (length got < n) × Reported kind)
  Exact s n panicked bytes s' = ⊥
  Exact s n stuck bytes s' = ⊥

  -- Bytes read before carry over.
  Exact-extend :
      (s s' : State) (head : List ℕ) (n : ℕ) (o : Outcome (Unit {0})) (bytes : List ℕ) (t : State)
      → remaining s ≡ head ++ remaining s'
      → Exact s' n o bytes t
      → Exact s (length head + n) o (head ++ bytes) t
  Exact-extend s s' head n (finished (ok u)) bytes t e (l, r) = (
    omega (arith, length-append head bytes),
    rw (e, r) (sym (append_assoc head bytes (remaining t))),
  )
  Exact-extend s s' head n (finished (err kind)) bytes t e (inl (k, short, none_left)) =
      inl (k, rw e (omega (arith, length-append head (remaining s'))), none_left)
  Exact-extend s s' head n (finished (err kind)) bytes t e (inr (got, r, l, q)) = inr (
    head ++ got,
    rw (e, r) (sym (append_assoc head got (remaining t))),
    omega (arith, length-append head got),
    q,
  )
  Exact-extend s s' head n panicked bytes t e h = absurd h
  Exact-extend s s' head n stuck bytes t e h = absurd h

  Exact-moved :
      (s s' : State) (n : ℕ) (o : Outcome (Unit {0})) (bytes : List ℕ) (t : State)
      → remaining s' ≡ remaining s
      → Exact s' n o bytes t
      → Exact s n o bytes t
  Exact-moved s s' n (finished (ok u)) bytes t e h = rw (← e) h
  Exact-moved s s' n (finished (err kind)) bytes t e h = rw (← e) h
  Exact-moved s s' n panicked bytes t e h = absurd h
  Exact-moved s s' n stuck bytes t e h = absurd h

  -- With a round for each byte and each interruption, `read_exact` ends, and never panics. If it
  -- succeeds the buffer is full and holds exactly the next bytes of the file. If it fails with
  -- `UnexpectedEof` fewer bytes were left than asked for; any other error is the reader's own, and
  -- fewer bytes than asked for have been consumed.
  pub read_exact-Exact :
      (fuel : ℕ) (s : State) (buffer : List ℕ)
      → length buffer + patience s ≤ fuel
      → let r = read_exact reader fuel s buffer in Exact s (length buffer) r.outcome r.bytes r.state
  unfolding read_exact
  read_exact-Exact fuel s [] h = (refl, refl)
  read_exact-Exact zero s (x ∷ xs) h = absurd (omega arith)
  read_exact-Exact (suc fuel) s (x ∷ xs) h = go (read s b).result refl (read_exact-Exact fuel)
    where
      b : List ℕ
      b = x ∷ xs

      s' : State
      s' = (read s b).state

      buffer : List ℕ
      buffer = (read s b).buffer

      go :
          (q : Result ℕ)
          → (read s b).result ≡ q
          → ((t : State) (c : List ℕ)
              → length c + patience t ≤ fuel
              → let r = read_exact reader fuel t c in Exact t (length c) r.outcome r.bytes r.state)
          → let r = read_exact reader (suc fuel) s b in Exact s (length b) r.outcome r.bytes r.state
      go (ok zero) e ih =
          let empty = honest.ends s b e (omega arith) in
          rw (e, read_exact)
            (inl (refl, rw empty (omega arith), sym (honest.reads s b 0 e).1 ∙ empty))
      go (ok (suc n)) e ih =
          let facts = honest.reads s b (suc n) e in
          let same = honest.keeps_length s b in
          let fits : ltb (length buffer) (suc n) ≡ false = ground (arith, facts.0, same) in
          let c = drop (suc n) buffer in
          let r = read_exact reader fuel s' c in
          let rest =
            ih s' c (omega (arith, facts.0, facts.2, same, length-drop {0} (suc n) buffer)) in
          let size : length (take (suc n) buffer) + length c ≡ length b = omega (
            arith,
            facts.0,
            same,
            length-drop {0} (suc n) buffer,
            length-take {0} (suc n) buffer,
          ) in
          rw (e, read_exact, fits)
            (subst (λ k. Exact s k r.outcome (take (suc n) buffer ++ r.bytes) r.state) size
              (Exact-extend s s' (take (suc n) buffer) (length c) r.outcome r.bytes r.state facts.1
                rest))
      go (err kind) e ih = elim (Bool-cases (is_interrupted kind)) [
        | inl i ↦
            let r = read_exact reader fuel s' buffer in
            let same = honest.keeps_length s b in
            let rest = ih s' buffer (omega (arith, honest.tires s b kind e i, same)) in
            rw (e, read_exact, i)
              (Exact-moved s s' (length b) r.outcome r.bytes r.state (honest.fails s b kind e)
                (subst (λ k. Exact s' k r.outcome r.bytes r.state) same rest))
        | inr i ↦
            rw (e, read_exact, i)
              (inr (
                [],
                sym (honest.fails s b kind e),
                omega arith,
                record { at = s; into = b; reported = e; final = i },
              ))
      ]
