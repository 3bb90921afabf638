-- ===== src/ReadWrite/Writing.antt =====
-- `FileWrite::write_all` of src/fs/io.rs, over a writer that keeps the contract of `std::io::Write`.
use mathlib.Core.List.{append_assoc, append-nil}
use async_rt.Prelude.{
  ℕ, zero, suc, ◌+◌, ◌≤◌, ◌<◌, true, false, ltb, List, [], ◌∷◌, ◌++◌, length, take, drop, ◌≡◌, refl,
  sym, ap, ◌∙◌, ◌⊎◌, inl, inr, arith, Bool-cases, subst, length-drop, take-append-drop,
}
use async_rt.Prelude.Io.{Result, ok, err, ErrorKind, is_interrupted}
use async_rt.ReadWrite.{Writer, Outcome, finished, panicked, stuck, write_all}

-- The contract: `sink` is what has been written, and `patience` bounds the interruptions in a row. A
-- write that reports `n` has taken the first `n` bytes, and one that fails has taken none.
pub record HonestWriter (writer : Writer) : Type 0 where
  pub sink : writer.State → List ℕ
  pub patience : writer.State → ℕ
  pub writes :
      (s : writer.State) (b : List ℕ) (n : ℕ)
      → (writer.write s b).result ≡ ok n
      → (n ≤ length b)
        × (sink (writer.write s b).state ≡ sink s ++ take n b)
        × (patience (writer.write s b).state ≤ patience s)
  pub fails :
      (s : writer.State) (b : List ℕ) (kind : ErrorKind)
      → (writer.write s b).result ≡ err kind
      → sink (writer.write s b).state ≡ sink s
  pub tires :
      (s : writer.State) (b : List ℕ) (kind : ErrorKind)
      → (writer.write s b).result ≡ err kind
      → is_interrupted kind ≡ true
      → patience (writer.write s b).state < patience s

module _ (writer : Writer) (honest : HonestWriter writer) where
  open writer use {State, write}
  open honest use {sink, patience}

  -- The writer itself has taken nothing of a non-empty slice, or has reported this error.
  pub record Refused (kind : ErrorKind) : Type 0 where
    pub at : State
    pub from : List ℕ
    pub wanted : 0 < length from
    pub refused :
        ((kind ≡ ErrorKind.write_zero) × ((write at from).result ≡ ok 0))
        ⊎ (((write at from).result ≡ err kind) × (is_interrupted kind ≡ false))

  abbrev pub Written : State → List ℕ → Outcome (Unit {0}) → State → Type 0
  Written s b (finished (ok _)) s' = sink s' ≡ sink s ++ b
  Written s b (finished (err kind)) s' =
      (done left : List ℕ) × (b ≡ done ++ left)
      × (0 < length left)
      × (sink s' ≡ sink s ++ done)
      × Refused kind
  Written s b panicked s' = ⊥
  Written s b stuck s' = ⊥

  Written-extend :
      (s s' : State) (done b : List ℕ) (o : Outcome (Unit {0})) (t : State)
      → sink s' ≡ sink s ++ done
      → Written s' b o t
      → Written s (done ++ b) o t
  Written-extend s s' done b (finished (ok u)) t e h =
      h ∙ ap (λ xs. xs ++ b) e ∙ append_assoc (sink s) done b
  Written-extend s s' done b (finished (err kind)) t e (more, left, a, p, c, q) = (
    done ++ more,
    left,
    ap (◌++◌ done) a ∙ sym (append_assoc done more left),
    p,
    c ∙ ap (λ xs. xs ++ more) e ∙ append_assoc (sink s) done more,
    q,
  )
  Written-extend s s' done b panicked t e h = absurd h
  Written-extend s s' done b stuck t e h = absurd h

  -- With a round for each byte and each interruption, `write_all` ends, and never panics. On success
  -- the file has received exactly the buffer, in order and once. On an error it has received a proper
  -- prefix of the buffer, and the error is the writer's own, or `WriteZero` if the writer took nothing.
  pub write_all-Written :
      (fuel : ℕ) (s : State) (buffer : List ℕ)
      → length buffer + patience s ≤ fuel
      → let r = write_all writer fuel s buffer in Written s buffer r.outcome r.state
  unfolding write_all
  write_all-Written fuel s [] h = sym (append-nil (sink s))
  write_all-Written zero s (x ∷ xs) h = absurd (omega arith)
  write_all-Written (suc fuel) s (x ∷ xs) h = go (write s b).result refl (write_all-Written fuel)
    where
      b : List ℕ
      b = x ∷ xs

      s' : State
      s' = (write s b).state

      go :
          (q : Result ℕ)
          → (write s b).result ≡ q
          → ((t : State) (c : List ℕ)
              → length c + patience t ≤ fuel
              → let r = write_all writer fuel t c in Written t c r.outcome r.state)
          → let r = write_all writer (suc fuel) s b in Written s b r.outcome r.state
      go (ok zero) e ih =
          rw (e, write_all)
            (
              [],
              b,
              refl,
              omega arith,
              (honest.writes s b 0 e).1,
              record { at = s; from = b; wanted = omega arith; refused = inl (refl, e) },
            )
      go (ok (suc n)) e ih =
          let facts = honest.writes s b (suc n) e in
          let fits : ltb (length b) (suc n) ≡ false = ground (arith, facts.0) in
          let c = drop (suc n) b in
          let r = write_all writer fuel s' c in
          let rest = ih s' c (omega (arith, facts.0, facts.2, length-drop {0} (suc n) b)) in
          rw (e, write_all, fits)
            (subst (λ k. Written s k r.outcome r.state) (take-append-drop (suc n) b)
              (Written-extend s s' (take (suc n) b) c r.outcome r.state facts.1 rest))
      go (err kind) e ih =
          let kept = honest.fails s b kind e in
          elim (Bool-cases (is_interrupted kind)) [
            | inl i ↦
                let r = write_all writer fuel s' b in
                let rest = ih s' b (omega (arith, honest.tires s b kind e i)) in
                rw (e, write_all, i)
                  (Written-extend s s' [] b r.outcome r.state (kept ∙ sym (append-nil (sink s)))
                    rest)
            | inr i ↦
                rw (e, write_all, i)
                  (
                    [],
                    b,
                    refl,
                    omega arith,
                    kept ∙ sym (append-nil (sink s)),
                    record { at = s; from = b; wanted = omega arith; refused = inr (e, i) },
                  )
          ]
