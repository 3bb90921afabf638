-- ===== src/Blocking/Reads.antt =====
-- `FileRead::read` of `BlockingFile` in src/fs/blocking.rs keeps the contract of a reader, and so
-- `read_exact` reads exactly through the blocking pool.
use async_rt.Prelude.{
  ℕ, zero, suc, ◌+◌, ◌≤◌, ◌<◌, true, List, [], ◌++◌, length, take, drop, replicate, ◌≡◌, refl, sym,
  ap, ◌∙◌, subst, ◌⊎◌, inl, inr, arith, length-append, length-take, length-drop, take_front,
}
use async_rt.Prelude.Io.{Result, ok, err, ErrorKind, is_interrupted}
use async_rt.JoinHandle.Runtimes.{JoinResult}
use async_rt.ReadWrite.{read_exact}
use async_rt.ReadWrite.Reading.{HonestReader, Exact, read_exact-Exact}
use async_rt.Blocking.{
  Native, BlockingFile, Filled, join_error, run, read_job, copied, read, blocking_reader,
  native_reader,
}
use async_rt.Blocking.Direct.{Pool}

length-replicate : (n : ℕ) → length (replicate {A = ℕ} n 0) ≡ n
length-replicate zero = refl
length-replicate (suc n) = omega (arith, length-replicate n)

module _ (native : Native) (pool : Pool native) (file : BlockingFile native)
    (honest : HonestReader (native_reader native file.inner)) where
  open native use {World}
  open honest use {remaining, patience}

  scratch : List ℕ → List ℕ
  scratch b = replicate (length b) 0

  -- The read of the standard library, copied into the caller's buffer.
  direct : World → List ℕ → Filled native
  direct w b =
      let r = native.file_read file.inner w (scratch b) in
      copied native b r.state (ok (r.result, r.buffer))

  unread : World → List ℕ → Filled native
  unread w b = record { result = err ErrorKind.other; buffer = b; state = w }

  read-cases :
      (w : World) (b : List ℕ)
      → (read native file w b ≡ direct w b) ⊎ (read native file w b ≡ unread w b)
  unfolding read run join_error direct unread copied read_job scratch
  read-cases w b = elim (pool.spawns (read_job native file (scratch b)) w) [
    | inl e ↦ inl (ap after e)
    | inr (e, q) ↦ inr (ap after q)
  ]
    where
      after : JoinResult (Result ℕ × List ℕ) × World → Filled native
      after r = copied native b r.1 (join_error native r.0)

  -- The contract, of what a read has answered.
  Answers : World → List ℕ → Result ℕ → Filled native → Type 0
  Answers w b (ok n) f =
      (n ≤ length b)
      × (remaining w ≡ take n f.buffer ++ remaining f.state)
      × (patience f.state ≤ patience w)
      × (n ≡ 0 → 0 < length b → remaining w ≡ [])
  Answers w b (err kind) f =
      (remaining f.state ≡ remaining w)
      × (is_interrupted kind ≡ true → patience f.state < patience w)

  Keeps : World → List ℕ → Filled native → Type 0
  Keeps w b f = (length f.buffer ≡ length b) × Answers w b f.result f

  unread-Keeps : (w : World) (b : List ℕ) → Keeps w b (unread w b)
  unfolding Keeps Answers unread
  unread-Keeps w b = (refl, (refl, λ e. cc))

  direct-Keeps : (w : World) (b : List ℕ) → Keeps w b (direct w b)
  unfolding Keeps Answers direct copied scratch
  direct-Keeps w b = go r.result refl
    where
      r : Filled native
      r =
          let x = native.file_read file.inner w (scratch b) in
          record { result = x.result; buffer = x.buffer; state = x.state }

      full : length r.buffer ≡ length b
      full = honest.keeps_length w (scratch b) ∙ length-replicate (length b)

      go : (x : Result ℕ) → r.result ≡ x → Keeps w b (copied native b r.state (ok (x, r.buffer)))
      go (ok n) e =
          let (fits, next, tired) = honest.reads w (scratch b) n e in
          let le : n ≤ length b = omega (arith, fits, length-replicate (length b)) in
          let front = take_front n r.buffer (drop n b) (omega (arith, le, full)) in
          (
            omega (
              arith,
              le,
              full,
              length-append (take n r.buffer) (drop n b),
              length-take n r.buffer,
              length-drop n b,
            ),
            (
              le,
              next ∙ ap (λ xs. xs ++ remaining r.state) (sym front),
              tired,
              λ z pos.
                  honest.ends w (scratch b) (subst (λ m. r.result ≡ ok m) z e)
                    (omega (arith, pos, length-replicate (length b))),
            ),
          )
      go (err kind) e =
          (refl, (honest.fails w (scratch b) kind e, λ i. honest.tires w (scratch b) kind e i))

  read-Keeps : (w : World) (b : List ℕ) → Keeps w b (read native file w b)
  read-Keeps w b = elim (read-cases w b) [
    | inl e ↦ subst (Keeps w b) (sym e) (direct-Keeps w b)
    | inr e ↦ subst (Keeps w b) (sym e) (unread-Keeps w b)
  ]

  answered :
      (w : World) (b : List ℕ) (x : Result ℕ)
      → (read native file w b).result ≡ x
      → Answers w b x (read native file w b)
  unfolding Keeps
  answered w b x e = subst (λ y. Answers w b y (read native file w b)) e (read-Keeps w b).1

  -- The reader of a blocking file keeps the contract.
  pub honest_blocking : HonestReader (blocking_reader native file)
  unfolding Keeps Answers
  honest_blocking = record {
    remaining = remaining;
    patience = patience;
    keeps_length = λ w b. (read-Keeps w b).0;
    reads = λ w b n e. (let (le, next, tired, last) = answered w b (ok n) e in (le, next, tired));
    ends = λ w b e pos. (let (le, next, tired, last) = answered w b (ok 0) e in last refl pos);
    fails = λ w b kind e. (answered w b (err kind) e).0;
    tires = λ w b kind e i. (answered w b (err kind) e).1 i;
  }

  -- `read_exact` on a `BlockingFile`, over a file of the standard library that keeps the contract of
  -- `Read`: with a round for each byte and each interruption it ends and does not panic; it fills the
  -- buffer with the next bytes of the file, or fails and has consumed fewer than asked for.
  pub read_exact-Blocking :
      (fuel : ℕ) (w : World) (buffer : List ℕ)
      → length buffer + patience w ≤ fuel
      → let r = read_exact (blocking_reader native file) fuel w buffer in
        Exact
          (blocking_reader native file)
          honest_blocking
          w
          (length buffer)
          r.outcome
          r.bytes
          r.state
  unfolding honest_blocking
  read_exact-Blocking fuel w buffer h =
      read_exact-Exact (blocking_reader native file) honest_blocking fuel w buffer h
