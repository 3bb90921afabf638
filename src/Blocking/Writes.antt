-- ===== src/Blocking/Writes.antt =====
-- `FileWrite::write` of `BlockingFile` in src/fs/blocking.rs keeps the contract of a writer, and so
-- `write_all` writes exactly through the blocking pool.
use async_rt.Prelude.{
  ℕ, ◌+◌, ◌≤◌, ◌<◌, true, List, ◌++◌, length, take, ◌≡◌, refl, sym, subst, inl, inr,
}
use async_rt.Prelude.Io.{Result, ok, err, is_interrupted}
use async_rt.Prelude.Effect.{Answer}
use async_rt.ReadWrite.{write_all}
use async_rt.ReadWrite.Writing.{HonestWriter, Written, write_all-Written}
use async_rt.Blocking.{Native, BlockingFile, write, blocking_writer, native_writer}
use async_rt.Blocking.Direct.{Pool, Direct, run_io-Direct}

module _ (native : Native) (pool : Pool native) (file : BlockingFile native)
    (honest : HonestWriter (native_writer native file.inner)) where
  open native use {World}
  open honest use {sink, patience}

  -- The contract, of what a write has answered.
  Answers : World → List ℕ → Result ℕ → World → Type 0
  Answers w b (ok n) u = (n ≤ length b) × (sink u ≡ sink w ++ take n b) × (patience u ≤ patience w)
  Answers w b (err kind) u =
      (sink u ≡ sink w) × (is_interrupted kind ≡ true → patience u < patience w)

  direct-Answers :
      (w : World) (b : List ℕ) (x : Result ℕ)
      → (native.file_write file.inner b w).result ≡ x
      → Answers w b x (native.file_write file.inner b w).state
  unfolding Answers
  direct-Answers w b (ok n) e = honest.writes w b n e
  direct-Answers w b (err kind) e = (honest.fails w b kind e, λ i. honest.tires w b kind e i)

  write-Direct :
      (w : World) (b : List ℕ)
      → Direct native pool (write native file b) (native.file_write file.inner b) w
  unfolding write
  write-Direct w b = run_io-Direct native pool (native.file_write file.inner b) w

  write-Answers :
      (w : World) (b : List ℕ)
      → Answers w b (write native file b w).result (write native file b w).state
  unfolding Answers
  write-Answers w b =
      let holds : Answer World ℕ → Type 0 = λ a. Answers w b a.result a.state in
      elim (write-Direct w b) [
        | inl e ↦
            subst holds (sym e) (direct-Answers w b (native.file_write file.inner b w).result refl)
        | inr e ↦ subst holds (sym e) (refl, λ i. cc)
      ]

  answered :
      (w : World) (b : List ℕ) (x : Result ℕ)
      → (write native file b w).result ≡ x
      → Answers w b x (write native file b w).state
  answered w b x e = subst (λ y. Answers w b y (write native file b w).state) e (write-Answers w b)

  -- The writer of a blocking file keeps the contract.
  pub honest_writes : HonestWriter (blocking_writer native file)
  unfolding Answers
  honest_writes = record {
    sink = sink;
    patience = patience;
    writes = λ w b n e. answered w b (ok n) e;
    fails = λ w b kind e. (answered w b (err kind) e).0;
    tires = λ w b kind e i. (answered w b (err kind) e).1 i;
  }

  -- `write_all` on a `BlockingFile`, over a pool that joins a job or does not run it, and a file of the
  -- standard library that keeps the contract of `Write`: with a round for each byte and each interruption
  -- it ends and does not panic; the file has received exactly the bytes, or, on an error, a proper prefix
  -- of them, and the error is that of a write of the `BlockingFile`, or `WriteZero` if it took nothing.
  pub write_all-Blocking :
      (fuel : ℕ) (w : World) (bytes : List ℕ)
      → length bytes + patience w ≤ fuel
      → let r = write_all (blocking_writer native file) fuel w bytes in
        Written (blocking_writer native file) honest_writes w bytes r.outcome r.state
  unfolding honest_writes
  write_all-Blocking fuel w bytes h =
      write_all-Written (blocking_writer native file) honest_writes fuel w bytes h
