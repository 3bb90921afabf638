-- ===== src/Opfs/RoundTrip.antt =====
-- `WasmFile` of src/fs/wasm.rs: what a write stores, a read gives back.
use async_rt.Prelude.{
  ℕ, zero, suc, ◌+◌, ◌-◌, ◌≤◌, min, Bool, false, length, take, drop, replicate, List, [], ◌∷◌, ◌++◌,
  ◌≡◌, refl, ap, ◌∙◌, arith, length-append, length-take, drop_all,
}
use async_rt.Prelude.Io.{ok}
use async_rt.Seek.{SeekFrom, seek_position}
use async_rt.Opfs.Web.{Web}
use async_rt.Opfs.Session.{Session}
use async_rt.Opfs.Files.{WasmFile}
use async_rt.Opfs.Contents.{Stored, put, stored_at}
use async_rt.Opfs.Plain.{FileCall, reads, writes, seeks, Reply, plain_read, plain_write, plain_call}
use async_rt.Opfs.Sequence.{Ran, plain_run, after_call, file_run, open_at, file_run-Refines}

impossible : {n : ℕ} → suc n ≡ 0 → ⊥
impossible h = omega (arith, h)

too_short : {n : ℕ} → 0 ≡ suc n → ⊥
too_short h = omega (arith, h)

drop_prefix : {A : Type 0} (n : ℕ) (xs ys : List A) → length xs ≡ n → drop n (xs ++ ys) ≡ ys
drop_prefix zero [] ys h = refl
drop_prefix zero (x ∷ xs) ys h = elim (impossible h) [ ]
drop_prefix (suc n) [] ys h = elim (too_short h) [ ]
drop_prefix (suc n) (x ∷ xs) ys h = drop_prefix n xs ys (omega (arith, h))

take_prefix : {A : Type 0} (n : ℕ) (xs ys : List A) → length xs ≡ n → take n (xs ++ ys) ≡ xs
take_prefix zero [] ys h = refl
take_prefix zero (x ∷ xs) ys h = elim (impossible h) [ ]
take_prefix (suc n) [] ys h = elim (too_short h) [ ]
take_prefix (suc n) (x ∷ xs) ys h = ap (◌∷◌ x) (take_prefix n xs ys (omega (arith, h)))

append_assoc : {A : Type 0} (xs ys zs : List A) → xs ++ (ys ++ zs) ≡ (xs ++ ys) ++ zs
append_assoc [] ys zs = refl
append_assoc (x ∷ xs) ys zs = ap (◌∷◌ x) (append_assoc xs ys zs)

length-replicate : (n : ℕ) → length (replicate {A = ℕ} n 0) ≡ n
length-replicate zero = refl
length-replicate (suc n) = omega (arith, length-replicate n)

-- What lies before the bytes that a write puts at a position.
before : ℕ → List ℕ → List ℕ
before p old = take p old ++ replicate (p - length old) 0

length-before : (p : ℕ) (old : List ℕ) → length (before p old) ≡ p
unfolding before
length-before p old = omega (
  arith,
  length-append (take p old) (replicate (p - length old) 0),
  length-take p old,
  length-replicate (p - length old),
)

drop-put :
    (p : ℕ) (bytes old : List ℕ) → drop p (put p bytes old) ≡ bytes ++ drop (p + length bytes) old
unfolding put before
drop-put p bytes old =
    ap (drop p) (
      append_assoc (take p old) (replicate (p - length old) 0)
        (bytes ++ drop (p + length bytes) old))
    ∙ drop_prefix p (before p old) (bytes ++ drop (p + length bytes) old) (length-before p old)

length-put : (p : ℕ) (bytes old : List ℕ) → p + length bytes ≤ length (put p bytes old)
unfolding put before
length-put p bytes old =
    let rest = drop (p + length bytes) old in
    omega (
      arith,
      ap length (append_assoc (take p old) (replicate (p - length old) 0) (bytes ++ rest)),
      length-append (before p old) (bytes ++ rest),
      length-before p old,
      length-append bytes rest,
    )

append_nil : {A : Type 0} (xs : List A) → xs ++ [] ≡ xs
append_nil [] = refl
append_nil (x ∷ xs) = ap (◌∷◌ x) (append_nil xs)

-- The answer of a read of `count` bytes of `left` into a buffer.
reply_of : List ℕ → List ℕ → ℕ → Reply
reply_of left buffer count = record {
  number = count;
  buffer = take count left ++ drop count buffer;
}

reply_of-prefix :
    (bytes rest buffer : List ℕ)
    → length buffer ≡ length bytes
    → reply_of (bytes ++ rest) buffer (length bytes)
      ≡ record { number = length bytes; buffer = bytes }
unfolding reply_of
reply_of-prefix bytes rest buffer h =
    ap (λ xs. record { number = length bytes; buffer = xs })
      (ap (λ xs. xs ++ drop (length bytes) buffer) (take_prefix (length bytes) bytes rest refl)
        ∙ (ap (◌++◌ bytes) (drop_all (length bytes) buffer (omega (arith, h))) ∙ append_nil bytes))

-- A read of the plain file where the bytes have just been put.
read-stored_at :
    (p : ℕ) (bytes old buffer : List ℕ)
    → length buffer ≡ length bytes
    → (plain_read (record { bytes = stored_at p bytes old; position = p }) buffer).reply
      ≡ record { number = length bytes; buffer = bytes }
unfolding plain_read reply_of
read-stored_at p [] old buffer h =
    ap (reply_of (drop p old) buffer) (omega (arith, h)) ∙ reply_of-prefix [] (drop p old) buffer h
read-stored_at p (b ∷ bytes) old buffer h =
    let all : List ℕ = b ∷ bytes in
    let rest = drop (p + length all) old in
    ap (λ xs. reply_of xs buffer (min (length buffer) (length (put p all old) - p)))
      (drop-put p all old)
    ∙ (ap (reply_of (all ++ rest) buffer) (omega (arith, h, length-put p all old))
        ∙ reply_of-prefix all rest buffer h)

module _ (web : Web) (handle : web.FileHandle) (stored : Stored web handle)
    (readable writable : Bool) where
  -- A write at the position, a seek back, and a read into a buffer of the length of what was written.
  abbrev written_back : ℕ → List ℕ → List ℕ → List FileCall
  written_back p bytes buffer = writes bytes ∷ seeks (SeekFrom.start p) ∷ reads buffer ∷ []

  -- Bytes that a file which does not append takes at its position are what it reads after a seek back
  -- to that position, if the three calls succeed and the buffer has their length.
  pub write-read :
      (p : ℕ) (bytes buffer : List ℕ) (s : Session web) (r : Ran (WasmFile web))
      → length buffer ≡ length bytes
      → (file_run web
          (written_back p bytes buffer)
          (open_at web handle stored readable writable false p)
          s).result
        ≡ ok r
      → r.replies
        ≡ record { number = length bytes; buffer = [] }
          ∷ record { number = p; buffer = [] }
          ∷ record { number = length bytes; buffer = bytes }
          ∷ []
  unfolding plain_run after_call plain_call plain_write seek_position
  write-read p bytes buffer s r h ran =
      let (replies, file, bytes_left) =
        file_run-Refines web handle stored readable writable false (written_back p bytes buffer) p s
          r ran in
      replies
      ∙ ap
          (λ x.
            record { number = length bytes; buffer = [] }
            ∷ record { number = p; buffer = [] }
            ∷ x
            ∷ [])
          (read-stored_at p bytes (stored.contents s.disk) buffer h)
