-- ===== src/Seek/Laws.antt =====
-- What `seek_position` (src/fs/io.rs) returns, against the exact integer position.
use async_rt.Prelude.{ℕ, ◌+◌, ◌<◌, ◌≡◌, ◌↔◌, arith, true}
use async_rt.Prelude.Int.{ℤ, pos, negsuc, ◌+ℤ◌, pos_part, neg_part}
use async_rt.Prelude.Io.{ok, err, ErrorKind}
use async_rt.Seek.{SeekFrom, start, end, current, u64_mod, try_from, seek_position, same_request}

-- The position `p` that a request means, by an equation between numbers: an offset is the difference
-- of its two parts.
abbrev pub Means : ℕ → ℕ → SeekFrom → ℕ → Type 0
Means now length (start n) p = p ≡ n
Means now length (end offset) p = p + neg_part offset ≡ length + pos_part offset
Means now length (current offset) p = p + neg_part offset ≡ now + pos_part offset

abbrev IsAbsolute : SeekFrom → Type 0
IsAbsolute (start n) = n < u64_mod
IsAbsolute (end offset) = Unit {0}
IsAbsolute (current offset) = Unit {0}

try_from_iff :
    (base : ℕ) (offset : ℤ) (p : ℕ)
    → (try_from (pos base +ℤ offset) ≡ ok p)
      ↔ ((p + neg_part offset ≡ base + pos_part offset) × (p < u64_mod))
unfolding try_from
try_from_iff base (pos n) p = (λ e. ground arith, λ h. ground arith)
try_from_iff base (negsuc n) p = (λ e. ground arith, λ h. ground arith)

-- For `u64` positions, `seek_position` succeeds with `p` exactly if `p` is the position that the
-- request means, computed without wrap-around, and fits a `u64`.
pub seek_position_iff :
    (now length : ℕ) (request : SeekFrom) (p : ℕ)
    → IsAbsolute request
    → (seek_position now length request ≡ ok p) ↔ (Means now length request p × (p < u64_mod))
unfolding seek_position
seek_position_iff now length (start n) p h = (λ e. ground arith, λ m. ground arith)
seek_position_iff now length (end offset) p h = try_from_iff length offset p
seek_position_iff now length (current offset) p h = try_from_iff now offset p

-- The only error is `InvalidInput`, and it is returned only if no position is meant.
pub seek_position_error :
    (now length : ℕ) (request : SeekFrom) (kind : ErrorKind)
    → seek_position now length request ≡ err kind
    → (kind ≡ ErrorKind.invalid_input) × ((p : ℕ) → p < u64_mod → ¬ Means now length request p)
unfolding seek_position try_from
seek_position_error now length (start n) kind e = cc
seek_position_error now length (end (pos n)) kind e = (ground arith, λ p h m. ground arith)
seek_position_error now length (end (negsuc n)) kind e = (ground arith, λ p h m. ground arith)
seek_position_error now length (current (pos n)) kind e = (ground arith, λ p h m. ground arith)
seek_position_error now length (current (negsuc n)) kind e = (ground arith, λ p h m. ground arith)

pub same_request_iff : (a b : SeekFrom) → (same_request a b ≡ true) ↔ (a ≡ b)
unfolding same_request
same_request_iff a b = ground arith
