-- ===== src/Seek.antt =====
-- src/fs/io.rs, `seek_position`, with `std::io::SeekFrom`. A `u64` is a number below `u64_mod`, an
-- `i64` is an integer. The source adds in `i128`, which holds every such sum, so the sum is exact.
pub mod Laws
mod Examples
use async_rt.Prelude.{ℕ, ◌^◌, Bool, false, if◌then◌else◌, ltb, ◌==◌}
use async_rt.Prelude.Int.{ℤ, pos, negsuc, ◌+ℤ◌}
use async_rt.Prelude.Io.{Result, ok, err, ErrorKind}

pub data SeekFrom : Type 0 where
  start : ℕ → SeekFrom
  end : ℤ → SeekFrom
  current : ℤ → SeekFrom

-- The derived `PartialEq`.
abbrev pub same_offset : ℤ → ℤ → Bool
same_offset (pos a) (pos b) = a == b
same_offset (negsuc a) (negsuc b) = a == b
same_offset _ _ = false

unfoldable pub same_request : SeekFrom → SeekFrom → Bool
same_request (SeekFrom.start a) (SeekFrom.start b) = a == b
same_request (SeekFrom.end a) (SeekFrom.end b) = same_offset a b
same_request (SeekFrom.current a) (SeekFrom.current b) = same_offset a b
same_request _ _ = false

abbrev pub u64_mod : ℕ
u64_mod = 2 ^ 64

-- `u64::try_from` on the exact sum.
try_from : ℤ → Result ℕ
try_from (pos n) = if ltb n u64_mod then ok n else err ErrorKind.invalid_input
try_from (negsuc n) = err ErrorKind.invalid_input

unfoldable pub seek_position : ℕ → ℕ → SeekFrom → Result ℕ
unfolding try_from
seek_position now length (SeekFrom.start n) = ok n
seek_position now length (SeekFrom.end offset) = try_from (pos length +ℤ offset)
seek_position now length (SeekFrom.current offset) = try_from (pos now +ℤ offset)
