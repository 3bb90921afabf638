-- ===== src/Seek/Examples.antt =====
-- `seek_position` at concrete requests, and its theorems there.
use async_rt.Prelude.{ℕ, ◌<◌, ◌≡◌, refl, ◌↔◌}
use async_rt.Prelude.Int.{negsuc}
use async_rt.Prelude.Io.{ok, err, ErrorKind}
use async_rt.Seek.{SeekFrom, u64_mod, seek_position}
use async_rt.Seek.Laws.{Means, seek_position_iff, seek_position_error}

seek_position_test : seek_position 7 10 (SeekFrom.end (negsuc 2)) ≡ ok 7
unfolding seek_position
seek_position_test = refl

seek_position_iff_example :
    (seek_position 7 10 (SeekFrom.current (negsuc 2)) ≡ ok 4)
    ↔ (Means 7 10 (SeekFrom.current (negsuc 2)) 4 × (4 < u64_mod))
seek_position_iff_example = seek_position_iff 7 10 (SeekFrom.current (negsuc 2)) 4 tt

before_the_start : seek_position 7 10 (SeekFrom.current (negsuc 8)) ≡ err ErrorKind.invalid_input
unfolding seek_position
before_the_start = refl

seek_position_error_example :
    (ErrorKind.invalid_input ≡ ErrorKind.invalid_input)
    × ((p : ℕ) → p < u64_mod → ¬ Means 7 10 (SeekFrom.current (negsuc 8)) p)
seek_position_error_example =
    seek_position_error 7 10 (SeekFrom.current (negsuc 8)) ErrorKind.invalid_input before_the_start
