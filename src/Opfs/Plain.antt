-- ===== src/Opfs/Plain.antt =====
-- A plain file, a list of bytes and a position: what the calls of `WasmFile` of src/fs/wasm.rs stand for.
use async_rt.Prelude.{ℕ, ◌+◌, ◌-◌, min, Bool, if◌then◌else◌, length, take, drop, List, [], ◌++◌}
use async_rt.Prelude.Io.{Result, ok, err}
use async_rt.Seek.{SeekFrom, seek_position}
use async_rt.Opfs.Contents.{stored_at}

pub record Plain : Type 0 where
  pub bytes : List ℕ
  pub position : ℕ

-- A call of a method, and its answer: a number, and the buffer of a read.
pub data FileCall : Type 0 where
  reads : List ℕ → FileCall
  writes : List ℕ → FileCall
  seeks : SeekFrom → FileCall

pub record Reply : Type 0 where
  pub number : ℕ
  pub buffer : List ℕ

pub record Done (F : Type 0) : Type 0 where
  pub reply : Reply
  pub file : F

-- A read at the position: as much as there is and fits.
unfoldable pub plain_read : Plain → List ℕ → Done Plain
plain_read f buffer =
    let count = min (length buffer) (length f.bytes - f.position) in
    record {
      reply = record {
        number = count;
        buffer = take count (drop f.position f.bytes) ++ drop count buffer;
      };
      file = record f { position = f.position + count };
    }

-- A write at the position, or at the end.
unfoldable pub plain_write : Bool → Plain → List ℕ → Done Plain
plain_write append f bytes =
    let position = if append then length f.bytes else f.position in
    record {
      reply = record { number = length bytes; buffer = [] };
      file = record {
        bytes = stored_at position bytes f.bytes;
        position = position + length bytes;
      };
    }

unfoldable pub plain_call : Bool → FileCall → Plain → Result (Done Plain)
plain_call append (reads buffer) f = ok (plain_read f buffer)
plain_call append (writes bytes) f = ok (plain_write append f bytes)
plain_call append (seeks request) f = elim (seek_position f.position (length f.bytes) request) [
  | ok n ↦
      ok (record { reply = record { number = n; buffer = [] }; file = record f { position = n } })
  | err k ↦ err k
]
