-- ===== src/FileIo/Cancelled.antt =====
-- src/fs/io.rs: what a seek makes of the bytes that a cancelled read has left over.
use async_rt.Prelude.{
  ℕ, suc, ◌≤◌, ◌<◌, ◌+◌, ◌-◌, none, some, List, [], length, ready, ◌≡◌, refl, ap, ◌∙◌, arith,
}
use async_rt.Prelude.Int.{pos}
use async_rt.Prelude.Io.{ok}
use async_rt.Seek.{SeekFrom, current, seek_position, u64_mod, same_request}
use async_rt.Seek.Laws.{seek_position_iff}
use async_rt.FileIo.Operation.{
  FileInner, compio, wasm, seeks, completed, FileIo, Backend, Machine, output_at, poll_operation,
}
use async_rt.FileIo.Internal.{after_seek, poll_internal_seek}
use async_rt.FileIo.Entry.{poll_seek, seek_inner, forget_buffered}
use async_rt.FileIo.Reads.{leftover}
use async_rt.FileIo.Rounds.{operation_or-none}

-- The position up to which callers have received the bytes of the file, its cursor being `cursor`.
abbrev pub logical_position : ℕ → FileIo → ℕ
logical_position cursor io = cursor - length (leftover io)

-- `stream_position`: `seek(SeekFrom::Current(0))`.
abbrev pub stay : SeekFrom
stay = current (pos 0)

module _ (backend : Backend) where
  stay_lem : (p end : ℕ) → p < u64_mod → seek_position p end stay ≡ ok p
  stay_lem p end h = (seek_position_iff p end stay p tt).1 (omega arith, h)

  -- A seek by 0 that finds no pending operation, and whose job is done at the first poll.
  seek_done :
      (fuel : ℕ) (m : Machine backend) (p : ℕ) (slice : List ℕ) (at : ℕ)
      → m.io.operation ≡ none
      → (backend.poll_job (record { file = m.inner; request = seeks stay }) m.world).poll
        ≡ ready (completed (ok p) slice at)
      → let r = poll_internal_seek backend (suc fuel) m stay in
        (r.result ≡ some (ready (ok p))) × (leftover r.machine.io ≡ leftover m.io)
  unfolding poll_internal_seek after_seek poll_operation output_at same_request
  seek_done fuel m p slice at e h =
      rw (operation_or-none backend (seeks stay) m e) (rw (h, poll_operation) (refl, refl))

  -- The cursor that a Compio or wasm file carries.
  abbrev pub HasCursor : FileInner → ℕ → Type 0
  HasCursor (compio q) p = q ≡ p
  HasCursor (wasm q) p = q ≡ p
  HasCursor _ p = ⊥

  seek_inner_cursor :
      (inner : FileInner) (m : Machine backend) (p : ℕ) (slice : List ℕ) (at : ℕ)
      → HasCursor inner p
      → m.io.operation ≡ none
      → (backend.poll_job (record { file = m.inner; request = seeks stay }) m.world).poll
        ≡ ready (completed (ok p) slice at)
      → let r = seek_inner backend inner stay m in
        (r.result ≡ some (ready (ok p))) × (leftover r.machine.io ≡ leftover m.io)
  unfolding seek_inner
  seek_inner_cursor (compio q) m p slice at c e h = seek_done 1 m p slice at e h
  seek_inner_cursor (wasm q) m p slice at c e h = seek_done 1 m p slice at e h
  seek_inner_cursor FileInner.tokio m p slice at c e h = absurd c
  seek_inner_cursor FileInner.smol m p slice at c e h = absurd c
  seek_inner_cursor FileInner.blocking m p slice at c e h = absurd c

  -- A Compio or wasm file whose cursor is `p`, with bytes left over by an earlier read, no pending
  -- operation, and a backend whose seek answers at once with what `seek_position` computes. Then
  -- asking `poll_seek` for the current position (`SeekFrom::Current(0)`) answers `p`, which is greater
  -- than the position up to which the callers have received the file, by exactly the number of bytes
  -- left over; and these bytes are dropped, so that no later read returns them.
  pub poll_seek_skips-leftover :
      (m : Machine backend) (p end : ℕ) (slice : List ℕ) (at : ℕ)
      → HasCursor m.inner p
      → p < u64_mod
      → m.io.operation ≡ none
      → 0 < length (leftover m.io)
      → length (leftover m.io) ≤ p
      → (backend.poll_job (record { file = m.inner; request = seeks stay }) m.world).poll
        ≡ ready (completed (seek_position p end stay) slice at)
      → let r = poll_seek backend m stay in
        (r.result ≡ some (ready (ok p)))
        × (leftover r.machine.io ≡ [])
        × (logical_position p m.io < p)
        × (logical_position p m.io + length (leftover m.io) ≡ p)
  unfolding poll_seek
  poll_seek_skips-leftover m p end slice at cursor fits idle left known job =
      let m' : Machine backend = record m { io = forget_buffered backend m.io } in
      let done =
        seek_inner_cursor m.inner m' p slice at cursor idle
          (job ∙ ap (λ q. ready (completed q slice at)) (stay_lem p end fits)) in
      (done.0, done.1, omega arith, omega arith)
