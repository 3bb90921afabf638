-- ===== src/Blocking/Direct.antt =====
-- src/fs/blocking.rs: a call of the standard library on the blocking pool.
use async_rt.Prelude.{◌≡◌, ap, ◌⊎◌, inl, inr}
use async_rt.Prelude.Io.{Result, err, ErrorKind}
use async_rt.Prelude.Effect.{Answer, answer, proceed}
use async_rt.JoinHandle.Runtimes.{JoinError, JoinResult, joined, failed}
use async_rt.Blocking.{Native, Io, join_error, run, run_io}

-- A job that does not panic is run once and joined, or its handle fails and it is never run.
pub record Pool (native : Native) : Type 1 where
  pub spawns :
      {A : Type 0} (job : native.World → A × native.World) (w : native.World)
      → (native.spawn_blocking job w ≡ (joined (job w).0, (job w).1))
        ⊎ ((e : JoinError) × (native.spawn_blocking job w ≡ (failed e, w)))

module _ (native : Native) (pool : Pool native) where
  open native use {World}

  -- A method that is the call itself, or an error of kind `Other` that has done nothing.
  abbrev pub Direct : {A : Type 0} → Io native A → Io native A → World → Type 0
  Direct method call w = (method w ≡ call w) ⊎ (method w ≡ answer (err ErrorKind.other) w)

  pub run_io-Direct :
      {A : Type 0} (call : Io native A) (w : World) → Direct (run_io native call) call w
  unfolding run_io run join_error
  run_io-Direct {A} call w = elim (pool.spawns job w) [
    | inl e ↦ inl (ap after e)
    | inr (e, q) ↦ inr (ap after q)
  ]
    where
      job : World → Result A × World
      job u = ((call u).result, (call u).state)

      after : JoinResult (Result A) × World → Answer World A
      after r = proceed (λ result. answer result) (join_error native r.0) r.1
