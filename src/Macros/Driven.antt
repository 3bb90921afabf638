-- ===== src/Macros/Driven.antt =====
-- `expand_inner` of async-rt-macros/src/lib.rs: what drives the function.
use Prim.Native.String.{String}
use async_rt.Prelude.{
  inl, inr, Bool, true, false, if◌then◌else◌, Option, none, some, inl, inr, List, ◌≡◌, refl, sym,
  ap, ◌∙◌, ◌≢◌, arith, Option-cases,
}
use async_rt.Macros.{
  Syntax, Meta, Executor, Error, Parsed, accepted, rejected, Arguments, Drive, custom, built_in,
  default_or_error, parse, resolve, drive_of, expand_inner, ◌>>=◌,
}

module _ (syntax : Syntax) (default : Option Executor) where
  resolve-named :
      (e : Executor)
      → default ≢ some Executor.global
      → resolve syntax default e ≢ accepted Executor.global
  unfolding resolve default_or_error
  resolve-named Executor.global d h = elim (Option-cases default) [
    | inl n ↦ ground arith
    | inr (x, n) ↦ d (n ∙ ap some (named x n h))
  ]
    where
      given :
          (x : Executor) → default ≡ some x → resolve syntax default Executor.global ≡ accepted x
      given x n = rw (n, default_or_error) refl

      named :
          (x : Executor)
          → default ≡ some x
          → resolve syntax default Executor.global ≡ accepted Executor.global
          → x ≡ Executor.global
      named x n e = same (sym (given x n) ∙ e)
        where
          same : Parsed.accepted x ≡ accepted Executor.global → x ≡ Executor.global
          same q = cc
  resolve-named Executor.tokio d h = cc
  resolve-named Executor.smol d h = cc
  resolve-named Executor.compio d h = cc
  resolve-named Executor.thread_pool d h = cc
  resolve-named Executor.lite d h = cc

  drive_of-named :
      (a : Arguments syntax)
      → default ≢ some Executor.global
      → drive_of syntax default a ≢ accepted (built_in Executor.global)
  unfolding drive_of
  drive_of-named a d h =
      go a.driver (same a.driver refl ∙ h) (resolve syntax default a.executor) refl
    where
      driven : Option syntax.Expr → Parsed (Drive syntax)
      driven (some driver) = accepted (custom driver)
      driven none = resolve syntax default a.executor >>= λ executor. accepted (built_in executor)

      same : (o : Option syntax.Expr) → a.driver ≡ o → driven o ≡ drive_of syntax default a
      same (some driver) e = rw e refl
      same none e = rw e refl

      go :
          (o : Option syntax.Expr)
          → driven o ≡ accepted (built_in Executor.global)
          → (q : Parsed Executor) → resolve syntax default a.executor ≡ q
          → ⊥
      go (some driver) e q r = cc
      go none e (accepted x) r = resolve-named a.executor d (r ∙ ap accepted (built e r))
        where
          built :
              driven none ≡ accepted (built_in Executor.global)
              → resolve syntax default a.executor ≡ accepted x
              → x ≡ Executor.global
          built f g = ground arith
      go none e (rejected k) r = ground arith

  -- The arm of `Executor::drive` that is marked unreachable is never reached: unless the entry point
  -- itself passes `Executor::Global` as its default, no arguments, item and crate make `expand_inner`
  -- drive the function with the unresolved global executor.
  pub expand_inner-NotGlobal :
      (ms : List (Meta syntax)) (item : Parsed Bool) (runtime_crate : Parsed String)
      → default ≢ some Executor.global
      → expand_inner syntax ms item runtime_crate default ≢ accepted (built_in Executor.global)
  unfolding expand_inner
  expand_inner-NotGlobal ms item runtime_crate d h = go (parse syntax ms) item runtime_crate h
    where
      go :
          (p : Parsed (Arguments syntax)) (i : Parsed Bool) (c : Parsed String)
          → (p >>= λ result. i >>= λ is_async.
              if is_async
              then (c >>= λ name. drive_of syntax default result)
              else rejected Error.async_required)
            ≡ accepted (built_in Executor.global)
          → ⊥
      go (accepted a) (accepted true) (accepted n) e = drive_of-named a d e
      go (accepted a) (accepted true) (rejected k) e = cc
      go (accepted a) (accepted false) c e = cc
      go (accepted a) (rejected k) c e = cc
      go (rejected k) i c e = cc
