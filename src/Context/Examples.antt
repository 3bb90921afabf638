-- ===== src/Context/Examples.antt =====
-- Nested contexts with a panic in the inner one.
use async_rt.Prelude.{none, [], ◌∷◌, ◌≡◌, refl}
use async_rt.Selection.{BuiltinExecutor}
use async_rt.Context.{Thread, Code, asks, within, polls, then, panics, run, current_or_default}
use async_rt.Context.Lexical.{after, run_lexical}

abbrev nested : Code BuiltinExecutor.tokio
nested = then asks (
    within BuiltinExecutor.smol
      (then (polls BuiltinExecutor.lite asks) (then asks (then panics asks))))

abbrev fresh : Thread
fresh = record { current = none; answers = [] }

nested-after : after BuiltinExecutor.tokio fresh nested ≡ record {
  value = none;
  thread = record {
    current = none;
    answers = BuiltinExecutor.tokio ∷ BuiltinExecutor.lite ∷ BuiltinExecutor.smol ∷ [];
  };
}
unfolding current_or_default
nested-after = refl

run_lexical_example :
    run BuiltinExecutor.tokio nested fresh ≡ after BuiltinExecutor.tokio fresh nested
run_lexical_example = run_lexical BuiltinExecutor.tokio nested fresh
