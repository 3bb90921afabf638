-- ===== src/Context.antt =====
-- src/task.rs: the executor of the current task. `CURRENT_EXECUTOR` is the thread-local cell, which
-- `with_executor` sets while it runs a closure; its guard gives the old value back when the closure
-- returns and when it unwinds. A closure is a function on what the thread can see, `Thread`.
pub mod Lexical
mod Examples
use async_rt.Prelude.{Option, none, some, List, [], ◌∷◌, ◌++◌}
use async_rt.Selection.{BuiltinExecutor}

-- The cell, and the answers of `executor` so far.
pub record Thread : Type 0 where
  pub current : Option BuiltinExecutor
  pub answers : List BuiltinExecutor

-- How a closure ends: `none` is a panic.
pub record Ended (A : Type 0) : Type 0 where
  pub value : Option A
  pub thread : Thread

-- `ExecutorContextGuard`.
pub record ExecutorContextGuard : Type 0 where
  pub previous : Option BuiltinExecutor

-- `CURRENT_EXECUTOR.replace(Some(executor))`, with the guard.
pub enter_executor :
    BuiltinExecutor → Thread → record { guard : ExecutorContextGuard; thread : Thread }
enter_executor executor t = record {
  guard = record { previous = t.current };
  thread = record t { current = some executor };
}

-- `ExecutorContextGuard::drop`.
pub drop_guard : ExecutorContextGuard → Thread → Thread
drop_guard guard t = record t { current = guard.previous }

pub with_executor : {A : Type 0} → BuiltinExecutor → (Thread → Ended A) → Thread → Ended A
with_executor executor f t =
    let entered = enter_executor executor t in
    let r = f entered.thread in
    record { value = r.value; thread = drop_guard entered.guard r.thread }

-- `WithExecutor`, with its pinned future.
pub record WithExecutor (Future : Type 0) : Type 0 where
  pub executor : BuiltinExecutor
  pub future : Option Future

pub wrap : {Future : Type 0} → BuiltinExecutor → Future → WithExecutor Future
wrap executor future = record { executor = executor; future = some future }

-- `WithExecutor::poll`: `unwrap` panics without a future. The poll of the future is a parameter.
pub poll_within :
    {Future A : Type 0}
    → (Future → Thread → Ended (A × Future))
    → WithExecutor Future
    → Thread
    → Ended (A × WithExecutor Future)
poll_within {Future} {A} poll w = with_executor w.executor (λ t. elim w.future [
  | none ↦ record { value = none; thread = t }
  | some future ↦
      let r = poll future t in
      record {
        value = elim r.value [
          | none ↦ none
          | some (a, rest) ↦ some (a, record w { future = some rest })
        ];
        thread = r.thread;
      }
])

module _ (default : BuiltinExecutor) where
  -- `current.get().unwrap_or_default()`.
  pub current_or_default : Option BuiltinExecutor → BuiltinExecutor
  current_or_default none = default
  current_or_default (some executor) = executor

  -- `executor`.
  pub executor : Thread → Ended BuiltinExecutor
  executor t =
      let answer = current_or_default t.current in
      record { value = some answer; thread = record t { answers = t.answers ++ (answer ∷ []) } }

  -- Code that uses these functions: it asks for the executor, runs a closure in another context,
  -- polls a wrapped future once, does one thing after another, or panics.
  pub data Code : Type 0 where
    asks : Code
    within : BuiltinExecutor → Code → Code
    polls : BuiltinExecutor → Code → Code
    then : Code → Code → Code
    panics : Code

  -- After a panic the rest is skipped.
  pub continue : (Thread → Ended (Unit {0})) → Ended (Unit {0}) → Ended (Unit {0})
  continue rest r = elim r.value [
    | none ↦ record { value = none; thread = r.thread }
    | some u ↦ rest r.thread
  ]

  pub forget : {A : Type 0} → Ended A → Ended (Unit {0})
  forget r = record { value = elim r.value [ none ↦ none | some a ↦ some tt ]; thread = r.thread }

  pub run : Code → Thread → Ended (Unit {0})
  run asks t = forget (executor t)
  run (within e c) t = with_executor e (run c) t
  run (polls e c) t = forget (
      poll_within
        (λ f s.
          let r = run c s in
          record { value = elim r.value [ none ↦ none | some u ↦ some (u, f) ]; thread = r.thread })
        (wrap e (tt {0})) t)
  run (then c d) t = continue (run d) (run c t)
  run panics t = record { value = none; thread = t }
