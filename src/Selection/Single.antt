-- ===== src/Selection/Single.antt =====
-- The features select one executor: the `cfg` conditions of src/global/executor.rs and src/lib.rs.
use async_rt.Prelude.{true, if◌then◌else◌, [], ◌∷◌, ◌≡◌, arith}
use async_rt.Selection.{
  Features, BuiltinExecutor, EntryPoint, cfg, is_variant, default_executor, default_builtin,
  entry_points,
}

-- The order of preference that the documentation of `DefaultExecutor` gives.
abbrev pub selected : Features → BuiltinExecutor
selected f =
    if f.wasm32
    then BuiltinExecutor.wasm
    else if f.tokio
    then BuiltinExecutor.tokio
    else if f.smol
    then BuiltinExecutor.smol
    else if f.compio
    then BuiltinExecutor.compio
    else if f.threadpool
    then BuiltinExecutor.thread_pool
    else if f.lite
    then BuiltinExecutor.lite
    else BuiltinExecutor.dummy

abbrev pub entry_of : BuiltinExecutor → EntryPoint
entry_of BuiltinExecutor.tokio = EntryPoint.main_tokio
entry_of BuiltinExecutor.smol = EntryPoint.main_smol
entry_of BuiltinExecutor.compio = EntryPoint.main_compio
entry_of BuiltinExecutor.thread_pool = EntryPoint.main_threadpool
entry_of BuiltinExecutor.wasm = EntryPoint.main_wasm_fail
entry_of BuiltinExecutor.lite = EntryPoint.main_lite
entry_of BuiltinExecutor.dummy = EntryPoint.main_fail

default_executor_lem : (f : Features) → default_executor f ≡ selected f ∷ []
unfolding default_executor cfg
default_executor_lem f = ground arith

default_builtin_lem : (f : Features) → default_builtin f ≡ selected f ∷ []
unfolding default_builtin cfg
default_builtin_lem f = ground arith

is_variant_lem : (f : Features) → is_variant f (selected f) ≡ true
unfolding is_variant
is_variant_lem f = ground arith

entry_points_lem : (f : Features) → entry_points f ≡ cfg f.macros (entry_of (selected f))
unfolding entry_points cfg
entry_points_lem f = ground arith

-- For every combination of features and targets exactly one `DefaultExecutor` is declared and exactly
-- one `return` of `BuiltinExecutor::default` is compiled, both for the executor that comes first in
-- the documented order (wasm32, tokio, smol, compio, threadpool, lite, none); that executor is a
-- variant of `BuiltinExecutor`, and with the feature `macros` the one pair of `main` and `test` that
-- is exported is the pair for it, without the feature none is.
pub selected-Single :
    (f : Features)
    → (default_executor f ≡ selected f ∷ [])
      × ((default_builtin f ≡ selected f ∷ [])
          × ((is_variant f (selected f) ≡ true)
              × (entry_points f ≡ cfg f.macros (entry_of (selected f)))))
selected-Single f =
    (default_executor_lem f, (default_builtin_lem f, (is_variant_lem f, entry_points_lem f)))
