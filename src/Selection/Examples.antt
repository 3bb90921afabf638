-- ===== src/Selection/Examples.antt =====
-- A build with the features smol, compio, lite and macros.
use async_rt.Prelude.{true, false, [], ◌∷◌, ◌≡◌}
use async_rt.Selection.{
  Features, BuiltinExecutor, EntryPoint, is_variant, default_executor, default_builtin,
  entry_points, cfg,
}
use async_rt.Selection.Single.{selected-Single}

abbrev several : Features
several = record {
  tokio = false;
  smol = true;
  compio = true;
  threadpool = false;
  lite = true;
  macros = true;
  wasm32 = false;
}

selected-Single_example :
    (default_executor several ≡ BuiltinExecutor.smol ∷ [])
    × ((default_builtin several ≡ BuiltinExecutor.smol ∷ [])
        × ((is_variant several BuiltinExecutor.smol ≡ true)
            × (entry_points several ≡ EntryPoint.main_smol ∷ [])))
unfolding cfg
selected-Single_example = selected-Single several
