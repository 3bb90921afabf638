-- ===== src/Selection.antt =====
-- src/global/executor.rs, src/lib.rs: which executor and which entry points the features of a build
-- select. Each item that a `cfg` attribute guards is listed with its condition, in the source's order.
pub mod Single
mod Examples
use async_rt.Prelude.{Bool, true, false, not, ◌&&◌, ◌||◌, if◌then◌else◌, List, [], ◌∷◌, ◌++◌}

-- The features of the crate, and whether `target_arch = "wasm32"`.
pub record Features : Type 0 where
  pub tokio : Bool
  pub smol : Bool
  pub compio : Bool
  pub threadpool : Bool
  pub lite : Bool
  pub macros : Bool
  pub wasm32 : Bool

-- `BuiltinExecutor`, with the executor types that `DefaultExecutor` can be.
pub data BuiltinExecutor : Type 0 where
  tokio smol compio thread_pool wasm lite dummy : BuiltinExecutor

-- The macros that `lib.rs` passes on as `main` and `test`.
pub data EntryPoint : Type 0 where
  main_tokio main_smol main_compio main_threadpool main_lite main_fail main_wasm_fail : EntryPoint

-- An item under a `cfg` attribute.
pub cfg {ℓ} : {A : Type ℓ} → Bool → A → List A
cfg condition item = if condition then item ∷ [] else []

-- The `cfg` attributes of the variants.
pub is_variant : Features → BuiltinExecutor → Bool
is_variant f BuiltinExecutor.tokio = f.tokio && not f.wasm32
is_variant f BuiltinExecutor.smol = f.smol && not f.wasm32
is_variant f BuiltinExecutor.compio = f.compio && not f.wasm32
is_variant f BuiltinExecutor.thread_pool = f.threadpool && not f.wasm32
is_variant f BuiltinExecutor.wasm = f.wasm32
is_variant f BuiltinExecutor.lite = f.lite && not f.wasm32
is_variant f BuiltinExecutor.dummy = true

-- The declarations of `DefaultExecutor`.
pub default_executor : Features → List BuiltinExecutor
default_executor f =
    cfg (f.tokio && not f.wasm32) BuiltinExecutor.tokio
    ++ (cfg (f.compio && not (f.tokio || (f.smol || f.wasm32))) BuiltinExecutor.compio
        ++ (cfg (f.smol && not (f.tokio || f.wasm32)) BuiltinExecutor.smol
            ++ (cfg (f.threadpool && not (f.tokio || (f.smol || (f.compio || f.wasm32))))
                  BuiltinExecutor.thread_pool
                ++ (cfg
                      (f.lite
                        && (not (f.tokio || (f.smol || (f.compio || f.threadpool)))
                            && not f.wasm32))
                      BuiltinExecutor.lite
                    ++ (cfg f.wasm32 BuiltinExecutor.wasm
                        ++ cfg
                            (not f.threadpool
                              && (not f.tokio
                                  && (not f.compio
                                      && (not f.smol && (not f.lite && not f.wasm32)))))
                            BuiltinExecutor.dummy)))))

-- The `return`s of `BuiltinExecutor::default`.
pub default_builtin : Features → List BuiltinExecutor
default_builtin f =
    cfg (f.tokio && not f.wasm32) BuiltinExecutor.tokio
    ++ (cfg (f.smol && not (f.tokio || f.wasm32)) BuiltinExecutor.smol
        ++ (cfg (f.compio && not (f.tokio || (f.smol || f.wasm32))) BuiltinExecutor.compio
            ++ (cfg (f.threadpool && not (f.tokio || (f.smol || (f.compio || f.wasm32))))
                  BuiltinExecutor.thread_pool
                ++ (cfg f.wasm32 BuiltinExecutor.wasm
                    ++ (cfg
                          (f.lite
                            && (not (f.threadpool || (f.tokio || (f.compio || f.smol)))
                                && not f.wasm32))
                          BuiltinExecutor.lite
                        ++ cfg
                            (not f.threadpool
                              && (not f.tokio
                                  && (not f.compio
                                      && (not f.smol && (not f.lite && not f.wasm32)))))
                            BuiltinExecutor.dummy)))))

-- The `pub use` lines of `main` and `test`.
pub entry_points : Features → List EntryPoint
entry_points f =
    cfg (f.macros && (f.compio && not (f.tokio || (f.smol || f.wasm32)))) EntryPoint.main_compio
    ++ (cfg
          (f.macros
            && (not (f.tokio || (f.smol || (f.compio || (f.threadpool || f.lite))))
                && not f.wasm32))
          EntryPoint.main_fail
        ++ (cfg
              (f.macros
                && (f.lite
                    && not (f.tokio || (f.smol || (f.compio || (f.threadpool || f.wasm32))))))
              EntryPoint.main_lite
            ++ (cfg (f.macros && (f.smol && not (f.tokio || f.wasm32))) EntryPoint.main_smol
                ++ (cfg
                      (f.macros
                        && (f.threadpool && not (f.tokio || (f.smol || (f.compio || f.wasm32)))))
                      EntryPoint.main_threadpool
                    ++ (cfg (f.macros && (f.tokio && not f.wasm32)) EntryPoint.main_tokio
                        ++ cfg (f.macros && f.wasm32) EntryPoint.main_wasm_fail)))))
