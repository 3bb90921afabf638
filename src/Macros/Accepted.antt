-- ===== src/Macros/Accepted.antt =====
-- `Arguments::parse` of async-rt-macros/src/lib.rs: which argument lists are accepted, and with what.
use Prim.Native.String.{String}
use async_rt.Prelude.{true, false, none, some, List, [], ◌∷◌, ◌≡◌, ◌⊎◌}
use async_rt.Macros.{
  Syntax, Meta, name_value, Executor, accepted, parse_executor, Arguments, no_arguments,
  executor_text,
}

module _ (syntax : Syntax) where
  open syntax use {MetaPath, Expr}

  -- One argument: a driver, or an executor that has a name.
  abbrev pub One : MetaPath → Expr → Arguments syntax → Type 0
  One path value r =
      ((syntax.is_ident path "driver" ≡ true)
        × (r ≡ record { executor = Executor.global; executor_set = false; driver = some value }))
      ⊎ ((syntax.is_ident path "executor" ≡ true)
          × ((text : String) × ((executor : Executor) × ((executor_text syntax value
                    ≡ accepted text)
                  × ((parse_executor text ≡ accepted executor)
                      × (r
                          ≡ record { executor = executor; executor_set = true; driver = none }))))))

  -- The accepted lists: nothing, one driver, or one executor.
  abbrev pub Chosen : List (Meta syntax) → Arguments syntax → Type 0
  Chosen [] r = r ≡ no_arguments syntax
  Chosen (name_value path value ∷ []) r = One path value r
  Chosen _ r = ⊥

  IsFull : Arguments syntax → Type 0
  IsFull r = (r.executor_set ≡ true) ⊎ ((d : Expr) × (r.driver ≡ some d))
