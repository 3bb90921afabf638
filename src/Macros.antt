-- ===== src/Macros.antt =====
-- async-rt-macros/src/lib.rs: the arguments of `#[async_rt::main]` and `#[async_rt::test]`, and what
-- drives the annotated function. What syn parses is a parameter: an argument is a `Meta` of `Syntax`,
-- and the emitted tokens are the value `Drive`.
pub mod Accepted
pub mod Driven
mod Examples
use Prim.Native.String.{String}
use text.Mathlib.Text.{◌==◌}
use async_rt.Prelude.{Bool, true, false, if◌then◌else◌, Option, none, some, List, [], ◌∷◌, ◌≡◌}

-- `syn::Path` and `syn::Expr`: what the code asks of them.
pub record Syntax : Type 1 where
  pub MetaPath : Type 0
  pub Expr : Type 0
  pub is_ident : MetaPath → String → Bool
  -- The text of a string literal, or of a path that is one identifier.
  pub string_literal : Expr → Option String
  pub path_ident : Expr → Option String
  pub is_ident_unique :
      (p : MetaPath) → (s t : String) → is_ident p s ≡ true → is_ident p t ≡ true → s ≡ t

-- `syn::Meta`: `path = value`, or another form.
pub data Meta (syntax : Syntax) : Type 0 where
  name_value : syntax.MetaPath → syntax.Expr → Meta syntax
  other_meta : Meta syntax

pub data Executor : Type 0 where
  global tokio smol compio thread_pool lite : Executor

-- The messages of `syn::Error`.
pub data Error : Type 0 where
  expected_option unknown_option duplicate_driver duplicate_executor used_together : Error
  not_string_or_identifier unknown_executor async_required no_default_runtime not_a_function
        no_runtime_crate :
      Error

pub data Parsed {ℓ} (A : Type ℓ) : Type ℓ where
  accepted : A → Parsed A
  rejected : Error → Parsed A

infixl 5 ◌>>=◌
abbrev pub ◌>>=◌ {ℓ κ} : {A : Type ℓ} {B : Type κ} → Parsed A → (A → Parsed B) → Parsed B
accepted a >>= f = f a
rejected e >>= f = rejected e

-- `Executor::parse`.
unfoldable pub parse_executor : String → Parsed Executor
parse_executor value =
    if value == "global"
    then accepted Executor.global
    else if value == "tokio"
    then accepted Executor.tokio
    else if value == "smol"
    then accepted Executor.smol
    else if value == "compio"
    then accepted Executor.compio
    else if value == "threadpool"
    then accepted Executor.thread_pool
    else if value == "thread_pool"
    then accepted Executor.thread_pool
    else if value == "lite"
    then accepted Executor.lite
    else rejected Error.unknown_executor

pub record Arguments (syntax : Syntax) : Type 0 where
  pub executor : Executor
  pub executor_set : Bool
  pub driver : Option syntax.Expr

-- What drives the function: a custom driver, or the executor of the arguments or of the features.
pub data Drive (syntax : Syntax) : Type 0 where
  custom : syntax.Expr → Drive syntax
  built_in : Executor → Drive syntax

-- `default_executor.ok_or_else(..)`.
pub default_or_error : Option Executor → Parsed Executor
default_or_error none = rejected Error.no_default_runtime
default_or_error (some executor) = accepted executor

module _ (syntax : Syntax) where
  open syntax use {MetaPath, Expr}

  pub no_arguments : Arguments syntax
  no_arguments = record { executor = Executor.global; executor_set = false; driver = none }

  -- The `match` on `argument.value`.
  pub executor_text : Expr → Parsed String
  executor_text value = elim (syntax.string_literal value) [
    | some text ↦ accepted text
    | none ↦ elim (syntax.path_ident value) [
      | some text ↦ accepted text
      | none ↦ rejected Error.not_string_or_identifier
    ]
  ]

  set_driver : Arguments syntax → Expr → Parsed (Arguments syntax)
  set_driver result value = elim result.driver [
    | some d ↦ rejected Error.duplicate_driver
    | none ↦
        if result.executor_set
        then rejected Error.used_together
        else accepted (record result { driver = some value })
  ]

  set_executor : Arguments syntax → Expr → Parsed (Arguments syntax)
  set_executor result value =
      if result.executor_set then rejected Error.duplicate_executor else elim result.driver [
        | some d ↦ rejected Error.used_together
        | none ↦ executor_text value >>= λ text. parse_executor text >>= λ executor.
            accepted (record result { executor = executor; executor_set = true })
      ]

  -- One round of the loop of `Arguments::parse`.
  argument : Arguments syntax → Meta syntax → Parsed (Arguments syntax)
  argument result other_meta = rejected Error.expected_option
  argument result (name_value path value) =
      if syntax.is_ident path "driver"
      then set_driver result value
      else if syntax.is_ident path "executor"
      then set_executor result value
      else rejected Error.unknown_option

  arguments : Arguments syntax → List (Meta syntax) → Parsed (Arguments syntax)
  arguments result [] = accepted result
  arguments result (m ∷ ms) = argument result m >>= λ result'. arguments result' ms

  -- `Arguments::parse`, after syn has parsed the list.
  pub parse : List (Meta syntax) → Parsed (Arguments syntax)
  parse = arguments no_arguments

  -- `Executor::Global` stands for the default executor of the features.
  pub resolve : Option Executor → Executor → Parsed Executor
  resolve default Executor.global = default_or_error default
  resolve default executor = accepted executor

  drive_of : Option Executor → Arguments syntax → Parsed (Drive syntax)
  drive_of default result = elim result.driver [
    | some driver ↦ accepted (custom driver)
    | none ↦ resolve default result.executor >>= λ executor. accepted (built_in executor)
  ]

  -- `expand_inner`. `item` is what syn parses the item to, a function that is async or not, and
  -- `runtime_crate` the answer of the function of that name.
  pub expand_inner :
      List (Meta syntax) → Parsed Bool → Parsed String → Option Executor → Parsed (Drive syntax)
  expand_inner ms item runtime_crate default = parse ms >>= λ result. item >>= λ is_async.
      if is_async
      then (runtime_crate >>= λ name. drive_of default result)
      else rejected Error.async_required
