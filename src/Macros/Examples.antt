-- ===== src/Macros/Examples.antt =====
-- Tests of async-rt-macros/src/lib.rs, with texts for syn's paths and expressions.
use Prim.Native.String.{String}
use text.Mathlib.Text.{◌==◌}
use text.Mathlib.TextEquality.{eq_iff}
use async_rt.Prelude.{true, none, some, List, [], ◌∷◌, ◌≡◌, ◌≢◌, refl, sym, ◌∙◌}
use async_rt.Macros.{
  Syntax, Meta, name_value, Executor, Error, accepted, rejected, parse_executor, Arguments,
  built_in, parse, expand_inner, arguments, argument, set_driver, set_executor, no_arguments,
  executor_text,
}
use async_rt.Macros.Driven.{expand_inner-NotGlobal}

abbrev texts : Syntax
texts = record {
  MetaPath = String;
  Expr = String;
  is_ident = λ p s. p == s;
  string_literal = λ e. some e;
  path_ident = λ e. none;
  is_ident_unique = λ p s t a b. sym ((eq_iff p s).0 a) ∙ (eq_iff p t).0 b;
}

abbrev smol_only : List (Meta texts)
smol_only = name_value "executor" "smol" ∷ []

abbrev smol_arguments : Arguments texts
smol_arguments = record { executor = Executor.smol; executor_set = true; driver = none }

parse-smol : parse texts smol_only ≡ accepted smol_arguments
unfolding parse arguments argument set_driver set_executor no_arguments executor_text parse_executor
parse-smol = refl

twice :
    parse texts (name_value "driver" "a()" ∷ name_value "driver" "b()" ∷ [])
    ≡ rejected Error.duplicate_driver
unfolding parse arguments argument set_driver set_executor no_arguments executor_text parse_executor
twice = refl

conflict :
    parse texts (name_value "executor" "tokio" ∷ name_value "driver" "b()" ∷ [])
    ≡ rejected Error.used_together
unfolding parse arguments argument set_driver set_executor no_arguments executor_text parse_executor
conflict = refl

expand_inner-NotGlobal_example :
    expand_inner texts [] (accepted true) (accepted "async_rt") (some Executor.tokio)
    ≢ accepted (built_in Executor.global)
expand_inner-NotGlobal_example =
    expand_inner-NotGlobal texts (some Executor.tokio) [] (accepted true) (accepted "async_rt")
      (λ e. cc)
