-- ===== src/WasmPath/Examples.antt =====
-- Tests of the OPFS paths: texts are numbers, and 0 is not UTF-8.
use async_rt.Prelude.{ℕ, zero, suc, Option, none, some, List, [], ◌∷◌, ◌++◌, ◌≡◌, refl}
use async_rt.Prelude.Io.{ErrorKind, ok, err}
use async_rt.WasmPath.{
  Texts, Component, root_dir, cur_dir, parent_dir, normal, pop, component, components, split_path,
  split_parent, joined_path,
}
use async_rt.WasmPath.Normal.{Deep, split_path-Deep, split_path-normal}

abbrev text : ℕ → Option ℕ
text zero = none
text (suc n) = some n

abbrev numbers : Texts
numbers = record { Os = ℕ; Name = ℕ; to_str = text; of_str = λ n. suc n; to_str-of_str = λ n. refl }

-- `/a/../b/./c`
abbrev dotted : List (Component numbers)
dotted = root_dir ∷ normal 1 ∷ parent_dir ∷ normal 2 ∷ cur_dir ∷ normal 3 ∷ []

split-dotted : split_path numbers dotted ≡ ok (1 ∷ 2 ∷ [])
unfolding split_path components component pop
split-dotted = refl

parent-dotted : split_parent numbers dotted ≡ ok ((1 ∷ []), 2)
unfolding split_parent split_path components component pop
parent-dotted = refl

above : split_path numbers (normal 1 ∷ parent_dir ∷ parent_dir ∷ []) ≡ err ErrorKind.invalid_input
unfolding split_path components component pop
above = refl

split_path-Deep_example : Deep numbers (some 2) (split_path numbers dotted)
split_path-Deep_example = split_path-Deep numbers dotted

split_path-normal_example :
    split_path numbers (joined_path numbers (1 ∷ 2 ∷ []) ++ parent_dir ∷ [])
    ≡ split_path numbers (dotted ++ parent_dir ∷ [])
split_path-normal_example =
    split_path-normal numbers dotted (parent_dir ∷ []) (1 ∷ 2 ∷ []) split-dotted
