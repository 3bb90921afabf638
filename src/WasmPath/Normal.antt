-- ===== src/WasmPath/Normal.antt =====
-- `split_path` of src/fs/wasm.rs: which paths it accepts, how deep the result is, and that its result
-- is a normal form.
use async_rt.Prelude.{
  ℕ, zero, suc, Option, none, some, List, [], ◌∷◌, ◌++◌, length, ◌≡◌, refl, sym, ap, ◌∙◌, arith,
  length-append,
}
use mathlib.Core.List.{append_assoc, append-nil}
use async_rt.Prelude.Io.{ErrorKind, Result, ok, err, ◌>>=◌}
use async_rt.WasmPath.{
  Texts, Component, root_dir, cur_dir, parent_dir, normal, path_prefix, pop, component, components,
  split_path, joined_path, pushed,
}

pop-push : {A : Type 0} (xs : List A) (x : A) → pop (xs ++ (x ∷ [])) ≡ some (xs, x)
unfolding pop
pop-push [] x = refl
pop-push (y ∷ xs) x = rw (pop-push xs x) refl

-- What `pop` does to the length.
abbrev Popped : {A : Type 0} → ℕ → Option (List A × A) → Type 0
Popped n none = n ≡ 0
Popped n (some (ys, y)) = n ≡ suc (length ys)

pop-Popped : {A : Type 0} (xs : List A) → Popped (length xs) (pop xs)
unfolding pop
pop-Popped [] = refl
pop-Popped {A = A} (x ∷ xs) = go (pop xs) (pop-Popped xs)
  where
    go :
        (o : Option (List A × A))
        → Popped (length xs) o
        → Popped
            (length (x ∷ xs))
            (elim o [ none ↦ some ([], x) | some (ys, y) ↦ some (x ∷ ys, y) ])
    go none e = ap suc e
    go (some (ys, y)) e = ap suc e

module _ (texts : Texts) where
  open texts use {Name}

  -- The depth of a path under the root, started at a depth; `none` is a path that goes above the root,
  -- has a prefix, or is not UTF-8.
  abbrev pub depth : ℕ → List (Component texts) → Option ℕ
  depth n [] = some n
  depth n (root_dir ∷ cs) = depth n cs
  depth n (cur_dir ∷ cs) = depth n cs
  depth zero (parent_dir ∷ cs) = none
  depth (suc n) (parent_dir ∷ cs) = depth n cs
  depth n (normal os ∷ cs) = elim (texts.to_str os) [ none ↦ none | some name ↦ depth (suc n) cs ]
  depth n (path_prefix ∷ cs) = none

  abbrev pub Deep : Option ℕ → Result (List Name) → Type 0
  Deep (some n) (ok names) = length names ≡ n
  Deep none (err kind) = kind ≡ ErrorKind.invalid_input
  Deep _ _ = ⊥

  components-Deep :
      (n : ℕ) (names : List Name) (cs : List (Component texts))
      → length names ≡ n
      → Deep (depth n cs) (components texts names cs)
  unfolding components component
  components-Deep n names [] e = e
  components-Deep n names (root_dir ∷ cs) e = components-Deep n names cs e
  components-Deep n names (cur_dir ∷ cs) e = components-Deep n names cs e
  components-Deep zero names (parent_dir ∷ cs) e = go (pop names) (pop-Popped names) refl
    where
      go :
          (o : Option (List Name × Name))
          → Popped (length names) o
          → pop names ≡ o
          → Deep none (components texts names (parent_dir ∷ cs))
      go none l q = rw (q, component, components) refl
      go (some (ys, y)) l q = absurd (omega (arith, sym e ∙ l))
  components-Deep (suc n) names (parent_dir ∷ cs) e =
      go (pop names) (pop-Popped names) refl (λ ys. components-Deep n ys cs)
    where
      go :
          (o : Option (List Name × Name))
          → Popped (length names) o
          → pop names ≡ o
          → ((ys : List Name) → length ys ≡ n → Deep (depth n cs) (components texts ys cs))
          → Deep (depth n cs) (components texts names (parent_dir ∷ cs))
      go none l q ih = absurd (omega (arith, sym e ∙ l))
      go (some (ys, y)) l q ih = rw (q, component, components) (ih ys (omega (arith, sym e ∙ l)))
  components-Deep n names (normal os ∷ cs) e =
      go (texts.to_str os) refl (λ ys. components-Deep (suc n) ys cs)
    where
      go :
          (o : Option Name)
          → texts.to_str os ≡ o
          → ((ys : List Name)
              → length ys ≡ suc n
              → Deep (depth (suc n) cs) (components texts ys cs))
          → Deep (depth n (normal os ∷ cs)) (components texts names (normal os ∷ cs))
      go none q ih = rw (q, component, components, depth) refl
      go (some name) q ih =
          rw (q, component, components, depth)
            (ih (names ++ (name ∷ [])) (omega (arith, length-append names (name ∷ []), e)))
  components-Deep n names (path_prefix ∷ cs) e = refl

  -- `split_path` accepts a path exactly if no prefix of it has more parent components than names, it
  -- has no path prefix, and every name is UTF-8; it then returns as many names as the path is deep,
  -- and its error is always `InvalidInput`.
  pub split_path-Deep : (cs : List (Component texts)) → Deep (depth 0 cs) (split_path texts cs)
  unfolding split_path
  split_path-Deep cs = components-Deep 0 [] cs refl

  components-append :
      (names : List Name) (cs ds : List (Component texts))
      → components texts names (cs ++ ds)
        ≡ (components texts names cs >>= λ names'. components texts names' ds)
  unfolding components
  components-append names [] ds = refl
  components-append names (c ∷ cs) ds =
      go (component texts names c) (λ ns. components-append ns cs ds)
    where
      go :
          (r : Result (List Name))
          → ((ns : List Name)
              → components texts ns (cs ++ ds)
                ≡ (components texts ns cs >>= λ ns'. components texts ns' ds))
          → (r >>= λ ns. components texts ns (cs ++ ds))
            ≡ ((r >>= λ ns. components texts ns cs) >>= λ ns'. components texts ns' ds)
      go (ok ns) ih = ih ns
      go (err k) ih = refl

  component_name :
      (names : List Name) (n : Name)
      → component texts names (normal (texts.of_str n)) ≡ ok (names ++ (n ∷ []))
  unfolding component
  component_name names n = rw (texts.to_str-of_str n, component) refl

  components-pushed :
      (names ns : List Name) → components texts names (pushed texts ns) ≡ ok (names ++ ns)
  unfolding components pushed
  components-pushed names [] = ap ok (sym (append-nil names))
  components-pushed names (n ∷ ns) =
      ap (λ r. r >>= λ names'. components texts names' (pushed texts ns)) (component_name names n)
      ∙ (components-pushed (names ++ (n ∷ [])) ns ∙ ap ok (append_assoc names (n ∷ []) ns))

  -- The path that `joined_path` makes of names is split into these names.
  split_path-joined_path : (ns : List Name) → split_path texts (joined_path texts ns) ≡ ok ns
  unfolding split_path joined_path components component
  split_path-joined_path ns = components-pushed [] ns

  -- A path may be replaced by its normal form, the joined result of `split_path`, wherever it is the
  -- beginning of a longer path: the longer path is accepted as before, with the same names.
  pub split_path-normal :
      (cs ds : List (Component texts)) (ns : List Name)
      → split_path texts cs ≡ ok ns
      → split_path texts (joined_path texts ns ++ ds) ≡ split_path texts (cs ++ ds)
  unfolding split_path
  split_path-normal cs ds ns e =
      components-append [] (joined_path texts ns) ds
      ∙ (ap (λ r. r >>= λ names'. components texts names' ds) (split_path-joined_path ns ∙ sym e)
          ∙ sym (components-append [] cs ds))
