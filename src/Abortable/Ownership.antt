-- ===== src/Abortable/Ownership.antt =====
-- `AbortableJoinHandle` of src/lib.rs: where the handles of tasks are.
use async_rt.JoinHandle.Joining.{poll}
use async_rt.Prelude.{
  ℕ, zero, suc, ◌+◌, Bool, false, if◌then◌else◌, ltb, ◌==◌, Option, none, some, List, [], ◌∷◌, ◌++◌,
  get_elem?, set, ◌≡◌, refl, ap, ◌∙◌, arith, Bool-cases, inl, inr,
}
use async_rt.JoinHandle.Runtimes.{Runtimes}
use async_rt.JoinHandle.Handle.{JoinHandle, empty_handle, abort, is_finished}
use async_rt.Abortable.Dropping.{Dropped, Restored, drop_reference-Dropped, clone-Restored}
use async_rt.Abortable.{
  Detaching, Cell, Store, number, Use, starts, makes_empty, clones, drops, aborts, checks, polls,
  replaces, elsewhere, from, empty, with_cell, clone_cell, clone, release, drop_cell,
  drop_reference, abort_cell, abort_task, check_cell, check, poll_cell, poll_task, put_handle,
  take_handle, move_handle, replace, new, happens, history,
}

abbrev pub one_if : Bool → ℕ
one_if b = if b then 1 else 0

-- How often a number is in a list.
abbrev pub times : ℕ → List ℕ → ℕ
times t [] = 0
times t (n ∷ ns) = one_if (n == t) + times t ns

pub times-append : (t : ℕ) (ns ms : List ℕ) → times t (ns ++ ms) ≡ times t ns + times t ms
times-append t [] ms = omega arith
times-append t (n ∷ ns) ms = omega (arith, times-append t ns ms)

pub started-suc : (t n : ℕ) → one_if (ltb t (suc n)) ≡ one_if (ltb t n) + one_if (n == t)
started-suc t n = ground arith

module _ (rt : Runtimes) (detaching : Detaching rt) (t : ℕ) where
  -- How many cells have the handle `t`.
  abbrev pub held : List (Cell rt) → ℕ
  held [] = 0
  held (c ∷ cs) = times t (number c.task) + held cs

  -- A handle that has been put into the store is in one cell, or has been aborted by the drop of the
  -- last reference, or has been dropped by a `replace`, and only one of these, once.
  abbrev pub Owned : Store rt → Type 0
  Owned s = held s.cells + (times t s.released + times t s.replaced) ≡ one_if (ltb t s.started)

  held-append : (cs ds : List (Cell rt)) → held (cs ++ ds) ≡ held cs + held ds
  held-append [] ds = omega arith
  held-append (c ∷ cs) ds = omega (arith, held-append cs ds)

  held-set :
      (cs : List (Cell rt)) (i : ℕ) (c d : Cell rt)
      → get_elem? cs i ≡ some c
      → held (set cs i d) + times t (number c.task) ≡ held cs + times t (number d.task)
  held-set [] i c d h = cc
  held-set (x ∷ cs) zero c d h =
      let same : times t (number x.task) ≡ times t (number c.task) =
        ap (λ y. times t (number y.task)) (some-injective x c h) in
      omega (arith, same)
    where
      some-injective : (a b : Cell rt) → Option.some a ≡ some b → a ≡ b
      some-injective a b q = cc
  held-set (x ∷ cs) (suc i) c d h = omega (arith, held-set cs i c d h)

  with_cell-Owned :
      (i : ℕ) (method : Cell rt → Store rt → Store rt) (s : Store rt)
      → Owned s
      → ((c : Cell rt) → get_elem? s.cells i ≡ some c → Owned (method c s))
      → Owned (with_cell rt detaching i method s)
  with_cell-Owned i method s h k = go (get_elem? s.cells i) refl
    where
      go :
          (o : Option (Cell rt))
          → get_elem? s.cells i ≡ o
          → Owned (elim o [ none ↦ s | some c ↦ method c s ])
      go none e = h
      go (some c) e = k c e

  clone_cell-Owned :
      (i : ℕ) (c : Cell rt) (s : Store rt)
      → Owned s
      → get_elem? s.cells i ≡ some c
      → Owned (clone_cell rt detaching i c s)
  unfolding clone_cell
  clone_cell-Owned i c s h e =
      omega (arith, h, held-set s.cells i c (record c { references = suc c.references }) e)

  release-Owned :
      (i : ℕ) (c : Cell rt) (s : Store rt)
      → Owned s
      → get_elem? s.cells i ≡ some c
      → Owned (release rt detaching i c s)
  unfolding release
  release-Owned i c s h e = omega (
    arith,
    h,
    held-set s.cells i c (record { references = 0; task = none; inner = empty_handle }) e,
    times-append t s.released (number c.task),
  )

  drop_cell-Owned :
      (n i : ℕ) (c : Cell rt) (s : Store rt)
      → Owned s
      → get_elem? s.cells i ≡ some c
      → Owned (drop_cell rt detaching n i c s)
  unfolding drop_cell
  drop_cell-Owned zero i c s h e = h
  drop_cell-Owned (suc zero) i c s h e = release-Owned i c s h e
  drop_cell-Owned (suc (suc n)) i c s h e =
      omega (arith, h, held-set s.cells i c (record c { references = suc n }) e)

  drop_reference-Owned : (i : ℕ) (s : Store rt) → Owned s → Owned (drop_reference rt detaching i s)
  unfolding drop_reference
  drop_reference-Owned i s h =
      with_cell-Owned i (λ c. drop_cell rt detaching c.references i c) s h
        (λ c e. drop_cell-Owned c.references i c s h e)

  changed-Owned :
      (i : ℕ) (c : Cell rt) (handle : JoinHandle rt) (s : Store rt)
      → Owned s
      → get_elem? s.cells i ≡ some c
      → held (set s.cells i (record c { inner = handle }))
          + (times t s.released + times t s.replaced)
        ≡ one_if (ltb t s.started)
  changed-Owned i c handle s h e =
      omega (arith, h, held-set s.cells i c (record c { inner = handle }) e)

  pub get_elem?-set :
      (cs : List (Cell rt)) (i j : ℕ) (d : Cell rt)
      → (i == j) ≡ false
      → get_elem? (set cs j d) i ≡ get_elem? cs i
  get_elem?-set [] i j d h = refl
  get_elem?-set (x ∷ cs) zero zero d h = cc
  get_elem?-set (x ∷ cs) zero (suc j) d h = refl
  get_elem?-set (x ∷ cs) (suc i) zero d h = refl
  get_elem?-set (x ∷ cs) (suc i) (suc j) d h = get_elem?-set cs i j d (ground arith)

  moved-Owned :
      (i j : ℕ) (c other : Cell rt) (s : Store rt)
      → (i == j) ≡ false
      → Owned s
      → get_elem? s.cells j ≡ some other
      → get_elem? s.cells i ≡ some c
      → Owned
          (put_handle rt detaching i other.task other.inner c (take_handle rt detaching j other s))
  unfolding put_handle take_handle
  moved-Owned i j c other s apart h e f =
      let emptied : Cell rt = record other { task = none; inner = empty_handle } in
      let filled : Cell rt = record c { task = other.task; inner = other.inner } in
      omega (
        arith,
        h,
        held-set s.cells j other emptied e,
        held-set (set s.cells j emptied) i c filled (get_elem?-set s.cells i j emptied apart ∙ f),
        times-append t s.replaced (number c.task),
      )

  replace-Owned : (i j : ℕ) (s : Store rt) → Owned s → Owned (replace rt detaching i j s)
  unfolding replace move_handle
  replace-Owned i j s h = elim (Bool-cases (i == j)) [
    | inl e ↦ rw e (drop_reference-Owned j s h)
    | inr e ↦ rw e (
        drop_reference-Owned j (with_cell rt detaching j (move_handle rt detaching i j) s) (
          with_cell-Owned j (move_handle rt detaching i j) s h (λ other f.
            with_cell-Owned i (move other) s h (λ c g. moved-Owned i j c other s e h f g))))
  ]
    where
      move : Cell rt → Cell rt → Store rt → Store rt
      move other c u =
          put_handle rt detaching i other.task other.inner c (take_handle rt detaching j other u)

  happens-Owned : (u : Use rt) (s : Store rt) → Owned s → Owned (happens rt detaching u s)
  unfolding happens from empty clone abort_task abort_cell check check_cell poll_task poll_cell
  happens-Owned (starts handle) s h = omega (
    arith,
    h,
    held-append s.cells (record { references = 1; task = some s.started; inner = handle } ∷ []),
    started-suc t s.started,
  )
  happens-Owned makes_empty s h = omega (
    arith,
    h,
    held-append s.cells (record { references = 1; task = none; inner = empty_handle } ∷ []),
  )
  happens-Owned (clones i) s h =
      with_cell-Owned i (clone_cell rt detaching i) s h (λ c e. clone_cell-Owned i c s h e)
  happens-Owned (drops i) s h = drop_reference-Owned i s h
  happens-Owned (aborts i) s h =
      with_cell-Owned i (abort_cell rt detaching i) s h
        (λ c e. changed-Owned i c (abort rt c.inner s.world).handle s h e)
  happens-Owned (checks i) s h =
      with_cell-Owned i (λ c u. (check_cell rt detaching i c u).store) s h
        (λ c e. changed-Owned i c (is_finished rt c.inner s.world).handle s h e)
  happens-Owned (polls i) s h =
      with_cell-Owned i (λ c u. (poll_cell rt detaching i c u).store) s h
        (λ c e. changed-Owned i c (poll rt c.inner s.world).handle s h e)
  happens-Owned (replaces i j) s h = replace-Owned i j s h
  happens-Owned (elsewhere w) s h = h

  history-Owned : (us : List (Use rt)) (s : Store rt) → Owned s → Owned (history rt detaching us s)
  unfolding history
  history-Owned [] s h = h
  history-Owned (u ∷ us) s h = history-Owned us (happens rt detaching u s) (happens-Owned u s h)

  -- After any use of the references, a handle that has been put into a new store is in exactly one cell,
  -- or the drop of the last reference to its cell has released it, or a `replace` has dropped it, and
  -- only one of these, once; another number is nowhere. The drop of one more reference calls `abort` on
  -- the handle in the cell, and drops what is left of it, exactly if the reference is the last one;
  -- otherwise it leaves the handle and the world alone. A clone and one drop change nothing, if there is
  -- a reference.
  pub new-Owned :
      (us : List (Use rt)) (w : rt.World) (i : ℕ)
      → let s = history rt detaching us (new rt detaching w) in
        (held s.cells + (times t s.released + times t s.replaced) ≡ one_if (ltb t s.started))
        × Dropped rt detaching i s (get_elem? s.cells i) (drop_reference rt detaching i s)
        × Restored rt detaching i s (get_elem? s.cells i)
  unfolding new
  new-Owned us w i = (
    history-Owned us (new rt detaching w) (ground arith),
    drop_reference-Dropped rt detaching i (history rt detaching us (new rt detaching w)),
    clone-Restored rt detaching i (history rt detaching us (new rt detaching w)),
  )
