-- ===== src/Abortable/Replacing.antt =====
-- `AbortableJoinHandle::replace` of src/lib.rs: it moves a handle and aborts nothing.
use mathlib.Core.List.{append-nil}
use async_rt.Prelude.{
  ℕ, zero, suc, Bool, false, if◌then◌else◌, ◌==◌, Option, none, some, List, [], ◌∷◌, ◌++◌,
  get_elem?, set, ◌≡◌, refl, sym, ap, ◌∙◌, subst, arith,
}
use async_rt.JoinHandle.Runtimes.{Runtimes}
use async_rt.JoinHandle.Handle.{empty_handle, abort}
use async_rt.Abortable.{
  Detaching, Cell, Store, number, drop_handle, release, drop_cell, drop_reference, put_handle,
  take_handle, move_handle, replace,
}
use async_rt.Abortable.Ownership.{get_elem?-set}

get_elem?-set_same :
    {A : Type 0} (xs : List A) (i : ℕ) (x y : A)
    → get_elem? xs i ≡ some x
    → get_elem? (set xs i y) i ≡ some y
get_elem?-set_same [] i x y h = cc
get_elem?-set_same (z ∷ xs) zero x y h = refl
get_elem?-set_same (z ∷ xs) (suc i) x y h = get_elem?-set_same xs i x y h

set-set : {A : Type 0} (xs : List A) (i : ℕ) (x y : A) → set (set xs i x) i y ≡ set xs i y
set-set [] i x y = refl
set-set (z ∷ xs) zero x y = refl
set-set (z ∷ xs) (suc i) x y = ap (◌∷◌ z) (set-set xs i x y)

apart-sym : (i j : ℕ) → (i == j) ≡ false → (j == i) ≡ false
apart-sym i j h = ground arith

module _ (rt : Runtimes) (detaching : Detaching rt) (i j n : ℕ) (c other : Cell rt)
    (s : Store rt) where
  -- What `replace` leaves: the handle in the cell `i`, one reference less to an empty cell `j`; the
  -- handle that was in `i` is dropped, which is all that happens to the tasks, and both are woken.
  abbrev pub Moved : Store rt → Type 0
  Moved u =
      (get_elem? u.cells i ≡ some (record c { task = other.task; inner = other.inner }))
      × (get_elem? u.cells j ≡ some (record { references = n; task = none; inner = empty_handle }))
      × (u.world ≡ drop_handle rt detaching c.inner s.world)
      × (u.released ≡ s.released)
      × (u.replaced ≡ s.replaced ++ number c.task)
      × (u.wakes ≡ (s.wakes ++ (j ∷ [])) ++ (i ∷ []))

  emptied : Cell rt
  emptied = record other { task = none; inner = empty_handle }

  filled : Cell rt
  filled = record c { task = other.task; inner = other.inner }

  left : ℕ → Cell rt
  left k = record { references = k; task = none; inner = empty_handle }

  moved : Store rt
  moved = put_handle rt detaching i other.task other.inner c (take_handle rt detaching j other s)

  module _ (apart : (i == j) ≡ false) (at_i : get_elem? s.cells i ≡ some c)
      (at_j : get_elem? s.cells j ≡ some other) where
    moved_lem : replace rt detaching i j s ≡ drop_reference rt detaching j moved
    unfolding replace move_handle moved
    moved_lem =
        ap tested apart ∙ ap (drop_reference rt detaching j) (ap taken at_j ∙ ap put_into at_i)
      where
        put_into : Option (Cell rt) → Store rt
        put_into o = elim o [
          | none ↦ s
          | some d ↦
              put_handle rt detaching i other.task other.inner d
                (take_handle rt detaching j other s)
        ]

        taken : Option (Cell rt) → Store rt
        taken o = elim o [ none ↦ s | some d ↦ move_handle rt detaching i j d s ]

        tested : Bool → Store rt
        tested b =
            if b
            then drop_reference rt detaching j s
            else drop_reference rt detaching j (taken (get_elem? s.cells j))

    moved-at_j : get_elem? moved.cells j ≡ some emptied
    unfolding moved put_handle take_handle emptied filled
    moved-at_j =
        get_elem?-set rt detaching i (set s.cells j emptied) j i filled (apart-sym i j apart)
        ∙ get_elem?-set_same s.cells j other emptied at_j

    moved-at_i : get_elem? moved.cells i ≡ some filled
    unfolding moved put_handle take_handle emptied filled
    moved-at_i =
        get_elem?-set_same (set s.cells j emptied) i c filled
          (get_elem?-set rt detaching i s.cells i j emptied apart ∙ at_i)

    -- The last step, the drop of the reference `j`.
    dropped-Moved :
        (m : ℕ)
        → m ≡ n
        → other.references ≡ suc m
        → Moved (drop_cell rt detaching (suc m) j emptied moved)
    unfolding drop_cell release moved put_handle take_handle emptied filled left drop_handle abort
    dropped-Moved zero e r = (
      get_elem?-set rt detaching i moved.cells i j (left zero) apart ∙ moved-at_i,
      get_elem?-set_same moved.cells j emptied (left zero) moved-at_j ∙ ap (λ k. some (left k)) e,
      refl,
      append-nil s.released,
      refl,
      refl,
    )
    dropped-Moved (suc m) e r = (
      get_elem?-set rt detaching i moved.cells i j (left (suc m)) apart ∙ moved-at_i,
      get_elem?-set_same moved.cells j emptied (left (suc m)) moved-at_j
          ∙ ap (λ k. some (left k)) e,
      refl,
      refl,
      refl,
      refl,
    )

  -- `replace` of one cell by another, which both have references: the handle of `j` is in `i`, `j` is
  -- empty and has one reference less, the handle that was in `i` is dropped and not aborted, nothing
  -- else happens to any task, and what waits for either cell is woken.
  pub replace-Moved :
      (i == j) ≡ false
      → get_elem? s.cells i ≡ some c
      → get_elem? s.cells j ≡ some other
      → other.references ≡ suc n
      → Moved (replace rt detaching i j s)
  unfolding drop_reference emptied
  replace-Moved apart at_i at_j r =
      subst Moved
        (sym (
          moved_lem apart at_i at_j
          ∙ (ap dropping (moved-at_j apart at_i at_j)
              ∙ ap (λ k. drop_cell rt detaching k j emptied moved) r)))
        (dropped-Moved apart at_i at_j n refl r)
    where
      dropping : Option (Cell rt) → Store rt
      dropping o = elim o [ none ↦ moved | some d ↦ drop_cell rt detaching d.references j d moved ]
