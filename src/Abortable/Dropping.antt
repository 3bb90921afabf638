-- ===== src/Abortable/Dropping.antt =====
-- `AbortableJoinHandle` of src/lib.rs: what the drop of a reference does to the handle, and to its count.
use async_rt.Prelude.{
  ℕ, zero, suc, Option, none, some, List, [], ◌∷◌, get_elem?, set, ◌≡◌, refl, sym, ap, ◌∙◌, ◌⊎◌,
  inl, inr,
}
use async_rt.JoinHandle.Runtimes.{Runtimes}
use async_rt.JoinHandle.Handle.{empty_handle, abort}
use async_rt.Abortable.{
  Detaching, Cell, Store, with_cell, clone_cell, clone, release, drop_cell, drop_reference,
  drop_handle,
}

module _ (rt : Runtimes) (detaching : Detaching rt) where
  -- What the drop of a reference to a cell makes of the store `s`. The last reference: `abort` has been
  -- called on the handle in the cell, the handle that this left has been dropped, in that order, and the
  -- cell is gone. Another one: the cell has a reference less, and the handle and the world are untouched.
  abbrev pub Released : ℕ → Store rt → Cell rt → ℕ → Store rt → Type 0
  Released i s c zero u = u ≡ s
  Released i s c (suc zero) u =
      let r = abort rt c.inner s.world in
      (u.world ≡ drop_handle rt detaching r.handle r.world)
      × (u.cells ≡ set s.cells i (record { references = 0; task = none; inner = empty_handle }))
  Released i s c (suc (suc n)) u =
      (u.world ≡ s.world)
      × (u.cells ≡ set s.cells i (record { references = suc n; task = c.task; inner = c.inner }))

  -- Nothing happens to a store without the cell.
  abbrev pub Dropped : ℕ → Store rt → Option (Cell rt) → Store rt → Type 0
  Dropped i s none u = u ≡ s
  Dropped i s (some c) u = Released i s c c.references u

  drop_cell-Released :
      (n i : ℕ) (c : Cell rt) (s : Store rt) → Released i s c n (drop_cell rt detaching n i c s)
  unfolding drop_cell release
  drop_cell-Released zero i c s = refl
  drop_cell-Released (suc zero) i c s = (refl, refl)
  drop_cell-Released (suc (suc n)) i c s = (refl, refl)

  pub drop_reference-Dropped :
      (i : ℕ) (s : Store rt) → Dropped i s (get_elem? s.cells i) (drop_reference rt detaching i s)
  unfolding drop_reference
  drop_reference-Dropped i s = go (get_elem? s.cells i)
    where
      go :
          (o : Option (Cell rt))
          → Dropped i s o (elim o [ none ↦ s | some c ↦ drop_cell rt detaching c.references i c s ])
      go none = refl
      go (some c) = drop_cell-Released c.references i c s

  get_elem?-set-same :
      (cs : List (Cell rt)) (i : ℕ) (c d : Cell rt)
      → get_elem? cs i ≡ some c
      → get_elem? (set cs i d) i ≡ some d
  get_elem?-set-same [] i c d e = cc
  get_elem?-set-same (x ∷ cs) zero c d e = refl
  get_elem?-set-same (x ∷ cs) (suc i) c d e = get_elem?-set-same cs i c d e

  set-set-same :
      (cs : List (Cell rt)) (i : ℕ) (d c : Cell rt)
      → get_elem? cs i ≡ some c
      → set (set cs i d) i c ≡ cs
  set-set-same [] i d c e = refl
  set-set-same (x ∷ cs) zero d c e = cc
  set-set-same (x ∷ cs) (suc i) d c e = ap (◌∷◌ x) (set-set-same cs i d c e)

  -- A clone and the drop of a reference change nothing, if there is a reference.
  abbrev pub Restored : ℕ → Store rt → Option (Cell rt) → Type 0
  Restored i s none = drop_reference rt detaching i (clone rt detaching i s) ≡ s
  Restored i s (some c) =
      (c.references ≡ 0) ⊎ (drop_reference rt detaching i (clone rt detaching i s) ≡ s)

  with_cell-some :
      (i : ℕ) (method : Cell rt → Store rt → Store rt) (s : Store rt) (c : Cell rt)
      → get_elem? s.cells i ≡ some c
      → with_cell rt detaching i method s ≡ method c s
  with_cell-some i method s c e = ap (λ o. elim o [ none ↦ s | some x ↦ method x s ]) e

  with_cell-none :
      (i : ℕ) (method : Cell rt → Store rt → Store rt) (s : Store rt)
      → get_elem? s.cells i ≡ none
      → with_cell rt detaching i method s ≡ s
  with_cell-none i method s e = ap (λ o. elim o [ none ↦ s | some x ↦ method x s ]) e

  drop_cell-more :
      (i n : ℕ) (c : Cell rt) (s : Store rt)
      → c.references ≡ suc n
      → get_elem? s.cells i ≡ some c
      → drop_cell rt detaching
          (suc c.references)
          i
          (record c { references = suc c.references })
          (clone_cell rt detaching i c s)
        ≡ s
  unfolding drop_cell clone_cell
  drop_cell-more i n c s r e =
      let more : Cell rt = record c { references = suc c.references } in
      ap (λ k. drop_cell rt detaching (suc k) i more (clone_cell rt detaching i c s)) r
      ∙ ap (λ k. record s { cells = set (set s.cells i more) i (record c { references = k }) })
          (sym r)
      ∙ ap (λ cs. record s { cells = cs }) (set-set-same s.cells i more c e)

  pub clone-Restored : (i : ℕ) (s : Store rt) → Restored i s (get_elem? s.cells i)
  unfolding clone clone_cell drop_reference
  clone-Restored i s = go (get_elem? s.cells i) refl
    where
      drops_one : Cell rt → Store rt → Store rt
      drops_one c = drop_cell rt detaching c.references i c

      restored :
          (c : Cell rt) (n : ℕ)
          → c.references ≡ n
          → get_elem? s.cells i ≡ some c
          → Restored i s (some c)
      restored c zero r e = inl r
      restored c (suc n) r e =
          let more : Cell rt = record c { references = suc c.references } in
          inr (
            ap (drop_reference rt detaching i) (with_cell-some i (clone_cell rt detaching i) s c e)
            ∙ with_cell-some i drops_one (clone_cell rt detaching i c s) more
                (get_elem?-set-same s.cells i c more e)
            ∙ drop_cell-more i n c s r e)

      go : (o : Option (Cell rt)) → get_elem? s.cells i ≡ o → Restored i s o
      go none e =
          ap (drop_reference rt detaching i) (with_cell-none i (clone_cell rt detaching i) s e)
          ∙ with_cell-none i drops_one s e
      go (some c) e = restored c c.references refl e
