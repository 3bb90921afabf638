-- ===== src/ExecutorScope/Aborting.antt =====
-- What the handles of `executor_scope` of src/scoped.rs promise about aborts (src/lib.rs), and what its
-- drop does to them.
use async_rt.Prelude.{Bool, true, List, [], ◌∷◌, ◌≡◌, refl}
use async_rt.ExecutorScope.{Inner, Tracked, State, abort_all, drop_all, drop_executor}

-- A Boolean of a handle and the world that no abort and no drop of a handle takes back.
abbrev pub Kept : (inner : Inner) → (inner.Handle → inner.World → Bool) → Type 0
Kept inner mark =
    ((h g : inner.Handle) (w : inner.World) → mark g w ≡ true → mark g (inner.abort h w) ≡ true)
    × ((h g : inner.Handle) (w : inner.World)
        → mark g w ≡ true
        → mark g (inner.drop_handle h w) ≡ true)

-- What the inner executor knows of a handle: whether the abort of its task has been requested by
-- `abort`, and whether the last reference to it has been dropped, which aborts its task.
pub record Contract (inner : Inner) : Type 0 where
  pub requested : inner.Handle → inner.World → Bool
  pub released : inner.Handle → inner.World → Bool
  pub requested-Kept : Kept inner requested
  pub released-Kept : Kept inner released
  pub requested-abort : (h : inner.Handle) (w : inner.World) → requested h (inner.abort h w) ≡ true
  pub released-drop_handle :
      (h : inner.Handle) (w : inner.World) → released h (inner.drop_handle h w) ≡ true

module _ (inner : Inner) where
  open inner use {World, Handle}

  -- The handles are all marked.
  abbrev pub All : (Handle → World → Bool) → List (Tracked inner) → World → Type 0
  All mark [] w = Unit {0}
  All mark (h ∷ rest) w = (mark h.handle w ≡ true) × All mark rest w

  module _ (mark : Handle → World → Bool) (kept : Kept inner mark) where
    abort_all-kept :
        (handles : List (Tracked inner)) (h : Handle) (s : State inner)
        → mark h s.world ≡ true
        → mark h (abort_all inner handles s).world ≡ true
    unfolding abort_all
    abort_all-kept [] h s e = e
    abort_all-kept (x ∷ rest) h s e =
        abort_all-kept rest h (record s { world = inner.abort x.handle s.world })
          (kept.0 x.handle h s.world e)

    drop_all-kept :
        (handles : List (Tracked inner)) (h : Handle) (s : State inner)
        → mark h s.world ≡ true
        → mark h (drop_all inner handles s).world ≡ true
    unfolding drop_all
    drop_all-kept [] h s e = e
    drop_all-kept (x ∷ rest) h s e =
        drop_all-kept rest h (record s { world = inner.drop_handle x.handle s.world })
          (kept.1 x.handle h s.world e)

    abort_all-All :
        (handles marked : List (Tracked inner)) (s : State inner)
        → All mark marked s.world
        → All mark marked (abort_all inner handles s).world
    abort_all-All handles [] s a = tt
    abort_all-All handles (x ∷ rest) s (e, a) =
        (abort_all-kept handles x.handle s e, abort_all-All handles rest s a)

    drop_all-All :
        (handles marked : List (Tracked inner)) (s : State inner)
        → All mark marked s.world
        → All mark marked (drop_all inner handles s).world
    drop_all-All handles [] s a = tt
    drop_all-All handles (x ∷ rest) s (e, a) =
        (drop_all-kept handles x.handle s e, drop_all-All handles rest s a)

  module _ (contract : Contract inner) where
    abort_all-requested :
        (handles : List (Tracked inner)) (s : State inner)
        → All contract.requested handles (abort_all inner handles s).world
    unfolding abort_all
    abort_all-requested [] s = tt
    abort_all-requested (h ∷ rest) s =
        let t : State inner = record s { world = inner.abort h.handle s.world } in
        (
          abort_all-kept contract.requested contract.requested-Kept rest h.handle t
              (contract.requested-abort h.handle s.world),
          abort_all-requested rest t,
        )

    drop_all-released :
        (handles : List (Tracked inner)) (s : State inner)
        → All contract.released handles (drop_all inner handles s).world
    unfolding drop_all
    drop_all-released [] s = tt
    drop_all-released (h ∷ rest) s =
        let t : State inner = record s { world = inner.drop_handle h.handle s.world } in
        (
          drop_all-kept contract.released contract.released-Kept rest h.handle t
              (contract.released-drop_handle h.handle s.world),
          drop_all-released rest t,
        )

    -- The handles of the executor are aborted and dropped, in any state.
    pub drop_executor-marked :
        (s : State inner)
        → All contract.requested s.task_handles (drop_executor inner s).world
          × All contract.released s.task_handles (drop_executor inner s).world
    unfolding drop_executor
    drop_executor-marked s = (
      drop_all-All contract.requested contract.requested-Kept s.task_handles s.task_handles
          (abort_all inner s.task_handles s) (abort_all-requested s.task_handles s),
      drop_all-released s.task_handles (abort_all inner s.task_handles s),
    )

    -- The handles that the loop had stay dropped.
    pub drop_all-drop_executor-released :
        (handles : List (Tracked inner)) (s : State inner)
        → All contract.released handles (drop_executor inner (drop_all inner handles s)).world
    unfolding drop_executor
    drop_all-drop_executor-released handles s =
        let t = drop_all inner handles s in
        drop_all-All contract.released contract.released-Kept t.task_handles handles
          (abort_all inner t.task_handles t)
          (abort_all-All contract.released contract.released-Kept t.task_handles handles t
            (drop_all-released handles s))

    pub task_handles-drop_all :
        (handles : List (Tracked inner)) (s : State inner)
        → (drop_all inner handles s).task_handles ≡ s.task_handles
    unfolding drop_all
    task_handles-drop_all [] s = refl
    task_handles-drop_all (h ∷ rest) s =
        task_handles-drop_all rest (record s { world = inner.drop_handle h.handle s.world })
