-- ===== src/ExecutorScope/Joining.antt =====
-- `executor_scope` of src/scoped.rs: it waits for every task, or aborts it.
use async_rt.Prelude.{
  ℕ, ◌+◌, ◌≤◌, Bool, true, false, ltb, ◌==◌, List, [], ◌∷◌, ◌++◌, ◌≡◌, refl, ap, subst, ◌&&◌, arith,
  Poll, ready, pending,
}
use async_rt.Abortable.Ownership.{one_if, times, times-append, started-suc}
use async_rt.ExecutorScope.{
  Inner, Tracked, State, Phase, running, joining, PolledScope, spawn_tracked, spawn_all,
  after_handle, join_all, after_user, poll_scope, drop_all, drop_executor, drop_scope, after_scope,
  polls, new,
}
use async_rt.ExecutorScope.Aborting.{
  Contract, All, drop_executor-marked, drop_all-drop_executor-released, task_handles-drop_all,
}

module _ (inner : Inner) (n : ℕ) where
  open inner use {World, Task, User, Output}

  -- How many of the handles have the number `n`.
  held : List (Tracked inner) → ℕ
  held [] = 0
  held (h ∷ rest) = one_if (h.number == n) + held rest

  held-append : (xs ys : List (Tracked inner)) → held (xs ++ ys) ≡ held xs + held ys
  unfolding held
  held-append [] ys = omega arith
  held-append (x ∷ xs) ys = omega (arith, held-append xs ys)

  -- The task `n` is in one of these handles, or in the executor's, or has been joined, once.
  Accounted : List (Tracked inner) → State inner → Type 0
  Accounted handles s =
      held handles + (held s.task_handles + times n s.joined) ≡ one_if (ltb n s.spawned)

  spawn_all-Accounted :
      (tasks : List Task) (s : State inner)
      → Accounted [] s
      → Accounted [] (spawn_all inner tasks s)
  unfolding spawn_all spawn_tracked Accounted held
  spawn_all-Accounted [] s h = h
  spawn_all-Accounted (task ∷ rest) s h = spawn_all-Accounted rest (spawn_tracked inner task s) (
      omega (
        arith,
        h,
        held-append s.task_handles (
            record { number = s.spawned; handle = (inner.spawn_abortable task s.world).handle }
            ∷ []),
        started-suc n s.spawned,
      ))

  -- The handles of the loop.
  abbrev pub looping : Phase inner → List (Tracked inner)
  looping (running user) = []
  looping (joining handles output) = handles

  -- What a poll leaves: no handle is left in the executor during the loop, nor in the loop at its end.
  Emptied : PolledScope inner → Phase inner → Poll Output → Type 0
  Emptied r phase pending = Unit {0}
  Emptied r phase (ready output) = times n r.state.joined ≡ one_if (ltb n r.state.spawned)

  Drained : Phase inner → State inner → Type 0
  Drained (running user) s = Unit {0}
  Drained (joining handles output) s = s.task_handles ≡ []

  Polled : PolledScope inner → Type 0
  Polled r =
      Accounted (looping r.phase) r.state × Drained r.phase r.state × Emptied r r.phase r.poll

  join_all-Polled :
      (handles : List (Tracked inner)) (output : Output) (s : State inner)
      → Accounted handles s
      → s.task_handles ≡ []
      → Polled (join_all inner handles output s)
  unfolding join_all after_handle Polled Accounted held Emptied Drained
  join_all-Polled [] output s h e = (h, e, omega (arith, h, ap held e))
  join_all-Polled (x ∷ rest) output s h e = go (inner.poll_handle x.handle s.world).is_ready (
      join_all-Polled rest output after (omega (arith, h, times-append n s.joined (x.number ∷ [])))
        e)
    where
      polled : State inner
      polled = record s { world = (inner.poll_handle x.handle s.world).world }

      kept : Tracked inner
      kept = record x { handle = (inner.poll_handle x.handle s.world).handle }

      after : State inner
      after = record s {
        world = inner.drop_handle kept.handle polled.world;
        joined = s.joined ++ (x.number ∷ []);
      }

      go :
          (b : Bool)
          → Polled (join_all inner rest output after)
          → Polled (after_handle inner (join_all inner rest output) b kept rest output polled)
      go true next = next
      go false next = (h, e, tt)

  after_user-Polled :
      (p : Poll Output) (user : User) (s : State inner)
      → Accounted [] s
      → Polled (after_user inner p user s)
  unfolding after_user Polled Accounted held Emptied Drained
  after_user-Polled (ready output) user s h =
      join_all-Polled s.task_handles output (record s { task_handles = [] }) (omega (arith, h)) refl
  after_user-Polled pending user s h = (h, tt, tt)

  poll_scope-Polled :
      (phase : Phase inner) (s : State inner)
      → Accounted (looping phase) s
      → Drained phase s
      → Polled (poll_scope inner phase s)
  unfolding poll_scope Drained Accounted
  poll_scope-Polled (running user) s h e =
      let r = inner.poll_user user s.world in
      after_user-Polled r.poll r.user (spawn_all inner r.spawned (record s { world = r.world }))
        (spawn_all-Accounted r.spawned (record s { world = r.world }) h)
  poll_scope-Polled (joining handles output) s h e = join_all-Polled handles output s h e

  Drained-world :
      (phase : Phase inner) (s : State inner) (w : World)
      → Drained phase s
      → Drained phase (record s { world = w })
  unfolding Drained
  Drained-world (running user) s w d = d
  Drained-world (joining handles output) s w d = d

  polls-Polled : (ws : List World) (p : PolledScope inner) → Polled p → Polled (polls inner ws p)
  unfolding polls after_scope Polled Accounted
  polls-Polled [] p h = h
  polls-Polled (w ∷ ws) p (a, d, e) =
      let s : State inner = record (p.state) { world = w } in
      let first = poll_scope-Polled p.phase s a (Drained-world p.phase p.state w d) in
      go (poll_scope inner p.phase s) (poll_scope inner p.phase s).poll
        (polls-Polled ws (poll_scope inner p.phase s) first) first
    where
      go :
          (r : PolledScope inner) (x : Poll Output)
          → Polled (polls inner ws r)
          → Polled r
          → Polled (elim x [ ready output ↦ r | pending ↦ polls inner ws r ])
      go r (ready output) rest now = now
      go r pending rest now = rest

  new-Polled : (user : User) (w : World) → Polled (new inner user w)
  unfolding new Polled Accounted held Drained Emptied
  new-Polled user w = (ground arith, tt, tt)

  -- What a ready `executor_scope` has done.
  abbrev pub Joined : Poll Output → State inner → Type 0
  Joined (ready output) s = times n s.joined ≡ one_if (ltb n s.spawned)
  Joined pending s = times n s.joined ≤ one_if (ltb n s.spawned)

  -- How many of the handles have the number `n` and a mark.
  abbrev pub marked : (Tracked inner → Bool) → List (Tracked inner) → ℕ
  marked mark [] = 0
  marked mark (h ∷ rest) = one_if (h.number == n && mark h) + marked mark rest

  marked-All :
      (mark : inner.Handle → World → Bool) (handles : List (Tracked inner)) (w : World)
      → All inner mark handles w
      → marked (λ h. mark h.handle w) handles ≡ held handles
  unfolding held
  marked-All mark [] w a = refl
  marked-All mark (h ∷ rest) w (e, a) = grind (arith, e, marked-All mark rest w a)

  marked-All-both :
      (mark other : inner.Handle → World → Bool) (handles : List (Tracked inner)) (w : World)
      → All inner mark handles w
      → All inner other handles w
      → marked (λ h. mark h.handle w && other h.handle w) handles ≡ held handles
  unfolding held
  marked-All-both mark other [] w a b = refl
  marked-All-both mark other (h ∷ rest) w (e, a) (f, b) =
      grind (arith, e, f, marked-All-both mark other rest w a b)

  -- What a drop in a phase and a state leaves, with the world after it: a task that was spawned has been
  -- joined, or its handle was in the loop and has been dropped, or it was in the executor and has been
  -- aborted and dropped.
  abbrev pub Settled : Contract inner → Phase inner → State inner → World → Type 0
  Settled contract phase s w =
      times n s.joined
        + (marked (λ h. contract.released h.handle w) (looping phase)
            + marked (λ h. contract.requested h.handle w && contract.released h.handle w)
                s.task_handles)
      ≡ one_if (ltb n s.spawned)

  drop_scope-Settled :
      (contract : Contract inner) (phase : Phase inner) (s : State inner)
      → Accounted (looping phase) s
      → Settled contract phase s (drop_scope inner phase s).world
  unfolding drop_scope Accounted held
  drop_scope-Settled contract (running user) s h =
      let (a, b) = drop_executor-marked inner contract s in
      let w = (drop_executor inner s).world in
      omega (arith, h, marked-All-both contract.requested contract.released s.task_handles w a b)
  drop_scope-Settled contract (joining handles output) s h =
      let t = drop_all inner handles s in
      let w = (drop_executor inner t).world in
      let same = task_handles-drop_all inner contract handles s in
      let (a, b) = drop_executor-marked inner contract t in
      omega (
        arith,
        h,
        marked-All contract.released handles w
            (drop_all-drop_executor-released inner contract handles s),
        marked-All-both contract.requested contract.released s.task_handles w
            (subst (λ hs. All inner contract.requested hs w) same a)
            (subst (λ hs. All inner contract.released hs w) same b),
      )

  -- With handles that keep the contract on `abort` and on the drop of the last reference, dropping the
  -- future of `executor_scope` after any polls leaves every task that was spawned through it, once:
  -- waited for, or with its handle dropped if the loop had it, or with its handle aborted and dropped if
  -- the executor had it.
  pub drop_scope-Aborted :
      (contract : Contract inner) (ws : List World) (user : User) (w : World)
      → let r = polls inner ws (new inner user w) in
        Settled contract r.phase r.state (drop_scope inner r.phase r.state).world
  unfolding Polled
  drop_scope-Aborted contract ws user w =
      let r = polls inner ws (new inner user w) in
      drop_scope-Settled contract r.phase r.state
        (polls-Polled ws (new inner user w) (new-Polled user w)).0
