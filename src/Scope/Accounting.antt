-- ===== src/Scope/Accounting.antt =====
-- `scope` of src/scoped.rs: no task is lost, and none is left behind.
use async_rt.Prelude.{
  ℕ, zero, suc, ◌+◌, Bool, true, false, if◌then◌else◌, is_empty, Option, none, some, List, [], ◌∷◌,
  ◌++◌, ◌≡◌, ◌≢◌, refl, ◌∙◌, arith, Poll, ready, pending, Bool-cases, inl, inr,
}
use async_rt.Scope.{
  count, Kept, Tasks, State, Driven, push, push_all, register, absorb, done, poll_next, meanwhile,
  look, after_poll, drive_loop,
}

pub count-append :
    {A : Type 0} (test : A → Bool) (xs ys : List A)
    → count test (xs ++ ys) ≡ count test xs + count test ys
count-append test [] ys = omega arith
count-append test (x ∷ xs) ys = elim (Bool-cases (test x)) [
  | inl e ↦ rw e (omega (arith, count-append test xs ys))
  | inr e ↦ rw e (count-append test xs ys)
]

module _ (tasks : Tasks) (test : tasks.Task → Bool) where
  open tasks use {World, Task, User, Output, members}

  -- The tasks in the scope.
  abbrev pub held : State tasks → ℕ
  held s = count test s.inbox + count test (members s.active)

  -- Every task that has been pushed has completed, once, or is in the scope, once.
  abbrev pub Accounted : State tasks → Type 0
  Accounted s = count test s.spawned ≡ count test s.completed + held s

  push-Accounted : (task : Task) (s : State tasks) → Accounted s → Accounted (push tasks task s)
  unfolding push
  push-Accounted task s h =
      omega
        (arith, h, count-append test s.spawned (task ∷ []), count-append test s.inbox (task ∷ []))

  pub push_all-Accounted :
      (ts : List Task) (s : State tasks) → Accounted s → Accounted (push_all tasks ts s)
  unfolding push_all
  push_all-Accounted [] s h = h
  push_all-Accounted (task ∷ rest) s h =
      push_all-Accounted rest (push tasks task s) (push-Accounted task s h)

  absorb-Accounted : (s : State tasks) → Accounted s → Accounted (absorb tasks (register tasks s))
  unfolding absorb register
  absorb-Accounted s h = omega (arith, h, tasks.members-extend test s.active s.inbox)

  pub Kept-count :
      (p : Poll (Option Task)) (before after : List Task)
      → Kept test p before after
      → count test before ≡ count test (done tasks p) + count test after
  unfolding done
  Kept-count (ready (some task)) before after k = k ∙ count-append test (task ∷ []) after
  Kept-count (ready none) before after (b, a) = rw (b, a) refl
  Kept-count pending before after (b, k) = omega (arith, k)

  poll_next-Accounted : (s : State tasks) → Accounted s → Accounted (poll_next tasks s).state
  unfolding poll_next
  poll_next-Accounted s h =
      let r = tasks.poll_next s.active s.world in
      push_all-Accounted r.pushed
        (record s {
          active = r.active;
          world = r.world;
          completed = s.completed ++ done tasks r.poll;
        })
        (omega (
          arith,
          h,
          count-append test s.completed (done tasks r.poll),
          Kept-count r.poll (members s.active) (members r.active)
              (tasks.poll_next-Kept test s.active s.world),
        ))

  meanwhile-Accounted :
      (s : State tasks) → Accounted s → Accounted (meanwhile tasks (register tasks s))
  unfolding meanwhile register
  meanwhile-Accounted s h =
      let r = tasks.meanwhile s.world in
      push_all-Accounted r.pushed (record (register tasks s) { world = r.world }) h

  -- Whether the set of futures is empty, as it is told.
  abbrev pub Left : Bool → State tasks → Type 0
  Left true s = members s.active ≡ []
  Left false s = members s.active ≢ []

  -- What `drive_scope` returns: no task is lost, the inbox is empty, and so is the set, if it says so.
  abbrev pub Settled : Option (Driven tasks) → Type 0
  Settled none = Unit {0}
  Settled (some d) = Accounted d.state × (d.state.inbox ≡ []) × Left d.empty d.state

  push_all-active : (ts : List Task) (s : State tasks) → (push_all tasks ts s).active ≡ s.active
  unfolding push_all push
  push_all-active [] s = refl
  push_all-active (task ∷ rest) s = push_all-active rest (push tasks task s)

  meanwhile-active : (s : State tasks) → (meanwhile tasks (register tasks s)).active ≡ s.active
  unfolding meanwhile register
  meanwhile-active s =
      let r = tasks.meanwhile s.world in
      push_all-active r.pushed (record (register tasks s) { world = r.world })

  Left-subst :
      (empty : Bool) (s t : State tasks) → t.active ≡ s.active → Left empty s → Left empty t
  Left-subst true s t same h = rw same h
  Left-subst false s t same h = rw same h

  is_empty-nil : (xs : List Task) → is_empty xs ≡ true → xs ≡ []
  is_empty-nil [] h = refl
  is_empty-nil (x ∷ xs) h = cc

  look-Settled :
      (next : Bool → State tasks → Option (Driven tasks)) (made empty : Bool) (s : State tasks)
      → ((m : Bool) (t : State tasks) → Accounted t → Settled (next m t))
      → Accounted s
      → Left empty s
      → Settled (look tasks next made empty s)
  unfolding look
  look-Settled next made empty s rest h left = go (is_empty t.inbox) refl
    where
      t : State tasks
      t = meanwhile tasks (register tasks s)

      go :
          (b : Bool)
          → is_empty t.inbox ≡ b
          → Settled (
              if b
              then some (record { made_progress = made; empty = empty; state = t })
              else next made t)
      go true e = (
        meanwhile-Accounted s h,
        is_empty-nil t.inbox e,
        Left-subst empty s t (meanwhile-active s) left,
      )
      go false e = rest made t (meanwhile-Accounted s h)

  -- After a poll of the set.
  Polled : Poll (Option Task) → State tasks → Type 0
  Polled (ready (some task)) s = Unit {0}
  Polled (ready none) s = Left true s
  Polled pending s = Left false s

  poll_next-Polled : (s : State tasks) → Polled (poll_next tasks s).poll (poll_next tasks s).state
  unfolding poll_next Polled
  poll_next-Polled s =
      go (tasks.poll_next s.active s.world).poll (tasks.poll_next-Kept test s.active s.world)
    where
      after : State tasks
      after = (poll_next tasks s).state

      same : after.active ≡ (tasks.poll_next s.active s.world).active
      same =
          let r = tasks.poll_next s.active s.world in
          push_all-active r.pushed (record s {
            active = r.active;
            world = r.world;
            completed = s.completed ++ done tasks r.poll;
          })

      go :
          (p : Poll (Option Task))
          → Kept test p (members s.active) (members (tasks.poll_next s.active s.world).active)
          → Polled p after
      go (ready (some task)) k = tt
      go (ready none) (b, a) = rw same a
      go pending (a, k) = rw same a

  after_poll-Settled :
      (next : Bool → State tasks → Option (Driven tasks)) (made : Bool) (p : Poll (Option Task))
      (s : State tasks)
      → ((m : Bool) (t : State tasks) → Accounted t → Settled (next m t))
      → Accounted s
      → Polled p s
      → Settled (after_poll tasks next made p s)
  unfolding after_poll Polled
  after_poll-Settled next made (ready (some task)) s rest h q = rest true s h
  after_poll-Settled next made (ready none) s rest h q = look-Settled next made true s rest h q
  after_poll-Settled next made pending s rest h q = look-Settled next made false s rest h q

  pub drive_loop-Settled :
      (fuel : ℕ) (made : Bool) (s : State tasks)
      → Accounted s
      → Settled (drive_loop tasks fuel made s)
  unfolding drive_loop
  drive_loop-Settled zero made s h = tt
  drive_loop-Settled (suc fuel) made s h =
      let t = absorb tasks (register tasks s) in
      let r = poll_next tasks t in
      after_poll-Settled (drive_loop tasks fuel) made r.poll r.state (drive_loop-Settled fuel)
        (poll_next-Accounted t (absorb-Accounted s h)) (poll_next-Polled t)
