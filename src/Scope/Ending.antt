-- ===== src/Scope/Ending.antt =====
-- `drive_scope` of src/scoped.rs ends, if the tasks push no more than a budget.
use async_rt.Prelude.{
  ℕ, zero, suc, ◌+◌, ◌*◌, ◌≤◌, ◌<◌, Bool, true, false, if◌then◌else◌, is_empty, Option, none, some,
  List, [], ◌∷◌, ◌++◌, length, ◌≡◌, refl, arith, Poll, ready, pending,
}
use async_rt.Scope.{
  count, Tasks, State, Driven, push, push_all, register, absorb, done, poll_next, meanwhile, look,
  after_poll, drive_loop,
}
use async_rt.Scope.Accounting.{count-append, Kept-count}

-- How many tasks the futures of a world still push, at most.
pub record Budget (tasks : Tasks) : Type 0 where
  pub left : tasks.World → ℕ
  pub poll_next-left :
      (active : tasks.Active) (w : tasks.World)
      → left (tasks.poll_next active w).world + length (tasks.poll_next active w).pushed ≤ left w
  pub meanwhile-left :
      (w : tasks.World)
      → left (tasks.meanwhile w).world + length (tasks.meanwhile w).pushed ≤ left w
  pub poll_user-left :
      (user : tasks.User) (w : tasks.World)
      → left (tasks.poll_user user w).world + length (tasks.poll_user user w).pushed ≤ left w

module _ (tasks : Tasks) (budget : Budget tasks) where
  open tasks use {World, Task, User, Output, members}
  open budget use {left}

  abbrev any : Task → Bool
  any task = true

  abbrev size : List Task → ℕ
  size = count any

  size-length : (ts : List Task) → size ts ≡ length ts
  size-length [] = refl
  size-length (task ∷ rest) = omega (arith, size-length rest)

  -- Twice what may still be pushed, and the tasks in the scope.
  abbrev pub weight : State tasks → ℕ
  weight s = 2 * left s.world + (size s.inbox + size (members s.active))

  pub push_all-weight :
      (ts : List Task) (s : State tasks)
      → (weight (push_all tasks ts s) ≡ weight s + length ts)
        × (size (push_all tasks ts s).inbox ≡ size s.inbox + length ts)
  unfolding push_all push
  push_all-weight [] s = (omega arith, omega arith)
  push_all-weight (task ∷ rest) s =
      let (w, i) = push_all-weight rest (push tasks task s) in
      let one = count-append any s.inbox (task ∷ []) in
      (omega (arith, w, one), omega (arith, i, one))

  absorb-weight :
      (s : State tasks)
      → (weight (absorb tasks (register tasks s)) ≡ weight s)
        × (size (absorb tasks (register tasks s)).inbox ≡ 0)
  unfolding absorb register
  absorb-weight s = (omega (arith, tasks.members-extend any s.active s.inbox), refl)

  poll_next-weight :
      (s : State tasks)
      → weight (poll_next tasks s).state
          + (size (done tasks (poll_next tasks s).poll) + size (poll_next tasks s).state.inbox)
        ≤ weight s + size s.inbox
  unfolding poll_next
  poll_next-weight s =
      let r = tasks.poll_next s.active s.world in
      let (w, i) = push_all-weight r.pushed (record s {
        active = r.active;
        world = r.world;
        completed = s.completed ++ done tasks r.poll;
      }) in
      omega (
        arith,
        w,
        i,
        budget.poll_next-left s.active s.world,
        Kept-count tasks any r.poll (members s.active) (members r.active)
            (tasks.poll_next-Kept any s.active s.world),
      )

  meanwhile-weight :
      (s : State tasks)
      → weight (meanwhile tasks (register tasks s))
          + size (meanwhile tasks (register tasks s)).inbox
        ≤ weight s + size s.inbox
  unfolding meanwhile register
  meanwhile-weight s =
      let r = tasks.meanwhile s.world in
      let (w, i) = push_all-weight r.pushed (record (register tasks s) { world = r.world }) in
      omega (arith, w, i, budget.meanwhile-left s.world)

  unfoldable pub gain : Bool → ℕ
  gain made_progress = if made_progress then 1 else 0

  -- A loop that ends, with at most `bound` left, and less if it has made progress only now.
  unfoldable pub Ended : Bool → ℕ → Option (Driven tasks) → Type 0
  Ended made bound none = ⊥
  Ended true bound (some d) = weight d.state ≤ bound
  Ended false bound (some d) = weight d.state + gain d.made_progress ≤ bound

  Ended-weaken :
      (made : Bool) (a b : ℕ) (o : Option (Driven tasks)) → a ≤ b → Ended made a o → Ended made b o
  unfolding Ended
  Ended-weaken made a b none le h = h
  Ended-weaken true a b (some d) le h = omega (arith, le, h)
  Ended-weaken false a b (some d) le h = omega (arith, le, h)

  Ended-progress :
      (made : Bool) (a b : ℕ) (o : Option (Driven tasks)) → a < b → Ended true a o → Ended made b o
  unfolding Ended gain
  Ended-progress made a b none le h = h
  Ended-progress true a b (some d) le h = omega (arith, le, h)
  Ended-progress false a b (some d) le h = go d.made_progress
    where
      go : (m : Bool) → weight d.state + (if m then 1 else 0) ≤ b
      go true = omega (arith, le, h)
      go false = omega (arith, le, h)

  nonempty : (ts : List Task) → is_empty ts ≡ false → 1 ≤ size ts
  nonempty [] h = cc
  nonempty (task ∷ rest) h = omega arith

  look-Ended :
      (next : Bool → State tasks → Option (Driven tasks)) (made empty : Bool) (s : State tasks)
      (bound : ℕ)
      → ((m : Bool) (t : State tasks) → weight t < bound → Ended m (weight t) (next m t))
      → weight s + size s.inbox ≤ bound
      → Ended made bound (look tasks next made empty s)
  unfolding look Ended gain
  look-Ended next made empty s bound rest h = go (is_empty t.inbox) refl
    where
      t : State tasks
      t = meanwhile tasks (register tasks s)

      told : Driven tasks
      told = record { made_progress = made; empty = empty; state = t }

      fits : weight t + size t.inbox ≤ bound
      fits = omega (arith, meanwhile-weight s, h)

      stops : (m : Bool) → made ≡ m → Ended m bound (some told)
      stops true e = omega (arith, fits)
      stops false e = rw e (omega (arith, fits))

      go :
          (b : Bool)
          → is_empty t.inbox ≡ b
          → Ended made bound (if b then some told else next made t)
      go true e = stops made refl
      go false e =
          let lighter : weight t < bound = omega (arith, fits, nonempty t.inbox e) in
          Ended-weaken made (weight t) bound (next made t) (omega (arith, lighter))
            (rest made t lighter)

  after_poll-Ended :
      (next : Bool → State tasks → Option (Driven tasks)) (made : Bool) (p : Poll (Option Task))
      (s : State tasks) (bound : ℕ)
      → ((m : Bool) (t : State tasks) → weight t < bound → Ended m (weight t) (next m t))
      → weight s + (size (done tasks p) + size s.inbox) ≤ bound
      → Ended made bound (after_poll tasks next made p s)
  unfolding after_poll done
  after_poll-Ended next made (ready (some task)) s bound rest h =
      let lighter : weight s < bound = omega (arith, h) in
      Ended-progress made (weight s) bound (next true s) lighter (rest true s lighter)
  after_poll-Ended next made (ready none) s bound rest h =
      look-Ended next made true s bound rest (omega (arith, h))
  after_poll-Ended next made pending s bound rest h =
      look-Ended next made false s bound rest (omega (arith, h))

  pub drive_loop-Ended :
      (fuel : ℕ) (made : Bool) (s : State tasks)
      → weight s < fuel
      → Ended made (weight s) (drive_loop tasks fuel made s)
  unfolding drive_loop Ended
  drive_loop-Ended zero made s h = omega (arith, h)
  drive_loop-Ended (suc fuel) made s h =
      let t = absorb tasks (register tasks s) in
      let r = poll_next tasks t in
      let (same, nothing) = absorb-weight s in
      after_poll-Ended (drive_loop tasks fuel) made r.poll r.state (weight s)
        (λ m u lighter. drive_loop-Ended fuel m u (omega (arith, lighter, h)))
        (omega (arith, same, nothing, poll_next-weight t))
