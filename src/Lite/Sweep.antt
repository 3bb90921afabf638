-- ===== src/Lite/Sweep.antt =====
-- The inner loop of `LiteRuntimeExecutor::block_on` (src/rt/lite.rs): the loop that polls in place and
-- removes by `swap_remove`, against a plain pass over the tasks.
use mathlib.Core.List.{append_assoc}
use mathlib.Core.List.Perm
use async_rt.Prelude.{
  ℕ, zero, suc, Bool, true, false, ◌||◌, if◌then◌else◌, some, List, [], ◌∷◌, ◌++◌, length,
  get_elem?, set, Perm, ◌≡◌, refl, sym, ap, ◌∙◌, inl, inr, arith, Bool-cases, length-append,
  get_elem?-append, set-append,
}
use async_rt.Lite.{
  Host, Executor, Progress, last_or, drop_last, swap_remove, spawn_all, poll_at, next_index, sweep,
  spawn,
}

-- What `swap_remove` leaves of the tasks from the removed one on.
abbrev rotated {ℓ} : {A : Type ℓ} → List A → List A
rotated [] = []
rotated (y ∷ ys) = last_or y ys ∷ drop_last (y ∷ ys)

drop_last-last_or-perm {ℓ} :
    {A : Type ℓ} (y : A) (ys : List A) → Perm (last_or y ys ∷ drop_last (y ∷ ys)) (y ∷ ys)
unfolding last_or drop_last
drop_last-last_or-perm y [] = Perm.refl (y ∷ [])
drop_last-last_or-perm y (z ∷ ys) =
    Perm.trans (Perm.swap y (last_or z ys) (drop_last (z ∷ ys)))
      (Perm.cons y (drop_last-last_or-perm z ys))

rotated-perm {ℓ} : {A : Type ℓ} (ys : List A) → Perm (rotated ys) ys
rotated-perm [] = Perm.refl []
rotated-perm (y ∷ ys) = drop_last-last_or-perm y ys

length-drop_last {ℓ} : {A : Type ℓ} (y : A) (ys : List A) → length (drop_last (y ∷ ys)) ≡ length ys
unfolding drop_last
length-drop_last y [] = refl
length-drop_last y (z ∷ ys) = ap suc (length-drop_last z ys)

length-rotated {ℓ} : {A : Type ℓ} (ys : List A) → length (rotated ys) ≡ length ys
length-rotated [] = refl
length-rotated (y ∷ ys) = ap suc (length-drop_last y ys)

module _ {ℓ} {A : Type ℓ} where
  last_or-append :
      (d : A) (xs : List A) (y : A) (ys : List A) → last_or d (xs ++ (y ∷ ys)) ≡ last_or y ys
  unfolding last_or
  last_or-append d [] y ys = refl
  last_or-append d (x ∷ xs) y ys = last_or-append x xs y ys

  drop_last-append :
      (xs : List A) (y : A) (ys : List A) → drop_last (xs ++ (y ∷ ys)) ≡ xs ++ drop_last (y ∷ ys)
  unfolding drop_last
  drop_last-append [] y ys = refl
  drop_last-append (x ∷ []) y ys = refl
  drop_last-append (x ∷ z ∷ xs) y ys = ap (◌∷◌ x) (drop_last-append (z ∷ xs) y ys)

  swap_remove-eq :
      (xs : List A) (i : ℕ) (y : A) (ys : List A)
      → swap_remove (xs ++ (y ∷ ys)) i ≡ drop_last (set (xs ++ (y ∷ ys)) i (last_or y ys))
  unfolding swap_remove last_or
  swap_remove-eq [] i y ys = refl
  swap_remove-eq (x ∷ xs) i y ys =
      ap (λ v. drop_last (set (x ∷ xs ++ (y ∷ ys)) i v)) (last_or-append x xs y ys)

  drop_last-rotated : (y : A) (ys : List A) → drop_last (last_or y ys ∷ ys) ≡ rotated ys
  unfolding drop_last last_or
  drop_last-rotated y [] = refl
  drop_last-rotated y (z ∷ ys) = refl

  -- Removing in the middle keeps what stands before, and rotates what stands behind.
  swap_remove-append :
      (xs : List A) (y : A) (ys : List A)
      → swap_remove (xs ++ (y ∷ ys)) (length xs) ≡ xs ++ rotated ys
  swap_remove-append xs y ys =
      swap_remove-eq xs (length xs) y ys
      ∙ ap drop_last (set-append xs y ys (last_or y ys))
      ∙ drop_last-append xs (last_or y ys) ys
      ∙ ap (◌++◌ xs) (drop_last-rotated y ys)

-- The plain pass: each task is polled once, in the order of the list.
pub record Pass (host : Host) : Type 0 where
  pub world : host.World
  pub survivors : List host.Task
  pub spawned : List host.Task
  pub completed : Bool

module _ (host : Host) where
  pub pass : List host.Task → host.World → Pass host
  pass [] world = record { world = world; survivors = []; spawned = []; completed = false }
  pass (task ∷ tasks) world =
      let r = host.poll_task task world in
      let q = pass tasks r.world in
      record {
        world = q.world;
        survivors = if r.is_ready then q.survivors else r.rest ∷ q.survivors;
        spawned = r.spawned ++ q.spawned;
        completed = r.is_ready || q.completed;
      }

  spawn_all-append :
      (ex : Executor host) (xs ys : List host.Task)
      → spawn_all host ex (xs ++ ys) ≡ spawn_all host (spawn_all host ex xs) ys
  unfolding spawn_all
  spawn_all-append ex [] ys = refl
  spawn_all-append ex (x ∷ xs) ys = spawn_all-append (spawn host ex x) xs ys

  -- `r` is what a pass over `order` makes of `p`, where `tasks` were still to be polled.
  pub record Swept (p r : Progress host) (before tasks : List host.Task) : Type 0 where
    pub order : List host.Task
    pub once : Perm order tasks
    pub tasks_left : r.tasks ≡ before ++ (pass order p.world).survivors
    pub executor : r.executor ≡ spawn_all host p.executor (pass order p.world).spawned
    pub world : r.world ≡ (pass order p.world).world
    pub progress : r.made_progress ≡ (pass order p.world).completed || p.made_progress

  sweep_at :
      (n index : ℕ) (task : host.Task) (p : Progress host)
      → get_elem? p.tasks index ≡ some task
      → sweep host (suc n) index p
        ≡ sweep host n (next_index host index task p) (poll_at host index task p)
  unfolding sweep
  sweep_at n index task p e = rw (e, sweep)

  poll_at_ready :
      (before tasks : List host.Task) (task : host.Task) (p : Progress host)
      → p.tasks ≡ before ++ (task ∷ tasks)
      → (host.poll_task task p.world).is_ready ≡ true
      → (poll_at host (length before) task p).tasks ≡ before ++ rotated tasks
  unfolding poll_at
  poll_at_ready before tasks task p e h = rw (h, e) (swap_remove-append before task tasks)

  poll_at_pending :
      (before tasks : List host.Task) (task : host.Task) (p : Progress host)
      → p.tasks ≡ before ++ (task ∷ tasks)
      → (host.poll_task task p.world).is_ready ≡ false
      → (poll_at host (length before) task p).tasks
        ≡ (before ++ ((host.poll_task task p.world).rest ∷ [])) ++ tasks
  unfolding poll_at
  poll_at_pending before tasks task p e h =
      rw (h, e)
        (set-append before task tasks (host.poll_task task p.world).rest
          ∙ sym (append_assoc before _ tasks))

  next_index_ready :
      (i : ℕ) (task : host.Task) (p : Progress host)
      → (host.poll_task task p.world).is_ready ≡ true
      → next_index host i task p ≡ i
  unfolding next_index
  next_index_ready i task p h = rw h

  next_index_pending :
      (before : List host.Task) (x task : host.Task) (p : Progress host)
      → (host.poll_task task p.world).is_ready ≡ false
      → next_index host (length before) task p ≡ length (before ++ (x ∷ []))
  unfolding next_index
  next_index_pending before x task p h = rw h (omega (arith, length-append before (x ∷ [])))

  Swept-nil :
      (p : Progress host) (before : List host.Task) → p.tasks ≡ before ++ [] → Swept p p before []
  unfolding pass spawn_all
  Swept-nil p before e = record {
    order = [];
    once = Perm.refl [];
    tasks_left = e;
    executor = refl;
    world = refl;
    progress = refl;
  }

  Swept-ready :
      (p r : Progress host) (before tasks : List host.Task) (task : host.Task)
      → (host.poll_task task p.world).is_ready ≡ true
      → Swept (poll_at host (length before) task p) r before (rotated tasks)
      → Swept p r before (task ∷ tasks)
  unfolding pass poll_at
  Swept-ready p r before tasks task h s = record {
    order = task ∷ s.order;
    once = Perm.cons task (Perm.trans s.once (rotated-perm tasks));
    tasks_left = rw h s.tasks_left;
    executor = s.executor ∙ sym (spawn_all-append p.executor _ _);
    world = s.world;
    progress = ground (arith, s.progress);
  }

  Swept-pending :
      (p r : Progress host) (before tasks : List host.Task) (task : host.Task)
      → (host.poll_task task p.world).is_ready ≡ false
      → Swept
          (poll_at host (length before) task p)
          r
          (before ++ ((host.poll_task task p.world).rest ∷ []))
          tasks
      → Swept p r before (task ∷ tasks)
  unfolding pass poll_at
  Swept-pending p r before tasks task h s = record {
    order = task ∷ s.order;
    once = Perm.cons task s.once;
    tasks_left = rw h (s.tasks_left ∙ append_assoc before _ _);
    executor = s.executor ∙ sym (spawn_all-append p.executor _ _);
    world = s.world;
    progress = ground (arith, s.progress);
  }

  -- `sweep`, with as much fuel as there are tasks to poll, is a pass over a permutation of them.
  pub sweep-Swept :
      (n : ℕ) (p : Progress host) (before tasks : List host.Task)
      → length tasks ≡ n
      → p.tasks ≡ before ++ tasks
      → Swept p (sweep host n (length before) p) before tasks
  unfolding sweep
  sweep-Swept zero p before [] l e = Swept-nil p before e
  sweep-Swept zero p before (t ∷ ts) l e = absurd (omega arith)
  sweep-Swept (suc n) p before [] l e = absurd (omega arith)
  sweep-Swept (suc n) p before (t ∷ ts) l e =
      rw
        (sweep_at n (length before) t p
          (ap (λ xs. get_elem? xs (length before)) e ∙ get_elem?-append before (t ∷ ts)))
        (elim (Bool-cases (host.poll_task t p.world).is_ready) [
          | inl h ↦ rw (next_index_ready (length before) t p h) (
              Swept-ready p _ before ts t h (
                sweep-Swept n (poll_at host (length before) t p) before (rotated ts)
                  (omega (arith, length-rotated ts)) (poll_at_ready before ts t p e h)))
          | inr h ↦ rw (next_index_pending before (host.poll_task t p.world).rest t p h) (
              Swept-pending p _ before ts t h (
                sweep-Swept n (poll_at host (length before) t p)
                  (before ++ ((host.poll_task t p.world).rest ∷ [])) ts (omega arith)
                  (poll_at_pending before ts t p e h)))
        ])
