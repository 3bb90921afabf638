-- ===== src/Abortable.antt =====
-- src/lib.rs: `AbortableJoinHandle`. A value of it is the place of a `Cell` in a `Store`: the `Arc` with
-- its count of references and the `JoinHandle` in its mutex. Handles that are put into the store are
-- numbered; `released`, `replaced` and `wakes` note what is done to them and to the cells.
pub mod Dropping
pub mod Ownership
pub mod Replacing
mod Examples
use async_rt.Prelude.{
  ℕ, zero, suc, ◌+◌, Bool, true, false, if◌then◌else◌, ◌==◌, Option, none, some, List, [], ◌∷◌,
  ◌++◌, length, get_elem?, set, Poll,
}
use async_rt.JoinHandle.Runtimes.{Runtimes, JoinResult}
use async_rt.JoinHandle.Handle.{
  running, JoinHandle, tokio_handle, compio_handle, smol_handle, custom_handle, empty_handle, abort,
  is_finished,
}
use async_rt.JoinHandle.Joining.{poll}

-- What a drop uses of compio and async-task: a detached task runs on.
pub record Detaching (rt : Runtimes) : Type 0 where
  pub compio_detach : rt.CompioHandle → rt.World → rt.World
  pub smol_detach : rt.SmolSlot → rt.World → rt.World

-- `Arc<InnerHandle>`; `task` is the number of the handle, none for `JoinHandle::empty`.
pub record Cell (rt : Runtimes) : Type 0 where
  pub references : ℕ
  pub task : Option ℕ
  pub inner : JoinHandle rt

pub record Store (rt : Runtimes) : Type 0 where
  pub cells : List (Cell rt)
  pub world : rt.World
  pub started : ℕ
  pub released : List ℕ
  pub replaced : List ℕ
  pub wakes : List ℕ

-- What a method of a cell returns.
pub record Answered (rt : Runtimes) (A : Type 0) : Type 0 where
  pub answer : A
  pub store : Store rt

abbrev pub number : Option ℕ → List ℕ
number none = []
number (some n) = n ∷ []

module _ (rt : Runtimes) (detaching : Detaching rt) where
  open rt use {World, Output}

  -- The drop of a `JoinHandle`: `Drop` of `SmolTask` and of `InnerCompioHandle`.
  unfoldable pub drop_handle : JoinHandle rt → World → World
  drop_handle (compio_handle (running (some h)) requested) w = detaching.compio_detach h w
  drop_handle (smol_handle slot h) w = detaching.smol_detach slot w
  drop_handle _ w = w

  -- `From<JoinHandle>`.
  unfoldable pub from : JoinHandle rt → Store rt → Store rt
  from handle s = record s {
    cells = s.cells ++ (record { references = 1; task = some s.started; inner = handle } ∷ []);
    started = suc s.started;
  }

  -- `AbortableJoinHandle::empty`.
  unfoldable pub empty : Store rt → Store rt
  empty s = record s {
    cells = s.cells ++ (record { references = 1; task = none; inner = empty_handle } ∷ []);
  }

  -- A method on a cell; there is no reference to a cell that does not exist.
  abbrev pub with_cell : ℕ → (Cell rt → Store rt → Store rt) → Store rt → Store rt
  with_cell i method s = elim (get_elem? s.cells i) [ none ↦ s | some c ↦ method c s ]

  -- `Clone`.
  unfoldable pub clone_cell : ℕ → Cell rt → Store rt → Store rt
  clone_cell i c s = record s { cells = set s.cells i (record c { references = suc c.references }) }

  unfoldable pub clone : ℕ → Store rt → Store rt
  unfolding clone_cell
  clone i = with_cell i (clone_cell i)

  -- `Drop` of `InnerHandle`, and of its `JoinHandle`.
  unfoldable pub release : ℕ → Cell rt → Store rt → Store rt
  unfolding drop_handle
  release i c s =
      let r = abort rt c.inner s.world in
      record s {
        cells = set s.cells i (record { references = 0; task = none; inner = empty_handle });
        world = drop_handle r.handle r.world;
        released = s.released ++ number c.task;
      }

  -- The drop of a reference: the last one drops the `InnerHandle`.
  unfoldable pub drop_cell : ℕ → ℕ → Cell rt → Store rt → Store rt
  unfolding release
  drop_cell zero i c s = s
  drop_cell (suc zero) i c s = release i c s
  drop_cell (suc (suc n)) i c s = record s {
    cells = set s.cells i (record c { references = suc n });
  }

  unfoldable pub drop_reference : ℕ → Store rt → Store rt
  unfolding drop_cell
  drop_reference i = with_cell i (λ c. drop_cell c.references i c)

  -- `AbortableJoinHandle::abort`.
  unfoldable pub abort_cell : ℕ → Cell rt → Store rt → Store rt
  abort_cell i c s =
      let r = abort rt c.inner s.world in
      record s {
        cells = set s.cells i (record c { inner = r.handle });
        world = r.world;
        wakes = s.wakes ++ (i ∷ []);
      }

  unfoldable pub abort_task : ℕ → Store rt → Store rt
  unfolding abort_cell
  abort_task i = with_cell i (abort_cell i)

  -- `AbortableJoinHandle::is_finished`, and the store that it leaves.
  unfoldable pub check_cell : ℕ → Cell rt → Store rt → Answered rt Bool
  check_cell i c s =
      let r = is_finished rt c.inner s.world in
      record {
        answer = r.answer;
        store = record s { cells = set s.cells i (record c { inner = r.handle }); world = r.world };
      }

  unfoldable pub check : ℕ → Store rt → Store rt
  unfolding check_cell
  check i = with_cell i (λ c s. (check_cell i c s).store)

  -- `Future::poll`.
  unfoldable pub poll_cell : ℕ → Cell rt → Store rt → Answered rt (Poll (JoinResult Output))
  poll_cell i c s =
      let r = poll rt c.inner s.world in
      record {
        answer = r.poll;
        store = record s { cells = set s.cells i (record c { inner = r.handle }); world = r.world };
      }

  unfoldable pub poll_task : ℕ → Store rt → Store rt
  unfolding poll_cell
  poll_task i = with_cell i (λ c s. (poll_cell i c s).store)

  -- `replace`, with the handle that is taken out of `other`: it goes into the cell `i`.
  unfoldable pub put_handle : ℕ → Option ℕ → JoinHandle rt → Cell rt → Store rt → Store rt
  put_handle i task replacement c s = record s {
    cells = set s.cells i (record c { task = task; inner = replacement });
    world = drop_handle c.inner s.world;
    replaced = s.replaced ++ number c.task;
    wakes = s.wakes ++ (i ∷ []);
  }

  -- The handle of the cell `j` is taken out.
  unfoldable pub take_handle : ℕ → Cell rt → Store rt → Store rt
  take_handle j c s = record s {
    cells = set s.cells j (record c { task = none; inner = empty_handle });
    wakes = s.wakes ++ (j ∷ []);
  }

  unfoldable pub move_handle : ℕ → ℕ → Cell rt → Store rt → Store rt
  unfolding take_handle put_handle
  move_handle i j other =
      with_cell i (λ c s. put_handle i other.task other.inner c (take_handle j other s))

  -- `AbortableJoinHandle::replace` of `i` by `j`; the reference `j` is dropped when it returns.
  unfoldable pub replace : ℕ → ℕ → Store rt → Store rt
  unfolding move_handle drop_reference
  replace i j s =
      if i == j then drop_reference j s else drop_reference j (with_cell j (move_handle i j) s)

  unfoldable pub new : World → Store rt
  new w = record { cells = []; world = w; started = 0; released = []; replaced = []; wakes = [] }

-- What code does with its references.
pub data Use (rt : Runtimes) : Type 0 where
  starts : JoinHandle rt → Use rt
  makes_empty : Use rt
  clones : ℕ → Use rt
  drops : ℕ → Use rt
  aborts : ℕ → Use rt
  checks : ℕ → Use rt
  polls : ℕ → Use rt
  replaces : ℕ → ℕ → Use rt
  -- The runtime goes on.
  elsewhere : rt.World → Use rt

module _ (rt : Runtimes) (detaching : Detaching rt) where
  unfoldable pub happens : Use rt → Store rt → Store rt
  unfolding from empty clone drop_reference abort_task check poll_task replace
  happens (starts handle) = from rt detaching handle
  happens makes_empty = empty rt detaching
  happens (clones i) = clone rt detaching i
  happens (drops i) = drop_reference rt detaching i
  happens (aborts i) = abort_task rt detaching i
  happens (checks i) = check rt detaching i
  happens (polls i) = poll_task rt detaching i
  happens (replaces i j) = replace rt detaching i j
  happens (elsewhere w) = λ s. record s { world = w }

  unfoldable pub history : List (Use rt) → Store rt → Store rt
  unfolding happens
  history [] s = s
  history (u ∷ us) s = history us (happens u s)
