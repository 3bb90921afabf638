-- ===== src/Abortable/Examples.antt =====
-- Tests of the abortable handles, on the runtime of the tests of the join handles.
use async_rt.Prelude.{◌+◌, ltb, some, List, [], ◌∷◌, get_elem?, ◌≡◌, refl}
use async_rt.JoinHandle.Handle.{tokio, compio, abort}
use async_rt.JoinHandle.Examples.{numbers}
use async_rt.Abortable.{
  Detaching, Cell, Store, Use, starts, clones, drops, replaces, drop_handle, from, clone_cell,
  clone, release, drop_cell, drop_reference, put_handle, take_handle, move_handle, replace, new,
  happens, history,
}
use async_rt.Abortable.Dropping.{Dropped, Restored}
use async_rt.Abortable.Ownership.{one_if, times, held, new-Owned}
use async_rt.Abortable.Replacing.{Moved, replace-Moved}

-- A detached compio task is seen by the world 5.
abbrev detaches : Detaching numbers
detaches = record { compio_detach = λ h w. 5; smol_detach = λ s w. w }

-- A tokio task with two references and a compio task with one; the second replaces the first.
abbrev replaced_once : List (Use numbers)
replaced_once =
    starts (tokio numbers tt) ∷ clones 0 ∷ starts (compio numbers tt) ∷ replaces 0 1 ∷ drops 0 ∷ []

abbrev dropped : List (Use numbers)
dropped = starts (tokio numbers tt) ∷ clones 0 ∷ drops 0 ∷ drops 0 ∷ []

new-Owned_example :
    let s = history numbers detaches replaced_once (new numbers detaches 0) in
    (held numbers detaches 1 s.cells + (times 1 s.released + times 1 s.replaced)
      ≡ one_if (ltb 1 s.started))
    × Dropped numbers detaches 0 s (get_elem? s.cells 0) (drop_reference numbers detaches 0 s)
    × Restored numbers detaches 0 s (get_elem? s.cells 0)
new-Owned_example = new-Owned numbers detaches 1 replaced_once 0 0

-- The first handle has been replaced, and no task has been aborted.
replaced_once-replaced :
    (history numbers detaches replaced_once (new numbers detaches 0)).replaced ≡ 0 ∷ []
unfolding history happens from clone clone_cell replace drop_reference drop_cell release move_handle
    put_handle take_handle drop_handle new tokio compio
replaced_once-replaced = refl

-- The drop of the last reference aborts the tokio task, which sets the world to 9.
dropped-world : (history numbers detaches dropped (new numbers detaches 0)).world ≡ 9
unfolding history happens from clone clone_cell drop_reference drop_cell release drop_handle new
    tokio abort
dropped-world = refl

abbrev first : Cell numbers
first = record { references = 2; task = some 0; inner = compio numbers tt }

abbrev second : Cell numbers
second = record { references = 1; task = some 1; inner = tokio numbers tt }

abbrev two_cells : Store numbers
two_cells = record {
  cells = first ∷ second ∷ [];
  world = 0;
  started = 2;
  released = [];
  replaced = [];
  wakes = [];
}

replace-Moved_example :
    Moved numbers detaches 0 1 0 first second two_cells (replace numbers detaches 0 1 two_cells)
replace-Moved_example =
    replace-Moved numbers detaches 0 1 0 first second two_cells refl refl refl refl
