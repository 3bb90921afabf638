-- ===== src/Tracker/Counting.antt =====
-- src/tracker.rs: the counter counts.
use async_rt.Prelude.{
  ℕ, zero, suc, ◌+◌, ◌%◌, Option, none, some, List, [], ◌∷◌, ◌++◌, length, get_elem?, ◌≡◌, refl,
  arith, length-append,
}
use async_rt.Tracker.{
  usize_mod, Wrapped, future_counter, counter_drop, Tracker, fetch_add, fetch_sub, new, count,
  spawn, spawn_blocking, remove, drop_wrapped, Event, spawns, spawns_blocking, drops, happens,
  history,
}

length-remove :
    (xs : List Wrapped) (i : ℕ) (x : Wrapped)
    → get_elem? xs i ≡ some x
    → length (remove xs i) + 1 ≡ length xs
length-remove [] i x h = cc
length-remove (y ∷ xs) zero x h = omega arith
length-remove (y ∷ xs) (suc i) x h = omega (arith, length-remove xs i x h)

Counted : Tracker → Type 0
Counted t = t.counter ≡ length t.alive % usize_mod

add-mod : (c n : ℕ) → c ≡ n % usize_mod → fetch_add c ≡ (n + 1) % usize_mod
unfolding fetch_add
add-mod c n h = omega (arith, h)

sub-mod : (c n : ℕ) → c ≡ (n + 1) % usize_mod → fetch_sub c ≡ n % usize_mod
unfolding fetch_sub
sub-mod c n h = omega (arith, h)

spawned-Counted :
    (t : Tracker) (x : Wrapped)
    → Counted t
    → Counted (record { counter = fetch_add t.counter; alive = t.alive ++ (x ∷ []) })
unfolding Counted
spawned-Counted t x h =
    omega (arith, add-mod t.counter (length t.alive) h, length-append t.alive (x ∷ []))

drop_wrapped-Counted : (i : ℕ) (t : Tracker) → Counted t → Counted (drop_wrapped i t)
unfolding drop_wrapped Counted
drop_wrapped-Counted i t h = go (get_elem? t.alive i) refl
  where
    go :
        (o : Option Wrapped)
        → get_elem? t.alive i ≡ o
        → Counted (elim o [
          | none ↦ t
          | some x ↦ record { counter = fetch_sub t.counter; alive = remove t.alive i }
        ])
    go none e = h
    go (some x) e =
        let left = length-remove t.alive i x e in
        sub-mod t.counter (length (remove t.alive i)) (omega (arith, h, left))

happens-Counted : (e : Event) (t : Tracker) → Counted t → Counted (happens e t)
unfolding happens spawn spawn_blocking
happens-Counted spawns t h = spawned-Counted t future_counter h
happens-Counted spawns_blocking t h = spawned-Counted t counter_drop h
happens-Counted (drops i) t h = drop_wrapped-Counted i t h

run-Counted : (es : List Event) (t : Tracker) → Counted t → Counted (history es t)
unfolding history
run-Counted [] t h = h
run-Counted (e ∷ es) t h = run-Counted es (happens e t) (happens-Counted e t h)

-- After any spawns and any drops of what they wrapped, in any order, `count` is the number of wrapped
-- futures and jobs that have not been dropped, up to the size of a `usize`.
pub history-count :
    (es : List Event) → count (history es new) ≡ length (history es new).alive % usize_mod
unfolding count Counted new
history-count es = run-Counted es new refl
