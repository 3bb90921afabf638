-- ===== src/Context/Lexical.antt =====
-- `executor` of src/task.rs answers by the nesting of the code: the innermost context around the call.
use mathlib.Core.List.{append_assoc, append-nil}
use async_rt.Prelude.{Option, none, some, List, [], ◌∷◌, ◌++◌, ◌≡◌, refl, sym, ap, ◌∙◌}
use async_rt.Selection.{BuiltinExecutor}
use async_rt.Context.{
  Thread, Ended, enter_executor, drop_guard, with_executor, wrap, poll_within, current_or_default,
  executor, WithExecutor, Code, asks, within, polls, then, panics, continue, forget, run,
}

module _ (default : BuiltinExecutor) where
  -- Whether the code ends without a panic.
  abbrev pub ends : Code default → Option (Unit {0})
  ends asks = some tt
  ends (within e c) = ends c
  ends (polls e c) = ends c
  ends (then c d) = elim (ends c) [ none ↦ none | some u ↦ ends d ]
  ends panics = none

  -- The answers of `executor`, by the context that the code stands in.
  abbrev pub lexical : BuiltinExecutor → Code default → List BuiltinExecutor
  lexical e asks = e ∷ []
  lexical e (within e' c) = lexical e' c
  lexical e (polls e' c) = lexical e' c
  lexical e (then c d) = lexical e c ++ elim (ends c) [ none ↦ [] | some u ↦ lexical e d ]
  lexical e panics = []

  abbrev pub after : Thread → Code default → Ended (Unit {0})
  after t c = record {
    value = ends c;
    thread = record t { answers = t.answers ++ lexical (current_or_default default t.current) c };
  }

  entered : BuiltinExecutor → Thread → Thread
  entered e t = record t { current = some e }

  -- What `with_executor` makes of the end of its closure.
  left : Thread → Ended (Unit {0}) → Ended (Unit {0})
  left t r = record { value = r.value; thread = record (r.thread) { current = t.current } }

  -- A poll of a wrapped future is a run of the future's code in its context.
  polled-within :
      (e : BuiltinExecutor) (f : Thread → Ended (Unit {0})) (t : Thread)
      → forget default (
          poll_within
            (λ rest s.
              let r = f s in
              record {
                value = elim r.value [ none ↦ none | some u ↦ some (u, rest) ];
                thread = r.thread;
              })
            (wrap e (tt {0}))
            t)
        ≡ with_executor e f t
  unfolding with_executor enter_executor drop_guard forget poll_within wrap entered
  polled-within e f t =
      ap
        (λ v. record {
          value = v;
          thread = record (f (entered e t)).thread { current = t.current };
        })
        (same (f (entered e t)).value)
    where
      rest : Option (Unit {0}) → Option (Unit {0} × Unit {0})
      rest o = elim o [ none ↦ none | some u ↦ some (u, tt) ]

      kept : Option (Unit {0} × Unit {0}) → Option (Unit {0} × WithExecutor (Unit {0}))
      kept o = elim o [
        | none ↦ none
        | some (u, f') ↦ some (u, record { executor = e; future = some f' })
      ]

      forgotten : Option (Unit {0} × WithExecutor (Unit {0})) → Option (Unit {0})
      forgotten o = elim o [ none ↦ none | some r ↦ some tt ]

      same : (o : Option (Unit {0})) → forgotten (kept (rest o)) ≡ o
      same none = refl
      same (some u) = refl

  -- Code may ask for the executor, run closures with `with_executor`, poll futures that `WithExecutor`
  -- wraps, and panic, nested in any way: each answer of `executor` is the executor of the innermost
  -- context around the call, or the thread's own without one, up to the first panic; and the thread's
  -- executor afterwards, with or without a panic, is what it was before.
  pub run_lexical : (c : Code default) (t : Thread) → run default c t ≡ after t c
  unfolding run with_executor enter_executor drop_guard executor forget poll_within wrap continue
      current_or_default entered left
  run_lexical asks t = refl
  run_lexical (within e c) t = ap (left t) (run_lexical c (entered e t))
  run_lexical (polls e c) t =
      polled-within e (run default c) t ∙ ap (left t) (run_lexical c (entered e t))
  run_lexical (then c d) t =
      ap (continue default (run default d)) (run_lexical c t)
      ∙ go (ends c) (run_lexical d (record t { answers = t.answers ++ seen }))
    where
      e : BuiltinExecutor
      e = current_or_default default t.current

      seen : List BuiltinExecutor
      seen = lexical e c

      with_answers : Option (Unit {0}) → List BuiltinExecutor → Ended (Unit {0})
      with_answers v l = record { value = v; thread = record t { answers = l } }

      go :
          (o : Option (Unit {0}))
          → run default d (record t { answers = t.answers ++ seen })
            ≡ after (record t { answers = t.answers ++ seen }) d
          → continue default
              (run default d)
              (record { value = o; thread = record t { answers = t.answers ++ seen } })
            ≡ record {
              value = elim o [ none ↦ none | some u ↦ ends d ];
              thread = record t {
                answers = t.answers ++ (seen ++ elim o [ none ↦ [] | some u ↦ lexical e d ]);
              };
            }
      go none ih = ap (with_answers none) (ap (λ l. t.answers ++ l) (sym (append-nil seen)))
      go (some u) ih = ih ∙ ap (with_answers (ends d)) (append_assoc t.answers seen (lexical e d))
  run_lexical panics t = ap with_answers (sym (append-nil t.answers))
    where
      with_answers : List BuiltinExecutor → Ended (Unit {0})
      with_answers l = record { value = none; thread = record t { answers = l } }
