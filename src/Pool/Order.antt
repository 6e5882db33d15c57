-- ===== src/Pool/Order.antt =====
-- The order in which the runtime gets the tasks, and the priority that the pool shows.
use mathlib.Core.Path.{subst}
use petals_ai_refactor.Prelude.{
  ltb, Bool-cases, All, All-weaken, ℕ, ◌≡◌, refl, ◌≢◌, inl, inr, true, false, Option, none, some,
  List, [], ◌∷◌, arith,
}
use petals_ai_refactor.Pool.Queue.{
  Task, before, Outcome, result, exception, Pool, init, get_task_size, put_ordered, pop_task, Event,
  submit, prioritize, load, send_outputs, send_exception, submit_task, prioritize_from, load_from,
  load_batch_to_runtime, set_outcome, step, run,
}

-- No task stands behind one that goes after it.
abbrev pub IsOrdered : List Task → Type 0
IsOrdered [] = Unit
IsOrdered (t ∷ tasks) = All (λ u. before u t ≡ false) tasks × IsOrdered tasks

-- The task is the first of the list.
abbrev pub IsFirst : Task → List Task → Type 0
IsFirst t [] = ⊥
IsFirst t (u ∷ tasks) = u ≡ t

before_trans : (t u w : Task) → before u t ≡ false → before w u ≡ false → before w t ≡ false
before_trans t u w h k = ground arith

before_asym : (t u : Task) → before t u ≡ true → before u t ≡ false
before_asym t u h = ground arith

All-put_ordered :
    (P : Task → Type 0) (t : Task) (q : List Task) → P t → All P q → All P (put_ordered t q)
unfolding put_ordered
All-put_ordered P t [] ht h = (ht, tt)
All-put_ordered P t (u ∷ q) ht h = elim (Bool-cases (before t u)) [
  | inl first ↦ rw first (ht, h)
  | inr after ↦ rw after (h.0, All-put_ordered P t q ht h.1)
]

put_ordered-IsOrdered : (t : Task) (q : List Task) → IsOrdered q → IsOrdered (put_ordered t q)
unfolding put_ordered
put_ordered-IsOrdered t [] h = (tt, tt)
put_ordered-IsOrdered t (u ∷ q) h = elim (Bool-cases (before t u)) [
  | inl first ↦
      let late = before_asym t u first in
      let later = λ (w : Task) (k : before w u ≡ false). before_trans t u w late k in
      rw first ((late, All-weaken _ _ q later h.0), h)
  | inr after ↦
      rw after
        (All-put_ordered (λ w. before w u ≡ false) t q after h.0, put_ordered-IsOrdered t q h.1)
]

module _ {V E : Type 0} where
  prioritize_from-IsOrdered :
      (s : List Task) (p : Pool V E)
      → IsOrdered p.ordered_tasks
      → IsOrdered (prioritize_from s p).ordered_tasks
  unfolding prioritize_from
  prioritize_from-IsOrdered [] p h = h
  prioritize_from-IsOrdered (t ∷ rest) p h = put_ordered-IsOrdered t p.ordered_tasks h

  load_from-IsOrdered :
      (s : List Task) (p : Pool V E)
      → p.ordered_tasks ≡ s
      → IsOrdered p.ordered_tasks
      → IsOrdered (load_from s p).1.ordered_tasks
  unfolding load_from
  load_from-IsOrdered [] p e h = h
  load_from-IsOrdered (t ∷ rest) p e h = (subst IsOrdered e h).1

  set_outcome-IsOrdered :
      (r : Option Task × List (ℕ × Task)) (outcome : Outcome V E) (p : Pool V E)
      → IsOrdered p.ordered_tasks
      → IsOrdered (set_outcome r outcome p).ordered_tasks
  unfolding set_outcome
  set_outcome-IsOrdered (none, rest) outcome p h = h
  set_outcome-IsOrdered (some t, rest) outcome p h = h

  submit-IsOrdered :
      (p : Pool V E) (t : Task)
      → IsOrdered p.ordered_tasks
      → IsOrdered (submit_task p t).ordered_tasks
  unfolding submit_task
  submit-IsOrdered p t h = elim (Bool-cases (ltb p.max_batch_size (get_task_size t))) [
    | inl large ↦ rw large h
    | inr fits ↦ rw fits h
  ]

  step-IsOrdered :
      (p : Pool V E) (e : Event V E)
      → IsOrdered p.ordered_tasks
      → IsOrdered (step p e).ordered_tasks
  unfolding step
  step-IsOrdered p (submit t) h = submit-IsOrdered p t h
  step-IsOrdered p prioritize h = prioritize_from-IsOrdered p.submitted_tasks p h
  step-IsOrdered p load h = load_from-IsOrdered p.ordered_tasks p refl h
  step-IsOrdered p (send_outputs uid v) h =
      set_outcome-IsOrdered (pop_task uid p.dispatched_tasks) (result v) p h
  step-IsOrdered p (send_exception uid e) h =
      set_outcome-IsOrdered (pop_task uid p.dispatched_tasks) (exception e) p h

  run-IsOrdered :
      (p : Pool V E) (es : List (Event V E))
      → IsOrdered p.ordered_tasks
      → IsOrdered (run p es).ordered_tasks
  unfolding run
  run-IsOrdered p [] h = h
  run-IsOrdered p (e ∷ es) h = run-IsOrdered (step p e) es (step-IsOrdered p e h)

  load_from-IsFirst :
      (s : List Task) (p : Pool V E) (t : Task)
      → IsOrdered s
      → (load_from s p).0 ≡ some t
      → All (λ u. before u t ≡ false) (load_from s p).1.ordered_tasks
        × ((load_from s p).1.ordered_tasks ≢ []
            → (u : Task) × IsFirst u (load_from s p).1.ordered_tasks
              × ((load_from s p).1.priority ≡ some (u.priority, u.time_submitted)))
  unfolding load_from
  load_from-IsFirst [] p t h e = cc
  load_from-IsFirst (u ∷ []) p t h e = (tt, λ ne. absurd (ne refl))
  load_from-IsFirst (u ∷ w ∷ rest) p t h e =
      let same : u ≡ t = cc in
      (subst (λ x. All (λ y. before y x ≡ false) (w ∷ rest)) same h.0, λ ne. (w, refl, refl))

  -- At any time of a run from an empty pool, the task that the runtime gets is one that no ordered
  -- task goes before, by priority and then by the time of its submission. If tasks are left, the
  -- pool then shows the priority and the time of the first of them.
  pub load_returns-IsFirst :
      (n : ℕ) (es : List (Event V E)) (t : Task)
      → (load_batch_to_runtime (run (init n) es)).0 ≡ some t
      → All (λ u. before u t ≡ false) (load_batch_to_runtime (run (init n) es)).1.ordered_tasks
        × ((load_batch_to_runtime (run (init n) es)).1.ordered_tasks ≢ []
            → (u : Task) × IsFirst u (load_batch_to_runtime (run (init n) es)).1.ordered_tasks
              × ((load_batch_to_runtime (run (init n) es)).1.priority
                  ≡ some (u.priority, u.time_submitted)))
  unfolding load_batch_to_runtime
  load_returns-IsFirst n es t e =
      load_from-IsFirst (run (init n) es).ordered_tasks (run (init n) es) t
        (run-IsOrdered (init n) es tt) e
