-- ===== src/Pool/Conservation.antt =====
-- No task is lost and none is done twice.
use mathlib.Core.Path.{subst}
use petals_ai_refactor.Prelude.{
  ltb, ◌==◌, if◌then◌else◌, Bool-cases, length, length-append, ℕ, suc, ◌+◌, ◌≤◌, ◌≡◌, refl, sym, ap,
  inl, inr, false, Option, none, some, List, [], ◌∷◌, ◌++◌, arith,
}
use petals_ai_refactor.Pool.Queue.{
  Task, Outcome, result, exception, Pool, init, get_task_size, put_ordered, insert_task, pop_task,
  Event, submit, prioritize, load, send_outputs, send_exception, submit_task, prioritize_from,
  load_from, set_outcome, step, run,
}

abbrev count_tasks : ℕ → List Task → ℕ
count_tasks k [] = 0
count_tasks k (t ∷ tasks) = (if t.uid == k then 1 else 0) + count_tasks k tasks

abbrev count_keys {ℓ} : {A : Type ℓ} → ℕ → List (ℕ × A) → ℕ
count_keys k [] = 0
count_keys k ((j, _) ∷ d) = (if j == k then 1 else 0) + count_keys k d

-- Each dispatched task stands under its own uid.
abbrev IsKeyed : List (ℕ × Task) → Type 0
IsKeyed [] = Unit
IsKeyed ((j, t) ∷ d) = (t.uid ≡ j) × IsKeyed d

module _ {V E : Type 0} where
  -- The places where the task of a uid stands: queued, dispatched, or done.
  abbrev pub places : ℕ → Pool V E → ℕ
  places k p =
      count_tasks k p.submitted_tasks
      + count_tasks k p.ordered_tasks
      + count_keys k p.dispatched_tasks
      + count_keys k p.futures

  -- How often a run submits a task of the uid.
  abbrev pub submissions : ℕ → List (Event V E) → ℕ
  submissions k [] = 0
  submissions k (submit t ∷ es) = (if t.uid == k then 1 else 0) + submissions k es
  submissions k (_ ∷ es) = submissions k es

  record IsCounted (p : Pool V E) : Type 0 where
    keyed : IsKeyed p.dispatched_tasks
    pending : p.batches ≡ length p.submitted_tasks + length p.ordered_tasks

count_tasks-append :
    (k : ℕ) (xs ys : List Task) → count_tasks k (xs ++ ys) ≡ count_tasks k xs + count_tasks k ys
count_tasks-append k [] ys = omega arith
count_tasks-append k (x ∷ xs) ys = omega (arith, count_tasks-append k xs ys)

count_tasks-put_ordered :
    (k : ℕ) (t : Task) (q : List Task) → count_tasks k (put_ordered t q) ≡ count_tasks k (t ∷ q)
unfolding put_ordered
count_tasks-put_ordered k t [] = refl
count_tasks-put_ordered k t (u ∷ q) = ground (arith, count_tasks-put_ordered k t q)

length-put_ordered : (t : Task) (q : List Task) → length (put_ordered t q) ≡ suc (length q)
unfolding put_ordered
length-put_ordered t [] = refl
length-put_ordered t (u ∷ q) = ground (arith, length-put_ordered t q)

count_keys-insert_task :
    (k j : ℕ) (t : Task) (d : List (ℕ × Task))
    → count_keys j d ≡ 0
    → count_keys k (insert_task j t d) ≡ (if j == k then 1 else 0) + count_keys k d
unfolding insert_task
count_keys-insert_task k j t [] h = refl
count_keys-insert_task k j t ((i, u) ∷ d) h = ground (arith, count_keys-insert_task k j t d)

insert_task-IsKeyed : (t : Task) (d : List (ℕ × Task)) → IsKeyed d → IsKeyed (insert_task t.uid t d)
unfolding insert_task
insert_task-IsKeyed t [] h = (refl, tt)
insert_task-IsKeyed t ((i, u) ∷ d) h = elim (Bool-cases (i == t.uid)) [
  | inl same ↦ rw same (refl, h.1)
  | inr other ↦ rw other (h.0, insert_task-IsKeyed t d h.1)
]

-- `pop` takes one entry of its key away, or there is none.
abbrev Popped : ℕ → List (ℕ × Task) → Option Task × List (ℕ × Task) → Type 0
Popped j d (none, rest) = (rest ≡ d) × (count_keys j d ≡ 0)
Popped j d (some t, rest) =
    (t.uid ≡ j)
    × IsKeyed rest
    × ((k : ℕ) → count_keys k d ≡ (if j == k then 1 else 0) + count_keys k rest)

Popped-cons :
    (j i : ℕ) (u : Task) (d : List (ℕ × Task)) (r : Option Task × List (ℕ × Task))
    → (i == j) ≡ false
    → u.uid ≡ i
    → Popped j d r
    → Popped j ((i, u) ∷ d) (r.0, (i, u) ∷ r.1)
Popped-cons j i u d (none, rest) ne e h = (ap (◌∷◌ (i, u)) h.0, ground arith)
Popped-cons j i u d (some t, rest) ne e h = (h.0, (e, h.1), λ k. omega (arith, h.2 k))

pop_task-Popped : (j : ℕ) (d : List (ℕ × Task)) → IsKeyed d → Popped j d (pop_task j d)
unfolding pop_task
pop_task-Popped j [] h = (refl, refl)
pop_task-Popped j ((i, u) ∷ d) h = elim (Bool-cases (i == j)) [
  | inl same ↦ rw same (ground arith, h.1, λ k. ground arith)
  | inr other ↦ rw other (Popped-cons j i u d (pop_task j d) other h.0 (pop_task-Popped j d h.1))
]

module _ {V E : Type 0} where
  -- Each uid at most once, in the pool and in what is still to be submitted.
  abbrev Once : Pool V E → List (Event V E) → Type 0
  Once p es = (k : ℕ) → places k p + submissions k es ≤ 1

  submit_lem :
      (p : Pool V E) (t : Task)
      → IsCounted p
      → IsCounted (submit_task p t)
        × ((k : ℕ) → places k (submit_task p t) ≡ (if t.uid == k then 1 else 0) + places k p)
  unfolding submit_task
  submit_lem p t h = elim (Bool-cases (ltb p.max_batch_size (get_task_size t))) [
    | inl large ↦ rw large (record { keyed = h.keyed; pending = h.pending }, λ k. omega arith)
    | inr fits ↦ rw fits (
      record {
        keyed = h.keyed;
        pending = omega (arith, h.pending, length-append p.submitted_tasks (t ∷ []));
      },
      λ k. omega (arith, count_tasks-append k p.submitted_tasks (t ∷ [])),
    )
  ]

  prioritize_lem :
      (p : Pool V E) (s : List Task)
      → p.submitted_tasks ≡ s
      → IsCounted p
      → IsCounted (prioritize_from s p) × ((k : ℕ) → places k (prioritize_from s p) ≡ places k p)
  unfolding prioritize_from
  prioritize_lem p [] e h = (h, λ k. refl)
  prioritize_lem p (t ∷ rest) e h = (
    record {
      keyed = h.keyed;
      pending = omega (arith, h.pending, ap length e, length-put_ordered t p.ordered_tasks);
    },
    λ k. omega (arith, ap (count_tasks k) e, count_tasks-put_ordered k t p.ordered_tasks),
  )

  load_lem :
      (p : Pool V E) (s : List Task)
      → p.ordered_tasks ≡ s
      → ((k : ℕ) → places k p ≤ 1)
      → IsCounted p
      → IsCounted (load_from s p).1 × ((k : ℕ) → places k (load_from s p).1 ≡ places k p)
  unfolding load_from
  load_lem p [] e once h = (h, λ k. refl)
  load_lem p (t ∷ rest) e once h =
      let alone : count_keys t.uid p.dispatched_tasks ≡ 0 =
        ground (arith, once t.uid, ap (count_tasks t.uid) e) in
      (
        record {
          keyed = insert_task-IsKeyed t p.dispatched_tasks h.keyed;
          pending = omega (arith, h.pending, ap length e);
        },
        λ k. omega (
          arith,
          ap (count_tasks k) e,
          count_keys-insert_task k t.uid t p.dispatched_tasks alone,
        ),
      )

  set_outcome_lem :
      (p : Pool V E) (uid : ℕ) (outcome : Outcome V E) (r : Option Task × List (ℕ × Task))
      → Popped uid p.dispatched_tasks r
      → IsCounted p
      → IsCounted (set_outcome r outcome p)
        × ((k : ℕ) → places k (set_outcome r outcome p) ≡ places k p)
  unfolding set_outcome
  set_outcome_lem p uid outcome (none, rest) q h = (
    record { keyed = subst IsKeyed (sym q.0) h.keyed; pending = h.pending },
    λ k. omega (arith, ap (count_keys k) q.0),
  )
  set_outcome_lem p uid outcome (some t, rest) q h =
      (record { keyed = q.1; pending = h.pending }, λ k. ground (arith, q.0, q.2 k))

  submitted : ℕ → Event V E → ℕ
  submitted k e = submissions k (e ∷ [])

  step_lem :
      (p : Pool V E) (e : Event V E)
      → ((k : ℕ) → places k p ≤ 1)
      → IsCounted p
      → IsCounted (step p e) × ((k : ℕ) → places k (step p e) ≡ submitted k e + places k p)
  unfolding step submitted
  step_lem p (submit t) once h = let s = submit_lem p t h in (s.0, λ k. omega (arith, s.1 k))
  step_lem p prioritize once h =
      let s = prioritize_lem p p.submitted_tasks refl h in (s.0, λ k. omega (arith, s.1 k))
  step_lem p load once h =
      let s = load_lem p p.ordered_tasks refl once h in (s.0, λ k. omega (arith, s.1 k))
  step_lem p (send_outputs uid v) once h =
      let popped = pop_task-Popped uid p.dispatched_tasks h.keyed in
      let s = set_outcome_lem p uid (result v) (pop_task uid p.dispatched_tasks) popped h in
      (s.0, λ k. omega (arith, s.1 k))
  step_lem p (send_exception uid x) once h =
      let popped = pop_task-Popped uid p.dispatched_tasks h.keyed in
      let s = set_outcome_lem p uid (exception x) (pop_task uid p.dispatched_tasks) popped h in
      (s.0, λ k. omega (arith, s.1 k))

  submissions-cons :
      (k : ℕ) (e : Event V E) (es : List (Event V E))
      → submissions k (e ∷ es) ≡ submitted k e + submissions k es
  unfolding submitted
  submissions-cons k (submit t) es = omega arith
  submissions-cons k _ es = omega arith

  run_lem :
      (p : Pool V E) (es : List (Event V E))
      → Once p es
      → IsCounted p
      → IsCounted (run p es) × ((k : ℕ) → places k (run p es) ≡ submissions k es + places k p)
  unfolding run
  run_lem p [] once h = (h, λ k. omega arith)
  run_lem p (e ∷ es) once h =
      let s = step_lem p e (λ k. omega (arith, once k)) h in
      let r =
        run_lem (step p e) es (λ k. omega (arith, once k, s.1 k, submissions-cons k e es)) s.0 in
      (r.0, λ k. omega (arith, r.1 k, s.1 k, submissions-cons k e es))

  init-IsCounted : (n : ℕ) → IsCounted (init {V = V} {E = E} n)
  init-IsCounted n = record { keyed = tt; pending = refl }

  -- If no uid is submitted twice, then whatever the handlers, the prioritizer thread and the
  -- runtime do, each submitted task is in exactly one place, queued, dispatched or done, and a task
  -- that is not submitted in none; and the pipe holds one message for each queued task.
  pub run_conserves_tasks :
      (n : ℕ) (es : List (Event V E))
      → ((k : ℕ) → submissions k es ≤ 1)
      → ((k : ℕ) → places k (run (init n) es) ≡ submissions k es)
        × ((run (init n) es).batches
            ≡ length (run (init n) es).submitted_tasks + length (run (init n) es).ordered_tasks)
  run_conserves_tasks n es once =
      let r = run_lem (init n) es (λ k. omega (arith, once k)) (init-IsCounted n) in
      (λ k. omega (arith, r.1 k), r.0.pending)
