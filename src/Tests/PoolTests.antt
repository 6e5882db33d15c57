-- ===== src/Tests/PoolTests.antt =====
-- A pool of three tasks.
use petals_ai_refactor.Prelude.{
  length, All, ℕ, ◌+◌, ◌≤◌, ◌≡◌, refl, ◌≢◌, false, some, List, [], ◌∷◌, arith,
}
use petals_ai_refactor.Pool.Conservation.{places, submissions, run_conserves_tasks}
use petals_ai_refactor.Pool.Order.{IsFirst, load_returns-IsFirst}
use petals_ai_refactor.Pool.Queue.{
  Task, before, init, Event, submit, prioritize, load_batch_to_runtime, run,
}

abbrev task : ℕ → ℕ → ℕ → Task
task uid priority time = record {
  priority = priority;
  time_submitted = time;
  uid = uid;
  shape = some (1, 4);
}

abbrev script : List (Event ℕ ℕ)
script =
    submit (task 7 2 10)
    ∷ submit (task 8 1 11)
    ∷ prioritize
    ∷ prioritize
    ∷ submit (task 9 2 12)
    ∷ []

first_task : (load_batch_to_runtime (run (init 100) script)).0 ≡ some (task 8 1 11)
unfolding run load_batch_to_runtime
first_task = refl

once : (k : ℕ) → submissions k script ≤ 1
once k = ground arith

run_conserves_tasks_example :
    ((k : ℕ) → places k (run (init 100) script) ≡ submissions k script)
    × ((run (init 100) script).batches
        ≡ length (run (init 100) script).submitted_tasks
          + length (run (init 100) script).ordered_tasks)
run_conserves_tasks_example = run_conserves_tasks 100 script once

load_returns-IsFirst_example :
    All
      (λ u. before u (task 8 1 11) ≡ false)
      (load_batch_to_runtime (run (init 100) script)).1.ordered_tasks
    × ((load_batch_to_runtime (run (init 100) script)).1.ordered_tasks ≢ []
        → (u : Task) × IsFirst u (load_batch_to_runtime (run (init 100) script)).1.ordered_tasks
          × ((load_batch_to_runtime (run (init 100) script)).1.priority
              ≡ some (u.priority, u.time_submitted)))
load_returns-IsFirst_example = load_returns-IsFirst 100 script (task 8 1 11) first_task
