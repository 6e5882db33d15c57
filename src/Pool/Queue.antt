-- ===== src/Pool/Queue.antt =====
-- `PrioritizedTaskPool` of server/task_pool.py, and `DummyTaskPrioritizer`. Priorities and times
-- are numbers; `none` is the pair of infinities. A task's inputs stand by their shape: the two
-- first dimensions of the first input, or `none` if it has no two.
use petals_ai_refactor.Prelude.{
  ltb, ◌==◌, if◌then◌else◌, ℕ, ◌+◌, ◌-◌, ◌*◌, Bool, true, false, ◌&&◌, ◌||◌, Option, none, some,
  List, [], ◌∷◌, ◌++◌,
}

pub record Task : Type 0 where
  pub priority : ℕ
  pub time_submitted : ℕ
  pub uid : ℕ
  pub shape : Option (ℕ × ℕ)

-- the order that `@dataclass(order=True)` gives to the fields with `compare`
abbrev pub before : Task → Task → Bool
before t u =
    ltb t.priority u.priority || (t.priority == u.priority && ltb t.time_submitted u.time_submitted)

-- What a future holds once it is done.
pub data Outcome (V E : Type 0) : Type 0 where
  result : V → Outcome V E
  exception : E → Outcome V E
  too_large : Outcome V E

pub record Pool (V E : Type 0) : Type 0 where
  pub max_batch_size : ℕ
  pub submitted_tasks : List Task
  pub ordered_tasks : List Task
  pub dispatched_tasks : List (ℕ × Task)
  -- the messages in the pipe from `batch_sender` to `batch_receiver`
  pub batches : ℕ
  pub priority : Option (ℕ × ℕ)
  -- the futures that are done, by the task's uid
  pub futures : List (ℕ × Outcome V E)

abbrev pub init : {V E : Type 0} → ℕ → Pool V E
init n = record {
  max_batch_size = n;
  submitted_tasks = [];
  ordered_tasks = [];
  dispatched_tasks = [];
  batches = 0;
  priority = none;
  futures = [];
}

unfoldable pub get_task_size : Task → ℕ
get_task_size t = elim t.shape [ none ↦ 1 | some (m, n) ↦ m * n ]

-- `(task.priority, task.time_submitted) < self.priority`
abbrev pub before_priority : Task → Option (ℕ × ℕ) → Bool
before_priority t none = true
before_priority t (some (p, time)) =
    ltb t.priority p || (t.priority == p && ltb t.time_submitted time)

-- `PriorityQueue.put`: the queue in the order in which `get` returns it
unfoldable pub put_ordered : Task → List Task → List Task
put_ordered t [] = t ∷ []
put_ordered t (u ∷ tasks) = if before t u then t ∷ u ∷ tasks else u ∷ put_ordered t tasks

-- `d[uid] = task`, and `d.pop(uid, None)` as the value and what is left
unfoldable pub insert_task : ℕ → Task → List (ℕ × Task) → List (ℕ × Task)
insert_task k t [] = (k, t) ∷ []
insert_task k t ((j, u) ∷ d) = if j == k then (k, t) ∷ d else (j, u) ∷ insert_task k t d

unfoldable pub pop_task : ℕ → List (ℕ × Task) → Option Task × List (ℕ × Task)
pop_task k [] = (none, [])
pop_task k ((j, u) ∷ d) =
    let (found, rest) = pop_task k d in if j == k then (some u, d) else (found, (j, u) ∷ rest)

abbrev pub first_priority : List Task → Option (ℕ × ℕ) → Option (ℕ × ℕ)
first_priority [] old = old
first_priority (t ∷ tasks) old = some (t.priority, t.time_submitted)

-- What the connection handlers, the prioritizer thread and the runtime do.
pub data Event (V E : Type 0) : Type 0 where
  submit : Task → Event V E
  prioritize : Event V E
  load : Event V E
  send_outputs : ℕ → V → Event V E
  send_exception : ℕ → E → Event V E

module _ {V E : Type 0} where
  unfoldable pub submit_task : Pool V E → Task → Pool V E
  unfolding get_task_size
  submit_task p t =
      if ltb p.max_batch_size (get_task_size t)
      then record p { futures = (t.uid, too_large) ∷ p.futures }
      else record p {
        submitted_tasks = p.submitted_tasks ++ t ∷ [];
        batches = p.batches + 1;
        priority =
            if before_priority t p.priority
            then some (t.priority, t.time_submitted)
            else p.priority;
      }

  -- one round of `_prioritize_tasks` at what is submitted; it waits while nothing is
  unfoldable pub prioritize_from : List Task → Pool V E → Pool V E
  unfolding put_ordered
  prioritize_from [] p = p
  prioritize_from (t ∷ rest) p = record p {
    submitted_tasks = rest;
    ordered_tasks = put_ordered t p.ordered_tasks;
  }

  unfoldable pub prioritize_task : Pool V E → Pool V E
  unfolding prioritize_from
  prioritize_task p = prioritize_from p.submitted_tasks p

  -- `load_batch_to_runtime` at what is ordered: the task whose inputs are returned; it waits while
  -- nothing is
  unfoldable pub load_from : List Task → Pool V E → Option Task × Pool V E
  unfolding insert_task
  load_from [] p = (none, p)
  load_from (t ∷ rest) p = (
    some t,
    record p {
      ordered_tasks = rest;
      dispatched_tasks = insert_task t.uid t p.dispatched_tasks;
      batches = p.batches - 1;
      priority = first_priority rest p.priority;
    },
  )

  unfoldable pub load_batch_to_runtime : Pool V E → Option Task × Pool V E
  unfolding load_from
  load_batch_to_runtime p = load_from p.ordered_tasks p

  -- the end of `send_outputs_from_runtime` and of `send_exception_from_runtime`, after the `pop`
  unfoldable pub set_outcome : Option Task × List (ℕ × Task) → Outcome V E → Pool V E → Pool V E
  set_outcome (none, rest) outcome p = record p { dispatched_tasks = rest }
  set_outcome (some t, rest) outcome p = record p {
    dispatched_tasks = rest;
    futures = (t.uid, outcome) ∷ p.futures;
  }

  unfoldable pub send_from_runtime : Pool V E → ℕ → Outcome V E → Pool V E
  unfolding pop_task set_outcome
  send_from_runtime p uid outcome = set_outcome (pop_task uid p.dispatched_tasks) outcome p

  unfoldable pub is_empty : Pool V E → Bool
  is_empty p = p.batches == 0

  unfoldable pub step : Pool V E → Event V E → Pool V E
  unfolding submit_task prioritize_task load_batch_to_runtime send_from_runtime
  step p (submit t) = submit_task p t
  step p prioritize = prioritize_task p
  step p load = (load_batch_to_runtime p).1
  step p (send_outputs uid v) = send_from_runtime p uid (result v)
  step p (send_exception uid e) = send_from_runtime p uid (exception e)

  unfoldable pub run : Pool V E → List (Event V E) → Pool V E
  unfolding step
  run p [] = p
  run p (e ∷ es) = run (step p e) es

-- `DummyTaskPrioritizer.prioritize`, by whether the task is of the type "inference"
unfoldable pub dummy_prioritize : Bool → ℕ
dummy_prioritize true = 1
dummy_prioritize false = 2
