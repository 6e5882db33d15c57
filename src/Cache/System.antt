-- ===== src/Cache/System.antt =====
-- The connection handlers and the runtime around one cache: `allocate_cache`, `_schedule_alloc`
-- with `_wait_until_available`, and the reads of the runtime, as steps of one state. An event is
-- the next step that some process takes; one that is not possible changes nothing.
use petals_ai_refactor.Prelude.{
  ℕ, ◌+◌, Bool, false, Option, none, some, List, [], ◌∷◌, ltb, length, zero, suc, get_elem?,
  range_from, if◌then◌else◌,
}
use petals_ai_refactor.Cache.Size.{Descriptor, get_allocation_size}
use petals_ai_refactor.Cache.Pipe.{MemoryCache, commit_alloc, schedule_free, use_cache}

-- The holder of `_lock_acquire_memory` and where it stands in `_schedule_alloc`: before the first
-- test, at the head of the loop of `_wait_until_available`, or past both.
pub data Owner : Type 0 where
  unlocked : Owner
  requesting waiting cleared : ℕ → List Descriptor → Owner

-- An allocation whose context is still open: its size, and its handles as the first one and the
-- descriptors.
pub record Allocation : Type 0 where
  pub size : ℕ
  pub first : ℕ
  pub descriptors : List Descriptor

abbrev pub handles : Allocation → List ℕ
handles a = range_from a.first (length a.descriptors)

pub record System (T : Type 0) : Type 0 where
  pub cache : MemoryCache T
  pub owner : Owner
  pub held : List Allocation

pub data Event : Type 0 where
  -- a handler enters `allocate_cache` and gets `_lock_acquire_memory`
  allocate : List Descriptor → Event
  -- the holder of the lock goes on; whether its timeout has passed
  advance : Bool → Event
  -- the context of the i-th open allocation is left
  release : ℕ → Event
  -- the runtime reads some handles
  use_handles : List ℕ → Event

abbrev pub remove_at {ℓ} : {A : Type ℓ} → List A → ℕ → List A
remove_at [] i = []
remove_at (x ∷ xs) zero = xs
remove_at (x ∷ xs) (suc i) = x ∷ remove_at xs i

module _ {T : Type 0} (make_zeros : Descriptor → T) where
  -- a call of `allocate_cache` up to its task: the size is computed first, and may raise
  unfoldable pub enter_alloc : Owner → List Descriptor → Owner
  enter_alloc unlocked descriptors = elim (get_allocation_size descriptors) [
    | none ↦ unlocked
    | some n ↦ requesting n descriptors
  ]
  enter_alloc o descriptors = o

  -- one step of `_schedule_alloc`, `_wait_until_available` included
  unfoldable pub advance_alloc : Owner → Bool → System T → System T
  unfolding commit_alloc
  advance_alloc unlocked timed_out s = s
  advance_alloc (requesting n descriptors) timed_out s =
      if ltb s.cache.max_size_bytes (s.cache.current_size + n)
      then (if ltb s.cache.max_size_bytes n
          then record s { owner = unlocked }
          else record s { owner = waiting n descriptors })
      else record s { owner = cleared n descriptors }
  advance_alloc (waiting n descriptors) timed_out s =
      if ltb s.cache.max_size_bytes (s.cache.current_size + n)
      then (if s.cache.memory_freed
          then record s { cache = record s.cache { memory_freed = false } }
          else if timed_out
          then record s { owner = unlocked }
          else s)
      else record s { owner = cleared n descriptors }
  advance_alloc (cleared n descriptors) timed_out s = record {
    cache = (commit_alloc s.cache n descriptors).1;
    owner = unlocked;
    held = record { size = n; first = s.cache.handle_counter; descriptors = descriptors } ∷ s.held;
  }

  unfoldable pub release_alloc : Option Allocation → ℕ → System T → System T
  unfolding schedule_free
  release_alloc none i s = s
  release_alloc (some a) i s = record s {
    cache = schedule_free s.cache a.size (handles a);
    held = remove_at s.held i;
  }

  unfoldable pub read_handles : List ℕ → System T → System T
  unfolding use_cache
  read_handles hs s = record s { cache = (use_cache make_zeros s.cache hs).1 }

  unfoldable pub step : System T → Event → System T
  unfolding enter_alloc advance_alloc release_alloc read_handles
  step s (allocate descriptors) = record s { owner = enter_alloc s.owner descriptors }
  step s (advance timed_out) = advance_alloc s.owner timed_out s
  step s (release i) = release_alloc (get_elem? s.held i) i s
  step s (use_handles hs) = read_handles hs s

  unfoldable pub run : System T → List Event → System T
  unfolding step
  run s [] = s
  run s (e ∷ es) = run (step s e) es
