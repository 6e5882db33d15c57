-- ===== src/Cache/Pipe.antt =====
-- The state of `MemoryCache` and its operations: the locked part of `_schedule_alloc`,
-- `_schedule_free`, and `use_cache`, which applies the messages of the pipe to the tensors.
use petals_ai_refactor.Prelude.{
  ℕ, ◌+◌, ◌-◌, ◌%◌, ◌^◌, Bool, true, false, Option, none, some, List, [], ◌∷◌, ◌++◌, ◌==◌, length,
  range_from, if◌then◌else◌,
}
use petals_ai_refactor.Cache.Size.{Descriptor}

abbrev pub word : ℕ
word = 2 ^ 64

abbrev pub unlimited : ℕ
unlimited = 2 ^ 64 - 1

-- What a handler sends to the runtime: descriptors to create tensors for, or `none` to delete.
pub record Message : Type 0 where
  pub handles : List ℕ
  pub descriptors : Option (List Descriptor)

pub record MemoryCache (T : Type 0) : Type 0 where
  pub max_size_bytes : ℕ
  pub current_size : ℕ
  pub handle_counter : ℕ
  pub allocated_tensors : List (ℕ × T)
  pub pipe : List Message
  pub memory_freed : Bool

-- `__init__`
unfoldable pub init : {T : Type 0} → Option ℕ → MemoryCache T
init max_size = record {
  max_size_bytes = elim max_size [ none ↦ unlimited | some n ↦ n ];
  current_size = 0;
  handle_counter = 0;
  allocated_tensors = [];
  pipe = [];
  memory_freed = false;
}

-- What the loop over the pipe leaves: whether every assertion held, the tensors, and the messages
-- that it has not received.
pub record Drained (T : Type 0) : Type 0 where
  pub passed : Bool
  pub tensors : List (ℕ × T)
  pub pending : List Message

module _ {T : Type 0} where
  -- the block of `_schedule_alloc` under `_lock_metadata`
  unfoldable pub commit_alloc : MemoryCache T → ℕ → List Descriptor → List ℕ × MemoryCache T
  commit_alloc c alloc_size descriptors =
      let handles = range_from c.handle_counter (length descriptors) in
      (
        handles,
        record c {
          current_size = (c.current_size + alloc_size) % word;
          handle_counter = (c.handle_counter + length handles) % word;
          pipe = c.pipe ++ record { handles = handles; descriptors = some descriptors } ∷ [];
        },
      )

  -- `_schedule_free` after an allocation that did not raise
  unfoldable pub schedule_free : MemoryCache T → ℕ → List ℕ → MemoryCache T
  schedule_free c alloc_size handles = record c {
    pipe = c.pipe ++ record { handles = handles; descriptors = none } ∷ [];
    current_size = (c.current_size + word - alloc_size) % word;
    memory_freed = true;
  }

  -- `d.get(k)`, `d[k] = v` and `d.pop(k, None)`
  abbrev pub lookup : ℕ → List (ℕ × T) → Option T
  lookup k [] = none
  lookup k ((j, v) ∷ d) = if j == k then some v else lookup k d

  unfoldable pub insert : ℕ → T → List (ℕ × T) → List (ℕ × T)
  insert k v [] = (k, v) ∷ []
  insert k v ((j, w) ∷ d) = if j == k then (k, v) ∷ d else (j, w) ∷ insert k v d

  unfoldable pub remove : ℕ → List (ℕ × T) → List (ℕ × T)
  remove k [] = []
  remove k ((j, v) ∷ d) = let rest = remove k d in if j == k then rest else (j, v) ∷ rest

  unfoldable pub remove_all : List ℕ → List (ℕ × T) → List (ℕ × T)
  remove_all [] d = d
  remove_all (h ∷ hs) d = remove_all hs (remove h d)

  module _ (make_zeros : Descriptor → T) where
    -- the loop that creates tensors; `none` where the lists are not as long as one another, which
    -- is the AssertionError that the code raises before the loop
    unfoldable pub create_all : List ℕ → List Descriptor → List (ℕ × T) → Option (List (ℕ × T))
    create_all [] [] d = some d
    create_all (h ∷ hs) (descr ∷ descrs) d = create_all hs descrs (insert h (make_zeros descr) d)
    create_all _ _ d = none

    unfoldable pub receive : Message → List (ℕ × T) → Option (List (ℕ × T))
    unfolding create_all remove_all insert remove
    receive m d = elim m.descriptors [
      | some descriptors ↦ create_all m.handles descriptors d
      | none ↦ some (remove_all m.handles d)
    ]

    -- `while self._pipe_recv.poll(): …`. A message that fails the assertion ends the loop: it is
    -- gone from the pipe, and what stands behind it is not.
    unfoldable pub drain : List Message → List (ℕ × T) → Drained T
    drain [] d = record { passed = true; tensors = d; pending = [] }
    drain (m ∷ pipe) d = elim (receive m d) [
      | none ↦ record { passed = false; tensors = d; pending = pipe }
      | some d' ↦ drain pipe d'
    ]

  -- `tuple(self._allocated_tensors[handle] for handle in handles)`; `none` is the KeyError
  unfoldable pub get_all : List ℕ → List (ℕ × T) → Option (List T)
  get_all [] d = some []
  get_all (h ∷ hs) d = elim (lookup h d) [
    | none ↦ none
    | some t ↦ elim (get_all hs d) [ none ↦ none | some ts ↦ some (t ∷ ts) ]
  ]

  -- The tensors of the handles, or `none` for an exception, and the state that is left.
  unfoldable pub use_cache :
      (Descriptor → T) → MemoryCache T → List ℕ → Option (List T) × MemoryCache T
  unfolding drain receive get_all
  use_cache make_zeros c handles =
      let r = drain make_zeros c.pipe c.allocated_tensors in
      (
        (if r.passed then get_all handles r.tensors else none),
        record c { allocated_tensors = r.tensors; pipe = r.pending },
      )
