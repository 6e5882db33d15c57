-- ===== src/Cache/View.antt =====
-- What the runtime reads: once it has received the messages of the pipe, the tensors are those of
-- the handles of the open allocations, and no other.
use petals_ai_refactor.Prelude.{
  if◌then◌else◌, length, get_elem?, range_from, length-range_from, ℕ, ◌+◌, ◌%◌, ◌^◌, ◌≤◌, ◌<◌, ◌≡◌,
  refl, ap, ◌∙◌, Bool, true, false, Option, none, some, List, [], ◌∷◌, arith,
}
use petals_ai_refactor.Cache.Size.{Descriptor}
use petals_ai_refactor.Cache.Pipe.{
  word, init, lookup, remove_all, receive, drain, get_all, use_cache,
}
use petals_ai_refactor.Cache.System.{
  Owner, unlocked, requesting, waiting, cleared, Allocation, handles, System, Event, allocate,
  advance, release, use_handles, enter_alloc, advance_alloc, release_alloc, read_handles, step, run,
}
use petals_ai_refactor.Cache.Safety.{start}
use petals_ai_refactor.Cache.Tensors.{
  or_else, Ordered, Ordered-remove_at, lookup-remove_all, tensor_from, tensor_of, create_all_lem,
  Drains, drain-append, tensor_of-remove_at,
}

-- The handles that an event asks for, and those that a run asks for.
abbrev demand_of : Event → ℕ
demand_of (allocate descrs) = length descrs
demand_of _ = 0

abbrev pub demand : List Event → ℕ
demand [] = 0
demand (e ∷ es) = demand_of e + demand es

module _ {T : Type 0} (make_zeros : Descriptor → T) where
  abbrev pending : Owner → ℕ
  pending unlocked = 0
  pending (requesting _ descrs) = length descrs
  pending (waiting _ descrs) = length descrs
  pending (cleared _ descrs) = length descrs

  record IsServed (demand : ℕ) (s : System T) : Type 0 where
    counted : s.cache.handle_counter + pending s.owner + demand < 2 ^ 63
    ordered : Ordered s.cache.handle_counter s.held
    received : List (ℕ × T)
    drained : Drains make_zeros s.cache.pipe s.cache.allocated_tensors received
    same : (h : ℕ) → lookup h received ≡ tensor_of make_zeros s.held h

  if-IsServed :
      (n : ℕ) (b : Bool) (s t : System T)
      → IsServed n s
      → IsServed n t
      → IsServed n (if b then s else t)
  if-IsServed n true s t hs ht = hs
  if-IsServed n false s t hs ht = ht

  with_owner-IsServed :
      (m n : ℕ) (s : System T) (o : Owner)
      → pending o + n ≤ pending s.owner + m
      → IsServed m s
      → IsServed n (record s { owner = o })
  with_owner-IsServed m n s o le h = record {
    counted = omega (arith, h.counted);
    ordered = h.ordered;
    received = h.received;
    drained = h.drained;
    same = h.same;
  }

  pending-enter :
      (o : Owner) (descrs : List Descriptor)
      → pending (enter_alloc make_zeros o descrs) ≤ pending o + length descrs
  unfolding enter_alloc
  pending-enter unlocked descrs = ground arith
  pending-enter _ descrs = omega arith

  -- the test of `_schedule_alloc` and those of `_wait_until_available` change the owner only
  advance-IsServed :
      (n : ℕ) (o : Owner) (b : Bool) (s : System T)
      → s.owner ≡ o
      → IsServed n s
      → IsServed n (advance_alloc make_zeros o b s)
  unfolding advance_alloc
  advance-IsServed n unlocked b s e h = h
  advance-IsServed n (requesting k descrs) b s e h =
      let owner = λ (o : Owner) (le : pending o ≤ length descrs).
        with_owner-IsServed n n s o (rw e (omega arith)) h in
      if-IsServed n _ _ _
        (if-IsServed n _ _ _ (owner unlocked (omega arith))
          (owner (waiting k descrs) (omega arith)))
        (owner (cleared k descrs) (omega arith))
  advance-IsServed n (waiting k descrs) b s e h =
      let owner = λ (o : Owner) (le : pending o ≤ length descrs).
        with_owner-IsServed n n s o (rw e (omega arith)) h in
      let reset : IsServed n (record s { cache = record s.cache { memory_freed = false } }) =
        record {
          counted = h.counted;
          ordered = h.ordered;
          received = h.received;
          drained = h.drained;
          same = h.same;
        } in
      if-IsServed n _ _ _
        (if-IsServed n _ _ _ reset (if-IsServed n _ _ _ (owner unlocked (omega arith)) h))
        (owner (cleared k descrs) (omega arith))
  advance-IsServed n (cleared k descrs) b s e h =
      let first = s.cache.handle_counter in
      let (d, made, found) = create_all_lem make_zeros first descrs h.received in
      let size = length-range_from first (length descrs) in
      let room : first + length descrs + n < 2 ^ 63 = ground (arith, h.counted) in
      let next : (first + length (range_from first (length descrs))) % word
          ≡ first + length descrs =
        omega arith in
      record {
        counted = rw next (omega arith);
        ordered = rw next (omega arith, h.ordered);
        received = d;
        drained =
            drain-append make_zeros s.cache.pipe _ s.cache.allocated_tensors h.received d h.drained
              (unfold receive in made);
        same = λ i. found i ∙ ap (or_else (tensor_from make_zeros first descrs i)) (h.same i);
      }

  release-IsServed :
      (n i : ℕ) (o : Option Allocation) (s : System T)
      → get_elem? s.held i ≡ o
      → IsServed n s
      → IsServed n (release_alloc make_zeros o i s)
  unfolding release_alloc receive
  release-IsServed n i none s e h = h
  release-IsServed n i (some a) s e h = record {
    counted = h.counted;
    ordered = Ordered-remove_at _ s.held i h.ordered;
    received = remove_all (handles a) h.received;
    drained =
        drain-append make_zeros s.cache.pipe _ s.cache.allocated_tensors h.received _ h.drained
          refl;
    same = λ k.
        lookup-remove_all (handles a) k h.received
        ∙ (rw (h.same k) (tensor_of-remove_at make_zeros _ s.held i k a h.ordered e));
  }

  read-IsServed :
      (n : ℕ) (hs : List ℕ) (s : System T)
      → IsServed n s
      → IsServed n (read_handles make_zeros hs s)
  unfolding read_handles drain
  read-IsServed n hs s h = record {
    counted = h.counted;
    ordered = h.ordered;
    received = h.received;
    drained = rw h.drained refl;
    same = h.same;
  }

  step-IsServed :
      (n : ℕ) (s : System T) (e : Event)
      → IsServed (demand_of e + n) s
      → IsServed n (step make_zeros s e)
  unfolding step
  step-IsServed n s (allocate descrs) h =
      with_owner-IsServed (length descrs + n) n s (enter_alloc make_zeros s.owner descrs)
        (omega (arith, pending-enter s.owner descrs)) h
  step-IsServed n s (advance b) h =
      advance-IsServed n s.owner b s refl (with_owner-IsServed (0 + n) n s s.owner (omega arith) h)
  step-IsServed n s (release i) h =
      release-IsServed n i _ s refl (with_owner-IsServed (0 + n) n s s.owner (omega arith) h)
  step-IsServed n s (use_handles hs) h =
      read-IsServed n hs s (with_owner-IsServed (0 + n) n s s.owner (omega arith) h)

  run-IsServed :
      (s : System T) (es : List Event) → IsServed (demand es) s → IsServed 0 (run make_zeros s es)
  unfolding run
  run-IsServed s [] h = h
  run-IsServed s (e ∷ es) h =
      run-IsServed (step make_zeros s e) es (step-IsServed (demand es) s e h)

  start-IsServed : (max_size n : ℕ) → n < 2 ^ 63 → IsServed n (start max_size)
  unfolding init drain
  start-IsServed max_size n small = record {
    counted = omega arith;
    ordered = tt;
    received = [];
    drained = refl;
    same = λ h. refl;
  }

  -- The tensors of some handles, if each belongs to an open allocation.
  abbrev pub tensors_of : List Allocation → List ℕ → Option (List T)
  tensors_of held [] = some []
  tensors_of held (h ∷ hs) = elim (tensor_of make_zeros held h) [
    | none ↦ none
    | some t ↦ elim (tensors_of held hs) [ none ↦ none | some ts ↦ some (t ∷ ts) ]
  ]

  get_all-tensors_of :
      (held : List Allocation) (d : List (ℕ × T)) (hs : List ℕ)
      → ((h : ℕ) → lookup h d ≡ tensor_of make_zeros held h)
      → get_all hs d ≡ tensors_of held hs
  unfolding get_all
  get_all-tensors_of held d [] same = refl
  get_all-tensors_of held d (h ∷ hs) same =
      ground (arith, same h, get_all-tensors_of held d hs same)

  -- From an empty cache, after any steps of handlers and runtime that ask for less than 2^63
  -- handles in all: a read returns, for handles of open allocations, the zero tensors of their
  -- descriptors, and fails if some handle is of no open allocation. It leaves no message in the
  -- pipe, and the tensors left are those of the open allocations: what was released is gone.
  pub use_cache_after_run :
      (max_size : ℕ) (es : List Event) (hs : List ℕ)
      → demand es < 2 ^ 63
      → ((use_cache make_zeros (run make_zeros (start max_size) es).cache hs).0
          ≡ tensors_of (run make_zeros (start max_size) es).held hs)
        × ((use_cache make_zeros (run make_zeros (start max_size) es).cache hs).1.pipe ≡ [])
        × ((h : ℕ)
            → lookup h
                (use_cache make_zeros
                  (run make_zeros (start max_size) es).cache
                  hs).1.allocated_tensors
              ≡ tensor_of make_zeros (run make_zeros (start max_size) es).held h)
  unfolding use_cache
  use_cache_after_run max_size es hs small =
      let h = run-IsServed (start max_size) es (start-IsServed max_size (demand es) small) in
      (
        rw h.drained
            (get_all-tensors_of (run make_zeros (start max_size) es).held h.received hs h.same),
        rw h.drained refl,
        rw h.drained h.same,
      )
