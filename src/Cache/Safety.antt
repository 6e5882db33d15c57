-- ===== src/Cache/Safety.antt =====
-- The size limit of the cache, whatever the handlers and the runtime do in between.
use petals_ai_refactor.Prelude.{
  ℕ, ◌+◌, ◌^◌, ◌≤◌, ◌<◌, ◌≡◌, refl, Bool, Option, none, some, List, [], ◌∷◌, zero, suc, get_elem?,
  arith,
}
use petals_ai_refactor.Cache.Size.{Descriptor}
use petals_ai_refactor.Cache.Pipe.{init}
use petals_ai_refactor.Cache.System.{
  System, Owner, unlocked, requesting, waiting, cleared, Allocation, Event, allocate, advance,
  release, use_handles, remove_at, enter_alloc, advance_alloc, release_alloc, step, run,
}

-- The bytes of the allocations that are open.
abbrev pub total : List Allocation → ℕ
total [] = 0
total (a ∷ held) = a.size + total held

-- An allocation that is past its test still fits.
abbrev pub HasRoom : Owner → ℕ → ℕ → Type 0
HasRoom (cleared n _) current max_size = current + n ≤ max_size
HasRoom _ current max_size = Unit

pub record IsWithin {T : Type 0} (max_size : ℕ) (s : System T) : Type 0 where
  pub limit : s.cache.max_size_bytes ≡ max_size
  pub accounted : s.cache.current_size ≡ total s.held
  pub fits : s.cache.current_size ≤ max_size
  pub room : HasRoom s.owner s.cache.current_size max_size

total-remove_at :
    (held : List Allocation) (i : ℕ) (a : Allocation)
    → get_elem? held i ≡ some a
    → total held ≡ a.size + total (remove_at held i)
total-remove_at [] i a h = cc
total-remove_at (b ∷ held) zero a h = ground arith
total-remove_at (b ∷ held) (suc i) a h = omega (arith, total-remove_at held i a h)

HasRoom-mono : (o : Owner) (m n max_size : ℕ) → m ≤ n → HasRoom o n max_size → HasRoom o m max_size
HasRoom-mono unlocked m n k le h = tt
HasRoom-mono (requesting _ _) m n k le h = tt
HasRoom-mono (waiting _ _) m n k le h = tt
HasRoom-mono (cleared _ _) m n k le h = omega arith

module _ {T : Type 0} (make_zeros : Descriptor → T) (max_size : ℕ) where
  enter-HasRoom :
      (o : Owner) (descrs : List Descriptor) (n : ℕ)
      → HasRoom o n max_size
      → HasRoom (enter_alloc make_zeros o descrs) n max_size
  unfolding enter_alloc
  enter-HasRoom unlocked descrs n h = ground arith
  enter-HasRoom _ descrs n h = h

  advance-IsWithin :
      (o : Owner) (b : Bool) (s : System T)
      → max_size < 2 ^ 63
      → s.owner ≡ o
      → IsWithin max_size s
      → IsWithin max_size (advance_alloc make_zeros o b s)
  unfolding advance_alloc
  advance-IsWithin unlocked b s small e h = h
  advance-IsWithin o b s small e h = ground arith

  release-IsWithin :
      (s : System T) (i : ℕ) (o : Option Allocation)
      → max_size < 2 ^ 63
      → get_elem? s.held i ≡ o
      → IsWithin max_size s
      → IsWithin max_size (release_alloc make_zeros o i s)
  unfolding release_alloc
  release-IsWithin s i none small e h = h
  release-IsWithin s i (some a) small e h =
      let t = total-remove_at s.held i a e in
      record {
        limit = h.limit;
        accounted = omega arith;
        fits = omega arith;
        room = HasRoom-mono s.owner _ s.cache.current_size max_size (omega arith) h.room;
      }

  step-IsWithin :
      (s : System T) (e : Event)
      → max_size < 2 ^ 63
      → IsWithin max_size s
      → IsWithin max_size (step make_zeros s e)
  unfolding step
  step-IsWithin s (allocate descrs) small h = record {
    limit = h.limit;
    accounted = h.accounted;
    fits = h.fits;
    room = enter-HasRoom s.owner descrs _ h.room;
  }
  step-IsWithin s (advance b) small h = advance-IsWithin s.owner b s small refl h
  step-IsWithin s (release i) small h = release-IsWithin s i _ small refl h
  step-IsWithin s (use_handles hs) small h = record {
    limit = h.limit;
    accounted = h.accounted;
    fits = h.fits;
    room = h.room;
  }

  run-IsWithin :
      (s : System T) (es : List Event)
      → max_size < 2 ^ 63
      → IsWithin max_size s
      → IsWithin max_size (run make_zeros s es)
  unfolding run
  run-IsWithin s [] small h = h
  run-IsWithin s (e ∷ es) small h =
      run-IsWithin (step make_zeros s e) es small (step-IsWithin s e small h)

abbrev pub start : {T : Type 0} → ℕ → System T
start max_size = record { cache = init (some max_size); owner = unlocked; held = [] }

start-IsWithin : {T : Type 0} (max_size : ℕ) → IsWithin {T = T} max_size (start max_size)
unfolding init
start-IsWithin max_size = record { limit = refl; accounted = refl; fits = omega arith; room = tt }

-- Whatever handlers and runtime do, and in whatever order, from an empty cache of less than 2^63
-- bytes: the size that the cache counts is the sum of the sizes of the allocations that are open,
-- it is within the limit, and the limit stays the one that was given.
pub run_within_limit :
    {T : Type 0} (make_zeros : Descriptor → T) (max_size : ℕ) (es : List Event)
    → max_size < 2 ^ 63
    → ((run make_zeros (start max_size) es).cache.current_size
        ≡ total (run make_zeros (start max_size) es).held)
      × ((run make_zeros (start max_size) es).cache.current_size ≤ max_size)
      × ((run make_zeros (start max_size) es).cache.max_size_bytes ≡ max_size)
run_within_limit make_zeros max_size es small =
    let h = run-IsWithin make_zeros max_size (start max_size) es small (start-IsWithin max_size) in
    (h.accounted, h.fits, h.limit)
