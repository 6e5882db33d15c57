-- ===== src/Tests/CacheTests.antt =====
-- The cache: an allocation, one that waits and then fits, a release, and reads in between.
use petals_ai_refactor.Prelude.{ℕ, ◌≤◌, ◌≡◌, refl, false, List, [], ◌∷◌, arith}
use petals_ai_refactor.Cache.Size.{
  Descriptor, get_allocation_size, device_total, device_total-le-get_allocation_size,
}
use petals_ai_refactor.Cache.Pipe.{init, lookup, use_cache}
use petals_ai_refactor.Cache.System.{System, Event, allocate, advance, release, use_handles, run}
use petals_ai_refactor.Cache.Safety.{total, start, run_within_limit}
use petals_ai_refactor.Cache.Tensors.{tensor_of}
use petals_ai_refactor.Cache.View.{tensors_of, use_cache_after_run}

abbrev small : Descriptor
small = record { device = 0; numel = 40; bits = 16 }

abbrev other : Descriptor
other = record { device = 1; numel = 8; bits = 32 }

abbrev script : List Event
script =
    allocate (small ∷ other ∷ [])
    ∷ advance false
    ∷ advance false
    ∷ use_handles (0 ∷ [])
    ∷ allocate (small ∷ [])
    ∷ advance false
    ∷ advance false
    ∷ release 0
    ∷ advance false
    ∷ advance false
    ∷ advance false
    ∷ []

abbrev final : System Descriptor
final = run (λ d. d) (start 100) script

script_result : (final.cache.current_size ≡ 80) × (final.cache.handle_counter ≡ 3)
unfolding run init get_allocation_size
script_result = (refl, refl)

run_within_limit_example :
    (final.cache.current_size ≡ total final.held)
    × (final.cache.current_size ≤ 100)
    × (final.cache.max_size_bytes ≡ 100)
run_within_limit_example = run_within_limit (λ d. d) 100 script (omega arith)

use_cache_after_run_example :
    ((use_cache (λ d. d) final.cache (2 ∷ [])).0 ≡ tensors_of (λ d. d) final.held (2 ∷ []))
    × ((use_cache (λ d. d) final.cache (2 ∷ [])).1.pipe ≡ [])
    × ((h : ℕ)
        → lookup h (use_cache (λ d. d) final.cache (2 ∷ [])).1.allocated_tensors
          ≡ tensor_of (λ d. d) final.held h)
use_cache_after_run_example = use_cache_after_run (λ d. d) 100 script (2 ∷ []) (omega arith)

device_total-le-get_allocation_size_example : device_total 1 (small ∷ other ∷ []) ≤ 80
unfolding get_allocation_size
device_total-le-get_allocation_size_example =
    device_total-le-get_allocation_size 1 (small ∷ other ∷ []) {m = 80} refl
