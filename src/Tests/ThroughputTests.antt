-- ===== src/Tests/ThroughputTests.antt =====
-- A file with the throughputs of two hosts.
use petals_ai_refactor.Prelude.{ℕ, min, ◌≡◌, refl, true, false, some, [], ◌∷◌}
use petals_ai_refactor.Throughput.{CacheFile, holds, written, get_host_throughput}
use petals_ai_refactor.Throughput.Kept.{IsKept, get_host_throughput-IsKept}

abbrev two_hosts : CacheFile ℕ
two_hosts = holds (((1 ∷ []), 30) ∷ ((2 ∷ []), 40) ∷ [])

-- a forced call drops what the file has of the other host
forced_test :
    get_host_throughput min 50 (some 20) (1 ∷ []) true written two_hosts
    ≡ (20, holds (((1 ∷ []), 20) ∷ []))
unfolding get_host_throughput
forced_test = refl

get_host_throughput-IsKept_example :
    IsKept min
      (3 ∷ [])
      two_hosts
      (get_host_throughput min 50 (some 20) (3 ∷ []) false written two_hosts)
get_host_throughput-IsKept_example = get_host_throughput-IsKept min 50 (some 20) (3 ∷ []) two_hosts
