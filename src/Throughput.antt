-- ===== src/Throughput.antt =====
-- server/throughput.py (src/petals): the file that keeps measured throughputs, with get_host_throughput
-- and measure_throughput_info. A throughput is a value of a parameter type; the measurements
-- themselves, the key of a host and the lock around it all are left out.
pub mod Kept
use petals_ai_refactor.Prelude.{if◌then◌else◌, ℕ, Bool, false, Option, none, some, List, [], ◌∷◌}
use petals_ai_refactor.Routing.Info.{uid_eq}

abbrev pub Key : Type 0
Key = List ℕ

-- What stands in the file; text that is no dict of throughputs cannot be read.
pub data CacheFile (V : Type 0) : Type 0 where
  missing unreadable : CacheFile V
  holds : List (Key × V) → CacheFile V

-- How a write ends: done, with an exception before the file was opened, or after that.
pub data Write : Type 0 where
  written not_opened broken_off : Write

module _ {V : Type 0} (smaller : V → V → V) where
  -- the throughput of the network is none where measuring it raises
  unfoldable pub measure_throughput_info : V → Option V → V
  measure_throughput_info compute none = compute
  measure_throughput_info compute (some network) = smaller compute network

  unfoldable pub find_key : Key → List (Key × V) → Option V
  find_key key [] = none
  find_key key ((k, v) ∷ cache) =
      let rest = find_key key cache in if uid_eq k key then some v else rest

  -- the dict at the start of the call
  abbrev pub read_cache : Bool → CacheFile V → List (Key × V)
  read_cache false (holds cache) = cache
  read_cache _ _ = []

  abbrev pub after_write : Write → List (Key × V) → CacheFile V → CacheFile V
  after_write written cache file = holds cache
  after_write not_opened cache file = file
  after_write broken_off cache file = unreadable

  -- what is found in the dict, or the measured throughput, which is put there and written
  abbrev pub stored_or : V → Write → Key → List (Key × V) → CacheFile V → Option V → V × CacheFile V
  stored_or measured write key cache file (some v) = (v, file)
  stored_or measured write key cache file none =
      (measured, after_write write ((key, measured) ∷ cache) file)

  -- The throughput, and what is in the file afterwards.
  unfoldable pub get_host_throughput :
      V → Option V → Key → Bool → Write → CacheFile V → V × CacheFile V
  unfolding find_key measure_throughput_info
  get_host_throughput compute network key force_eval write file =
      let cache = read_cache force_eval file in
      let measured = measure_throughput_info compute network in
      stored_or measured write key cache file (find_key key cache)
