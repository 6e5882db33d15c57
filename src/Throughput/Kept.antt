-- ===== src/Throughput/Kept.antt =====
-- What the file of throughputs keeps from one call to the next.
use petals_ai_refactor.Prelude.{==_iff, ◌≡◌, refl, ap, true, false, Option, none, some, [], ◌∷◌}
use petals_ai_refactor.Routing.Info.{uid_eq}
use petals_ai_refactor.Throughput.{
  Key, CacheFile, holds, Write, written, measure_throughput_info, find_key, read_cache, stored_or,
  get_host_throughput,
}

key_refl : (key : Key) → uid_eq key key ≡ true
key_refl [] = refl
key_refl (c ∷ cs) = rw ((==_iff c c).1 refl) (key_refl cs)

module _ {V : Type 0} (smaller : V → V → V) where
  -- What a call gives is what later calls for the same host give, whatever they would measure and
  -- however a write of theirs would end, and they leave the file as it is; other hosts keep theirs.
  abbrev pub IsKept : Key → CacheFile V → V × CacheFile V → Type 0
  IsKept key file r =
      ((compute : V) (network : Option V) (write : Write)
        → get_host_throughput smaller compute network key false write r.1 ≡ r)
      × ((other : Key)
          → uid_eq key other ≡ false
          → find_key smaller other (read_cache smaller false r.1)
            ≡ find_key smaller other (read_cache smaller false file))

  stored_or-IsKept :
      (key : Key) (file : CacheFile V) (measured : V) (r : Option V)
      → find_key smaller key (read_cache smaller false file) ≡ r
      → IsKept key file
          (stored_or smaller measured written key (read_cache smaller false file) file r)
  unfolding get_host_throughput find_key
  stored_or-IsKept key file measured (some v) e = (
    (λ compute network write.
        ap
          (stored_or smaller (measure_throughput_info smaller compute network) write key
            (read_cache smaller false file) file)
          e),
    λ other differs. refl,
  )
  stored_or-IsKept key file measured none e =
      let kept = (key, measured) ∷ read_cache smaller false file in
      let found : find_key smaller key kept ≡ some measured = rw (key_refl key) refl in
      (
        (λ compute network write.
            ap
              (stored_or smaller (measure_throughput_info smaller compute network) write key kept
                (holds kept))
              found),
        λ other differs. rw differs refl,
      )

  -- After a call that is not forced to measure and whose write, if there is one, ends well, later
  -- calls for the same host return what it returned, whatever they would measure and however their
  -- writes would end, and leave the file as it is, and the throughputs of other hosts are those that
  -- the file had.
  pub get_host_throughput-IsKept :
      (compute : V) (network : Option V) (key : Key) (file : CacheFile V)
      → IsKept key file (get_host_throughput smaller compute network key false written file)
  unfolding get_host_throughput
  get_host_throughput-IsKept compute network key file =
      stored_or-IsKept key file (measure_throughput_info smaller compute network)
        (find_key smaller key (read_cache smaller false file)) refl
