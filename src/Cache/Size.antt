-- ===== src/Cache/Size.antt =====
-- `get_allocation_size` of server/memory_cache.py.
use petals_ai_refactor.Prelude.{
  ℕ, ◌+◌, ◌*◌, ◌/◌, ◌≤◌, ◌≡◌, Option, none, some, List, [], ◌∷◌, ◌==◌, max, arith, if◌then◌else◌,
}

pub record Descriptor : Type 0 where
  pub device : ℕ
  pub numel : ℕ
  pub bits : ℕ

abbrev pub tensor_size : Descriptor → ℕ
tensor_size descr = descr.numel * descr.bits / 8

-- `d[k] = d.get(k, 0) + n`
unfoldable pub add_at : ℕ → ℕ → List (ℕ × ℕ) → List (ℕ × ℕ)
add_at k n [] = (k, n) ∷ []
add_at k n ((j, m) ∷ d) = if j == k then (j, m + n) ∷ d else (j, m) ∷ add_at k n d

unfoldable pub size_by_device : List Descriptor → List (ℕ × ℕ) → List (ℕ × ℕ)
size_by_device [] sizes = sizes
size_by_device (descr ∷ rest) sizes =
    size_by_device rest (add_at descr.device (tensor_size descr) sizes)

abbrev max_from : ℕ → List (ℕ × ℕ) → ℕ
max_from m [] = m
max_from m ((_, n) ∷ d) = max_from (max m n) d

-- `max(d.values())`; `none` is the ValueError of an empty argument
unfoldable pub max_value : List (ℕ × ℕ) → Option ℕ
max_value [] = none
max_value ((_, n) ∷ d) = some (max_from n d)

unfoldable pub get_allocation_size : List Descriptor → Option ℕ
unfolding size_by_device add_at max_value
get_allocation_size descriptors = max_value (size_by_device descriptors [])

-- The bytes that the descriptors ask of one device.
abbrev pub device_total : ℕ → List Descriptor → ℕ
device_total k [] = 0
device_total k (descr ∷ rest) =
    (if descr.device == k then tensor_size descr else 0) + device_total k rest

abbrev value_at : ℕ → List (ℕ × ℕ) → ℕ
value_at k [] = 0
value_at k ((j, m) ∷ d) = if j == k then m else value_at k d

value_at-add_at :
    (k j n : ℕ) (d : List (ℕ × ℕ))
    → value_at k (add_at j n d) ≡ (if j == k then n else 0) + value_at k d
unfolding add_at
value_at-add_at k j n [] = ground arith
value_at-add_at k j n ((i, m) ∷ d) = ground (arith, value_at-add_at k j n d)

value_at-size_by_device :
    (k : ℕ) (descrs : List Descriptor) (d : List (ℕ × ℕ))
    → value_at k (size_by_device descrs d) ≡ device_total k descrs + value_at k d
unfolding size_by_device
value_at-size_by_device k [] d = omega arith
value_at-size_by_device k (descr ∷ rest) d =
    let here = value_at-add_at k descr.device (tensor_size descr) d in
    let there = value_at-size_by_device k rest (add_at descr.device (tensor_size descr) d) in
    omega (arith, here, there)

le-max_from : (m : ℕ) (d : List (ℕ × ℕ)) → m ≤ max_from m d
le-max_from m [] = omega arith
le-max_from m ((_, n) ∷ d) = omega (arith, le-max_from (max m n) d)

value_at-le-max_from : (k m : ℕ) (d : List (ℕ × ℕ)) → value_at k d ≤ max_from m d
value_at-le-max_from k m [] = omega arith
value_at-le-max_from k m ((j, n) ∷ d) =
    ground (arith, value_at-le-max_from k (max m n) d, le-max_from (max m n) d)

value_at-le-max_value : (k : ℕ) (d : List (ℕ × ℕ)) {m : ℕ} → max_value d ≡ some m → value_at k d ≤ m
unfolding max_value
value_at-le-max_value k [] h = cc
value_at-le-max_value k ((j, n) ∷ d) h = ground (arith, value_at-le-max_from k n d, le-max_from n d)

-- The size that a call accounts for covers what its descriptors ask of each device.
pub device_total-le-get_allocation_size :
    (k : ℕ) (descrs : List Descriptor) {m : ℕ}
    → get_allocation_size descrs ≡ some m
    → device_total k descrs ≤ m
unfolding get_allocation_size
device_total-le-get_allocation_size k descrs h = omega (
  arith,
  value_at-size_by_device k descrs [],
  value_at-le-max_value k (size_by_device descrs []) h,
)
