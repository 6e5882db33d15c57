-- ===== src/Cache/Tensors.antt =====
-- The tensors that the runtime holds for the open allocations, by their handles, and what the
-- messages of the pipe do to them.
use mathlib.Core.Bool.{false≢true}
use petals_ai_refactor.Prelude.{
  ltb, leb, ◌==◌, if◌then◌else◌, Option-cases, length, get_elem?, range_from, ℕ, zero, suc, ◌+◌,
  ◌≤◌, ◌<◌, ◌≡◌, refl, ap, inl, inr, Bool, true, false, ◌&&◌, Option, none, some, List, [], ◌∷◌,
  ◌++◌, arith,
}
use petals_ai_refactor.Cache.Size.{Descriptor}
use petals_ai_refactor.Cache.Pipe.{
  Message, Drained, lookup, insert, remove, remove_all, create_all, receive, drain,
}
use petals_ai_refactor.Cache.System.{Allocation, handles, remove_at}

abbrev pub or_else {ℓ} : {A : Type ℓ} → Option A → Option A → Option A
or_else (some a) o = some a
or_else none o = o

-- Newest first, the ranges of handles lie one below the other, and below the counter.
abbrev pub Ordered : ℕ → List Allocation → Type 0
Ordered bound [] = Unit
Ordered bound (a ∷ held) = (a.first + length a.descriptors ≤ bound) × Ordered a.first held

abbrev mem : ℕ → List ℕ → Bool
mem h [] = false
mem h (k ∷ ks) = if k == h then true else mem h ks

mem-range_from : (h first n : ℕ) → mem h (range_from first n) ≡ (leb first h && ltb h (first + n))
mem-range_from h first zero = ground arith
mem-range_from h first (suc n) = ground (arith, mem-range_from h (first + 1) n)

Ordered-mono : (m n : ℕ) (held : List Allocation) → m ≤ n → Ordered m held → Ordered n held
Ordered-mono m n [] le o = tt
Ordered-mono m n (a ∷ held) le o = (omega arith, o.1)

pub Ordered-remove_at :
    (bound : ℕ) (held : List Allocation) (i : ℕ)
    → Ordered bound held
    → Ordered bound (remove_at held i)
Ordered-remove_at bound [] i o = tt
Ordered-remove_at bound (a ∷ held) zero o = Ordered-mono a.first bound held (omega arith) o.1
Ordered-remove_at bound (a ∷ held) (suc i) o = (o.0, Ordered-remove_at a.first held i o.1)

Ordered-get_elem? :
    (bound : ℕ) (held : List Allocation) (i : ℕ) (a : Allocation)
    → Ordered bound held
    → get_elem? held i ≡ some a
    → a.first + length a.descriptors ≤ bound
Ordered-get_elem? bound [] i a o e = cc
Ordered-get_elem? bound (b ∷ held) zero a o e = ground (arith, o.0)
Ordered-get_elem? bound (b ∷ held) (suc i) a o e =
    omega (arith, Ordered-get_elem? b.first held i a o.1 e)

module _ {T : Type 0} where
  lookup-insert :
      (k j : ℕ) (v : T) (d : List (ℕ × T))
      → lookup j (insert k v d) ≡ (if k == j then some v else lookup j d)
  unfolding insert
  lookup-insert k j v [] = ground arith
  lookup-insert k j v ((i, w) ∷ d) = ground (arith, lookup-insert k j v d)

  lookup-remove :
      (k j : ℕ) (d : List (ℕ × T)) → lookup j (remove k d) ≡ (if k == j then none else lookup j d)
  unfolding remove
  lookup-remove k j [] = ground arith
  lookup-remove k j ((i, w) ∷ d) = ground (arith, lookup-remove k j d)

  pub lookup-remove_all :
      (hs : List ℕ) (j : ℕ) (d : List (ℕ × T))
      → lookup j (remove_all hs d) ≡ (if mem j hs then none else lookup j d)
  unfolding remove_all
  lookup-remove_all [] j d = refl
  lookup-remove_all (h ∷ hs) j d =
      ground (arith, lookup-remove_all hs j (remove h d), lookup-remove h j d)

  module _ (make_zeros : Descriptor → T) where
    -- The tensor of a handle, among those from `first` on.
    abbrev pub tensor_from : ℕ → List Descriptor → ℕ → Option T
    tensor_from first [] h = none
    tensor_from first (descr ∷ descrs) h =
        if first == h then some (make_zeros descr) else tensor_from (first + 1) descrs h

    -- The tensor that an open allocation gives to a handle.
    abbrev pub tensor_of : List Allocation → ℕ → Option T
    tensor_of [] h = none
    tensor_of (a ∷ held) h = or_else (tensor_from a.first a.descriptors h) (tensor_of held h)

    tensor_from_below :
        (first : ℕ) (descrs : List Descriptor) (h : ℕ)
        → h < first
        → tensor_from first descrs h ≡ none
    tensor_from_below first [] h lt = refl
    tensor_from_below first (descr ∷ descrs) h lt =
        ground (arith, tensor_from_below (first + 1) descrs h)

    tensor_from_above :
        (first : ℕ) (descrs : List Descriptor) (h : ℕ)
        → first + length descrs ≤ h
        → tensor_from first descrs h ≡ none
    tensor_from_above first [] h lt = refl
    tensor_from_above first (descr ∷ descrs) h lt =
        ground (arith, tensor_from_above (first + 1) descrs h)

    pub create_all_lem :
        (first : ℕ) (descrs : List Descriptor) (d : List (ℕ × T))
        → (d' : List (ℕ × T)) × (create_all make_zeros (range_from first (length descrs)) descrs d
            ≡ some d')
          × ((h : ℕ) → lookup h d' ≡ or_else (tensor_from first descrs h) (lookup h d))
    unfolding create_all
    create_all_lem first [] d = (d, refl, λ h. refl)
    create_all_lem first (descr ∷ descrs) d =
        let (d', made, found) =
          create_all_lem (first + 1) descrs (insert first (make_zeros descr) d) in
        (
          d',
          made,
          λ h. ground (
            arith,
            found h,
            lookup-insert first h (make_zeros descr) d,
            tensor_from_below (first + 1) descrs h,
          ),
        )

    -- Messages that are all received.
    abbrev pub Drains : List Message → List (ℕ × T) → List (ℕ × T) → Type 0
    Drains pipe d d' =
        drain make_zeros pipe d ≡ record { passed = true; tensors = d'; pending = [] }

    pub drain-append :
        (pipe : List Message) (m : Message) (d d' d'' : List (ℕ × T))
        → Drains pipe d d'
        → receive make_zeros m d' ≡ some d''
        → Drains (pipe ++ m ∷ []) d d''
    unfolding drain
    drain-append [] m d d' d'' h e = ground arith
    drain-append (n ∷ pipe) m d d' d'' h e = elim (Option-cases (receive make_zeros n d)) [
      | inl failed ↦
          absurd (false≢true (ap (λ (r : Drained T). r.passed) (rw (failed, drain) at h)))
      | inr (d₁, received) ↦
          rw (received, drain) (drain-append pipe m d₁ d' d'' (rw (received, drain) at h) e)
    ]

    tensor_of_above :
        (bound : ℕ) (held : List Allocation) (h : ℕ)
        → Ordered bound held
        → bound ≤ h
        → tensor_of held h ≡ none
    tensor_of_above bound [] h o le = refl
    tensor_of_above bound (a ∷ held) h o le =
        rw (tensor_from_above a.first a.descriptors h (omega arith))
          (tensor_of_above a.first held h o.1 (omega arith))

    tensor_of-tail :
        (bound : ℕ) (a : Allocation) (held : List Allocation) (h : ℕ)
        → Ordered bound (a ∷ held)
        → (if mem h (handles a) then none else tensor_of (a ∷ held) h) ≡ tensor_of held h
    tensor_of-tail bound a held h o =
        let range = mem-range_from h a.first (length a.descriptors) in
        let below = tensor_from_below a.first a.descriptors h in
        let above = tensor_from_above a.first a.descriptors h in
        ground (arith, range, below, above, tensor_of_above a.first held h o.1)

    pub tensor_of-remove_at :
        (bound : ℕ) (held : List Allocation) (i h : ℕ) (a : Allocation)
        → Ordered bound held
        → get_elem? held i ≡ some a
        → (if mem h (handles a) then none else tensor_of held h) ≡ tensor_of (remove_at held i) h
    tensor_of-remove_at bound [] i h a o e = cc
    tensor_of-remove_at bound (b ∷ held) zero h a o e = cc (e, tensor_of-tail bound b held h o)
    tensor_of-remove_at bound (b ∷ held) (suc i) h a o e =
        let range = mem-range_from h a.first (length a.descriptors) in
        let below = tensor_from_below b.first b.descriptors h in
        let le = Ordered-get_elem? b.first held i a o.1 e in
        ground (arith, range, below, le, tensor_of-remove_at b.first held i h a o.1 e)
