-- ===== src/Routing/Active.antt =====
-- The active spans of `compute_spans`: the invariant of the dict, and what its spans cover.
use petals_ai_refactor.Prelude.{
  ltb, leb, ◌==◌, if◌then◌else◌, Bool-cases, ℕ, ◌+◌, ◌≤◌, ◌<◌, ◌≡◌, refl, ◌∙◌, inl, inr, Bool, true,
  false, ◌&&◌, ◌||◌, List, [], ◌∷◌, ◌++◌, arith,
}
use petals_ai_refactor.Data.{PeerId, RemoteSpanInfo}
use petals_ai_refactor.Routing.Spans.{ActiveSpans, extend_span}

-- Whether a span of the peer covers the block.
abbrev pub covers : PeerId → ℕ → RemoteSpanInfo → Bool
covers p b s = s.peer_id == p && (leb s.start b && ltb b s.end)

abbrev pub some_covers : PeerId → ℕ → List RemoteSpanInfo → Bool
some_covers p b [] = false
some_covers p b (s ∷ spans) = covers p b s || some_covers p b spans

abbrev pub some_active : PeerId → ℕ → ActiveSpans → Bool
some_active p b [] = false
some_active p b ((_, s) ∷ active) = covers p b s || some_active p b active

abbrev pub is_active : PeerId → ActiveSpans → Bool
is_active p [] = false
is_active p ((q, _) ∷ active) = q == p || is_active p active

-- Each key once, and for each the span of that peer, which ends at `ends` of the peer.
abbrev pub IsActive : (PeerId → ℕ) → ActiveSpans → Type 0
IsActive ends [] = Unit
IsActive ends ((p, s) ∷ active) =
    (s.peer_id ≡ p)
    × (s.start < s.end)
    × (s.end ≡ ends p)
    × (is_active p active ≡ false)
    × IsActive ends active

is_active-extend :
    (i : ℕ) (p q : PeerId) (a : ActiveSpans)
    → is_active q (extend_span i p a) ≡ (p == q || is_active q a)
unfolding extend_span
is_active-extend i p q [] = ground arith
is_active-extend i p q ((r, s) ∷ a) = ground (arith, is_active-extend i p q a)

pub IsActive-ext :
    (f g : PeerId → ℕ) (a : ActiveSpans)
    → ((q : PeerId) → is_active q a ≡ true → f q ≡ g q)
    → IsActive f a
    → IsActive g a
IsActive-ext f g [] e h = tt
IsActive-ext f g ((p, s) ∷ a) e h =
    (h.0, h.1, h.2 ∙ e p (ground arith), h.3, IsActive-ext f g a (λ q m. e q (ground arith)) h.4)

abbrev pub ends_after : ℕ → PeerId → (PeerId → ℕ) → PeerId → ℕ
ends_after i p f q = if p == q then i + 1 else f q

-- at most one entry is of `p`
not_active :
    (p q : PeerId) (a : ActiveSpans)
    → is_active p a ≡ false
    → is_active q a ≡ true
    → (p == q) ≡ false
not_active p q a h k = ground arith

pub extend-IsActive :
    (i : ℕ) (p : PeerId) (f : PeerId → ℕ) (a : ActiveSpans)
    → f p ≤ i + 1
    → IsActive f a
    → IsActive (ends_after i p f) (extend_span i p a)
unfolding extend_span
extend-IsActive i p f [] le h = ground arith
extend-IsActive i p f ((q, s) ∷ a) le h = elim (Bool-cases (q == p)) [
  | inl same ↦ rw same (
    h.0,
    ground arith,
    ground arith,
    h.3,
    IsActive-ext f (ends_after i p f) a (λ r m. ground (arith, h.3, m)) h.4,
  )
  | inr other ↦ rw other (
    h.0,
    h.1,
    ground arith,
    ground (arith, is_active-extend i p q a),
    extend-IsActive i p f a le h.4,
  )
]

pub some_active-extend :
    (i : ℕ) (p q : PeerId) (b : ℕ) (f : PeerId → ℕ) (a : ActiveSpans)
    → f q ≤ i + 1
    → i ≤ f q
    → IsActive f a
    → some_active p b (extend_span i q a) ≡ (some_active p b a || (q == p && b == i))
unfolding extend_span
some_active-extend i p q b f [] le ge h = ground arith
some_active-extend i p q b f ((r, s) ∷ a) le ge h =
    ground (arith, some_active-extend i p q b f a le ge h.4)

pub some_covers-append :
    (p : PeerId) (b : ℕ) (xs ys : List RemoteSpanInfo)
    → some_covers p b (xs ++ ys) ≡ (some_covers p b xs || some_covers p b ys)
some_covers-append p b [] ys = refl
some_covers-append p b (x ∷ xs) ys = ground (arith, some_covers-append p b xs ys)

abbrev pub Fits : ℕ → RemoteSpanInfo → Type 0
Fits i s = (s.start < s.end) × (s.end ≤ i)
