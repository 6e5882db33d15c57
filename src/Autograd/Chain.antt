-- ===== src/Autograd/Chain.antt =====
-- Paths of spans, and the blocks that a pass over a path has applied.
use petals_ai_refactor.Prelude.{
  ℕ, zero, suc, ◌+◌, ◌-◌, ◌≤◌, ◌<◌, ◌≡◌, refl, sym, ap, ◌∙◌, Option, none, some, List, [], ◌∷◌,
  ◌++◌, arith,
}
use petals_ai_refactor.Data.{RemoteSpanInfo}
use petals_ai_refactor.Routing.Route.{IsRoute}
use petals_ai_refactor.Autograd.Forward.{clip_last}

-- A path from `b` that ends exactly at `e`, or nothing.
abbrev pub IsPath : ℕ → ℕ → List RemoteSpanInfo → Type 0
IsPath b e [] = Unit
IsPath b e (s ∷ []) = (s.start ≡ b) × (b < s.end) × (s.end ≡ e)
IsPath b e (s ∷ t ∷ spans) = (s.start ≡ b) × (b < s.end) × (s.end < e) × IsPath s.end e (t ∷ spans)

abbrev pub IsClipped : ℕ → ℕ → Option (List RemoteSpanInfo) → Type 0
IsClipped b e none = ⊥
IsClipped b e (some []) = ⊥
IsClipped b e (some (s ∷ spans)) = IsPath b e (s ∷ spans)

IsClipped-cons :
    (b e : ℕ) (s : RemoteSpanInfo) (r : Option (List RemoteSpanInfo))
    → s.start ≡ b
    → b < s.end
    → s.end < e
    → IsClipped s.end e r
    → IsClipped b e (elim r [ none ↦ none | some clipped ↦ some (s ∷ clipped) ])
IsClipped-cons b e s none start lt inside h = h
IsClipped-cons b e s (some []) start lt inside h = absurd h
IsClipped-cons b e s (some (t ∷ spans)) start lt inside h = (start, lt, inside, h)

pub clip_last-IsClipped :
    (b e : ℕ) (spans : List RemoteSpanInfo)
    → b < e
    → IsRoute b e spans
    → IsClipped b e (clip_last e spans)
unfolding clip_last
clip_last-IsClipped b e [] lt h = absurd (omega (arith, h))
clip_last-IsClipped b e (s ∷ []) lt h = (h.0, omega (arith, h.1, h.2), omega (arith, h.3))
clip_last-IsClipped b e (s ∷ t ∷ spans) lt h =
    IsClipped-cons b e s (clip_last e (t ∷ spans)) h.0 h.1 h.3.2
      (clip_last-IsClipped s.end e (t ∷ spans) h.3.2 h.3)

pub IsPath-head :
    (b e : ℕ) (s : RemoteSpanInfo) (rest : List RemoteSpanInfo)
    → IsPath b e (s ∷ rest)
    → (s.start ≡ b) × (b < s.end) × (s.end ≤ e) × IsPath s.end e rest
IsPath-head b e s [] h = (h.0, h.1, omega (arith, h.2), tt)
IsPath-head b e s (t ∷ rest) h = (h.0, h.1, omega (arith, h.2), h.3)

pub IsPath-end :
    (b e : ℕ) (s : RemoteSpanInfo) (rest : List RemoteSpanInfo)
    → IsPath b e (s ∷ rest)
    → rest ≡ []
    → s.end ≡ e
IsPath-end b e s [] h none_left = h.2
IsPath-end b e s (t ∷ rest) h none_left = cc

module _ {H : Type 0} (block : ℕ → H → H) where
  -- The `n` blocks from block `i` on, one after the other.
  unfoldable pub apply_blocks : ℕ → ℕ → H → H
  apply_blocks i zero h = h
  apply_blocks i (suc n) h = apply_blocks (i + 1) n (block i h)

  pub apply_blocks-add :
      (i m n : ℕ) (h : H) → apply_blocks (i + m) n (apply_blocks i m h) ≡ apply_blocks i (m + n) h
  unfolding apply_blocks
  apply_blocks-add i zero n h =
      let e : i + 0 ≡ i = omega arith in
      let sum : n ≡ 0 + n = omega arith in
      ap (λ j. apply_blocks j n h) e ∙ ap (λ k. apply_blocks i k h) sum
  apply_blocks-add i (suc m) n h =
      let e : i + suc m ≡ i + 1 + m = omega arith in
      let sum : suc (m + n) ≡ suc m + n = omega arith in
      ap (λ j. apply_blocks j n (apply_blocks (i + 1) m (block i h))) e
      ∙ apply_blocks-add (i + 1) m n (block i h)
      ∙ ap (λ k. apply_blocks i k h) sum

  -- From block `b` and the inputs `h`, the spans lead to block `c` and the inputs `out`, where the
  -- inputs of each span are what the blocks of the spans before it make of `h`.
  abbrev pub IsChain : ℕ → H → List RemoteSpanInfo → List H → ℕ → H → Type 0
  IsChain b h [] [] c out = (b ≡ c) × (h ≡ out)
  IsChain b h (s ∷ spans) (i ∷ inputs) c out =
      (s.start ≡ b)
      × (b < s.end)
      × (i ≡ h)
      × IsChain s.end (apply_blocks b (s.end - b) h) spans inputs c out
  IsChain b h _ _ c out = ⊥

  pub IsChain-snoc :
      (b : ℕ) (h : H) (spans : List RemoteSpanInfo) (inputs : List H) (s : RemoteSpanInfo) (i : H)
      → IsChain b h spans inputs s.start i
      → s.start < s.end
      → IsChain b h
          (spans ++ s ∷ [])
          (inputs ++ i ∷ [])
          s.end
          (apply_blocks s.start (s.end - s.start) i)
  IsChain-snoc b h [] [] s i (eb, eh) lt = (
    sym eb,
    omega arith,
    sym eh,
    (
      refl,
      ap (λ j. apply_blocks j (s.end - j) h) eb ∙ ap (apply_blocks s.start (s.end - s.start)) eh,
    ),
  )
  IsChain-snoc b h [] (_ ∷ _) s i c lt = absurd c
  IsChain-snoc b h (_ ∷ _) [] s i c lt = absurd c
  IsChain-snoc b h (t ∷ spans) (j ∷ inputs) s i c lt =
      (c.0, c.1, c.2, IsChain-snoc t.end (apply_blocks b (t.end - b) h) spans inputs s i c.3 lt)

  pub IsChain-apply_blocks :
      (b : ℕ) (h : H) (spans : List RemoteSpanInfo) (inputs : List H) (c : ℕ) (out : H)
      → IsChain b h spans inputs c out
      → (b ≤ c) × (out ≡ apply_blocks b (c - b) h)
  unfolding apply_blocks
  IsChain-apply_blocks b h [] [] c out (eb, eh) =
      let none_left : c - b ≡ 0 = omega arith in
      (omega arith, sym eh ∙ ap (λ n. apply_blocks b n h) (sym none_left))
  IsChain-apply_blocks b h [] (_ ∷ _) c out x = absurd x
  IsChain-apply_blocks b h (_ ∷ _) [] c out x = absurd x
  IsChain-apply_blocks b h (s ∷ spans) (i ∷ inputs) c out x =
      let lt = x.1 in
      let (le, e) =
        IsChain-apply_blocks s.end (apply_blocks b (s.end - b) h) spans inputs c out x.3 in
      let at : s.end ≡ b + (s.end - b) = omega arith in
      let sum : s.end - b + (c - s.end) ≡ c - b = omega arith in
      (
        omega arith,
        e
            ∙ ap (λ j. apply_blocks j (c - s.end) (apply_blocks b (s.end - b) h)) at
            ∙ apply_blocks-add b (s.end - b) (c - s.end) h
            ∙ ap (λ n. apply_blocks b n h) sum,
      )
