-- ===== src/Autograd/Stacks.antt =====
-- The stacks of spans and inputs of a backward pass, and gradients through a row of blocks.
use mathlib.Core.Path.{subst}
use petals_ai_refactor.Prelude.{
  ==_iff, length, ℕ, zero, suc, ◌+◌, ◌-◌, ◌≤◌, ◌<◌, ◌≡◌, refl, sym, ap, ◌∙◌, true, some, List, [],
  ◌∷◌, ◌++◌, arith,
}
use petals_ai_refactor.Data.{RemoteSpanInfo}
use petals_ai_refactor.Autograd.Chain.{apply_blocks, IsChain, IsChain-apply_blocks}
use petals_ai_refactor.Autograd.Backward.{pop, starts_at, ends_at}

pub pop-snoc : {A : Type 0} (xs : List A) (x : A) → pop (xs ++ x ∷ []) ≡ some (xs, x)
unfolding pop
pop-snoc [] x = refl
pop-snoc (y ∷ xs) x = rw (pop-snoc xs x) refl

module _ {H : Type 0} (block : ℕ → H → H) where
  -- The last span of a chain that has one, with its inputs, and the chain before it.
  pub record IsLast (b : ℕ) (h : H) (spans : List RemoteSpanInfo) (inputs : List H) (c : ℕ)
      (out : H) : Type 0 where
    pub front : List RemoteSpanInfo
    pub span : RemoteSpanInfo
    pub front_inputs : List H
    pub given : H
    pub spans_split : spans ≡ front ++ span ∷ []
    pub inputs_split : inputs ≡ front_inputs ++ given ∷ []
    pub before : IsChain block b h front front_inputs span.start given
    pub some_blocks : span.start < span.end
    pub at_end : span.end ≡ c
    pub outputs : out ≡ apply_blocks block span.start (span.end - span.start) given

  cons-IsLast :
      (b : ℕ) (h : H) (s : RemoteSpanInfo) (spans : List RemoteSpanInfo) (i : H) (inputs : List H)
      (c : ℕ) (out : H)
      → IsChain block b h (s ∷ spans) (i ∷ inputs) c out
      → IsLast b h (s ∷ spans) (i ∷ inputs) c out
  cons-IsLast b h s [] i [] c out x = record {
    front = [];
    span = s;
    front_inputs = [];
    given = i;
    spans_split = refl;
    inputs_split = refl;
    before = (sym x.0, sym x.2);
    some_blocks = omega (arith, x.0, x.1);
    at_end = x.3.0;
    outputs =
        sym x.3.1
        ∙ ap (λ j. apply_blocks block j (s.end - j) h) (sym x.0)
        ∙ ap (apply_blocks block s.start (s.end - s.start)) (sym x.2);
  }
  cons-IsLast b h s (t ∷ spans) i (j ∷ inputs) c out x =
      let l = cons-IsLast s.end (apply_blocks block b (s.end - b) h) t spans j inputs c out x.3 in
      record {
        front = s ∷ l.front;
        span = l.span;
        front_inputs = i ∷ l.front_inputs;
        given = l.given;
        spans_split = ap (λ xs. s ∷ xs) l.spans_split;
        inputs_split = ap (λ xs. i ∷ xs) l.inputs_split;
        before = (x.0, x.1, x.2, l.before);
        some_blocks = l.some_blocks;
        at_end = l.at_end;
        outputs = l.outputs;
      }
  cons-IsLast b h s [] i (_ ∷ _) c out x = absurd x.3
  cons-IsLast b h s (_ ∷ _) i [] c out x = absurd x.3

  pub IsChain-IsLast :
      (b : ℕ) (h : H) (spans : List RemoteSpanInfo) (inputs : List H) (c : ℕ) (out : H)
      → b < c
      → IsChain block b h spans inputs c out
      → IsLast b h spans inputs c out
  IsChain-IsLast b h [] [] c out lt x = absurd (omega (arith, x.0))
  IsChain-IsLast b h (s ∷ spans) (i ∷ inputs) c out lt x = cons-IsLast b h s spans i inputs c out x
  IsChain-IsLast b h [] (_ ∷ _) c out lt x = absurd x
  IsChain-IsLast b h (_ ∷ _) [] c out lt x = absurd x

  pub IsChain-append :
      (b c d : ℕ) (h k out : H) (xs ys : List RemoteSpanInfo) (is js : List H)
      → IsChain block b h xs is c k
      → IsChain block c k ys js d out
      → IsChain block b h (xs ++ ys) (is ++ js) d out
  IsChain-append b c d h k out [] ys [] js (at, same) y =
      subst (λ j. IsChain block j h ys js d out) (sym at)
        (subst (λ j. IsChain block c j ys js d out) (sym same) y)
  IsChain-append b c d h k out (s ∷ xs) ys (i ∷ is) js x y = (
    x.0,
    x.1,
    x.2,
    IsChain-append s.end c d (apply_blocks block b (s.end - b) h) k out xs ys is js x.3 y,
  )
  IsChain-append b c d h k out [] ys (_ ∷ _) js x y = absurd x
  IsChain-append b c d h k out (_ ∷ _) ys [] js x y = absurd x

  pub IsChain-length :
      (b : ℕ) (h : H) (spans : List RemoteSpanInfo) (inputs : List H) (c : ℕ) (out : H)
      → IsChain block b h spans inputs c out
      → length inputs ≡ length spans
  IsChain-length b h [] [] c out x = refl
  IsChain-length b h (s ∷ spans) (i ∷ inputs) c out x =
      ap suc (IsChain-length s.end (apply_blocks block b (s.end - b) h) spans inputs c out x.3)
  IsChain-length b h [] (_ ∷ _) c out x = absurd x
  IsChain-length b h (_ ∷ _) [] c out x = absurd x

  -- so the assertions on a recovered path hold
  pub IsChain-ends :
      (b : ℕ) (h : H) (spans : List RemoteSpanInfo) (inputs : List H) (c : ℕ) (out : H)
      → b < c
      → IsChain block b h spans inputs c out
      → (length inputs ≡ length spans) × (starts_at b spans ≡ true) × (ends_at c spans ≡ true)
  IsChain-ends b h [] [] c out lt x = absurd (omega (arith, x.0))
  IsChain-ends b h (s ∷ []) (i ∷ []) c out lt x =
      (refl, (==_iff s.start b).1 x.0, (==_iff s.end c).1 x.3.0)
  IsChain-ends b h (s ∷ t ∷ spans) (i ∷ j ∷ inputs) c out lt x =
      let at = IsChain-apply_blocks block t.end _ spans inputs c out x.3.3 in
      let (same, first, last) =
        IsChain-ends s.end (apply_blocks block b (s.end - b) h) (t ∷ spans) (j ∷ inputs) c out
          (omega (arith, at.0, x.3.1)) x.3 in
      (ap suc same, (==_iff s.start b).1 x.0, last)
  IsChain-ends b h [] (_ ∷ _) c out lt x = absurd x
  IsChain-ends b h (_ ∷ _) [] c out lt x = absurd x
  IsChain-ends b h (_ ∷ []) (_ ∷ _ ∷ _) c out lt x = absurd x.3
  IsChain-ends b h (_ ∷ _ ∷ _) (_ ∷ []) c out lt x = absurd x.3

  module _ (gradient : ℕ → H → H → H) where
    -- Backpropagation through the `n` blocks from block `i` on, for their inputs and the gradients
    -- of their outputs.
    unfoldable pub grad_blocks : ℕ → ℕ → H → H → H
    grad_blocks i zero h g = g
    grad_blocks i (suc n) h g = gradient i h (grad_blocks (i + 1) n (block i h) g)

    pub grad_blocks-add :
        (i m n : ℕ) (h g : H)
        → grad_blocks i m h (grad_blocks (i + m) n (apply_blocks block i m h) g)
          ≡ grad_blocks i (m + n) h g
    unfolding grad_blocks apply_blocks
    grad_blocks-add i zero n h g =
        let e : i + 0 ≡ i = omega arith in
        let sum : n ≡ 0 + n = omega arith in
        ap (λ j. grad_blocks j n h g) e ∙ ap (λ k. grad_blocks i k h g) sum
    grad_blocks-add i (suc m) n h g =
        let e : i + suc m ≡ i + 1 + m = omega arith in
        let sum : suc (m + n) ≡ suc m + n = omega arith in
        ap
          (λ j. gradient i h (
            grad_blocks (i + 1) m (block i h)
              (grad_blocks j n (apply_blocks block (i + 1) m (block i h)) g)))
          e
        ∙ ap (gradient i h) (grad_blocks-add (i + 1) m n (block i h) g)
        ∙ ap (λ k. grad_blocks i k h g) sum

    -- from the gradients behind a span to those before it
    pub grad_blocks-span :
        (b c e : ℕ) (h g : H)
        → b < c
        → c ≤ e
        → grad_blocks b (c - b) h (grad_blocks c (e - c) (apply_blocks block b (c - b) h) g)
          ≡ grad_blocks b (e - b) h g
    grad_blocks-span b c e h g lt le =
        let at : c ≡ b + (c - b) = omega arith in
        let sum : c - b + (e - c) ≡ e - b = omega arith in
        ap (λ j. grad_blocks b (c - b) h (grad_blocks j (e - c) (apply_blocks block b (c - b) h) g))
          at
        ∙ grad_blocks-add b (c - b) (e - c) h g
        ∙ ap (λ k. grad_blocks b k h g) sum
