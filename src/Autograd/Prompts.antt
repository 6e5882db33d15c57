-- ===== src/Autograd/Prompts.antt =====
-- The gradients of the prompts in a backward pass.
use mathlib.Core.List.{reverse, append-nil, append_assoc, reverse-append}
use petals_ai_refactor.Prelude.{
  length, ℕ, zero, suc, ◌+◌, ◌-◌, ◌≤◌, ◌<◌, ◌≡◌, sym, ap, ◌∙◌, List, [], ◌∷◌, ◌++◌, arith,
}
use petals_ai_refactor.Autograd.Chain.{apply_blocks}
use petals_ai_refactor.Autograd.Stacks.{grad_blocks, grad_blocks-add, grad_blocks-span}

-- The slices of tensors of gradients, in the order in which `torch.cat` puts them.
abbrev pub rows_of {ℓ} : {P R : Type ℓ} → (P → List R) → List P → List R
rows_of rows [] = []
rows_of rows (p ∷ ps) = rows p ++ rows_of rows ps

-- what a server adds stands before what is there, in the reversed list
pub rows_of-reverse {ℓ} :
    {P R : Type ℓ}
    → (rows : P → List R) (given ps : List P) → length ps ≤ 1
    → rows_of rows (reverse (given ++ ps)) ≡ rows_of rows ps ++ rows_of rows (reverse given)
rows_of-reverse rows given [] le = ap (λ l. rows_of rows (reverse l)) (append-nil given)
rows_of-reverse rows given (p ∷ []) le =
    ap (rows_of rows) (reverse-append given (p ∷ []))
    ∙ ap (λ l. l ++ rows_of rows (reverse given)) (sym (append-nil (rows p)))
rows_of-reverse rows given (p ∷ q ∷ ps) le = absurd (omega arith)

module _ {H R : Type 0} (block : ℕ → H → H) (gradient : ℕ → H → H → H)
    (prompt_gradient : ℕ → H → H → List R) where
  -- The gradients of the prompts of the `n` blocks from block `i` on, for their inputs and the
  -- gradients of their outputs, in the order of the blocks.
  unfoldable pub prompt_rows : ℕ → ℕ → H → H → List R
  prompt_rows i zero h g = []
  prompt_rows i (suc n) h g =
      prompt_gradient i h (grad_blocks block gradient (i + 1) n (block i h) g)
      ++ prompt_rows (i + 1) n (block i h) g

  prompt_rows-add :
      (i m n : ℕ) (h g : H)
      → prompt_rows i m h (grad_blocks block gradient (i + m) n (apply_blocks block i m h) g)
          ++ prompt_rows (i + m) n (apply_blocks block i m h) g
        ≡ prompt_rows i (m + n) h g
  unfolding prompt_rows apply_blocks
  prompt_rows-add i zero n h g =
      let e : i + 0 ≡ i = omega arith in
      let sum : n ≡ 0 + n = omega arith in
      ap (λ j. prompt_rows j n h g) e ∙ ap (λ k. prompt_rows i k h g) sum
  prompt_rows-add i (suc m) n h g =
      let e : i + suc m ≡ i + 1 + m = omega arith in
      let sum : suc (m + n) ≡ suc m + n = omega arith in
      let out = apply_blocks block (i + 1) m (block i h) in
      let behind = grad_blocks block gradient (i + 1 + m) n out g in
      ap
        (λ j.
          (prompt_gradient i h (
              grad_blocks block gradient (i + 1) m (block i h)
                (grad_blocks block gradient j n out g))
            ++ prompt_rows (i + 1) m (block i h) (grad_blocks block gradient j n out g))
          ++ prompt_rows j n out g)
        e
      ∙ append_assoc (prompt_gradient i h (grad_blocks block gradient (i + 1) m (block i h) behind))
          (prompt_rows (i + 1) m (block i h) behind) (prompt_rows (i + 1 + m) n out g)
      ∙ ap
          (λ k.
            prompt_gradient i h k
            ++ (prompt_rows (i + 1) m (block i h) behind ++ prompt_rows (i + 1 + m) n out g))
          (grad_blocks-add block gradient (i + 1) m n (block i h) g)
      ∙ ap
          (λ l. prompt_gradient i h (grad_blocks block gradient (i + 1) (m + n) (block i h) g) ++ l)
          (prompt_rows-add (i + 1) m n (block i h) g)
      ∙ ap (λ k. prompt_rows i k h g) sum

  prompt_rows-span :
      (b c e : ℕ) (h g : H)
      → b < c
      → c ≤ e
      → prompt_rows b
            (c - b)
            h
            (grad_blocks block gradient c (e - c) (apply_blocks block b (c - b) h) g)
          ++ prompt_rows c (e - c) (apply_blocks block b (c - b) h) g
        ≡ prompt_rows b (e - b) h g
  prompt_rows-span b c e h g lt le =
      let at : c ≡ b + (c - b) = omega arith in
      let sum : c - b + (e - c) ≡ e - b = omega arith in
      ap
        (λ j.
          prompt_rows b (c - b) h
            (grad_blocks block gradient j (e - c) (apply_blocks block b (c - b) h) g)
          ++ prompt_rows j (e - c) (apply_blocks block b (c - b) h) g)
        at
      ∙ prompt_rows-add b (c - b) (e - c) h g
      ∙ ap (λ k. prompt_rows b k h g) sum

  -- The gradients of the inputs, and those of the prompts.
  abbrev pub back : ℕ → ℕ → H → H → H × List R
  back i n h g = (grad_blocks block gradient i n h g, prompt_rows i n h g)

  -- from the gradients behind a span to those before it
  pub back-span :
      (b c e : ℕ) (h g k k' : H) (rs rs' : List R)
      → b < c
      → c ≤ e
      → (k', rs') ≡ back c (e - c) (apply_blocks block b (c - b) h) g
      → k ≡ grad_blocks block gradient b (c - b) h k'
      → rs ≡ prompt_rows b (c - b) h k'
      → (k, rs ++ rs') ≡ back b (e - b) h g
  back-span b c e h g k k' rs rs' lt le behind grad added =
      let grad' = ap (λ (x : H × List R). x.0) behind in
      let rows' = ap (λ (x : H × List R). x.1) behind in
      let first =
        grad
        ∙ ap (grad_blocks block gradient b (c - b) h) grad'
        ∙ grad_blocks-span block gradient b c e h g lt le in
      let second =
        ap (λ l. l ++ rs') added
        ∙ ap (λ x. prompt_rows b (c - b) h x ++ rs') grad'
        ∙ ap
            (λ l.
              prompt_rows b (c - b) h
                (grad_blocks block gradient c (e - c) (apply_blocks block b (c - b) h) g)
              ++ l)
            rows'
        ∙ prompt_rows-span b c e h g lt le in
      ap (λ x. (x, rs ++ rs')) first
      ∙ ap (λ l. (grad_blocks block gradient b (e - b) h g, l)) second
