-- ===== src/Client/Causal.antt =====
-- Blocks as functions of all tokens so far, which never look ahead.
use petals_ai_refactor.Prelude.{
  ◌==◌, length, take, drop, length-append, length-drop, ℕ, zero, suc, ◌+◌, ◌-◌, ◌<◌, ◌≡◌, refl, sym,
  ap, ◌∙◌, ◌⊎◌, inl, inr, false, List, ◌++◌, arith,
}
use petals_ai_refactor.Client.Session.{last_tokens}
use petals_ai_refactor.Client.Middle.{take-drop, take-append}
use petals_ai_refactor.Autograd.Chain.{apply_blocks, apply_blocks-add}

module _ {X : Type 0} (block : ℕ → List X → List X) where
  module _ (xs ys : List X) where
    -- What the blocks before block `b` make of the old tokens, of all tokens, and of the new ones.
    abbrev pub old_inputs : ℕ → List X
    old_inputs b = apply_blocks block 0 b xs

    abbrev pub all_inputs : ℕ → List X
    all_inputs b = apply_blocks block 0 b (xs ++ ys)

    abbrev pub new_inputs : ℕ → List X
    new_inputs b = drop (length xs) (all_inputs b)

  -- Attention is causal: a block gives one output for each token, and the outputs for the first
  -- tokens do not depend on what follows.
  pub record IsCausal : Type 0 where
    pub keeps_length : (i : ℕ) (xs : List X) → length (block i xs) ≡ length xs
    pub keeps_past : (i : ℕ) (xs ys : List X) → take (length xs) (block i (xs ++ ys)) ≡ block i xs

  module _ (causal : IsCausal) where
    pub length-apply_blocks :
        (i n : ℕ) (xs : List X) → length (apply_blocks block i n xs) ≡ length xs
    unfolding apply_blocks
    length-apply_blocks i zero xs = refl
    length-apply_blocks i (suc n) xs =
        length-apply_blocks (i + 1) n (block i xs) ∙ causal.keeps_length i xs

    block-split :
        (i : ℕ) (xs ys : List X)
        → block i (xs ++ ys) ≡ block i xs ++ drop (length xs) (block i (xs ++ ys))
    block-split i xs ys =
        sym (take-drop (length xs) (block i (xs ++ ys)))
        ∙ ap (λ l. l ++ drop (length xs) (block i (xs ++ ys))) (causal.keeps_past i xs ys)

    take-apply_blocks :
        (i n : ℕ) (xs ys : List X)
        → take (length xs) (apply_blocks block i n (xs ++ ys)) ≡ apply_blocks block i n xs
    unfolding apply_blocks
    take-apply_blocks i zero xs ys = take-append xs ys (length xs) refl
    take-apply_blocks i (suc n) xs ys =
        let rest = drop (length xs) (block i (xs ++ ys)) in
        ap (λ l. take (length xs) (apply_blocks block (i + 1) n l)) (block-split i xs ys)
        ∙ ap (λ k. take k (apply_blocks block (i + 1) n (block i xs ++ rest)))
            (sym (causal.keeps_length i xs))
        ∙ take-apply_blocks (i + 1) n (block i xs) rest

    module _ (xs ys : List X) where
      pub length-all_inputs : (b : ℕ) → length (all_inputs xs ys b) ≡ length xs + length ys
      length-all_inputs b = length-apply_blocks 0 b (xs ++ ys) ∙ length-append xs ys

      pub length-new_inputs : (b : ℕ) → length (new_inputs xs ys b) ≡ length ys
      length-new_inputs b =
          omega (arith, length-drop (length xs) (all_inputs xs ys b), length-all_inputs b)

      pub old-new_inputs : (b : ℕ) → old_inputs xs ys b ++ new_inputs xs ys b ≡ all_inputs xs ys b
      old-new_inputs b =
          ap (λ l. l ++ new_inputs xs ys b) (sym (take-apply_blocks 0 b xs ys))
          ∙ take-drop (length xs) (all_inputs xs ys b)

      pub last_tokens-all_inputs :
          (b : ℕ)
          → 0 < length ys
          → last_tokens (length ys) (all_inputs xs ys b) ≡ new_inputs xs ys b
      unfolding last_tokens
      last_tokens-all_inputs b lt =
          let some_new : (length ys == 0) ≡ false = ground arith in
          let e : length (all_inputs xs ys b) - length ys ≡ length xs =
            omega (arith, length-all_inputs b) in
          rw some_new (ap (λ k. drop k (all_inputs xs ys b)) e)

      pub last_tokens-new_inputs :
          (b : ℕ)
          → 0 < length ys
          → last_tokens (length ys) (new_inputs xs ys b) ≡ new_inputs xs ys b
      unfolding last_tokens
      last_tokens-new_inputs b lt =
          let some_new : (length ys == 0) ≡ false = ground arith in
          let e : length (new_inputs xs ys b) - length ys ≡ 0 =
            omega (arith, length-new_inputs b) in
          rw some_new (ap (λ k. drop k (new_inputs xs ys b)) e)

      pub last_tokens-either :
          (b : ℕ) (inputs : List X)
          → 0 < length ys
          → (inputs ≡ all_inputs xs ys b) ⊎ (inputs ≡ new_inputs xs ys b)
          → last_tokens (length ys) inputs ≡ new_inputs xs ys b
      last_tokens-either b inputs lt (inl e) =
          ap (last_tokens (length ys)) e ∙ last_tokens-all_inputs b lt
      last_tokens-either b inputs lt (inr e) =
          ap (last_tokens (length ys)) e ∙ last_tokens-new_inputs b lt

      -- from the inputs of a span to its outputs
      pub all_inputs-span :
          (b c : ℕ) → b < c → apply_blocks block b (c - b) (all_inputs xs ys b) ≡ all_inputs xs ys c
      all_inputs-span b c lt =
          let e : b + (c - b) ≡ c = omega arith in
          let z : 0 + b ≡ b = omega arith in
          ap (λ i. apply_blocks block i (c - b) (all_inputs xs ys b)) (sym z)
          ∙ apply_blocks-add block 0 b (c - b) (xs ++ ys)
          ∙ ap (λ n. apply_blocks block 0 n (xs ++ ys)) e
