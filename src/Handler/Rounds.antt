-- ===== src/Handler/Rounds.antt =====
-- What `_rpc_forward` computes, by the numbers of the blocks.
use petals_ai_refactor.Prelude.{
  if◌then◌else◌, length, get_elem?, replicate, err, ok, ◌>>=◌, guard, ℕ, zero, suc, min, ◌≡◌, refl,
  sym, ap, ◌∙◌, Bool, true, false, Option, none, some, List, [], ◌∷◌, map, arith,
}
use petals_ai_refactor.Handler.Errors.{not_three_dims, Result}
use petals_ai_refactor.Handler.Forward.{
  Blocks, Prompts, dummy, deep, split_prompts, with_prompt, forward_loop, rpc_forward,
}

module _ {B H P : Type 0} (blocks : Blocks B H P) where
  open blocks use {is_three_dims, add_prompt, run_forward}

  -- The rounds of a loop, by their number, one after the other.
  abbrev pub rounds : (ℕ → H → Result H) → ℕ → H → Result H
  rounds round zero h = ok h
  rounds round (suc n) h = rounds round n h >>= round n

  -- The number of blocks that a request runs.
  abbrev pub num_run : List B → Prompts P → ℕ
  num_run bs dummy = length bs
  num_run bs (deep ps) = min (length bs) (length ps)

  -- The prompt of a block by its number, if it has one.
  abbrev pub prompt_at : Prompts P → ℕ → Option P
  prompt_at dummy i = none
  prompt_at (deep ps) i = get_elem? ps i

  -- What a round does: the prompt is added, the block is run, and its output must have three
  -- dimensions.
  abbrev pub run_block : List B → (ℕ → Option P) → ℕ → H → Result H
  run_block bs prompt i h = elim (get_elem? bs i) [
    | none ↦ ok h
    | some b ↦ (elim (prompt i) [ none ↦ ok h | some p ↦ add_prompt p h ]) >>= λ input.
        run_forward b input >>= λ out. if is_three_dims out then ok out else err not_three_dims
  ]

  >>=_assoc : (r : Result H) (f k : H → Result H) → (r >>= f) >>= k ≡ (r >>= λ x. f x >>= k)
  >>=_assoc (err e) f k = refl
  >>=_assoc (ok x) f k = refl

  -- the first round comes first
  rounds-suc :
      (round : ℕ → H → Result H) (n : ℕ) (h : H)
      → rounds round (suc n) h ≡ (round 0 h >>= rounds (λ i. round (suc i)) n)
  rounds-suc round zero h = bind_ok (round 0 h)
    where
      bind_ok : (r : Result H) → r ≡ (r >>= λ x. ok x)
      bind_ok (err e) = refl
      bind_ok (ok x) = refl
  rounds-suc round (suc n) h =
      ap (λ (r : Result H). r >>= round (suc n)) (rounds-suc round n h)
      ∙ >>=_assoc (round 0 h) (rounds (λ i. round (suc i)) n) (round (suc n))

  -- a round of the loop is the round of its number
  step-run_block :
      (b : B) (p : Option P) (h : H) (next : H → Result H)
      → (with_prompt blocks p h >>= λ input.
          run_forward b input >>= λ out. guard (is_three_dims out) not_three_dims >>= λ _. next out)
        ≡ ((with_prompt blocks p h >>= λ input. run_forward b input >>= λ out.
              if is_three_dims out then ok out else err not_three_dims)
            >>= next)
  step-run_block b p h next = prompted (with_prompt blocks p h)
    where
      checked :
          (x : Bool) (out : H)
          → (guard x not_three_dims >>= λ _. next out)
            ≡ ((if x then ok out else err not_three_dims) >>= next)
      checked true out = refl
      checked false out = refl

      returned :
          (r : Result H)
          → (r >>= λ out. guard (is_three_dims out) not_three_dims >>= λ _. next out)
            ≡ ((r >>= λ out. if is_three_dims out then ok out else err not_three_dims) >>= next)
      returned (err e) = refl
      returned (ok out) = checked (is_three_dims out) out

      prompted :
          (r : Result H)
          → (r >>= λ input. run_forward b input >>= λ out.
              guard (is_three_dims out) not_three_dims >>= λ _. next out)
            ≡ ((r >>= λ input. run_forward b input >>= λ out.
                  if is_three_dims out then ok out else err not_three_dims)
                >>= next)
      prompted (err e) = refl
      prompted (ok input) = returned (run_forward b input)

  bind_same : (r : Result H) (f k : H → Result H) → ((x : H) → f x ≡ k x) → (r >>= f) ≡ (r >>= k)
  bind_same (err e) f k same = refl
  bind_same (ok x) f k same = same x

  forward_loop-none :
      (bs : List B) (h : H)
      → forward_loop blocks bs (replicate (length bs) none) h
        ≡ rounds (run_block bs (λ i. none)) (length bs) h
  unfolding forward_loop
  forward_loop-none [] h = refl
  forward_loop-none (b ∷ bs) h =
      step-run_block b none h (forward_loop blocks bs (replicate (length bs) none))
      ∙ bind_same _ (forward_loop blocks bs (replicate (length bs) none))
          (rounds (run_block bs (λ i. none)) (length bs)) (forward_loop-none bs)
      ∙ sym (rounds-suc (run_block (b ∷ bs) (λ i. none)) (length bs) h)

  forward_loop-deep :
      (bs : List B) (ps : List P) (h : H)
      → forward_loop blocks bs (map some ps) h
        ≡ rounds (run_block bs (get_elem? ps)) (min (length bs) (length ps)) h
  unfolding forward_loop
  forward_loop-deep [] [] h = refl
  forward_loop-deep [] (p ∷ ps) h =
      let none_left : 0 ≡ min 0 (length (p ∷ ps)) = omega arith in
      ap (λ n. rounds (run_block [] (get_elem? (p ∷ ps))) n h) none_left
  forward_loop-deep (b ∷ bs) [] h =
      let none_left : 0 ≡ min (length (b ∷ bs)) 0 = omega arith in
      ap (λ n. rounds (run_block (b ∷ bs) (get_elem? [])) n h) none_left
  forward_loop-deep (b ∷ bs) (p ∷ ps) h =
      let less : min (suc (length bs)) (suc (length ps)) ≡ suc (min (length bs) (length ps)) =
        omega arith in
      step-run_block b (some p) h (forward_loop blocks bs (map some ps))
      ∙ bind_same _ (forward_loop blocks bs (map some ps))
          (rounds (run_block bs (get_elem? ps)) (min (length bs) (length ps)))
          (forward_loop-deep bs ps)
      ∙ sym (rounds-suc (run_block (b ∷ bs) (get_elem? (p ∷ ps))) (min (length bs) (length ps)) h)
      ∙ ap (λ n. rounds (run_block (b ∷ bs) (get_elem? (p ∷ ps))) n h) (sym less)

  -- What `rpc_forward` computes, by the numbers of the blocks: inputs without three dimensions are
  -- an error. Otherwise the blocks from the first on are run one after the other, each on the
  -- output of the one before it, with the prompt of its number added. With deep prompts for fewer
  -- blocks than the request names, only as many blocks are run as there are prompts, and that is
  -- no error.
  pub rpc_forward-rounds :
      (bs : List B) (h : H) (prompts : Prompts P)
      → rpc_forward blocks bs h prompts ≡ (
          if is_three_dims h
          then rounds (run_block bs (prompt_at prompts)) (num_run bs prompts) h
          else err not_three_dims)
  unfolding rpc_forward
  rpc_forward-rounds bs h prompts = checked (is_three_dims h) prompts
    where
      loop :
          (given : Prompts P)
          → forward_loop blocks bs (split_prompts (length bs) given) h
            ≡ rounds (run_block bs (prompt_at given)) (num_run bs given) h
      loop dummy = forward_loop-none bs h
      loop (deep ps) = forward_loop-deep bs ps h

      checked :
          (x : Bool) (given : Prompts P)
          → (guard x not_three_dims >>= λ _.
              forward_loop blocks bs (split_prompts (length bs) given) h)
            ≡ (if x
                then rounds (run_block bs (prompt_at given)) (num_run bs given) h
                else err not_three_dims)
      checked true given = loop given
      checked false given = refl
