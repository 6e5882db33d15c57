-- ===== src/Handler/Backward.antt =====
-- `_rpc_backward` of server/handler.py: a forward chain that keeps the inputs of the blocks, and a
-- backward chain from the last block to the first.
use mathlib.Core.List.{reverse}
use petals_ai_refactor.Prelude.{
  ◌==◌, length, ok, ◌>>=◌, ◌>>◌, guard, ◌&&◌, Option, none, some, List, [], ◌∷◌, ◌++◌,
}
use petals_ai_refactor.Handler.Errors.{not_three_dims, internal_shape, Result}
use petals_ai_refactor.Handler.Forward.{Blocks, Prompts, split_prompts, with_prompt}

module _ {B H P : Type 0} (blocks : Blocks B H P) where
  open blocks use {is_three_dims, add_prompt, run_forward, run_backward, prompt_grad}

  -- the loop over all blocks but the last: the inputs of those blocks, in order, and what is left
  -- as the input of the last one
  unfoldable pub collect_inputs : List B → List (Option P) → H → Result (List H × H)
  collect_inputs (b ∷ bs) (p ∷ ps) h = do
    guard (is_three_dims h) not_three_dims
    input ← with_prompt blocks p h
    out ← run_forward b input
    (inputs, last) ← collect_inputs bs ps out
    ok (input ∷ inputs, last)
  collect_inputs _ _ h = ok ([], h)

  -- the loop over the reversed lists, with the gradients of the prompts in the order in which they
  -- are appended
  unfoldable pub backward_loop : List (H × Option P × B) → H → List P → Result (H × List P)
  backward_loop [] g grads = ok (g, grads)
  backward_loop ((input, p, b) ∷ rest) g grads = do
    g' ← run_backward b input g
    backward_loop rest g' (grads ++ elim p [ none ↦ [] | some q ↦ prompt_grad q g' ∷ [] ])

  abbrev pub zip3 : List H → List (Option P) → List B → List (H × Option P × B)
  zip3 (h ∷ hs) (p ∷ ps) (b ∷ bs) = (h, p, b) ∷ zip3 hs ps bs
  zip3 _ _ _ = []

  -- `xs[:-1]`, and `xs[-1]` where there is one
  abbrev pub but_last {ℓ} : {A : Type ℓ} → List A → List A
  but_last [] = []
  but_last (x ∷ []) = []
  but_last (x ∷ y ∷ xs) = x ∷ but_last (y ∷ xs)

  abbrev pub last_of : List (Option P) → Option P
  last_of [] = none
  last_of (p ∷ []) = p
  last_of (_ ∷ q ∷ ps) = last_of (q ∷ ps)

  -- The gradients of the inputs and, in the order of the blocks, those of the prompts.
  unfoldable pub rpc_backward : List B → H → H → Prompts P → Result (H × List P)
  unfolding collect_inputs backward_loop
  rpc_backward bs h g prompts = do
    let ps = split_prompts (length bs) prompts
    (inputs, last) ← collect_inputs (but_last bs) (but_last ps) h
    input ← with_prompt blocks (last_of ps) last
    let all = inputs ++ input ∷ []
    guard (length all == length ps && length ps == length bs) internal_shape
    (grad, grads) ← backward_loop (zip3 (reverse all) (reverse ps) (reverse bs)) g []
    ok (grad, reverse grads)
