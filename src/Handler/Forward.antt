-- ===== src/Handler/Forward.antt =====
-- `_rpc_forward` of server/handler.py: the blocks of a request, one after the other.
-- Tensors of hidden states and prompts are values of two parameter types; a record gives what the
-- code asks of torch, of the pools and of the prioritizer.
use petals_ai_refactor.Prelude.{
  length, replicate, ok, ◌>>=◌, ◌>>◌, guard, ℕ, Bool, Option, none, some, List, ◌∷◌, map,
}
use petals_ai_refactor.Handler.Errors.{not_three_dims, Result}

-- `run_forward b h` is the output of block `b`'s `forward_pool` for the inputs `h`, or the exception
-- that its future holds; `run_backward b h g` is that of its `backward_pool`.
pub record Blocks (B H P : Type 0) : Type 0 where
  pub is_three_dims : H → Bool
  -- `hidden_states[:, : prompt.shape[1]] += prompt`, which raises where the shapes do not fit
  pub add_prompt : P → H → Result H
  pub run_forward : B → H → Result H
  pub run_backward : B → H → H → Result H
  -- `grad_outputs[:, : prompt.shape[1]].unsqueeze(0)`
  pub prompt_grad : P → H → P

-- The prompts of a request, one for each block or, if the tensor is a dummy, none at all. Where
-- the prompts of a tensor are dummies, the tensor is one.
pub data Prompts (P : Type 0) : Type 0 where
  dummy : Prompts P
  deep : List P → Prompts P

-- `[DUMMY] * len(requested_backends)`, or the slices of the tensor
abbrev pub split_prompts : {P : Type 0} → ℕ → Prompts P → List (Option P)
split_prompts n dummy = replicate n none
split_prompts n (deep ps) = map some ps

module _ {B H P : Type 0} (blocks : Blocks B H P) where
  open blocks use {is_three_dims, add_prompt, run_forward}

  abbrev pub with_prompt : Option P → H → Result H
  with_prompt none h = ok h
  with_prompt (some p) h = add_prompt p h

  -- the loop over `zip(requested_backends, prompts)`, which ends with the shorter list
  unfoldable pub forward_loop : List B → List (Option P) → H → Result H
  forward_loop (b ∷ bs) (p ∷ ps) h = do
    input ← with_prompt p h
    out ← run_forward b input
    guard (is_three_dims out) not_three_dims
    forward_loop bs ps out
  forward_loop _ _ h = ok h

  unfoldable pub rpc_forward : List B → H → Prompts P → Result H
  unfolding forward_loop
  rpc_forward bs h prompts = do
    guard (is_three_dims h) not_three_dims
    forward_loop bs (split_prompts (length bs) prompts) h
