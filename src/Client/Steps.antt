-- ===== src/Client/Steps.antt =====
-- Several steps of a session, one after the other.
use mathlib.Core.Path.{subst}
use petals_ai_refactor.Prelude.{
  length, drop, length-append, All, Fallible, ok, ◌>>=◌, ℕ, zero, suc, ◌+◌, ◌≤◌, ◌<◌, ◌≡◌, refl,
  sym, ap, ◌∙◌, inl, List, [], ◌∷◌, ◌++◌, arith,
}
use petals_ai_refactor.Client.Stream.{Servers}
use petals_ai_refactor.Client.Session.{InferenceSession, SessionError, new_inference_session}
use petals_ai_refactor.Client.Retry.{step}
use petals_ai_refactor.Client.Middle.{append_assoc, append_nil}
use petals_ai_refactor.Client.Causal.{
  all_inputs, new_inputs, IsCausal, length-all_inputs, length-new_inputs, old-new_inputs,
}
use petals_ai_refactor.Client.Call.{IsReliable}
use petals_ai_refactor.Client.Replay.{HoldsTokens, step-HoldsTokens}
use petals_ai_refactor.Autograd.Chain.{apply_blocks}

module _ {A : Type 0} where
  drop-append_le : (xs ys : List A) (n : ℕ) → n ≤ length xs → drop n (xs ++ ys) ≡ drop n xs ++ ys
  drop-append_le xs ys zero le = refl
  drop-append_le [] ys (suc n) le = absurd (omega arith)
  drop-append_le (x ∷ xs) ys (suc n) le = drop-append_le xs ys n (omega arith)

  -- The tokens of several steps.
  abbrev pub all_tokens : List (List A) → List A
  all_tokens [] = []
  all_tokens (xs ∷ rest) = xs ++ all_tokens rest

  length_nil : (xs : List A) → length xs ≡ 0 → xs ≡ []
  length_nil [] e = refl
  length_nil (x ∷ xs) e = absurd (omega arith)

module _ {W X P K : Type 0} (servers : Servers W X P K) (hypo_ids : K) where
  -- The outputs of the steps, joined.
  unfoldable pub run_steps :
      ℕ
      → InferenceSession W X
      → List (List X)
      → Fallible SessionError (List X × InferenceSession W X)
  run_steps fuel s [] = ok ([], s)
  run_steps fuel s (new ∷ rest) = do
    r ← step servers [] hypo_ids fuel s new
    q ← run_steps fuel r.1 rest
    ok (r.0 ++ q.0, q.1)

  joined :
      (fuel : ℕ) (s t u : InferenceSession W X) (new : List X) (rest : List (List X))
      (first later : List X)
      → step servers [] hypo_ids fuel s new ≡ ok (first, t)
      → run_steps fuel t rest ≡ ok (later, u)
      → run_steps fuel s (new ∷ rest) ≡ ok (first ++ later, u)
  unfolding run_steps
  joined fuel s t u new rest first later e f = rw e (rw f refl)

  module _ (block : ℕ → List X → List X) (causal : IsCausal block) (patience : W → ℕ)
      (reliable : IsReliable servers hypo_ids block patience) where
    open servers use {num_blocks}

    new_inputs-append :
        (xs ys zs : List X)
        → new_inputs block xs ys num_blocks ++ new_inputs block (xs ++ ys) zs num_blocks
          ≡ new_inputs block xs (ys ++ zs) num_blocks
    new_inputs-append xs ys zs =
        let first = all_inputs block xs ys num_blocks in
        sym (
          drop-append_le first (new_inputs block (xs ++ ys) zs num_blocks) (length xs)
            (omega (arith, length-all_inputs block causal xs ys num_blocks)))
        ∙ ap (drop (length xs)) (old-new_inputs block causal (xs ++ ys) zs num_blocks)
        ∙ ap (λ l. drop (length xs) (apply_blocks block 0 num_blocks l)) (append_assoc xs ys zs)

    run_held :
        (fuel max_length : ℕ) (s : InferenceSession W X) (old : List X) (steps : List (List X))
        → All (λ new. 0 < length new) steps
        → HoldsTokens servers block old max_length s
        → length old + length (all_tokens steps) ≤ max_length
        → patience s.world + num_blocks ≤ fuel
        → (t : InferenceSession W X) × (run_steps fuel s steps
            ≡ ok (new_inputs block old (all_tokens steps) num_blocks, t))
          × HoldsTokens servers block (old ++ all_tokens steps) max_length t
    unfolding run_steps
    run_held fuel max_length s old [] each h short enough = (
      s,
      ap (λ l. ok (l, s)) (sym (length_nil _ (length-new_inputs block causal old [] num_blocks))),
      subst (λ l. HoldsTokens servers block l max_length s) (sym (append_nil old)) h,
    )
    run_held fuel max_length s old (new ∷ rest) each h short enough =
        let (t, e, held, left) =
          step-HoldsTokens servers hypo_ids block causal patience reliable fuel s old new max_length
            each.0 h (omega (arith, length-append new (all_tokens rest))) enough in
        let (u, later, holds) =
          run_held fuel max_length t (old ++ new) rest each.1 held
            (omega (arith, length-append new (all_tokens rest), length-append old new))
            (omega arith) in
        (
          u,
          joined fuel s t u new rest _ _ e later
              ∙ ap (λ l. ok (l, u)) (new_inputs-append old new (all_tokens rest)),
          subst (λ l. HoldsTokens servers block l max_length u)
              (append_assoc old new (all_tokens rest)) holds,
        )

    -- A session that starts with no tokens and is given no deep prompts, over blocks that are causal
    -- and in a swarm whose manager, where it returns, returns a route, whose servers, where they answer,
    -- have applied their blocks to all tokens that they were sent, and in which only as many failures
    -- come as the patience of the first state says: over any number of steps, none of them empty, it
    -- returns what one pass of all blocks over all tokens makes of them, however servers are replaced
    -- on the way, as long as the tokens fit into the session and the fuel of a step is enough for those
    -- failures and for one server session to each block.
    pub run_steps-apply_blocks :
        (fuel max_length : ℕ) (w : W) (steps : List (List X))
        → All (λ new. 0 < length new) steps
        → length (all_tokens steps) ≤ max_length
        → patience w + num_blocks ≤ fuel
        → (t : InferenceSession W X) × (run_steps fuel (new_inference_session w max_length) steps
            ≡ ok (apply_blocks block 0 num_blocks (all_tokens steps), t))
          × HoldsTokens servers block (all_tokens steps) max_length t
    run_steps-apply_blocks fuel max_length w steps each short enough =
        run_held fuel max_length (new_inference_session w max_length) [] steps each
          (record {
            position = refl;
            still_open = refl;
            same_length = refl;
            servers_hold = inl (refl, refl, refl, refl);
          })
          (omega (arith, short)) enough
