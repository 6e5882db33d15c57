-- ===== src/Tests/HandlerTests.antt =====
-- A server of the blocks "a" and "b".
use petals_ai_refactor.Prelude.{
  ◌==◌, if◌then◌else◌, err, ok, ℕ, ◌+◌, ◌≡◌, refl, ◌≢◌, Bool, true, false, ◌||◌, some, List, [],
  ◌∷◌, map,
}
use petals_ai_refactor.Data.{ModuleUid}
use petals_ai_refactor.Handler.Errors.{no_uids, length_exceeded, not_three_dims, absent, int_value}
use petals_ai_refactor.Handler.Forward.{Blocks, deep, rpc_forward}
use petals_ai_refactor.Handler.Rounds.{rounds, num_run, prompt_at, run_block, rpc_forward-rounds}
use petals_ai_refactor.Handler.Session.{
  Hidden, Step, Request, Incoming, request, Environment, failed, parse_prompts, dim_one, int_of,
  submit_step, run_step, session_loop, open_session, rpc_inference,
}
use petals_ai_refactor.Handler.SessionBounds.{SessionFits, rpc_inference_lem}
use petals_ai_refactor.Handler.Uids.{split, all_served, check_uids, IsChain, check_uids-IsChain}

abbrev serves : ModuleUid → Bool
serves [] = false
serves (c ∷ []) = c == 97 || c == 98
serves (c ∷ d ∷ cs) = false

check_both : check_uids serves (97 ∷ 32 ∷ 98 ∷ []) ≡ ok ((97 ∷ []) ∷ (98 ∷ []) ∷ [])
unfolding check_uids split all_served
check_both = refl

check_uids-IsChain_example :
    ((uids : List ModuleUid)
      → check_uids serves (97 ∷ 32 ∷ 98 ∷ []) ≡ ok uids
      → IsChain serves (97 ∷ 32 ∷ 98 ∷ []) uids)
    × (check_uids serves (97 ∷ 32 ∷ 98 ∷ []) ≢ err no_uids)
check_uids-IsChain_example = check_uids-IsChain serves (97 ∷ 32 ∷ 98 ∷ [])

-- A pool that returns its inputs, and a cache that always has room.
abbrev env : Environment ℕ ℕ
env = record {
  inference_max_length = 2048;
  serves = serves;
  allocate_cache = λ uids batch n. ok (map (λ _. 0 ∷ 1 ∷ []) uids);
  run_inference = λ h hypo infos ps. ok h;
}

abbrev step_of : ℕ → Step ℕ ℕ
step_of n = record {
  hidden_states = record { shape = 1 ∷ n ∷ 8 ∷ []; content = 5 };
  prompts = record { slices = []; slice_numel = 0 };
  hypo_ids = [];
  hypo_is_int64 = true;
}

abbrev request_of : ℕ → Request ℕ ℕ
request_of n = record {
  uid = 97 ∷ 32 ∷ 98 ∷ [];
  max_length = int_value 6;
  points = absent;
  batch_size = 1;
  step = some (step_of n);
}

abbrev later : List (Incoming ℕ ℕ)
later = request (request_of 2) ∷ request (request_of 2) ∷ []

-- the third step would pass the length of the session
session_end : (rpc_inference env (request (request_of 3) ∷ later)).end ≡ failed length_exceeded
unfolding rpc_inference open_session check_uids split all_served int_of session_loop run_step
    parse_prompts submit_step
session_end = refl

rpc_inference_lem_example : SessionFits env (request_of 3) later (open_session env (request_of 3))
rpc_inference_lem_example =
    rpc_inference_lem env (request_of 3) later (λ h hypo infos ps out e. keeps h out e)
  where
    keeps :
        (h out : Hidden ℕ)
        → env.run_inference h [] [] [] ≡ ok out
        → dim_one out.shape ≡ dim_one h.shape
    keeps h out e = cc

-- blocks that add their number, and prompts that are added
abbrev adding : Blocks ℕ ℕ ℕ
adding = record {
  is_three_dims = λ h. true;
  add_prompt = λ p h. ok (p + h);
  run_forward = λ b h. ok (b + h);
  run_backward = λ b h g. ok (g + h);
  prompt_grad = λ p g. g;
}

-- the third block has no prompt, and is not run
rpc_forward-rounds_example : rpc_forward adding (10 ∷ 20 ∷ 30 ∷ []) 1 (deep (5 ∷ 6 ∷ [])) ≡ (
    if adding.is_three_dims 1
    then rounds adding
        (run_block adding (10 ∷ 20 ∷ 30 ∷ []) (prompt_at adding (deep (5 ∷ 6 ∷ []))))
        (num_run adding (10 ∷ 20 ∷ 30 ∷ []) (deep (5 ∷ 6 ∷ [])))
        1
    else err not_three_dims)
rpc_forward-rounds_example = rpc_forward-rounds adding (10 ∷ 20 ∷ 30 ∷ []) 1 (deep (5 ∷ 6 ∷ []))
