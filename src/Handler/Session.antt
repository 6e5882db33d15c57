-- ===== src/Handler/Session.antt =====
-- `rpc_inference` of server/handler.py: a session of steps over one allocation of the cache.
-- The stream of requests is the list of what the code waits for: a request, or the timeout of a
-- step; behind the end of the list the stream itself has ended. The timeout of the whole session,
-- which may end it at any wait, is left out, and so are the casts to the dtype of the blocks.
use petals_ai_refactor.Prelude.{
  leb, ◌==◌, if◌then◌else◌, length, replicate, err, ok, ◌>>=◌, ◌>>◌, guard, ℕ, ◌+◌, ◌*◌, Bool, true,
  false, not, Option, none, some, List, [], ◌∷◌, ◌++◌, map,
}
use petals_ai_refactor.Data.{ModuleUid}
use petals_ai_refactor.Handler.Errors.{
  HandlerError, no_blocks, bad_max_length, bad_points, cannot_allocate, prompts_mismatch,
  length_exceeded, bad_hypo_dtype, not_three_dims, no_dim, cache_mismatch, Result, Value,
  negative_int, int_value, are_points,
}
use petals_ai_refactor.Handler.Uids.{is_nil, check_uids}

-- The shape of a tensor of hidden states beside its content.
pub record Hidden (X : Type 0) : Type 0 where
  pub shape : List ℕ
  pub content : X

abbrev pub product : List ℕ → ℕ
product [] = 1
product (n ∷ ns) = n * product ns

-- `tensor.numel() == 0`
abbrev pub is_dummy : {X : Type 0} → Hidden X → Bool
is_dummy h = product h.shape == 0

-- A tensor of deep prompts: its slices along the first axis, each of `slice_numel` numbers.
pub record PromptTensor (P : Type 0) : Type 0 where
  pub slices : List P
  pub slice_numel : ℕ

pub record Step (X P : Type 0) : Type 0 where
  pub hidden_states : Hidden X
  pub prompts : PromptTensor P
  pub hypo_ids : List ℕ
  pub hypo_is_int64 : Bool

-- A request; `none` as its step is a request without tensors.
pub record Request (X P : Type 0) : Type 0 where
  pub uid : List ℕ
  pub max_length : Value
  pub points : Value
  -- `request.tensors[0].size[0]`, and 1 for a request without tensors
  pub batch_size : ℕ
  pub step : Option (Step X P)

pub data Incoming (X P : Type 0) : Type 0 where
  request : Request X P → Incoming X P
  timed_out : Incoming X P

-- `InferenceMetadata`
pub record InferenceMetadata : Type 0 where
  pub uid : ModuleUid
  pub prefix_length : ℕ
  pub cache_handles : List ℕ

-- What the session asks of its environment: whether a block is served, the handles that
-- `_allocate_cache` gets for the blocks, a batch size and a length, and the output of the merged
-- inference pool.
pub record Environment (X P : Type 0) : Type 0 where
  pub inference_max_length : ℕ
  pub serves : ModuleUid → Bool
  pub allocate_cache : List ModuleUid → ℕ → ℕ → Result (List (List ℕ))
  pub run_inference :
      Hidden X → List ℕ → List InferenceMetadata → List (Option P) → Result (Hidden X)

-- How a session ends: with a request that has no tensors, with the timeout of a step, with the end
-- of the stream where a request is due, or with an exception.
pub data End : Type 0 where
  finished step_timeout stream_ended : End
  failed : HandlerError → End

-- A call of the pool, as the session makes it: the shape of the inputs and the metadata.
pub record Call : Type 0 where
  pub shape : List ℕ
  pub infos : List InferenceMetadata

pub record Trace (X : Type 0) : Type 0 where
  pub calls : List Call
  pub responses : List (Hidden X)
  pub end : End

-- `prompts is None or is_dummy(prompts)`, and the slices
unfoldable pub parse_prompts : {P : Type 0} → ℕ → PromptTensor P → List (Option P)
parse_prompts n prompts =
    if length prompts.slices * prompts.slice_numel == 0
    then replicate n none
    else map (λ p. if prompts.slice_numel == 0 then none else some p) prompts.slices

abbrev pub zip_infos : ℕ → List ModuleUid → List (List ℕ) → List InferenceMetadata
zip_infos n (uid ∷ uids) (hs ∷ handles) =
    record { uid = uid; prefix_length = n; cache_handles = hs } ∷ zip_infos n uids handles
zip_infos n _ _ = []

-- `hidden_states.shape[1]`
abbrev pub dim_one : List ℕ → Result ℕ
dim_one (_ ∷ n ∷ _) = ok n
dim_one _ = err no_dim

abbrev pub has_three : List ℕ → Bool
has_three (_ ∷ _ ∷ _ ∷ []) = true
has_three _ = false

abbrev pub failure : {X : Type 0} → HandlerError → Trace X
failure e = record { calls = []; responses = []; end = failed e }

-- `isinstance(max_length, int)` and `0 <= max_length`
unfoldable pub int_of : Value → Value → Result ℕ
int_of (int_value n) points = do guard (are_points points) bad_points; ok n
int_of negative_int points = do guard (are_points points) bad_points; err cannot_allocate
int_of _ points = err bad_max_length

module _ {X P : Type 0} (env : Environment X P) where
  -- the call of the pool, which a tensor without numbers is spared
  unfoldable pub submit_step :
      Step X P → List InferenceMetadata → List (Option P) → Result (List Call × Hidden X)
  submit_step step infos prompts =
      if is_dummy step.hidden_states
      then ok ([], step.hidden_states)
      else (guard (has_three step.hidden_states.shape) not_three_dims
          >> (env.run_inference step.hidden_states step.hypo_ids infos prompts >>= λ out.
              ok (record { shape = step.hidden_states.shape; infos = infos } ∷ [], out)))

  -- One round of the loop: the calls that it makes, and the hidden states that it responds with.
  unfoldable pub run_step :
      List ModuleUid → List (List ℕ) → ℕ → ℕ → Step X P → Result (List Call × Hidden X)
  run_step uids handles max_length prefix_length step = do
    let prompts = parse_prompts (length uids) step.prompts
    let infos = zip_infos prefix_length uids handles
    guard step.hypo_is_int64 bad_hypo_dtype
    guard (length uids == length prompts) prompts_mismatch
    length_increment ← dim_one step.hidden_states.shape
    guard (leb (prefix_length + length_increment) max_length) length_exceeded
    submit_step step infos prompts

  abbrev pub prepend : List Call → Hidden X → Trace X → Trace X
  prepend calls response t = record t {
    calls = calls ++ t.calls;
    responses = response ∷ t.responses;
  }

  -- the end of a round: the response, the new prefix, and the rest of the session from there
  abbrev pub respond : Result (List Call × Hidden X) → (ℕ → Trace X) → Trace X
  respond (err e) next = failure e
  respond (ok (calls, out)) next = elim (dim_one out.shape) [
    | err e ↦ prepend calls out (failure e)
    | ok n ↦ prepend calls out (next n)
  ]

  -- the `while request.tensors` loop at the request that has come, and the ones after it
  unfoldable pub session_loop :
      List ModuleUid → List (List ℕ) → ℕ → ℕ → Option (Step X P) → List (Incoming X P) → Trace X
  session_loop uids handles max_length prefix_length none rest = record {
    calls = [];
    responses = [];
    end = finished;
  }
  session_loop uids handles max_length prefix_length (some step) [] =
      respond (run_step uids handles max_length prefix_length step)
        λ n. record { calls = []; responses = []; end = stream_ended }
  session_loop uids handles max_length prefix_length (some step) (timed_out ∷ rest) =
      respond (run_step uids handles max_length prefix_length step)
        λ n. record { calls = []; responses = []; end = step_timeout }
  session_loop uids handles max_length prefix_length (some step) (request r ∷ rest) =
      respond (run_step uids handles max_length prefix_length step)
        λ n. session_loop uids handles max_length (prefix_length + n) r.step rest

  -- the checks before the loop: the uids, the length for which the cache is allocated, the handles
  unfoldable pub open_session : Request X P → Result (List ModuleUid × ℕ × List (List ℕ))
  open_session r = do
    uids ← check_uids env.serves r.uid
    guard (not (is_nil uids)) no_blocks
    max_length ← int_of r.max_length r.points
    guard (leb max_length env.inference_max_length) cannot_allocate
    handles ← env.allocate_cache uids r.batch_size max_length
    guard (length handles == length uids) cache_mismatch
    ok (uids, max_length, handles)

  abbrev pub run_session :
      Result (List ModuleUid × ℕ × List (List ℕ))
      → Option (Step X P)
      → List (Incoming X P)
      → Trace X
  run_session (err e) step rest = failure e
  run_session (ok (uids, max_length, handles)) step rest =
      session_loop uids handles max_length 0 step rest

  unfoldable pub rpc_inference : List (Incoming X P) → Trace X
  rpc_inference [] = record { calls = []; responses = []; end = stream_ended }
  rpc_inference (timed_out ∷ rest) = record { calls = []; responses = []; end = step_timeout }
  rpc_inference (request r ∷ rest) = run_session (open_session r) r.step rest
