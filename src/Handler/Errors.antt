-- ===== src/Handler/Errors.antt =====
-- The exceptions of server/handler.py, and the metadata of a request.
use petals_ai_refactor.Prelude.{Fallible, ℕ, Bool, true, false}
use petals_ai_refactor.Data.{ModuleUid}

pub data HandlerError : Type 0 where
  -- `_check_uids`
  no_uids : HandlerError
  not_served : ModuleUid → HandlerError
  -- `_gather_inputs`
  uids_differ no_requests : HandlerError
  -- the guards of `rpc_inference`
  no_blocks bad_max_length bad_points cannot_allocate : HandlerError
  prompts_mismatch length_exceeded : HandlerError
  bad_hypo_dtype not_three_dims no_dim cache_mismatch : HandlerError
  -- `_rpc_forward`, `_rpc_backward` and the serialisation of what they return
  internal_shape bad_compression bad_schema wrong_tensors : HandlerError
  -- an exception of the pool, of the cache or of the deserialiser
  raised : ℕ → HandlerError

abbrev pub Result {ℓ} : Type ℓ → Type ℓ
Result A = Fallible HandlerError A

-- A value of the metadata dict, or none under its key.
pub data Value : Type 0 where
  absent not_a_number float_value negative_int : Value
  int_value : ℕ → Value

-- `isinstance(points, (float, int))`, where a missing key is 0
abbrev pub are_points : Value → Bool
are_points not_a_number = false
are_points _ = true
