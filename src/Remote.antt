-- ===== src/Remote.antt =====
-- client/remote_forward_backward.py (src/petals): calls of the forward and the backward pass of one
-- server, in one message or, where the tensors are large, in a stream of their pieces. Timeouts and
-- the executor are left out, and so are keyword arguments, which no caller passes.
pub mod Streams
use petals_ai_refactor.Prelude.{
  ltb, ◌==◌, if◌then◌else◌, length, Fallible, err, ok, ◌>>=◌, ◌>>◌, guard, ℕ, ◌+◌, ◌&&◌, Option,
  List, [], ◌∷◌, ◌++◌, map,
}
use petals_ai_refactor.Data.{ModuleUid}
use petals_ai_refactor.Handler.Errors.{HandlerError, Result}
use petals_ai_refactor.Handler.Gather.{Part}
use petals_ai_refactor.Handler.Serialize.{Proto, Metadata, repeated}
use petals_ai_refactor.Handler.Rpc.{
  Wire, deserialize_all, pieces, rpc_forward, rpc_forward_stream, rpc_backward, rpc_backward_stream,
}

pub data RemoteError : Type 0 where
  wrong_keywords wrong_inputs schema_mismatch : RemoteError
  -- an exception of the server or of the deserialiser
  failed : HandlerError → RemoteError

-- The server as a client sees it.
pub record Stub (T : Type 0) : Type 0 where
  pub rpc_forward : Part T Metadata → Result (List T)
  pub rpc_forward_stream : List (Part T Metadata) → Result (List (List T))
  pub rpc_backward : Part T Metadata → Result (List T)
  pub rpc_backward_stream : List (Part T Metadata) → Result (List (List T))

-- What a server tells about its schemas, flattened.
pub record RpcInfo (D : Type 0) : Type 0 where
  pub keyword_names : List ModuleUid
  pub args_schema : List (Proto D)
  pub kwargs_schema : List (Proto D)
  pub outputs_schema : List (Proto D)

-- `serialize_torch_tensor` after the cast to a data type, the bytes of a tensor, and `nested_pack`.
pub record Client (X T D : Type 0) : Type 0 where
  pub serialize : X → D → ℕ → T
  pub size : X → ℕ
  pub max_unary_payload_size : ℕ
  pub pack : List X → Fallible RemoteError (List X)

abbrev pub received : {A : Type 0} → Result A → Fallible RemoteError A
received (err e) = err (failed e)
received (ok a) = ok a

abbrev pub concat : {A : Type 0} → List (List A) → List A
concat [] = []
concat (xs ∷ xss) = xs ++ concat xss

abbrev pub total_size : {X : Type 0} → (X → ℕ) → List X → ℕ
total_size size [] = 0
total_size size (x ∷ xs) = size x + total_size size xs

-- `zip`, which ends with the shorter list
abbrev pub serialize_inputs : {X T D : Type 0} → (X → D → ℕ → T) → List X → List (Proto D) → List T
serialize_inputs serialize (x ∷ xs) (proto ∷ schema) =
    serialize x proto.dtype proto.compression ∷ serialize_inputs serialize xs schema
serialize_inputs serialize _ _ = []

module _ {P X T : Type 0} (wire : Wire P X T) (stub : Stub T) where
  open wire use {deserialize_stream}

  abbrev pub message : ModuleUid → Option Metadata → List T → Part T Metadata
  message uid metadata tensors = record { uid = uid; tensors = tensors; metadata = metadata }

  -- one message for each piece
  abbrev pub parts : ModuleUid → Option Metadata → List T → List (Part T Metadata)
  parts uid metadata tensors = map (λ part. message uid metadata (part ∷ [])) (pieces wire tensors)

  unfoldable pub forward_unary : ModuleUid → Option Metadata → List T → Result (List X)
  forward_unary uid metadata tensors = do
    outputs ← stub.rpc_forward (message uid metadata tensors)
    deserialize_all wire outputs

  unfoldable pub backward_unary : ModuleUid → Option Metadata → List T → Result (List X)
  backward_unary uid metadata tensors = do
    grad_inputs ← stub.rpc_backward (message uid metadata tensors)
    deserialize_all wire grad_inputs

  unfoldable pub forward_stream : ModuleUid → Option Metadata → List T → Result (List X)
  forward_stream uid metadata tensors = do
    outputs ← stub.rpc_forward_stream (parts uid metadata tensors)
    deserialize_stream (concat outputs)

  unfoldable pub backward_stream : ModuleUid → Option Metadata → List T → Result (List X)
  backward_stream uid metadata tensors = do
    grad_inputs ← stub.rpc_backward_stream (parts uid metadata tensors)
    deserialize_stream (concat grad_inputs)

  module _ {D : Type 0} (client : Client X T D) (info : RpcInfo D) where
    open client use {serialize, size, max_unary_payload_size, pack}

    -- the schema of the inputs and the prompts, each that of the inputs
    unfoldable pub run_remote_forward :
        ModuleUid → Option Metadata → List X → Fallible RemoteError (List X)
    unfolding forward_unary forward_stream
    run_remote_forward uid metadata inputs = do
      guard (length info.keyword_names == 0) wrong_keywords
      guard (length info.args_schema == 1 && length inputs == 2) wrong_inputs
      guard (length info.kwargs_schema == 0) schema_mismatch
      let tensors = serialize_inputs serialize inputs (repeated 2 info.args_schema)
      outputs ← received (
          if ltb max_unary_payload_size (total_size size inputs)
          then forward_stream uid metadata tensors
          else forward_unary uid metadata tensors)
      pack outputs

    unfoldable pub run_remote_backward :
        ModuleUid → Option Metadata → X → List X → List X → Fallible RemoteError (List X)
    unfolding backward_unary backward_stream
    run_remote_backward uid metadata inputs grad_outputs extra_tensors = do
      let all = inputs ∷ (grad_outputs ++ extra_tensors)
      guard (length info.args_schema == 1) wrong_inputs
      let schema = info.args_schema ++ info.kwargs_schema ++ info.outputs_schema ++ info.args_schema
      let tensors = serialize_inputs serialize all schema
      received (
          if ltb max_unary_payload_size (total_size size all)
          then backward_stream uid metadata tensors
          else backward_unary uid metadata tensors)
