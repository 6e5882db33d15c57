-- ===== src/Handler/Rpc.antt =====
-- The calls of server/handler.py that take one request or a stream of its parts: the forward and the
-- backward pass. Casts to a backend's data type are left out; logging, too.
use petals_ai_refactor.Prelude.{err, ok, ◌>>=◌, ◌>>◌, guard, Bool, List, [], ◌∷◌, ◌++◌, map}
use petals_ai_refactor.Data.{ModuleUid}
use petals_ai_refactor.Handler.Errors.{bad_points, wrong_tensors, Result, are_points}
use petals_ai_refactor.Handler.Gather.{Part, gather_inputs}
use petals_ai_refactor.Handler.Uids.{check_uids}
use petals_ai_refactor.Handler.Serialize.{
  Metadata, no_metadata, metadata_of, Schemas, serialize_outputs, serialize_grads,
}
use petals_ai_refactor.Handler.Forward.{Blocks, Prompts}
use petals_ai_refactor.Handler.Forward
use petals_ai_refactor.Handler.Backward

-- What the calls ask of torch and of hivemind: tensors as they were sent, one by one or in the
-- pieces of a stream, and how a tensor is split into pieces. Hidden states are tensors; the deep
-- prompts of a request are one that `prompts_of` splits along the blocks and `cat` joins again.
pub record Wire (P X T : Type 0) : Type 0 where
  pub deserialize : T → Result X
  pub deserialize_stream : List T → Result (List X)
  pub split_for_streaming : T → List T
  pub prompts_of : X → Prompts P
  pub cat : List P → X

-- `{module_backends[uid]}` and whether there is one
pub record Backends (B : Type 0) : Type 0 where
  pub serves : ModuleUid → Bool
  pub backend : ModuleUid → B

module _ {P X T : Type 0} (wire : Wire P X T) where
  open wire use {deserialize, split_for_streaming}

  abbrev pub deserialize_all : List T → Result (List X)
  deserialize_all [] = ok []
  deserialize_all (t ∷ ts) = do x ← deserialize t; xs ← deserialize_all ts; ok (x ∷ xs)

  -- the pieces of some tensors, in order
  abbrev pub pieces : List T → List T
  pieces [] = []
  pieces (t ∷ ts) = split_for_streaming t ++ pieces ts

  -- each piece is a message
  abbrev pub messages : List T → List (List T)
  messages ts = map (λ t. t ∷ []) (pieces ts)

module _ {B P X T D : Type 0} (blocks : Blocks B X P) (backends : Backends B)
    (schemas : Schemas B X T D) (wire : Wire P X T) where
  open blocks use {is_three_dims}
  open backends use {serves, backend}
  open wire use {deserialize_stream, prompts_of, cat}

  -- `_rpc_forward` and `_rpc_backward` on the flat tensors of a request
  abbrev pub forward_flat : List B → List X → Result X
  forward_flat bs (h ∷ p ∷ []) = Forward.rpc_forward blocks bs h (prompts_of p)
  forward_flat bs _ = err wrong_tensors

  abbrev pub with_grad_prompts : X × List P → List X
  with_grad_prompts (grad, []) = grad ∷ []
  with_grad_prompts (grad, p ∷ ps) = grad ∷ cat (p ∷ ps) ∷ []

  abbrev pub backward_flat : List B → List X → Result (List X)
  backward_flat bs (h ∷ g ∷ p ∷ []) = do
    r ← Backward.rpc_backward blocks bs h g (prompts_of p)
    ok (with_grad_prompts r)
  backward_flat bs _ = err wrong_tensors

  -- the part that a call and its stream share: the serialized outputs for the inputs
  unfoldable pub forward_outputs : ModuleUid → List X → Metadata → Result (List T)
  unfolding serialize_outputs
  forward_outputs uid flat metadata = do
    uids ← check_uids serves uid
    let bs = map backend uids
    guard (are_points metadata.points) bad_points
    h ← forward_flat bs flat
    serialize_outputs schemas is_three_dims bs h metadata.output_compression

  unfoldable pub backward_outputs : ModuleUid → List X → Metadata → Result (List T)
  unfolding serialize_grads
  backward_outputs uid flat metadata = do
    uids ← check_uids serves uid
    let bs = map backend uids
    guard (are_points metadata.points) bad_points
    grads ← backward_flat bs flat
    serialize_grads schemas bs grads metadata.output_compression

  unfoldable pub rpc_forward : Part T Metadata → Result (List T)
  unfolding forward_outputs
  rpc_forward request = do
    flat ← deserialize_all wire request.tensors
    forward_outputs request.uid flat (metadata_of request.metadata)

  unfoldable pub rpc_forward_stream : List (Part T Metadata) → Result (List (List T))
  unfolding forward_outputs gather_inputs
  rpc_forward_stream requests = do
    (uid, parts, metadata) ← gather_inputs no_metadata requests
    flat ← deserialize_stream parts
    tensors ← forward_outputs uid flat metadata
    ok (messages wire tensors)

  unfoldable pub rpc_backward : Part T Metadata → Result (List T)
  unfolding backward_outputs
  rpc_backward request = do
    flat ← deserialize_all wire request.tensors
    backward_outputs request.uid flat (metadata_of request.metadata)

  unfoldable pub rpc_backward_stream : List (Part T Metadata) → Result (List (List T))
  unfolding backward_outputs gather_inputs
  rpc_backward_stream requests = do
    (uid, parts, metadata) ← gather_inputs no_metadata requests
    flat ← deserialize_stream parts
    tensors ← backward_outputs uid flat metadata
    ok (messages wire tensors)
