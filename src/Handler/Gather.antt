-- ===== src/Handler/Gather.antt =====
-- `_gather_inputs` of server/handler.py, over the requests that a client streams.
use petals_ai_refactor.Prelude.{
  err, ok, ◌>>=◌, ◌>>◌, guard, Option, none, some, List, [], ◌∷◌, ◌++◌,
}
use petals_ai_refactor.Data.{ModuleUid}
use petals_ai_refactor.Handler.Errors.{uids_differ, no_requests, Result}
use petals_ai_refactor.Routing.Info.{uid_eq}

-- A message of the stream; its metadata is `none` if it is empty.
pub record Part (T M : Type 0) : Type 0 where
  pub uid : ModuleUid
  pub tensors : List T
  pub metadata : Option M

module _ {T M : Type 0} (empty : M) where
  -- `_unpack` on each request, with the uid and the metadata that the first one set
  unfoldable pub unpack_rest : ModuleUid → List (Part T M) → Result (List T)
  unpack_rest uid [] = ok []
  unpack_rest uid (part ∷ parts) = do
    guard (uid_eq uid part.uid) uids_differ
    tensors ← unpack_rest uid parts
    ok (part.tensors ++ tensors)

  -- an empty stream fails the assertion that a uid was received
  unfoldable pub gather_inputs : List (Part T M) → Result (ModuleUid × List T × M)
  unfolding unpack_rest
  gather_inputs [] = err no_requests
  gather_inputs (part ∷ parts) = do
    tensors ← unpack_rest part.uid parts
    ok (part.uid, part.tensors ++ tensors, elim part.metadata [ none ↦ empty | some m ↦ m ])
