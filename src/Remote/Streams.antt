-- ===== src/Remote/Streams.antt =====
-- A call of a server in a stream of pieces gives what the call in one message gives.
use petals_ai_refactor.Prelude.{
  ltb, ◌==◌, if◌then◌else◌, ==_iff, length, length-append, Fallible, err, ok, ◌>>=◌, ◌>>◌, guard, ℕ,
  ◌<◌, ◌≡◌, refl, sym, ap, ◌∙◌, Bool, true, false, ◌&&◌, Option, none, some, List, [], ◌∷◌, ◌++◌,
  map, arith,
}
use petals_ai_refactor.Data.{ModuleUid}
use petals_ai_refactor.Routing.Info.{uid_eq}
use petals_ai_refactor.Handler.Errors.{Result}
use petals_ai_refactor.Handler.Gather.{unpack_rest, gather_inputs}
use petals_ai_refactor.Handler.Serialize.{
  Proto, Metadata, no_metadata, metadata_of, Schemas, repeated,
}
use petals_ai_refactor.Handler.Rpc.{
  Wire, Backends, deserialize_all, pieces, messages, forward_outputs, backward_outputs, rpc_forward,
  rpc_forward_stream, rpc_backward, rpc_backward_stream,
}
use petals_ai_refactor.Handler.Forward.{Blocks}
use petals_ai_refactor.Remote.{
  wrong_keywords, wrong_inputs, schema_mismatch, Stub, RpcInfo, Client, received, concat,
  total_size, serialize_inputs, forward_unary, backward_unary, forward_stream, backward_stream,
  run_remote_forward, run_remote_backward,
}

concat-singletons : {A : Type 0} (xs : List A) → concat (map (λ x. x ∷ []) xs) ≡ xs
concat-singletons [] = refl
concat-singletons (x ∷ xs) = ap (λ l. x ∷ l) (concat-singletons xs)

uid_eq_refl : (uid : ModuleUid) → uid_eq uid uid ≡ true
uid_eq_refl [] = refl
uid_eq_refl (c ∷ cs) = rw ((==_iff c c).1 refl) (uid_eq_refl cs)

-- What hivemind promises of its pieces: there is one at least for each tensor, and a stream of the
-- pieces of some tensors is read as these tensors are.
pub record IsLossless {P X T : Type 0} (wire : Wire P X T) : Type 0 where
  pub some_piece : (t : T) → 0 < length (wire.split_for_streaming t)
  pub joined : (ts : List T) → wire.deserialize_stream (pieces wire ts) ≡ deserialize_all wire ts

module _ {P X T : Type 0} (wire : Wire P X T) (lossless : IsLossless wire) where
  open wire use {deserialize_stream}

  some_pieces : (ts : List T) → 0 < length ts → 0 < length (pieces wire ts)
  some_pieces [] lt = absurd (omega arith)
  some_pieces (t ∷ ts) lt =
      omega
        (arith, length-append (wire.split_for_streaming t) (pieces wire ts), lossless.some_piece t)

  unpack_rest_lem :
      (uid : ModuleUid) (metadata : Option Metadata) (ps : List T)
      → unpack_rest no_metadata uid
          (map (λ p. record { uid = uid; tensors = p ∷ []; metadata = metadata }) ps)
        ≡ ok ps
  unfolding unpack_rest
  unpack_rest_lem uid metadata [] = refl
  unpack_rest_lem uid metadata (p ∷ ps) =
      rw (uid_eq_refl uid) (rw (unpack_rest_lem uid metadata ps) refl)

  -- the messages of a stream are gathered into what was sent
  gather_inputs_lem :
      (uid : ModuleUid) (metadata : Option Metadata) (ps : List T)
      → 0 < length ps
      → gather_inputs no_metadata
          (map (λ p. record { uid = uid; tensors = p ∷ []; metadata = metadata }) ps)
        ≡ ok (uid, ps, elim metadata [ none ↦ no_metadata | some m ↦ m ])
  unfolding gather_inputs
  gather_inputs_lem uid metadata [] lt = absurd (omega arith)
  gather_inputs_lem uid metadata (p ∷ ps) lt = rw (unpack_rest_lem uid metadata ps) refl

  streamed :
      (answer : List X → Result (List T)) (r : Result (List X))
      → (r >>= (λ flat. answer flat >>= λ tensors. ok (messages wire tensors)) >>= λ outputs.
          deserialize_stream (concat outputs))
        ≡ (r >>= answer >>= deserialize_all wire)
  streamed answer (err e) = refl
  streamed answer (ok flat) = sent (answer flat)
    where
      sent :
          (r : Result (List T))
          → ((r >>= λ tensors. ok (messages wire tensors)) >>= λ outputs.
              deserialize_stream (concat outputs))
            ≡ (r >>= deserialize_all wire)
      sent (err e) = refl
      sent (ok tensors) =
          ap deserialize_stream (concat-singletons (pieces wire tensors)) ∙ lossless.joined tensors

serialize_inputs_some :
    {X T D : Type 0} (serialize : X → D → ℕ → T) (xs : List X) (schema : List (Proto D))
    → 0 < length xs
    → 0 < length schema
    → 0 < length (serialize_inputs serialize xs schema)
serialize_inputs_some serialize [] schema lt more = absurd (omega arith)
serialize_inputs_some serialize (x ∷ xs) [] lt more = absurd (omega arith)
serialize_inputs_some serialize (x ∷ xs) (proto ∷ schema) lt more = omega arith

-- what comes after a guard need only be the same where the guard holds
guard_same :
    {E A : Type 0} (b : Bool) (e : E) (x y : Fallible E A)
    → (b ≡ true → x ≡ y)
    → (guard b e >> x) ≡ (guard b e >> y)
guard_same true e x y same = same refl
guard_same false e x y same = refl

some_of_one : (a : ℕ) → (a == 1) ≡ true → 0 < a
some_of_one a e = ground arith

some_of_two : (a b : ℕ) → (a == 1 && b == 2) ≡ true → (0 < a) × (0 < b)
some_of_two a b e = (ground arith, ground arith)

-- a client with another limit on the size of one message
abbrev pub limited : {X T D : Type 0} → Client X T D → ℕ → Client X T D
limited client limit = record client { max_unary_payload_size = limit }

-- The client and the server put together.
module _ {B P X T D : Type 0} (blocks : Blocks B X P) (backends : Backends B)
    (schemas : Schemas B X T D) (wire : Wire P X T) where
  -- a server as its clients see it
  abbrev pub stub_of : Stub T
  stub_of = record {
    rpc_forward = rpc_forward blocks backends schemas wire;
    rpc_forward_stream = rpc_forward_stream blocks backends schemas wire;
    rpc_backward = rpc_backward blocks backends schemas wire;
    rpc_backward_stream = rpc_backward_stream blocks backends schemas wire;
  }

  module _ (lossless : IsLossless wire) where
    forward_stream-forward_unary :
        (uid : ModuleUid) (metadata : Option Metadata) (tensors : List T)
        → 0 < length tensors
        → forward_stream wire stub_of uid metadata tensors
          ≡ forward_unary wire stub_of uid metadata tensors
    unfolding forward_stream forward_unary rpc_forward rpc_forward_stream
    forward_stream-forward_unary uid metadata tensors lt =
        rw
          (gather_inputs_lem wire lossless uid metadata (pieces wire tensors)
            (some_pieces wire lossless tensors lt))
          (rw (lossless.joined tensors) (
            streamed wire lossless
              (λ flat. forward_outputs blocks backends schemas wire uid flat (metadata_of metadata))
              (deserialize_all wire tensors)))

    backward_stream-backward_unary :
        (uid : ModuleUid) (metadata : Option Metadata) (tensors : List T)
        → 0 < length tensors
        → backward_stream wire stub_of uid metadata tensors
          ≡ backward_unary wire stub_of uid metadata tensors
    unfolding backward_stream backward_unary rpc_backward rpc_backward_stream
    backward_stream-backward_unary uid metadata tensors lt =
        rw
          (gather_inputs_lem wire lossless uid metadata (pieces wire tensors)
            (some_pieces wire lossless tensors lt))
          (rw (lossless.joined tensors) (
            streamed wire lossless
              (λ flat.
                backward_outputs blocks backends schemas wire uid flat (metadata_of metadata))
              (deserialize_all wire tensors)))

    -- the wait for the answer, either way
    either_way :
        {A : Type 0} (f : Result (List X) → A) (large small : Bool)
        (streamed unary : Result (List X))
        → streamed ≡ unary
        → f (if large then streamed else unary) ≡ f (if small then streamed else unary)
    either_way f true true streamed unary e = refl
    either_way f false false streamed unary e = refl
    either_way f true false streamed unary e = ap f e
    either_way f false true streamed unary e = ap f (sym e)

    module _ (client : Client X T D) (info : RpcInfo D) (limit : ℕ) where
      -- A client gets the same from a server, outputs or error, whatever limit it has on the size of
      -- a message: large inputs, which go to the server and come back in pieces, are worked on as
      -- small ones are, if the pieces are read as the tensors are, and each tensor has one
      -- at least.
      pub run_remote_forward-limited :
          (uid : ModuleUid) (metadata : Option Metadata) (inputs : List X)
          → run_remote_forward wire stub_of client info uid metadata inputs
            ≡ run_remote_forward wire stub_of (limited client limit) info uid metadata inputs
      unfolding run_remote_forward
      run_remote_forward-limited uid metadata inputs =
          let tensors = serialize_inputs client.serialize inputs (repeated 2 info.args_schema) in
          guard_same (length info.keyword_names == 0) wrong_keywords _ _ (λ _.
            guard_same (length info.args_schema == 1 && length inputs == 2) wrong_inputs _ _
              (λ both.
                let (one, two) = some_of_two (length info.args_schema) (length inputs) both in
                guard_same (length info.kwargs_schema == 0) schema_mismatch _ _ (λ _.
                  either_way (λ r. received r >>= client.pack)
                    (ltb client.max_unary_payload_size (total_size client.size inputs))
                    (ltb limit (total_size client.size inputs))
                    (forward_stream wire stub_of uid metadata tensors)
                    (forward_unary wire stub_of uid metadata tensors)
                    (forward_stream-forward_unary uid metadata tensors (
                      serialize_inputs_some client.serialize inputs (repeated 2 info.args_schema)
                        two
                        (omega (
                          arith,
                          one,
                          length-append info.args_schema (info.args_schema ++ []),
                        )))))))

      -- A client gets the same gradients or error from a server whatever limit it has on the size of a
      -- message, with pieces that are read as the tensors are, and at least one piece for each.
      pub run_remote_backward-limited :
          (uid : ModuleUid) (metadata : Option Metadata) (inputs : X) (grads extra : List X)
          → run_remote_backward wire stub_of client info uid metadata inputs grads extra
            ≡ run_remote_backward wire stub_of
                (limited client limit)
                info
                uid
                metadata
                inputs
                grads
                extra
      unfolding run_remote_backward
      run_remote_backward-limited uid metadata inputs grads extra =
          let all = inputs ∷ (grads ++ extra) in
          let schema =
            info.args_schema ++ info.kwargs_schema ++ info.outputs_schema ++ info.args_schema in
          let tensors = serialize_inputs client.serialize all schema in
          guard_same (length info.args_schema == 1) wrong_inputs _ _ (λ one.
            either_way (λ r. received r)
              (ltb client.max_unary_payload_size (total_size client.size all))
              (ltb limit (total_size client.size all))
              (backward_stream wire stub_of uid metadata tensors)
              (backward_unary wire stub_of uid metadata tensors)
              (backward_stream-backward_unary uid metadata tensors (
                serialize_inputs_some client.serialize all schema (omega arith) (
                  omega (
                    arith,
                    length-append (info.args_schema ++ info.kwargs_schema ++ info.outputs_schema)
                        info.args_schema,
                    some_of_one (length info.args_schema) one,
                  )))))
