-- ===== src/Tests/RemoteTests.antt =====
-- A server of the block "a", which adds 10 to a number and 1 to a gradient. A tensor is sent as a
-- number, in two pieces where it comes in a stream: one to be left out and one to be read.
use petals_ai_refactor.Handler.Rpc
use petals_ai_refactor.Handler.Forward
use petals_ai_refactor.Prelude.{
  err, ok, ◌>>=◌, ℕ, zero, suc, ◌+◌, ◌-◌, ◌≡◌, refl, ap, true, none, List, [], ◌∷◌, arith,
}
use petals_ai_refactor.Routing.Info.{uid_eq}
use petals_ai_refactor.Handler.Errors.{raised, Result}
use petals_ai_refactor.Handler.Uids.{split, all_served, check_uids}
use petals_ai_refactor.Handler.Serialize.{Proto, Schemas}
use petals_ai_refactor.Handler.Rpc.{Wire, Backends, deserialize_all, pieces, rpc_forward}
use petals_ai_refactor.Handler.Forward.{Blocks, dummy}
use petals_ai_refactor.Remote.{RpcInfo, Client, run_remote_forward, run_remote_backward}
use petals_ai_refactor.Remote.Streams.{
  IsLossless, limited, stub_of, run_remote_forward-limited, run_remote_backward-limited,
}

abbrev blocks : Blocks ℕ ℕ ℕ
blocks = record {
  is_three_dims = λ h. true;
  add_prompt = λ p h. ok (p + h);
  run_forward = λ b h. ok (h + 10);
  run_backward = λ b h g. ok (g + 1);
  prompt_grad = λ p g. g;
}

abbrev proto : Proto ℕ
proto = record { dtype = 0; compression = 0 }

abbrev schemas : Schemas ℕ ℕ ℕ ℕ
schemas = record {
  outputs_schema = λ b. proto ∷ [];
  args_schema = λ b. proto ∷ [];
  kwargs_schema = λ b. [];
  serialize = λ x d c. x + 1;
}

abbrev read_pieces : List ℕ → Result (List ℕ)
read_pieces [] = ok []
read_pieces (zero ∷ []) = err (raised 1)
read_pieces (zero ∷ t ∷ ts) = do xs ← read_pieces ts; ok ((t - 1) ∷ xs)
read_pieces (suc t ∷ ts) = err (raised 2)

abbrev wire : Wire ℕ ℕ ℕ
wire = record {
  deserialize = λ t. ok (t - 1);
  deserialize_stream = read_pieces;
  split_for_streaming = λ t. 0 ∷ t ∷ [];
  prompts_of = λ x. dummy;
  cat = λ ps. 0;
}

wire_joined : (ts : List ℕ) → read_pieces (pieces wire ts) ≡ deserialize_all wire ts
wire_joined [] = refl
wire_joined (t ∷ ts) = ap (λ (r : Result (List ℕ)). r >>= λ xs. ok ((t - 1) ∷ xs)) (wire_joined ts)

wire-IsLossless : IsLossless wire
wire-IsLossless = record { some_piece = λ t. omega arith; joined = wire_joined }

abbrev backends : Backends ℕ
backends = record { serves = λ uid. uid_eq uid (97 ∷ []); backend = λ uid. 0 }

abbrev client : Client ℕ ℕ ℕ
client = record {
  serialize = λ x d c. x + 1;
  size = λ x. 8;
  max_unary_payload_size = 100;
  pack = λ xs. ok xs;
}

abbrev info : RpcInfo ℕ
info = record {
  keyword_names = [];
  args_schema = proto ∷ [];
  kwargs_schema = [];
  outputs_schema = proto ∷ [];
}

remote_forward_test :
    run_remote_forward wire
      (stub_of blocks backends schemas wire)
      client
      info
      (97 ∷ [])
      none
      (5 ∷ 0 ∷ [])
    ≡ ok (15 ∷ [])
unfolding run_remote_forward Rpc.rpc_forward check_uids split all_served Forward.rpc_forward
remote_forward_test = refl

run_remote_forward-limited_example :
    run_remote_forward wire
      (stub_of blocks backends schemas wire)
      client
      info
      (97 ∷ [])
      none
      (5 ∷ 0 ∷ [])
    ≡ run_remote_forward wire
        (stub_of blocks backends schemas wire)
        (limited client 3)
        info
        (97 ∷ [])
        none
        (5 ∷ 0 ∷ [])
run_remote_forward-limited_example =
    run_remote_forward-limited blocks backends schemas wire wire-IsLossless client info 3 (97 ∷ [])
      none (5 ∷ 0 ∷ [])

run_remote_backward-limited_example :
    run_remote_backward wire
      (stub_of blocks backends schemas wire)
      client
      info
      (97 ∷ [])
      none
      5
      (1 ∷ [])
      (0 ∷ [])
    ≡ run_remote_backward wire
        (stub_of blocks backends schemas wire)
        (limited client 3)
        info
        (97 ∷ [])
        none
        5
        (1 ∷ [])
        (0 ∷ [])
run_remote_backward-limited_example =
    run_remote_backward-limited blocks backends schemas wire wire-IsLossless client info 3 (97 ∷ [])
      none 5 (1 ∷ []) (0 ∷ [])
