-- ===== src/Tests/DhtTests.antt =====
-- The keys are the peers' numbers, and 9 is the key of no peer.
use petals_ai_refactor.Prelude.{
  ◌==◌, if◌then◌else◌, ℕ, ◌≡◌, refl, Option, none, some, List, [], ◌∷◌, ◌++◌,
}
use petals_ai_refactor.Data.{PeerId, ModuleUid, joining, online}
use petals_ai_refactor.Dht.{
  int_state, not_finite, finite, Entry, not_a_pair, pair, Metadata, not_found, peers, state_of,
  value_of, declared_value, parse_entry, put_server, read_peers, read_module,
  get_remote_module_infos,
}
use petals_ai_refactor.Dht.Records.{read_peers-declared_value}
use petals_ai_refactor.Routing.Spans.{lookup}

abbrev decode : ℕ → Option PeerId
decode key = if key == 9 then none else some key

abbrev entries : List (ℕ × Entry ℕ)
entries =
    (1, declared_value online 5)
    ∷ (2, pair (int_state 7) (finite 3))
    ∷ (9, declared_value online 4)
    ∷ (3, pair (int_state 2) not_finite)
    ∷ (4, not_a_pair)
    ∷ []

abbrev store : ModuleUid → Metadata ℕ ℕ
store [] = not_found
store (c ∷ cs) = peers entries

one_peer :
    get_remote_module_infos decode store ((98 ∷ []) ∷ [] ∷ [])
    ≡ some (record { uid = 98 ∷ []; servers = (1, record { state = online; throughput = 5 }) ∷ [] })
      ∷ none
      ∷ []
unfolding get_remote_module_infos read_module read_peers put_server parse_entry state_of
    declared_value value_of
one_peer = refl

read_peers-declared_value_example :
    lookup {F = ℕ} 1 (read_peers decode ([] ++ (1, declared_value joining 6) ∷ []) [])
    ≡ some (record { state = joining; throughput = 6 })
read_peers-declared_value_example = read_peers-declared_value decode 1 1 joining 6 [] [] refl refl
