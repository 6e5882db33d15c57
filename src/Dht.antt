-- ===== src/Dht.antt =====
-- dht_utils.py (src/petals): the records of modules that are read from the DHT, where any peer may
-- have written anything. What the DHT returns is an argument, and so is the decoding of the keys.
use petals_ai_refactor.Prelude.{
  ◌==◌, if◌then◌else◌, ℕ, zero, suc, Option, none, some, List, [], ◌∷◌,
}
use petals_ai_refactor.Data.{
  PeerId, ModuleUid, ServerState, offline, joining, online, ServerInfo, RemoteModuleInfo,
}
pub mod Records

-- The two parts of `server_info.value`: what an isinstance test rejects, and what passes it.
pub data StateField : Type 0 where
  not_int negative_int : StateField
  int_state : ℕ → StateField

pub data ThroughputField (F : Type 0) : Type 0 where
  not_float not_finite negative_float : ThroughputField F
  finite : F → ThroughputField F

-- An entry of a peer; one that is no pair cannot be unpacked.
pub data Entry (F : Type 0) : Type 0 where
  not_a_pair : Entry F
  pair : StateField → ThroughputField F → Entry F

-- What the DHT has under a uid: nothing, a value that is no dict, or the entries of peers by key.
pub data Metadata (K F : Type 0) : Type 0 where
  not_found not_a_dict : Metadata K F
  peers : List (K × Entry F) → Metadata K F

-- `ServerState(state)` and `state.value`
unfoldable pub state_of : ℕ → Option ServerState
state_of zero = some offline
state_of (suc zero) = some joining
state_of (suc (suc zero)) = some online
state_of (suc (suc (suc n))) = none

unfoldable pub value_of : ServerState → ℕ
value_of offline = 0
value_of joining = 1
value_of online = 2

module _ {F : Type 0} where
  -- the value that `_declare_active_modules` stores for a peer
  unfoldable pub declared_value : ServerState → F → Entry F
  unfolding value_of
  declared_value s throughput = pair (int_state (value_of s)) (finite throughput)

  abbrev pub server_info : Option ServerState → F → Option (ServerInfo F)
  server_info none throughput = none
  server_info (some s) throughput = some (record { state = s; throughput = throughput })

  -- the checks on an entry, where `none` is the TypeError or ValueError
  unfoldable pub parse_entry : Entry F → Option (ServerInfo F)
  unfolding state_of
  parse_entry (pair (int_state n) (finite throughput)) = server_info (state_of n) throughput
  parse_entry _ = none

  -- `servers[peer_id] = server`
  unfoldable pub put_server :
      PeerId → ServerInfo F → List (PeerId × ServerInfo F) → List (PeerId × ServerInfo F)
  put_server p server [] = (p, server) ∷ []
  put_server p server ((q, other) ∷ servers) =
      if q == p then (p, server) ∷ servers else (q, other) ∷ put_server p server servers

  -- one round of the loop over the peers, with what `from_base58` and the checks gave
  abbrev pub put_valid :
      Option PeerId
      → Option (ServerInfo F)
      → List (PeerId × ServerInfo F)
      → List (PeerId × ServerInfo F)
  put_valid (some p) (some server) servers = put_server p server servers
  put_valid _ _ servers = servers

  -- `PeerID.from_base58`, where none is the TypeError or ValueError of a key that is no peer's: the
  -- code catches these two, and relies on the library to raise no other
  module _ {K : Type 0} (from_base58 : K → Option PeerId) where
    unfoldable pub read_peers :
        List (K × Entry F) → List (PeerId × ServerInfo F) → List (PeerId × ServerInfo F)
    unfolding put_server parse_entry
    read_peers [] servers = servers
    read_peers ((key, entry) ∷ entries) servers =
        read_peers entries (put_valid (from_base58 key) (parse_entry entry) servers)

    -- `if servers`
    abbrev pub module_with : ModuleUid → List (PeerId × ServerInfo F) → Option (RemoteModuleInfo F)
    module_with uid [] = none
    module_with uid (x ∷ servers) = some (record { uid = uid; servers = x ∷ servers })

    unfoldable pub read_module : ModuleUid → Metadata K F → Option (RemoteModuleInfo F)
    unfolding read_peers
    read_module uid (peers entries) = module_with uid (read_peers entries [])
    read_module uid _ = none

    unfoldable pub get_remote_module_infos :
        (ModuleUid → Metadata K F) → List ModuleUid → List (Option (RemoteModuleInfo F))
    unfolding read_module
    get_remote_module_infos found [] = []
    get_remote_module_infos found (uid ∷ uids) =
        read_module uid (found uid) ∷ get_remote_module_infos found uids
