-- ===== src/Data.antt =====
-- data_structures.py (src/petals/data_structures.py): the records that the components exchange.
-- A `PeerID` is opaque bytes of which the code uses equality and order only: a number here. A
-- `ModuleUID` is a text: its code points. Each occurrence of a throughput is a value of the
-- abstract type that the module using it takes as a parameter.
use petals_ai_refactor.Prelude.{ℕ, Bool, true, false, List}

abbrev pub PeerId : Type 0
PeerId = ℕ

abbrev pub ModuleUid : Type 0
ModuleUid = List ℕ

pub data ServerState : Type 0 where
  offline joining online : ServerState

pub record ServerInfo {ℓ} (F : Type ℓ) : Type ℓ where
  pub state : ServerState
  pub throughput : F

pub record RemoteModuleInfo {ℓ} (F : Type ℓ) : Type ℓ where
  pub uid : ModuleUid
  pub servers : List (PeerId × ServerInfo F)

pub record RemoteSpanInfo : Type 0 where
  pub start : ℕ
  pub end : ℕ
  pub peer_id : PeerId

abbrev pub is_online : ServerState → Bool
is_online online = true
is_online joining = false
is_online offline = false
