-- ===== src/Routing/Failure.antt =====
-- The changes that `RemoteSequenceManager` makes to its table: a failed request, and an update.
use petals_ai_refactor.Prelude.{get_elem?, ℕ, Bool, true, false, none, some, List, []}
use petals_ai_refactor.Data.{PeerId, ServerInfo, RemoteModuleInfo}
use petals_ai_refactor.Routing.Manager.{Manager}
use petals_ai_refactor.Routing.Spans.{lookup}

module _ {F : Type 0} where
  -- Whether the dict has the key.
  abbrev pub has_key : PeerId → List (PeerId × ServerInfo F) → Bool
  has_key p servers = elim (lookup p servers) [ none ↦ false | some _ ↦ true ]

  abbrev pub block_servers : List (RemoteModuleInfo F) → ℕ → List (PeerId × ServerInfo F)
  block_servers infos b = elim (get_elem? infos b) [ none ↦ [] | some info ↦ info.servers ]
