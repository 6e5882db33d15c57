-- ===== src/Tests/SelectionTests.antt =====
-- Four blocks, of which the last two have the least throughput.
use petals_ai_refactor.Prelude.{
  range_from, ℕ, ◌+◌, ◌≤◌, ◌≡◌, refl, Option, none, some, List, [], ◌∷◌, arith,
}
use petals_ai_refactor.Data.{
  PeerId, ServerState, offline, joining, online, ServerInfo, RemoteModuleInfo,
}
use petals_ai_refactor.Selection.{
  extend_spans, insert_server, sort_servers, add_servers, compute_spans, insert_number,
  sort_numbers, min_option, choose_best_start, choose_best_blocks,
}
use petals_ai_refactor.Selection.Best.{IsLeast, choose_best_blocks-IsLeast}

abbrev module_of : List (PeerId × ServerInfo ℕ) → Option (RemoteModuleInfo ℕ)
module_of servers = some (record { uid = 98 ∷ []; servers = servers })

abbrev server : ServerState → ℕ → ServerInfo ℕ
server state throughput = record { state = state; throughput = throughput }

abbrev modules : List (Option (RemoteModuleInfo ℕ))
modules =
    module_of ((2, server online 5) ∷ (1, server joining 4) ∷ [])
    ∷ module_of ((2, server online 5) ∷ [])
    ∷ none
    ∷ module_of ((3, server offline 9) ∷ [])
    ∷ []

last_two : choose_best_blocks 2 modules ≡ some (2 ∷ 3 ∷ [])
unfolding choose_best_blocks choose_best_start compute_spans add_servers sort_servers insert_server
    extend_spans min_option sort_numbers insert_number
last_two = refl

choose_best_blocks-IsLeast_example :
    (start : ℕ) × (choose_best_blocks 2 modules ≡ some (range_from start 2))
    × (start + 2 ≤ 4)
    × IsLeast (9 ∷ 5 ∷ 0 ∷ 0 ∷ []) 2 3 start
choose_best_blocks-IsLeast_example = choose_best_blocks-IsLeast 2 modules (omega arith)
