-- ===== src/Tests/ServerTests.antt =====
-- A server of two blocks, which restarts once, and then cannot load its second block.
use petals_ai_refactor.Prelude.{◌==◌, ◌≡◌, refl, true, false, none, some, [], ◌∷◌}
use petals_ai_refactor.Data.{ServerState, offline, joining, online}
use petals_ai_refactor.Server.{
  Announcement, announce, raised, Round, load_blocks, end_create, create, shutdown, choose_blocks,
  check_loop, run, empty_node,
}
use petals_ai_refactor.Server.Protocol.{start, EndsWell, run-EndsWell}

abbrev crash : Round
crash = record {
  module_infos = [];
  joining_waits = 1;
  prepares = true;
  loads = λ b. true;
  reachable = true;
  starts = true;
  online_waits = 0;
  checks =
      record { stop = false; healthy = true; other_blocks = some true }
      ∷ record { stop = false; healthy = false; other_blocks = none }
      ∷ [];
}

abbrev broken : Round
broken = record crash { loads = λ b. b == 3; joining_waits = 0 }

abbrev say : ServerState → Announcement
say s = record { state = s; blocks = 3 ∷ 4 ∷ [] }

server_run : run (some (3 ∷ 4 ∷ [])) 2 (crash ∷ broken ∷ []) empty_node ≡ (
  raised,
  record {
    announcements =
        say offline ∷ say joining ∷ say offline ∷ say online ∷ say joining ∷ say joining ∷ [];
    opened = 3 ∷ 4 ∷ 3 ∷ [];
    closed = 3 ∷ 4 ∷ 3 ∷ [];
    serving = false;
  },
)
unfolding run choose_blocks create end_create load_blocks announce check_loop shutdown
server_run = refl

-- a container that cannot be constructed, after a restart
abbrev unstarted : Round
unstarted = record crash { starts = false; joining_waits = 0 }

server_leaves : run (some (3 ∷ 4 ∷ [])) 2 (unstarted ∷ []) empty_node ≡ (
  raised,
  record { announcements = say joining ∷ []; opened = 3 ∷ 4 ∷ []; closed = []; serving = false },
)
unfolding run choose_blocks create end_create load_blocks announce check_loop shutdown
server_leaves = refl

run-EndsWell_example :
    EndsWell (crash ∷ broken ∷ []) (run (some (3 ∷ 4 ∷ [])) 2 (crash ∷ broken ∷ []) empty_node)
run-EndsWell_example =
    run-EndsWell (some (3 ∷ 4 ∷ [])) 2 (crash ∷ broken ∷ []) empty_node
      (record { announced = start; shut = refl; idle = refl })
