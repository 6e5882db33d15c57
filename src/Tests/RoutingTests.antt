-- ===== src/Tests/RoutingTests.antt =====
-- Routing over three blocks, two servers and one that joins.
use petals_ai_refactor.Prelude.{
  ℕ, ◌+◌, ◌≡◌, refl, true, false, Option, none, some, List, [], ◌∷◌, map, arith,
}
use petals_ai_refactor.Data.{PeerId, ServerState, joining, online, ServerInfo, RemoteModuleInfo}
use petals_ai_refactor.Routing.Coverage.{AreSpans, compute_spans-AreSpans}
use petals_ai_refactor.Routing.Info.{RemoteSequenceInfo}
use petals_ai_refactor.Routing.Manager.{random, Manager, Blacklist, make_sequence}
use petals_ai_refactor.Routing.Spans.{Spans, compute_spans}
use petals_ai_refactor.Routing.Gate.{Answer, make_sequence-Outcome}

abbrev at_state : ServerState → ServerInfo ℕ
at_state s = record { state = s; throughput = 1 }

abbrev block : List (PeerId × ServerInfo ℕ) → RemoteModuleInfo ℕ
block servers = record { uid = 98 ∷ []; servers = servers }

abbrev swarm : List (RemoteModuleInfo ℕ)
swarm =
    block ((1, at_state online) ∷ (2, at_state joining) ∷ [])
    ∷ block ((1, at_state online) ∷ (3, at_state online) ∷ [])
    ∷ block ((3, at_state online) ∷ [])
    ∷ []

abbrev infos : List (Option (RemoteModuleInfo ℕ))
infos = map some swarm

swarm_spans :
    compute_spans infos
    ≡ some (record {
      by_priority =
          record { start = 0; end = 2; peer_id = 1 }
          ∷ record { start = 1; end = 3; peer_id = 3 }
          ∷ [];
      containing_block =
          (record { start = 0; end = 2; peer_id = 1 } ∷ [])
          ∷ (record { start = 0; end = 2; peer_id = 1 }
              ∷ record { start = 1; end = 3; peer_id = 3 }
              ∷ [])
          ∷ (record { start = 1; end = 3; peer_id = 3 } ∷ [])
          ∷ [];
    })
unfolding compute_spans
swarm_spans = refl

compute_spans-AreSpans_example :
    (spans : Spans) × (compute_spans infos ≡ some spans) × AreSpans infos spans
compute_spans-AreSpans_example = compute_spans-AreSpans infos

abbrev table : RemoteSequenceInfo ℕ
table = record {
  block_uids = (98 ∷ []) ∷ (98 ∷ []) ∷ (98 ∷ []) ∷ [];
  block_infos = swarm;
  spans_by_priority = (compute_spans-AreSpans infos).0.by_priority;
  spans_containing_block = (compute_spans-AreSpans infos).0.containing_block;
  last_updated_time = none;
}

-- a blacklist that counts failures
abbrev counting : Blacklist ℕ
counting = record {
  contains = λ n p. false;
  register_failure = λ n p. n + 1;
  register_success = λ n p. 0;
}

abbrev manager : Manager ℕ ℕ
manager = record { sequence_info = table; ready = true; trigger = false; banned_peers = 0 }

-- a manager that has lost its servers, and waits for the pass of the updater that finds them
abbrev waiting : Manager ℕ ℕ
waiting = record manager { ready = false; trigger = true }

-- before that pass it waits, although the table has a route
still_waiting : make_sequence counting (λ i. i) random waiting [] 0 (some 3) ≡ none
unfolding make_sequence
still_waiting = refl

make_sequence-Outcome_example :
    Answer counting infos waiting
      ((infos, 5) ∷ [])
      0
      3
      (make_sequence counting (λ i. i) random waiting ((infos, 5) ∷ []) 0 (some 3))
make_sequence-Outcome_example =
    make_sequence-Outcome counting infos (λ i. i) random waiting ((infos, 5) ∷ []) 0 3 tt
      (compute_spans-AreSpans infos).2.table (omega arith) (omega arith)
