-- ===== src/Routing/Manager.antt =====
-- `RemoteSequenceManager` of client/routing/sequence_manager.py.
use petals_ai_refactor.Routing.Info
use petals_ai_refactor.Prelude.{
  ltb, leb, ◌==◌, if◌then◌else◌, length, get_elem?, Fallible, err, ok, ◌>>=◌, or_error, ℕ, zero,
  suc, ◌+◌, ◌-◌, ◌*◌, ◌%◌, ◌^◌, Bool, true, false, ◌&&◌, Option, none, some, List, [], ◌∷◌, map,
}
use petals_ai_refactor.Data.{PeerId, ServerInfo, RemoteModuleInfo, RemoteSpanInfo}
use petals_ai_refactor.Routing.Info.{RemoteSequenceInfo, update}

-- The exceptions of `make_sequence`, and the end of the fuel.
pub data RouteError : Type 0 where
  -- `MissingBlocksError`, with the block
  missing_blocks : ℕ → RouteError
  unexpected_mode assertion_failed index_error out_of_fuel : RouteError

abbrev pub Result : Type 0 → Type 0
Result A = Fallible RouteError A

pub data Mode : Type 0 where
  random fastest unknown : Mode

-- A draw among the candidates, uniform or weighted by `span.end - current_index`: some candidate,
-- by a number that the generator gives.
unfoldable pub choose_span : Mode → ℕ → List RemoteSpanInfo → Result RemoteSpanInfo
choose_span unknown draw spans = err unexpected_mode
choose_span _ draw spans = or_error index_error (get_elem? spans (draw % length spans))

-- the candidates of a block, and `MissingBlocksError` if it has none
unfoldable pub candidates_at : List (List RemoteSpanInfo) → ℕ → Result (List RemoteSpanInfo)
candidates_at containing current = elim (get_elem? containing current) [
  | none ↦ err index_error
  | some [] ↦ err (missing_blocks current)
  | some (s ∷ spans) ↦ ok (s ∷ spans)
]

-- the assertion on the chosen span, and the part of it from the current block on
unfoldable pub cut_span : ℕ → RemoteSpanInfo → Result RemoteSpanInfo
cut_span current chosen =
    if leb chosen.start current && ltb current chosen.end
    then ok (record { start = current; end = chosen.end; peer_id = chosen.peer_id })
    else err assertion_failed

unfoldable pub next_span : (ℕ → ℕ) → Mode → List (List RemoteSpanInfo) → ℕ → Result RemoteSpanInfo
next_span draw mode containing current = do
  candidates ← candidates_at containing current
  chosen ← choose_span mode (draw current) candidates
  cut_span current chosen

-- the loop of `make_sequence`; `draw i` is the number drawn when the route stands at block `i`
unfoldable pub route :
    (ℕ → ℕ) → Mode → List (List RemoteSpanInfo) → ℕ → ℕ → ℕ → Result (List RemoteSpanInfo)
route draw mode containing zero current end = if ltb current end then err out_of_fuel else ok []
route draw mode containing (suc fuel) current end =
    let rest = (do
      s ← next_span draw mode containing current
      spans ← route draw mode containing fuel s.end end
      ok (s ∷ spans)) in
    if ltb current end then rest else ok []

module _ {F : Type 0} where
  -- `make_sequence` behind its tests on the threads
  unfoldable pub form_sequence :
      (ℕ → ℕ) → Mode → RemoteSequenceInfo F → ℕ → Option ℕ → Result (List RemoteSpanInfo)
  unfolding route next_span choose_span candidates_at cut_span
  form_sequence draw mode info start_index end_index =
      let end : ℕ = elim end_index [ none ↦ length info.block_uids | some e ↦ e ] in
      route draw mode info.spans_containing_block end start_index end

  -- `d.pop(peer_id, None)`
  unfoldable pub pop_peer : PeerId → List (PeerId × ServerInfo F) → List (PeerId × ServerInfo F)
  pop_peer p [] = []
  pop_peer p ((q, server) ∷ servers) =
      let rest = pop_peer p servers in if q == p then rest else (q, server) ∷ rest

-- The parts of the manager that its methods write: the routing table, the two events of the
-- updater thread, and the blacklist of hivemind, whose type is a parameter.
pub record Manager (F B : Type 0) : Type 0 where
  pub sequence_info : RemoteSequenceInfo F
  pub ready : Bool
  pub trigger : Bool
  pub banned_peers : B

-- `__contains__`, `register_failure` and `register_success` of `hivemind.dht.node.Blacklist`.
pub record Blacklist (B : Type 0) : Type 0 where
  pub contains : B → PeerId → Bool
  pub register_failure : B → PeerId → B
  pub register_success : B → PeerId → B

unfoldable pub get_retry_delay : ℕ → ℕ → ℕ
get_retry_delay min_backoff attempt_no =
    if attempt_no == 0 then 0 else min_backoff * 2 ^ (attempt_no - 1)

abbrev pub missing_from : ℕ → List (List RemoteSpanInfo) → List ℕ
missing_from i [] = []
missing_from i ([] ∷ lists) = i ∷ missing_from (i + 1) lists
missing_from i ((_ ∷ _) ∷ lists) = missing_from (i + 1) lists

module _ {F : Type 0} where
  abbrev pub has_no_servers : List (RemoteModuleInfo F) → Bool
  has_no_servers [] = false
  has_no_servers (info ∷ infos) = elim info.servers [ [] ↦ true | _ ∷ _ ↦ has_no_servers infos ]

  unfoldable pub drop_peer : PeerId → List (RemoteModuleInfo F) → List (RemoteModuleInfo F)
  unfolding pop_peer
  drop_peer p [] = []
  drop_peer p (info ∷ infos) = record info { servers = pop_peer p info.servers } ∷ drop_peer p infos

-- What the updater thread gets from the DHT in the passes of its loop, and when. A pass in which the
-- DHT raises changes nothing and is left out.
abbrev pub Passes : Type 0 → Type 0
Passes F = List (List (Option (RemoteModuleInfo F)) × ℕ)

module _ {F B : Type 0} (blacklist : Blacklist B) where
  -- `update(wait=False)`
  unfoldable pub request_update : Manager F B → Manager F B
  request_update m = record m { ready = false; trigger = true }

  unfoldable pub on_request_failure : Manager F B → PeerId → Manager F B
  unfolding drop_peer request_update
  on_request_failure m p =
      let infos = drop_peer p m.sequence_info.block_infos in
      let dropped = record m {
        sequence_info = record m.sequence_info { block_infos = infos };
        banned_peers = blacklist.register_failure m.banned_peers p;
      } in
      if has_no_servers infos then request_update dropped else dropped

  unfoldable pub on_request_success : Manager F B → PeerId → Manager F B
  on_request_success m p = record m { banned_peers = blacklist.register_success m.banned_peers p }

  unfoldable pub not_banned : B → List (PeerId × ServerInfo F) → List (PeerId × ServerInfo F)
  not_banned b [] = []
  not_banned b ((p, server) ∷ servers) =
      let rest = not_banned b servers in if blacklist.contains b p then rest else (p, server) ∷ rest

  -- the loop over the new records in `_update`: banned servers go, unless all of them are banned
  unfoldable pub filter_banned : B → Option (RemoteModuleInfo F) → Option (RemoteModuleInfo F)
  unfolding not_banned
  filter_banned b none = none
  filter_banned b (some info) = elim (not_banned b info.servers) [
    | [] ↦ some info
    | s ∷ servers ↦ some (record info { servers = s ∷ servers })
  ]

  -- One pass of the loop of `_update` with what the DHT returned at the time `now`: the manager,
  -- and whether the loop ends. An exception leaves the loop running.
  unfoldable pub update_attempt :
      Manager F B → List (Option (RemoteModuleInfo F)) → ℕ → Manager F B × Bool
  unfolding filter_banned Info.update
  update_attempt m news now =
      elim (Info.update m.sequence_info (map (filter_banned m.banned_peers) news) now) [
        | none ↦ (m, false)
        | some info ↦ elim (missing_from 0 info.spans_containing_block) [
          | [] ↦ (record m { sequence_info = info; ready = true }, true)
          | _ ∷ _ ↦ (record m { sequence_info = info }, false)
        ]
      ]

  -- `self._thread.ready.wait()`: the manager behind the first pass that makes it ready; none if it
  -- still waits behind all these passes
  unfoldable pub await_ready : Manager F B → Passes F → Option (Manager F B)
  unfolding update_attempt
  await_ready m [] = none
  await_ready m ((news, now) ∷ passes) =
      let (updated, ends) = update_attempt m news now in
      let rest = await_ready updated passes in if ends then some updated else rest

  -- `make_sequence`; none if it still waits to be ready behind the given passes of the updater
  unfoldable pub make_sequence :
      (ℕ → ℕ)
      → Mode
      → Manager F B
      → Passes F
      → ℕ
      → Option ℕ
      → Option (Manager F B × Result (List RemoteSpanInfo))
  unfolding form_sequence request_update await_ready
  make_sequence draw mode m passes start_index end_index =
      if m.ready
      then some (m, form_sequence draw mode m.sequence_info start_index end_index)
      else elim (await_ready (request_update m) passes) [
        | none ↦ none
        | some updated ↦
            some (updated, form_sequence draw mode updated.sequence_info start_index end_index)
      ]
