-- ===== src/Selection.antt =====
-- server/block_selection.py (src/petals): the blocks that a server chooses to hold. Throughputs are
-- natural numbers here: the sums and comparisons are the source's, the rounding of floats is not.
-- `should_choose_other_blocks`, which works with fractions of them, is not modelled.
pub mod Best
use petals_ai_refactor.Prelude.{
  ltb, leb, ◌==◌, if◌then◌else◌, length, take, drop, range_from, ℕ, zero, suc, ◌+◌, ◌-◌, min, max,
  Bool, true, false, ◌&&◌, ◌||◌, Option, none, some, List, [], ◌∷◌,
}
use petals_ai_refactor.Data.{PeerId, ServerState, offline, ServerInfo, RemoteModuleInfo}

-- `server.state == ServerState.OFFLINE`
abbrev pub is_offline : ServerState → Bool
is_offline offline = true
is_offline _ = false

pub record Span : Type 0 where
  pub start : ℕ
  pub end : ℕ
  pub throughput : ℕ

-- the branch on `peer_id in spans`
unfoldable pub extend_spans : ℕ → PeerId → ℕ → List (PeerId × Span) → List (PeerId × Span)
extend_spans block p throughput [] =
    (p, record { start = block; end = block + 1; throughput = throughput }) ∷ []
extend_spans block p throughput ((q, span) ∷ spans) =
    if q == p
    then (
      q,
      record span { start = min span.start block; end = max (min span.start block) (block + 1) },
    )
      ∷ spans
    else (q, span) ∷ extend_spans block p throughput spans

-- `sorted(module.servers.items())`, by the keys, which differ
unfoldable pub insert_server :
    PeerId × ServerInfo ℕ → List (PeerId × ServerInfo ℕ) → List (PeerId × ServerInfo ℕ)
insert_server x [] = x ∷ []
insert_server (p, server) ((q, other) ∷ servers) =
    if ltb q p
    then (q, other) ∷ insert_server (p, server) servers
    else (p, server) ∷ (q, other) ∷ servers

unfoldable pub sort_servers : List (PeerId × ServerInfo ℕ) → List (PeerId × ServerInfo ℕ)
unfolding insert_server
sort_servers [] = []
sort_servers (x ∷ servers) = insert_server x (sort_servers servers)

-- the loop over the servers of a block: the spans, and the throughput of the block
unfoldable pub add_servers :
    ℕ → List (PeerId × ServerInfo ℕ) → List (PeerId × Span) → ℕ → List (PeerId × Span) × ℕ
unfolding extend_spans
add_servers block [] spans total = (spans, total)
add_servers block ((p, server) ∷ servers) spans total =
    if is_offline server.state
    then add_servers block servers spans total
    else add_servers block servers (extend_spans block p server.throughput spans)
        (total + server.throughput)

unfoldable pub compute_spans :
    ℕ → List (Option (RemoteModuleInfo ℕ)) → List (PeerId × Span) → List (PeerId × Span) × List ℕ
unfolding add_servers sort_servers
compute_spans block [] spans = (spans, [])
compute_spans block (none ∷ infos) spans =
    let (all, throughputs) = compute_spans (block + 1) infos spans in (all, 0 ∷ throughputs)
compute_spans block (some info ∷ infos) spans =
    let (extended, total) = add_servers block (sort_servers info.servers) spans 0 in
    let (all, throughputs) = compute_spans (block + 1) infos extended in (all, total ∷ throughputs)

-- `sorted(numbers)`
unfoldable pub insert_number : ℕ → List ℕ → List ℕ
insert_number n [] = n ∷ []
insert_number n (m ∷ ms) = if ltb m n then m ∷ insert_number n ms else n ∷ m ∷ ms

unfoldable pub sort_numbers : List ℕ → List ℕ
unfolding insert_number
sort_numbers [] = []
sort_numbers (n ∷ ns) = insert_number n (sort_numbers ns)

-- `<` on lists
abbrev pub before_list : List ℕ → List ℕ → Bool
before_list _ [] = false
before_list [] (_ ∷ _) = true
before_list (m ∷ ms) (n ∷ ns) = ltb m n || (m == n && before_list ms ns)

-- `throughputs[i : i + num_blocks]`, sorted
abbrev pub window : List ℕ → ℕ → ℕ → List ℕ
window throughputs num_blocks i = sort_numbers (take num_blocks (drop i throughputs))

-- `min(options)` over the options from `i` on, where `best` is the least one before: an option is a
-- pair of the sorted window and its index, and an earlier index is the lesser one
unfoldable pub min_option : List ℕ → ℕ → ℕ → ℕ → ℕ → ℕ
unfolding sort_numbers
min_option throughputs num_blocks best i zero = best
min_option throughputs num_blocks best i (suc count) =
    min_option throughputs num_blocks
      (if before_list (window throughputs num_blocks i) (window throughputs num_blocks best)
        then i
        else best)
      (i + 1) count

-- `none` is the ValueError of `min` where there is no option
unfoldable pub choose_best_start : List ℕ → ℕ → Option ℕ
unfolding min_option
choose_best_start throughputs num_blocks =
    if leb num_blocks (length throughputs)
    then some (min_option throughputs num_blocks 0 1 (length throughputs - num_blocks))
    else none

abbrev pub blocks_from : ℕ → Option ℕ → Option (List ℕ)
blocks_from num_blocks none = none
blocks_from num_blocks (some start) = some (range_from start num_blocks)

unfoldable pub choose_best_blocks : ℕ → List (Option (RemoteModuleInfo ℕ)) → Option (List ℕ)
unfolding compute_spans choose_best_start
choose_best_blocks num_blocks infos =
    blocks_from num_blocks (choose_best_start (compute_spans 0 infos []).1 num_blocks)
