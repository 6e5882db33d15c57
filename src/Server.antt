-- ===== src/Server.antt =====
-- server/server.py (src/petals): the life of a server, which loads blocks, announces them in the
-- DHT, serves them until it is stopped or should choose other ones, and takes them back. The threads
-- that announce run beside the loading and the serving; no other announcement is made until they
-- are joined, so their announcements stand in one list in the order in which they are made. A
-- container whose own thread fails before it is ready, so that `create` waits for ever, is left out.
pub mod Protocol
use petals_ai_refactor.Prelude.{
  if◌then◌else◌, ℕ, zero, suc, Bool, true, false, not, ◌&&◌, Option, none, some, List, [], ◌∷◌,
  ◌++◌,
}
use petals_ai_refactor.Data.{ServerState, offline, joining, online, RemoteModuleInfo}
use petals_ai_refactor.Selection.{choose_best_blocks}

-- A call of `declare_active_modules`: the state, and the blocks whose uids are announced.
pub record Announcement : Type 0 where
  pub state : ServerState
  pub blocks : List ℕ

-- The announcements, the last one first; the backends that were made and those that were shut down,
-- in order; whether the connection handlers and the runtime are running.
pub record Node : Type 0 where
  pub announcements : List Announcement
  pub opened : List ℕ
  pub closed : List ℕ
  pub serving : Bool

abbrev pub declare : ServerState → List ℕ → Node → Node
declare s blocks node = record node {
  announcements = record { state = s; blocks = blocks } ∷ node.announcements;
}

-- `ModuleAnnouncerThread.run`: an announcement, and one more after each wait that ends without
-- `stop`
unfoldable pub announce : ServerState → List ℕ → ℕ → Node → Node
announce s blocks zero node = declare s blocks node
announce s blocks (suc waits) node = announce s blocks waits (declare s blocks node)

-- One test of the inner loop of `Server.run`: whether `stop` is set, `is_healthy`, and what
-- `should_choose_other_blocks` returns, or none for an exception.
pub record Check : Type 0 where
  pub stop : Bool
  pub healthy : Bool
  pub other_blocks : Option Bool

-- How the inner loop ends, or that it has not ended yet.
pub data Leave : Type 0 where
  stopped restart raised running : Leave

-- What the environment does while one container lives: the records in the DHT, the waits of the two
-- announcers, whether the assertion on the devices and the constructor of the cache pass, whether
-- each block can be loaded, whether the server can be reached (or whether this is not validated),
-- whether the pools are merged and the container is constructed without an exception, and the
-- tests of the loop.
pub record Round : Type 0 where
  pub module_infos : List (Option (RemoteModuleInfo ℕ))
  pub joining_waits : ℕ
  pub prepares : Bool
  pub loads : ℕ → Bool
  pub reachable : Bool
  pub starts : Bool
  pub online_waits : ℕ
  pub checks : List Check

-- the loop over the blocks in `ModuleContainer.create`: the blocks loaded, and whether all were
unfoldable pub load_blocks : (ℕ → Bool) → List ℕ → List ℕ × Bool
load_blocks loads [] = ([], true)
load_blocks loads (b ∷ blocks) =
    let (loaded, all) = load_blocks loads blocks in
    if loads b then (b ∷ loaded, all) else ([], false)

-- the `except` of `create`, after the announcer is joined, and its `else` with what follows: the
-- merge of the pools and the start of the container, whose exceptions nothing catches
unfoldable pub end_create : Bool → Bool → List ℕ → List ℕ → Node → Bool × Node
end_create false starts blocks loaded node =
    (false, declare offline blocks (record node { closed = node.closed ++ loaded }))
end_create true false blocks loaded node = (false, node)
end_create true true blocks loaded node = (true, record node { serving = true })

-- `ModuleContainer.create`, and whether it returns. Where the assertion or the cache raises, the
-- announcer is not stopped, and it may announce again what it has announced.
unfoldable pub create : Round → List ℕ → Node → Bool × Node
unfolding announce load_blocks end_create
create r blocks node =
    let joined = announce joining blocks r.joining_waits node in
    let (loaded, all) = load_blocks r.loads blocks in
    if r.prepares
    then end_create (all && r.reachable) r.starts blocks loaded
        (record joined { opened = joined.opened ++ loaded })
    else (false, joined)

-- `ModuleContainer.shutdown`
unfoldable pub shutdown : List ℕ → Node → Node
shutdown blocks node = record (declare offline blocks node) {
  serving = false;
  closed = node.closed ++ blocks;
}

-- `_choose_blocks`; `none` is the ValueError of too many blocks
unfoldable pub choose_blocks :
    Option (List ℕ) → ℕ → List (Option (RemoteModuleInfo ℕ)) → Option (List ℕ)
choose_blocks (some blocks) num_blocks infos = some blocks
choose_blocks none num_blocks infos = choose_best_blocks num_blocks infos

-- `_should_choose_other_blocks`
abbrev pub should_move : Option (List ℕ) → Option Bool → Option Bool
should_move (some blocks) other = some false
should_move none other = other

unfoldable pub check_loop : Option (List ℕ) → List Check → Leave
check_loop strict [] = running
check_loop strict (c ∷ checks) =
    let rest = check_loop strict checks in
    if c.stop
    then stopped
    else if not c.healthy
    then restart
    else elim (should_move strict c.other_blocks) [
      | none ↦ raised
      | some true ↦ restart
      | some false ↦ rest
    ]

-- the branches of the loop of `Server.run`: without blocks, without a container, and at the end of
-- the inner loop, with its `finally`
abbrev pub with_blocks : Option (List ℕ) → Node → (List ℕ → Leave × Node) → Leave × Node
with_blocks none node next = (raised, node)
with_blocks (some blocks) node next = next blocks

abbrev pub with_container : Bool × Node → (Node → Leave × Node) → Leave × Node
with_container (false, left) next = (raised, left)
with_container (true, made) next = next made

abbrev pub end_round : List ℕ → Leave → Node → (Node → Leave × Node) → Leave × Node
end_round blocks running node next = (running, node)
end_round blocks restart node next = next (shutdown blocks node)
end_round blocks stopped node next = (stopped, shutdown blocks node)
end_round blocks raised node next = (raised, shutdown blocks node)

-- `Server.run` over the containers that it makes, and how it ends
unfoldable pub run : Option (List ℕ) → ℕ → List Round → Node → Leave × Node
unfolding choose_blocks create check_loop announce shutdown
run strict num_blocks [] node = (running, node)
run strict num_blocks (r ∷ rounds) node =
    with_blocks (choose_blocks strict num_blocks r.module_infos) node λ blocks.
      with_container (create r blocks node) λ made.
        end_round blocks (check_loop strict r.checks) (announce online blocks r.online_waits made)
          (run strict num_blocks rounds)

abbrev pub empty_node : Node
empty_node = record { announcements = []; opened = []; closed = []; serving = false }
