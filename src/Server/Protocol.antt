-- ===== src/Server/Protocol.antt =====
-- What other peers see of a server, and what it leaves behind.
use petals_ai_refactor.Prelude.{
  if◌then◌else◌, ℕ, zero, suc, ◌≡◌, refl, sym, ap, ◌∙◌, ◌⊎◌, inl, inr, Bool, true, false, ◌&&◌,
  Option, none, some, List, [], ◌∷◌, ◌++◌, arith,
}
use petals_ai_refactor.Data.{ServerState, offline, joining, online}
use petals_ai_refactor.Server.{
  Announcement, Node, declare, announce, Leave, stopped, restart, raised, running, Round,
  load_blocks, end_create, create, shutdown, choose_blocks, check_loop, with_blocks, with_container,
  end_round, run,
}

-- What the announcements so far say: nothing, or that some blocks are being loaded or served.
pub data Phase : Type 0 where
  away : Phase
  loading serving_blocks : List ℕ → Phase

-- The announcements that may follow. Those of a server name the same blocks until it takes them
-- back.
pub data Next : Phase → Announcement → Phase → Type 0 where
  join : (b : List ℕ) → Next away (record { state = joining; blocks = b }) (loading b)
  rejoin : (b : List ℕ) → Next (loading b) (record { state = joining; blocks = b }) (loading b)
  go_online :
      (b : List ℕ) → Next (loading b) (record { state = online; blocks = b }) (serving_blocks b)
  stay_online :
      (b : List ℕ)
      → Next (serving_blocks b) (record { state = online; blocks = b }) (serving_blocks b)
  give_up : (b : List ℕ) → Next (loading b) (record { state = offline; blocks = b }) away
  leave : (b : List ℕ) → Next (serving_blocks b) (record { state = offline; blocks = b }) away

-- The announcements, the last one first, that lead from nothing to a phase.
pub data Announces : List Announcement → Phase → Type 0 where
  start : Announces [] away
  more :
      {log : List Announcement} {p q : Phase} {a : Announcement}
      → Announces log p
      → Next p a q
      → Announces (a ∷ log) q

-- Nothing is announced any more, every backend was shut down, and nothing is running.
pub record IsClosed (node : Node) : Type 0 where
  pub announced : Announces node.announcements away
  pub shut : node.opened ≡ node.closed
  pub idle : node.serving ≡ false

-- The backends of the blocks are the only ones that are up.
record IsUp (blocks : List ℕ) (phase : Phase) (node : Node) : Type 0 where
  announced : Announces node.announcements phase
  up : node.opened ≡ node.closed ++ blocks

-- Blocks are left announced as joining; no backend is up, or those of these blocks are.
pub record IsAbandoned (node : Node) : Type 0 where
  pub blocks : List ℕ
  pub announced : Announces node.announcements (loading blocks)
  pub up : (node.opened ≡ node.closed) ⊎ (node.opened ≡ node.closed ++ blocks)
  pub idle : node.serving ≡ false

-- In a round an exception comes where `create` does not catch it.
abbrev pub HasUncaught : List Round → Type 0
HasUncaught [] = ⊥
HasUncaught (r ∷ rounds) = ((r.prepares && r.starts) ≡ false) ⊎ HasUncaught rounds

abbrev pub EndsWell : List Round → Leave × Node → Type 0
EndsWell rounds (running, node) = (phase : Phase) × Announces node.announcements phase
EndsWell rounds (restart, node) = ⊥
EndsWell rounds (stopped, node) = IsClosed node
EndsWell rounds (raised, node) = IsClosed node ⊎ IsAbandoned node × HasUncaught rounds

EndsWell-cons :
    (r : Round) (rounds : List Round) (x : Leave × Node)
    → EndsWell rounds x
    → EndsWell (r ∷ rounds) x
EndsWell-cons r rounds (running, node) h = h
EndsWell-cons r rounds (restart, node) h = h
EndsWell-cons r rounds (stopped, node) h = h
EndsWell-cons r rounds (raised, node) (inl closed) = inl closed
EndsWell-cons r rounds (raised, node) (inr (left, later)) = inr (left, inr later)

announce_again :
    (s : ServerState) (phase : Phase) (blocks : List ℕ) (waits : ℕ) (node : Node)
    → Next phase (record { state = s; blocks = blocks }) phase
    → Announces node.announcements phase
    → Announces (announce s blocks waits node).announcements phase
unfolding announce
announce_again s phase blocks zero node n h = more h n
announce_again s phase blocks (suc waits) node n h =
    announce_again s phase blocks waits (declare s blocks node) n (more h n)

announce-Announces :
    (s : ServerState) (before after : Phase) (blocks : List ℕ) (waits : ℕ) (node : Node)
    → Next before (record { state = s; blocks = blocks }) after
    → Next after (record { state = s; blocks = blocks }) after
    → Announces node.announcements before
    → Announces (announce s blocks waits node).announcements after
unfolding announce
announce-Announces s before after blocks zero node first again h = more h first
announce-Announces s before after blocks (suc waits) node first again h =
    announce_again s after blocks waits (declare s blocks node) again (more h first)

-- an announcement changes nothing else
announce_rest :
    (s : ServerState) (blocks : List ℕ) (waits : ℕ) (node : Node)
    → ((announce s blocks waits node).opened ≡ node.opened)
      × ((announce s blocks waits node).closed ≡ node.closed)
      × ((announce s blocks waits node).serving ≡ node.serving)
unfolding announce
announce_rest s blocks zero node = (refl, refl, refl)
announce_rest s blocks (suc waits) node = announce_rest s blocks waits (declare s blocks node)

load_blocks-all :
    (loads : ℕ → Bool) (blocks : List ℕ)
    → (load_blocks loads blocks).1 ≡ true
    → (load_blocks loads blocks).0 ≡ blocks
unfolding load_blocks
load_blocks-all loads [] h = refl
load_blocks-all loads (b ∷ blocks) h = ground (arith, load_blocks-all loads blocks)

abbrev IsCreated : Round → List ℕ → Bool × Node → Type 0
IsCreated r blocks (false, left) =
    IsClosed left ⊎ IsAbandoned left × ((r.prepares && r.starts) ≡ false)
IsCreated r blocks (true, made) = IsUp blocks (loading blocks) made

end_create-IsCreated :
    (r : Round) (all starts : Bool) (blocks loaded : List ℕ) (node : Node)
    → (all ≡ true → loaded ≡ blocks)
    → IsUp loaded (loading blocks) node
    → node.serving ≡ false
    → (starts ≡ false → (r.prepares && r.starts) ≡ false)
    → IsCreated r blocks (end_create all starts blocks loaded node)
unfolding end_create
end_create-IsCreated r false starts blocks loaded node whole up idle uncaught =
    inl (record { announced = more up.announced (give_up blocks); shut = up.up; idle = idle })
end_create-IsCreated r true false blocks loaded node whole up idle uncaught = inr (
  record {
    blocks = blocks;
    announced = up.announced;
    up = inr (up.up ∙ ap (λ l. node.closed ++ l) (whole refl));
    idle = idle;
  },
  uncaught refl,
)
end_create-IsCreated r true true blocks loaded node whole up idle uncaught = record {
  announced = up.announced;
  up = up.up ∙ ap (λ l. node.closed ++ l) (whole refl);
}

and_left : (a b : Bool) → (a && b) ≡ true → a ≡ true
and_left a b h = ground arith

and_false : (a b : Bool) → b ≡ false → (a && b) ≡ false
and_false a b h = ground arith

create-IsCreated :
    (r : Round) (blocks : List ℕ) (node : Node)
    → IsClosed node
    → IsCreated r blocks (create r blocks node)
unfolding create
create-IsCreated r blocks node closed =
    let joined = announce joining blocks r.joining_waits node in
    let (opened_same, closed_same, serving_same) =
      announce_rest joining blocks r.joining_waits node in
    let loaded = (load_blocks r.loads blocks).0 in
    let announced =
      announce-Announces joining away (loading blocks) blocks r.joining_waits node (join blocks)
        (rejoin blocks) closed.announced in
    prepared r.prepares
      (end_create ((load_blocks r.loads blocks).1 && r.reachable) r.starts blocks loaded
        (record joined { opened = joined.opened ++ loaded }))
      joined refl
      (end_create-IsCreated r ((load_blocks r.loads blocks).1 && r.reachable) r.starts blocks loaded
        (record joined { opened = joined.opened ++ loaded })
        (λ all. load_blocks-all r.loads blocks (and_left _ r.reachable all))
        (record {
          announced = announced;
          up = ap (λ l. l ++ loaded) (opened_same ∙ closed.shut ∙ sym closed_same);
        })
        (serving_same ∙ closed.idle) (and_false r.prepares r.starts))
      (record {
        blocks = blocks;
        announced = announced;
        up = inl (opened_same ∙ closed.shut ∙ sym closed_same);
        idle = serving_same ∙ closed.idle;
      })
  where
    prepared :
        (b : Bool) (made : Bool × Node) (joined : Node)
        → r.prepares ≡ b
        → IsCreated r blocks made
        → IsAbandoned joined
        → IsCreated r blocks (if b then made else (false, joined))
    prepared true made joined e created left = created
    prepared false made joined e created left = inr (left, ground arith)

shutdown-IsClosed :
    (blocks : List ℕ) (node : Node)
    → IsUp blocks (serving_blocks blocks) node
    → IsClosed (shutdown blocks node)
unfolding shutdown
shutdown-IsClosed blocks node up = record {
  announced = more up.announced (leave blocks);
  shut = up.up;
  idle = refl;
}

announce-IsUp :
    (blocks : List ℕ) (waits : ℕ) (node : Node)
    → IsUp blocks (loading blocks) node
    → IsUp blocks (serving_blocks blocks) (announce online blocks waits node)
announce-IsUp blocks waits node up =
    let (opened_same, closed_same, serving_same) = announce_rest online blocks waits node in
    record {
      announced =
          announce-Announces online (loading blocks) (serving_blocks blocks) blocks waits node
            (go_online blocks) (stay_online blocks) up.announced;
      up = opened_same ∙ up.up ∙ ap (λ l. l ++ blocks) (sym closed_same);
    }

module _ (r : Round) (rounds : List Round) where
  end_round-EndsWell :
      (blocks : List ℕ) (l : Leave) (node : Node) (next : Node → Leave × Node)
      → IsUp blocks (serving_blocks blocks) node
      → ((left : Node) → IsClosed left → EndsWell rounds (next left))
      → EndsWell (r ∷ rounds) (end_round blocks l node next)
  end_round-EndsWell blocks running node next up later = (serving_blocks blocks, up.announced)
  end_round-EndsWell blocks restart node next up later =
      EndsWell-cons r rounds (next (shutdown blocks node))
        (later (shutdown blocks node) (shutdown-IsClosed blocks node up))
  end_round-EndsWell blocks stopped node next up later = shutdown-IsClosed blocks node up
  end_round-EndsWell blocks raised node next up later = inl (shutdown-IsClosed blocks node up)

  with_container-EndsWell :
      (blocks : List ℕ) (x : Bool × Node) (next : Node → Leave × Node)
      → IsCreated r blocks x
      → ((made : Node) → IsUp blocks (loading blocks) made → EndsWell (r ∷ rounds) (next made))
      → EndsWell (r ∷ rounds) (with_container x next)
  with_container-EndsWell blocks (false, left) next (inl closed) later = inl closed
  with_container-EndsWell blocks (false, left) next (inr (abandoned, uncaught)) later =
      inr (abandoned, inl uncaught)
  with_container-EndsWell blocks (true, made) next c later = later made c

  with_blocks-EndsWell :
      (x : Option (List ℕ)) (node : Node) (next : List ℕ → Leave × Node)
      → IsClosed node
      → ((blocks : List ℕ) → EndsWell (r ∷ rounds) (next blocks))
      → EndsWell (r ∷ rounds) (with_blocks x node next)
  with_blocks-EndsWell none node next closed later = inl closed
  with_blocks-EndsWell (some blocks) node next closed later = later blocks

-- From a node that has nothing announced, up or running, whatever blocks a server chooses, whichever
-- of them can be loaded, and however its tests turn out: it announces blocks as joining before it
-- announces them as online, and the same ones until it announces that they are offline. When it
-- stops, all that it announced is announced as offline, it has shut down each backend that it made,
-- in order, and its handlers do not run. When it raises, this holds too, unless in one of the
-- rounds `create` raises outside its `try`, before the blocks are loaded or after all are: only then
-- it may leave its blocks announced as joining, with no backend or with theirs up.
pub run-EndsWell :
    (strict : Option (List ℕ)) (num_blocks : ℕ) (rounds : List Round) (node : Node)
    → IsClosed node
    → EndsWell rounds (run strict num_blocks rounds node)
unfolding run
run-EndsWell strict num_blocks [] node closed = (away, closed.announced)
run-EndsWell strict num_blocks (r ∷ rounds) node closed =
    with_blocks-EndsWell r rounds (choose_blocks strict num_blocks r.module_infos) node _ closed
      λ blocks.
        with_container-EndsWell r rounds blocks (create r blocks node) _
          (create-IsCreated r blocks node closed)
          λ made up.
            end_round-EndsWell r rounds blocks (check_loop strict r.checks)
              (announce online blocks r.online_waits made) (run strict num_blocks rounds)
              (announce-IsUp blocks r.online_waits made up) (run-EndsWell strict num_blocks rounds)
