-- ===== src/Selection/Best.antt =====
-- The blocks that `choose_best_blocks` returns.
use mathlib.Core.Path.{subst}
use petals_ai_refactor.Prelude.{
  leb, if◌then◌else◌, Bool-cases, le_cases, length, range_from, length-map, ℕ, zero, suc, ◌+◌, ◌-◌,
  ◌≤◌, ◌<◌, ◌≡◌, refl, ap, ◌∙◌, inl, inr, Bool, true, false, Option, none, some, List, [], ◌∷◌, map,
  arith,
}
use petals_ai_refactor.Data.{PeerId, ServerInfo, RemoteModuleInfo}
use petals_ai_refactor.Selection.{
  is_offline, Span, extend_spans, insert_server, sort_servers, add_servers, compute_spans,
  before_list, window, min_option, choose_best_start, blocks_from, choose_best_blocks,
}

-- The throughput of a block: that of its servers that are not offline.
abbrev pub total : List (PeerId × ServerInfo ℕ) → ℕ
total [] = 0
total ((p, server) ∷ servers) =
    if is_offline server.state then total servers else server.throughput + total servers

abbrev pub block_total : Option (RemoteModuleInfo ℕ) → ℕ
block_total none = 0
block_total (some info) = total info.servers

total-insert_server :
    (p : PeerId) (server : ServerInfo ℕ) (servers : List (PeerId × ServerInfo ℕ))
    → total (insert_server (p, server) servers) ≡ total ((p, server) ∷ servers)
unfolding insert_server
total-insert_server p server [] = refl
total-insert_server p server ((q, other) ∷ servers) =
    ground (arith, total-insert_server p server servers)

total-sort_servers :
    (servers : List (PeerId × ServerInfo ℕ)) → total (sort_servers servers) ≡ total servers
unfolding sort_servers
total-sort_servers [] = refl
total-sort_servers ((p, server) ∷ servers) =
    ground (arith, total-insert_server p server (sort_servers servers), total-sort_servers servers)

add_servers-total :
    (block : ℕ) (servers : List (PeerId × ServerInfo ℕ)) (spans : List (PeerId × Span)) (n : ℕ)
    → (add_servers block servers spans n).1 ≡ n + total servers
unfolding add_servers
add_servers-total block [] spans n = omega arith
add_servers-total block ((p, server) ∷ servers) spans n =
    elim (Bool-cases (is_offline server.state)) [
      | inl off ↦ rw off (add_servers-total block servers spans n)
      | inr on ↦
          let rest =
            add_servers-total block servers (extend_spans block p server.throughput spans)
              (n + server.throughput) in
          rw on (omega (arith, rest))
    ]

pub compute_spans-totals :
    (block : ℕ) (infos : List (Option (RemoteModuleInfo ℕ))) (spans : List (PeerId × Span))
    → (compute_spans block infos spans).1 ≡ map block_total infos
unfolding compute_spans
compute_spans-totals block [] spans = refl
compute_spans-totals block (none ∷ infos) spans =
    ap (λ l. 0 ∷ l) (compute_spans-totals (block + 1) infos spans)
compute_spans-totals block (some info ∷ infos) spans =
    let own = add_servers-total block (sort_servers info.servers) spans 0 in
    let sum : (add_servers block (sort_servers info.servers) spans 0).1 ≡ total info.servers =
      omega (arith, own, total-sort_servers info.servers) in
    ap
      (λ n.
        n
        ∷ (compute_spans (block + 1) infos
            (add_servers block (sort_servers info.servers) spans 0).0).1)
      sum
    ∙ ap (λ l. total info.servers ∷ l)
        (compute_spans-totals (block + 1) infos
          (add_servers block (sort_servers info.servers) spans 0).0)

before_list-asym : (a b : List ℕ) → before_list a b ≡ true → before_list b a ≡ false
before_list-asym [] [] h = cc
before_list-asym (x ∷ a) [] h = cc
before_list-asym [] (y ∷ b) h = refl
before_list-asym (x ∷ a) (y ∷ b) h = ground (arith, before_list-asym a b)

before_list-cotrans :
    (a b c : List ℕ) → before_list a b ≡ true → before_list c b ≡ false → before_list a c ≡ true
before_list-cotrans [] [] c h n = cc
before_list-cotrans (x ∷ a) [] c h n = cc
before_list-cotrans [] (y ∷ b) [] h n = cc
before_list-cotrans [] (y ∷ b) (z ∷ c) h n = refl
before_list-cotrans (x ∷ a) (y ∷ b) [] h n = cc
before_list-cotrans (x ∷ a) (y ∷ b) (z ∷ c) h n = ground (arith, before_list-cotrans a b c)

before_list_irrefl : (a : List ℕ) → before_list a a ≡ false
before_list_irrefl [] = refl
before_list_irrefl (x ∷ a) = ground (arith, before_list_irrefl a)

module _ (throughputs : List ℕ) (num_blocks : ℕ) where
  -- Among the windows that start before `stop`, none is less than that at `best`, and those before
  -- it are greater.
  pub record IsLeast (stop best : ℕ) : Type 0 where
    pub inside : best < stop
    pub least :
        (j : ℕ)
        → j < stop
        → before_list (window throughputs num_blocks j) (window throughputs num_blocks best) ≡ false
    pub first :
        (j : ℕ)
        → j < best
        → before_list (window throughputs num_blocks best) (window throughputs num_blocks j) ≡ true

  step-IsLeast :
      (i best : ℕ) (less : Bool)
      → before_list (window throughputs num_blocks i) (window throughputs num_blocks best) ≡ less
      → IsLeast i best
      → IsLeast (i + 1) (if less then i else best)
  step-IsLeast i best true less l =
      let beats : (j : ℕ)
          → j < i
          → before_list (window throughputs num_blocks i) (window throughputs num_blocks j) ≡ true =
        λ j lt.
          before_list-cotrans (window throughputs num_blocks i) (window throughputs num_blocks best)
            (window throughputs num_blocks j) less (l.least j lt) in
      record {
        inside = omega arith;
        least = λ j lt. elim (le_cases j i (omega arith)) [
          | inl below ↦
              before_list-asym (window throughputs num_blocks i) (window throughputs num_blocks j)
                (beats j below)
          | inr same ↦ rw same (before_list_irrefl (window throughputs num_blocks i))
        ];
        first = beats;
      }
  step-IsLeast i best false less l = record {
    inside = omega (arith, l.inside);
    least = λ j lt. elim (le_cases j i (omega arith)) [
      | inl below ↦ l.least j below
      | inr same ↦ rw same less
    ];
    first = l.first;
  }

  min_option-IsLeast :
      (count best i : ℕ)
      → IsLeast i best
      → IsLeast (i + count) (min_option throughputs num_blocks best i count)
  unfolding min_option
  min_option-IsLeast zero best i l =
      let e : i ≡ i + 0 = omega arith in subst (λ n. IsLeast n best) e l
  min_option-IsLeast (suc count) best i l =
      let e : i + 1 + count ≡ i + suc count = omega arith in
      let less =
        before_list (window throughputs num_blocks i) (window throughputs num_blocks best) in
      let next : ℕ = if less then i else best in
      subst (λ n. IsLeast n (min_option throughputs num_blocks next (i + 1) count)) e
        (min_option-IsLeast count next (i + 1) (step-IsLeast i best less refl l))

  only-IsLeast : IsLeast 1 0
  only-IsLeast = record {
    inside = omega arith;
    least = λ j lt.
        let e : j ≡ 0 = omega arith in rw e (before_list_irrefl (window throughputs num_blocks 0));
    first = λ j lt. absurd (omega arith);
  }

choose_best_start_lem :
    (throughputs : List ℕ) (num_blocks n : ℕ)
    → length throughputs ≡ n
    → num_blocks ≤ n
    → choose_best_start throughputs num_blocks
      ≡ some (min_option throughputs num_blocks 0 1 (n - num_blocks))
unfolding choose_best_start
choose_best_start_lem throughputs num_blocks n size le =
    let fits : leb num_blocks n ≡ true = ground (arith, le) in rw size (rw fits refl)

-- A server that asks for at most as many blocks as there are gets that many consecutive blocks. Of
-- all places for them, it is the first at which the sorted throughputs of the blocks, offline
-- servers not counted, are the least in the order of lists.
pub choose_best_blocks-IsLeast :
    (num_blocks : ℕ) (infos : List (Option (RemoteModuleInfo ℕ)))
    → num_blocks ≤ length infos
    → (start : ℕ) × (choose_best_blocks num_blocks infos ≡ some (range_from start num_blocks))
      × (start + num_blocks ≤ length infos)
      × IsLeast (map block_total infos) num_blocks (1 + (length infos - num_blocks)) start
unfolding choose_best_blocks
choose_best_blocks-IsLeast num_blocks infos le =
    let totals = compute_spans-totals 0 infos [] in
    let size : length (map block_total infos) ≡ length infos = length-map block_total infos in
    let least =
      min_option-IsLeast (map block_total infos) num_blocks (length infos - num_blocks) 0 1
        (only-IsLeast (map block_total infos) num_blocks) in
    let start = min_option (map block_total infos) num_blocks 0 1 (length infos - num_blocks) in
    let chosen : choose_best_start (map block_total infos) num_blocks ≡ some start =
      choose_best_start_lem (map block_total infos) num_blocks (length infos) size le in
    let e : choose_best_start (compute_spans 0 infos []).1 num_blocks ≡ some start =
      ap (λ t. choose_best_start t num_blocks) totals ∙ chosen in
    (start, ap (blocks_from num_blocks) e, omega (arith, least.inside, le), least)
