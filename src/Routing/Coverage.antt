-- ===== src/Routing/Coverage.antt =====
-- What `compute_spans` returns: for each block, a span of each peer that serves it online, and of
-- no other.
use petals_ai_refactor.Prelude.{
  length, get_elem?, replicate, length-replicate, All, All-weaken, ℕ, zero, suc, ◌+◌, ◌≤◌, ◌<◌, ◌≡◌,
  refl, sym, ap, ◌∙◌, Bool, false, Option, none, some, List, [], ◌∷◌, arith,
}
use petals_ai_refactor.Data.{PeerId, RemoteModuleInfo, RemoteSpanInfo}
use petals_ai_refactor.Routing.Active.{some_covers, Fits}
use petals_ai_refactor.Routing.Blocks.{serves_at, IsLast}
use petals_ai_refactor.Routing.Index.{
  has_peer, some_covers-sort, All-sort, spans_at, length-index_spans, has_peer-index_spans,
  containing, spans_at-index_spans, IsByLength, sort_spans-IsByLength, IsCovered, All-index_spans,
  covers_itself, spans_at-replicate,
}
use petals_ai_refactor.Routing.Scan.{any_online_in, serves_at-cons, scan_blocks_lem}
use petals_ai_refactor.Routing.Spans.{scan_blocks, sort_spans, index_spans, Spans, compute_spans}

module _ {F : Type 0} where
  -- Whether the peer is online in the record of block `b`.
  abbrev pub online_at : List (Option (RemoteModuleInfo F)) → PeerId → ℕ → Bool
  online_at infos p b = elim (get_elem? infos b) [ none ↦ false | some info ↦ any_online_in info p ]

  serves_at_below :
      (i : ℕ) (infos : List (Option (RemoteModuleInfo F))) (p : PeerId) (b : ℕ)
      → b < i
      → serves_at i infos p b ≡ false
  serves_at_below i [] p b lt = refl
  serves_at_below i (info ∷ infos) p b lt =
      ground (arith, serves_at-cons i info infos p b, serves_at_below (i + 1) infos p b)

  serves_at-online_at :
      (i : ℕ) (infos : List (Option (RemoteModuleInfo F))) (p : PeerId) (b : ℕ)
      → serves_at i infos p (i + b) ≡ online_at infos p b
  serves_at-online_at i [] p b = refl
  serves_at-online_at i (info ∷ infos) p zero =
      ground (arith, serves_at-cons i info infos p (i + 0), serves_at_below (i + 1) infos p (i + 0))
  serves_at-online_at i (info ∷ infos) p (suc b) =
      let shift : i + suc b ≡ i + 1 + b = omega arith in
      rw shift (
        ground
          (arith, serves_at-cons i info infos p (i + 1 + b), serves_at-online_at (i + 1) infos p b))

  serves_at_zero :
      (infos : List (Option (RemoteModuleInfo F))) (p : PeerId) (b : ℕ)
      → serves_at 0 infos p b ≡ online_at infos p b
  serves_at_zero infos p b =
      let shift : 0 + b ≡ b = omega arith in
      ap (serves_at 0 infos p) (sym shift) ∙ serves_at-online_at 0 infos p b

  IsLast-nil : (infos : List (Option (RemoteModuleInfo F))) → IsLast infos []
  IsLast-nil [] = refl
  IsLast-nil (_ ∷ _) = tt

  -- The table of the spans of each block: its peers are those online at the block, and each of its
  -- spans contains the block and is of a peer that is online at every block of it.
  pub record IsTable (infos : List (Option (RemoteModuleInfo F)))
      (lists : List (List RemoteSpanInfo)) : Type 0 where
    pub size : length lists ≡ length infos
    pub peers : (p : PeerId) (b : ℕ) → has_peer p (spans_at lists b) ≡ online_at infos p b
    pub sound :
        (b : ℕ)
        → All (λ s. IsCovered (online_at infos) s × (s.start ≤ b) × (b < s.end)) (spans_at lists b)

  -- No span is longer than one before it, each is of a peer that is online at every block of it, and
  -- a span of a peer contains a block exactly if the peer is online there. The table lists for each
  -- block the spans that contain it, in the same order.
  pub record AreSpans (infos : List (Option (RemoteModuleInfo F))) (spans : Spans) : Type 0 where
    pub ordered : IsByLength spans.by_priority
    pub covered : (p : PeerId) (b : ℕ) → some_covers p b spans.by_priority ≡ online_at infos p b
    pub whole : All (IsCovered (online_at infos)) spans.by_priority
    pub listed : (b : ℕ) → spans_at spans.containing_block b ≡ containing b spans.by_priority
    pub table : IsTable infos spans.containing_block

  -- `compute_spans` never fails its assertion. The spans that it returns are sorted by length, the
  -- longest first. Each is of a peer that is online at all blocks of the span, and a peer has a
  -- span that contains a block exactly if it is online there. The table lists for each block the
  -- spans that contain it, in that order.
  pub compute_spans-AreSpans :
      (infos : List (Option (RemoteModuleInfo F)))
      → (spans : Spans) × (compute_spans infos ≡ some spans) × AreSpans infos spans
  unfolding compute_spans
  compute_spans-AreSpans infos =
      let n = length infos in
      let scanned = scan_blocks_lem n 0 infos [] [] (omega arith) (IsLast-nil infos) tt tt in
      let closed = (scan_blocks n 0 infos [] []).1 in
      let lists = index_spans (sort_spans closed) (replicate n []) in
      let fits = All-sort (Fits n) closed scanned.1 in
      let same : (p : PeerId) (b : ℕ) → some_covers p b (sort_spans closed) ≡ online_at infos p b =
        λ p b. some_covers-sort p b closed ∙ scanned.2 p b ∙ serves_at_zero infos p b in
      let covered = λ (p : PeerId) (b : ℕ). some_covers p b (sort_spans closed) in
      let itself = covers_itself (sort_spans closed) in
      (
        record { by_priority = sort_spans closed; containing_block = lists },
        rw scanned.0,
        record {
          ordered = sort_spans-IsByLength closed;
          covered = same;
          whole =
              All-weaken (IsCovered covered) (IsCovered (online_at infos)) (sort_spans closed)
                (λ s h c ge lt. sym (same s.peer_id c) ∙ h c ge lt) itself;
          listed = λ b.
              spans_at-index_spans b n (sort_spans closed) (replicate n []) (length-replicate n [])
                fits
              ∙ rw (spans_at-replicate n b) refl;
          table = record {
            size = length-index_spans (sort_spans closed) (replicate n []) ∙ length-replicate n [];
            peers = λ p b. ground (
              arith,
              has_peer-index_spans p b n (sort_spans closed) (replicate n [])
                  (length-replicate n []) fits,
              same p b,
              spans_at-replicate n b,
            );
            sound = λ b.
                All-index_spans (IsCovered (online_at infos)) b n (sort_spans closed)
                  (replicate n []) (length-replicate n []) fits
                  (All-weaken (IsCovered covered) (IsCovered (online_at infos)) (sort_spans closed)
                    (λ s h c ge lt. sym (same s.peer_id c) ∙ h c ge lt) itself)
                  (rw (spans_at-replicate n b) tt);
          };
        },
      )
