-- ===== src/Routing/Spans.antt =====
-- `RemoteSequenceInfo.compute_spans` of client/routing/sequence_info.py: the maximal runs of blocks
-- that a peer serves online. A Python dict is the list of its items, in order of insertion.
use petals_ai_refactor.Prelude.{
  ℕ, zero, suc, ◌+◌, ◌-◌, Bool, true, false, not, ◌||◌, Option, none, some, List, [], ◌∷◌, ◌++◌,
  ◌==◌, ltb, length, replicate, range_from, if◌then◌else◌,
}
use petals_ai_refactor.Data.{PeerId, ServerInfo, RemoteModuleInfo, RemoteSpanInfo, is_online}

abbrev pub ActiveSpans : Type 0
ActiveSpans = List (PeerId × RemoteSpanInfo)

-- the branch on `peer_id not in active_spans`
unfoldable pub extend_span : ℕ → PeerId → ActiveSpans → ActiveSpans
extend_span i p [] = (p, record { start = i; end = i + 1; peer_id = p }) ∷ []
extend_span i p ((q, s) ∷ active) =
    if q == p then (q, record s { end = i + 1 }) ∷ active else (q, s) ∷ extend_span i p active

module _ {F : Type 0} where
  abbrev pub lookup : PeerId → List (PeerId × ServerInfo F) → Option (ServerInfo F)
  lookup p [] = none
  lookup p ((q, server) ∷ servers) = if q == p then some server else lookup p servers

  -- the loop over `info.servers.items()`
  unfoldable pub open_spans : ℕ → List (PeerId × ServerInfo F) → ActiveSpans → ActiveSpans
  unfolding extend_span
  open_spans i [] active = active
  open_spans i ((p, server) ∷ servers) active =
      open_spans i servers (if is_online server.state then extend_span i p active else active)

  -- the first three tests of the condition that closes a span, negated
  abbrev pub online_in : Option (RemoteModuleInfo F) → PeerId → Bool
  online_in none p = false
  online_in (some info) p = elim (lookup p info.servers) [
    | none ↦ false
    | some server ↦ is_online server.state
  ]

  -- the loop over `list(active_spans.keys())`: the spans that stay, and those that close
  unfoldable pub close_spans :
      Option (RemoteModuleInfo F) → Bool → ActiveSpans → ActiveSpans × List RemoteSpanInfo
  close_spans info last [] = ([], [])
  close_spans info last ((p, s) ∷ active) =
      let (kept, closed) = close_spans info last active in
      if not (online_in info p) || last then (kept, s ∷ closed) else ((p, s) ∷ kept, closed)

  abbrev pub open_block : ℕ → Option (RemoteModuleInfo F) → ActiveSpans → ActiveSpans
  open_block i none active = active
  open_block i (some info) active = open_spans i info.servers active

  -- the loop over the blocks; the first argument is `len(block_infos)`
  unfoldable pub scan_blocks :
      ℕ
      → ℕ
      → List (Option (RemoteModuleInfo F))
      → ActiveSpans
      → List RemoteSpanInfo
      → ActiveSpans × List RemoteSpanInfo
  unfolding open_spans close_spans
  scan_blocks n i [] active closed = (active, closed)
  scan_blocks n i (info ∷ infos) active closed =
      let (kept, now_closed) = close_spans info (i == n - 1) (open_block i info active) in
      scan_blocks n (i + 1) infos kept (closed ++ now_closed)

abbrev pub span_length : RemoteSpanInfo → ℕ
span_length s = s.end - s.start

-- `closed_spans.sort(key=…, reverse=True)`, which keeps equal items in their order
unfoldable pub insert_span : RemoteSpanInfo → List RemoteSpanInfo → List RemoteSpanInfo
insert_span s [] = s ∷ []
insert_span s (t ∷ spans) =
    if ltb (span_length s) (span_length t) then t ∷ insert_span s spans else s ∷ t ∷ spans

unfoldable pub sort_spans : List RemoteSpanInfo → List RemoteSpanInfo
unfolding insert_span
sort_spans [] = []
sort_spans (s ∷ spans) = insert_span s (sort_spans spans)

-- `lists[i].append(span)`
unfoldable pub append_at :
    ℕ → RemoteSpanInfo → List (List RemoteSpanInfo) → List (List RemoteSpanInfo)
append_at i s [] = []
append_at zero s (spans ∷ lists) = (spans ++ s ∷ []) ∷ lists
append_at (suc i) s (spans ∷ lists) = spans ∷ append_at i s lists

unfoldable pub append_all :
    List ℕ → RemoteSpanInfo → List (List RemoteSpanInfo) → List (List RemoteSpanInfo)
unfolding append_at
append_all [] s lists = lists
append_all (i ∷ is) s lists = append_all is s (append_at i s lists)

unfoldable pub index_spans :
    List RemoteSpanInfo → List (List RemoteSpanInfo) → List (List RemoteSpanInfo)
unfolding append_all
index_spans [] lists = lists
index_spans (s ∷ spans) lists =
    index_spans spans (append_all (range_from s.start (span_length s)) s lists)

pub record Spans : Type 0 where
  pub by_priority : List RemoteSpanInfo
  pub containing_block : List (List RemoteSpanInfo)

abbrev is_empty {ℓ} : {A : Type ℓ} → List A → Bool
is_empty [] = true
is_empty (x ∷ xs) = false

module _ {F : Type 0} where
  -- `none` is the AssertionError of a span that is still active after the last block
  unfoldable pub compute_spans : List (Option (RemoteModuleInfo F)) → Option Spans
  unfolding scan_blocks sort_spans index_spans
  compute_spans infos =
      let (active, closed) = scan_blocks (length infos) 0 infos [] [] in
      let sorted = sort_spans closed in
      if is_empty active
      then some (record {
        by_priority = sorted;
        containing_block = index_spans sorted (replicate (length infos) []);
      })
      else none
