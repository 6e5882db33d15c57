-- ===== src/Routing/Scan.antt =====
-- The loop of `compute_spans` over the blocks.
use petals_ai_refactor.Prelude.{
  ◌==◌, if◌then◌else◌, Option-cases, length, All, All-append, All-weaken, ℕ, suc, ◌+◌, ◌-◌, ◌≡◌,
  refl, inl, inr, Bool, true, false, ◌&&◌, ◌||◌, Option, none, some, List, [], ◌∷◌, ◌++◌, arith,
}
use petals_ai_refactor.Data.{PeerId, RemoteModuleInfo, RemoteSpanInfo}
use petals_ai_refactor.Routing.Spans.{
  ActiveSpans, lookup, online_in, close_spans, open_block, scan_blocks,
}
use petals_ai_refactor.Routing.Active.{some_covers, some_active, IsActive, some_covers-append, Fits}
use petals_ai_refactor.Routing.Blocks.{
  any_online, any_online-lookup, open-IsActive, some_active-open, some_active-close, close-IsActive,
  close-last, close-Fits, serves_at, IsLast,
}

module _ {F : Type 0} where
  abbrev pub any_online_in : Option (RemoteModuleInfo F) → PeerId → Bool
  any_online_in none p = false
  any_online_in (some info) p = any_online p info.servers

  online_in-any :
      (info : Option (RemoteModuleInfo F)) (p : PeerId)
      → online_in info p ≡ true
      → any_online_in info p ≡ true
  online_in-any none p h = cc
  online_in-any (some info) p h = elim (Option-cases (lookup p info.servers)) [
    | inl missing ↦ ground arith
    | inr (server, found) ↦ any_online-lookup p info.servers server found (ground arith)
  ]

  abbrev ends_in : ℕ → Option (RemoteModuleInfo F) → PeerId → ℕ
  ends_in i info q = if any_online_in info q then i + 1 else i

  open_block-IsActive :
      (i : ℕ) (info : Option (RemoteModuleInfo F)) (a : ActiveSpans)
      → IsActive (λ _. i) a
      → IsActive (ends_in i info) (open_block i info a)
  open_block-IsActive i none a h = h
  open_block-IsActive i (some info) a h =
      open-IsActive i info.servers (λ _. i) a (λ q. omega arith) h

  some_active-open_block :
      (i : ℕ) (info : Option (RemoteModuleInfo F)) (a : ActiveSpans) (p : PeerId) (b : ℕ)
      → IsActive (λ _. i) a
      → some_active p b (open_block i info a)
        ≡ (some_active p b a || (any_online_in info p && b == i))
  some_active-open_block i none a p b h = ground arith
  some_active-open_block i (some info) a p b h =
      some_active-open i info.servers (λ _. i) a p b (λ q. (omega arith, omega arith)) h

  pub serves_at-cons :
      (i : ℕ) (info : Option (RemoteModuleInfo F)) (infos : List (Option (RemoteModuleInfo F)))
      (p : PeerId) (b : ℕ)
      → serves_at i (info ∷ infos) p b
        ≡ ((any_online_in info p && b == i) || serves_at (i + 1) infos p b)
  serves_at-cons i none infos p b = refl
  serves_at-cons i (some info) infos p b = refl

  IsLast-close :
      (n i : ℕ) (info : Option (RemoteModuleInfo F)) (infos : List (Option (RemoteModuleInfo F)))
      (a : ActiveSpans)
      → i + suc (length infos) ≡ n
      → IsLast infos (close_spans info (i == n - 1) a).0
  IsLast-close n i info [] a e =
      let last : (i == n - 1) ≡ true = ground arith in rw last (close-last info a)
  IsLast-close n i info (_ ∷ _) a e = tt

  pub scan_blocks_lem :
      (n i : ℕ) (infos : List (Option (RemoteModuleInfo F))) (a : ActiveSpans)
      (closed : List RemoteSpanInfo)
      → i + length infos ≡ n
      → IsLast infos a
      → IsActive (λ _. i) a
      → All (Fits i) closed
      → ((scan_blocks n i infos a closed).0 ≡ [])
        × All (Fits n) (scan_blocks n i infos a closed).1
        × ((p : PeerId) (b : ℕ)
            → some_covers p b (scan_blocks n i infos a closed).1
              ≡ ((some_active p b a || some_covers p b closed) || serves_at i infos p b))
  unfolding scan_blocks
  scan_blocks_lem n i [] a closed e last active fits =
      let same : i ≡ n = omega arith in (last, rw (← same) fits, λ p b. rw last (ground arith))
  scan_blocks_lem n i (info ∷ infos) a closed e last active fits =
      let opened = open_block i info a in
      let is_last = i == n - 1 in
      let open_active = open_block-IsActive i info a active in
      let kept = (close_spans info is_last opened).0 in
      let now_closed = (close_spans info is_last opened).1 in
      let later =
        scan_blocks_lem n (i + 1) infos kept (closed ++ now_closed) (omega arith)
          (IsLast-close n i info infos opened e)
          (close-IsActive info is_last (ends_in i info) (λ _. i + 1) opened
            (λ p on. rw (online_in-any info p on)) open_active)
          (All-append (Fits (i + 1)) closed now_closed
            (All-weaken (Fits i) (Fits (i + 1)) closed (λ s h. (h.0, omega arith)) fits)
            (close-Fits info is_last (ends_in i info) (i + 1) opened (λ p. ground arith)
              open_active)) in
      (
        later.0,
        later.1,
        λ p b. ground (
          arith,
          later.2 p b,
          some_covers-append p b closed now_closed,
          some_active-close info is_last opened p b,
          some_active-open_block i info a p b active,
          serves_at-cons i info infos p b,
        ),
      )
