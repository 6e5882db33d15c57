-- ===== src/Routing/Gate.antt =====
-- `make_sequence`, which waits for the updater thread where the manager is not ready.
use mathlib.Core.Path.{subst}
use mathlib.Core.Bool.{false≢true}
use petals_ai_refactor.Routing.Info
use petals_ai_refactor.Prelude.{
  ◌==◌, if◌then◌else◌, Bool-cases, length, length-map, err, ok, ℕ, zero, suc, ◌+◌, ◌≤◌, ◌<◌, ◌≡◌,
  refl, sym, ap, ◌∙◌, ◌⊎◌, inl, inr, Bool, true, false, Option, none, some, List, [], ◌∷◌, map,
  arith,
}
use petals_ai_refactor.Data.{PeerId, ModuleUid, RemoteModuleInfo, RemoteSpanInfo}
use petals_ai_refactor.Routing.Index.{has_peer, spans_at}
use petals_ai_refactor.Routing.Coverage.{online_at, IsTable, compute_spans-AreSpans}
use petals_ai_refactor.Routing.Info.{RemoteSequenceInfo, update_blocks, update}
use petals_ai_refactor.Routing.Manager.{
  missing_blocks, unexpected_mode, assertion_failed, index_error, out_of_fuel, Result, Mode,
  form_sequence, Manager, Blacklist, missing_from, request_update, filter_banned, update_attempt,
  Passes, await_ready, make_sequence,
}
use petals_ai_refactor.Routing.Route.{IsKnown, Outcome, form_sequence-Outcome}

-- Each block of the table has a span.
missing_from-nil :
    (k : ℕ) (lists : List (List RemoteSpanInfo)) (i : ℕ)
    → missing_from k lists ≡ []
    → i < length lists
    → (s : RemoteSpanInfo) × (spans : List RemoteSpanInfo) × (spans_at lists i ≡ s ∷ spans)
missing_from-nil k [] i full lt = elim lt [ ]
missing_from-nil k ([] ∷ lists) i full lt = cc
missing_from-nil k ((s ∷ spans) ∷ lists) zero full lt = (s, spans, refl)
missing_from-nil k ((s ∷ spans) ∷ lists) (suc i) full lt =
    missing_from-nil (k + 1) lists i full (omega (arith, lt))

missing_from-cons :
    (k : ℕ) (lists : List (List RemoteSpanInfo)) (i : ℕ) (missing : List ℕ)
    → missing_from k lists ≡ i ∷ missing
    → (j : ℕ) × (j < length lists) × (spans_at lists j ≡ [])
missing_from-cons k [] i missing e = cc
missing_from-cons k ([] ∷ lists) i missing e = (0, omega arith, refl)
missing_from-cons k ((s ∷ spans) ∷ lists) i missing e =
    let (j, lt, bare) = missing_from-cons (k + 1) lists i missing e in
    (suc j, omega (arith, lt), bare)

module _ {F : Type 0} where
  length-update_blocks :
      (uids : List ModuleUid) (olds : List (RemoteModuleInfo F))
      (news : List (Option (RemoteModuleInfo F)))
      → length (update_blocks uids olds news) ≡ length olds
  unfolding update_blocks
  length-update_blocks (uid ∷ uids) (old ∷ olds) (new ∷ news) =
      ap suc (length-update_blocks uids olds news)
  length-update_blocks [] [] news = refl
  length-update_blocks [] (old ∷ olds) news = refl
  length-update_blocks (uid ∷ uids) [] news = refl
  length-update_blocks (uid ∷ uids) (old ∷ olds) [] = refl

  -- What the records of a table say of each block.
  abbrev pub records : RemoteSequenceInfo F → List (Option (RemoteModuleInfo F))
  records info = map some info.block_infos

  -- An update that does not fail its assertion has made the table of its own records.
  abbrev IsUpdated : ℕ → Bool → Option (RemoteSequenceInfo F) → Type 0
  IsUpdated n fits none = fits ≡ false
  IsUpdated n fits (some info) =
      (length info.block_infos ≡ n) × IsTable (records info) info.spans_containing_block

  update-IsUpdated :
      (info : RemoteSequenceInfo F) (news : List (Option (RemoteModuleInfo F))) (now : ℕ)
      → IsUpdated
          (length info.block_infos)
          (length news == length info.block_uids)
          (Info.update info news now)
  unfolding Info.update
  update-IsUpdated info news now =
      let infos = update_blocks info.block_uids info.block_infos news in
      elim (Bool-cases (length news == length info.block_uids)) [
        | inl fits ↦
            let (spans, made, are) = compute_spans-AreSpans (map some infos) in
            rw fits
              (rw made (length-update_blocks info.block_uids info.block_infos news, are.table))
        | inr bad ↦ rw bad refl
      ]

  module _ {B : Type 0} (blacklist : Blacklist B) where
    -- Ready with a table of `n` blocks, made of its own records, in which each block has a span.
    abbrev IsReady : ℕ → Manager F B → Type 0
    IsReady n m =
        (m.ready ≡ true)
        × (length m.sequence_info.block_infos ≡ n)
        × IsTable (records m.sequence_info) m.sequence_info.spans_containing_block
        × (missing_from 0 m.sequence_info.spans_containing_block ≡ [])

    -- Why a pass at the manager `m` does not end the loop: the records that came are not one for
    -- each block, or at some block no peer is online by the records that the pass leaves.
    abbrev pub IsLacking : Manager F B → List (Option (RemoteModuleInfo F)) → Manager F B → Type 0
    IsLacking m news u =
        ((length news == length m.sequence_info.block_uids) ≡ false)
        ⊎ (j : ℕ) × (j < length u.sequence_info.block_infos)
          × ((p : PeerId) → online_at (records u.sequence_info) p j ≡ false)

    IsPass : ℕ → Manager F B → List (Option (RemoteModuleInfo F)) → Manager F B × Bool → Type 0
    IsPass n m news (u, ends) =
        (length u.sequence_info.block_infos ≡ n)
        × (ends ≡ true → IsReady n u)
        × (ends ≡ false → IsLacking m news u)

    update_attempt-IsPass :
        (m : Manager F B) (news : List (Option (RemoteModuleInfo F))) (now : ℕ)
        → IsPass (length m.sequence_info.block_infos) m news (update_attempt blacklist m news now)
    unfolding update_attempt IsPass
    update_attempt-IsPass m news now =
        let given = map (filter_banned blacklist m.banned_peers) news in
        updated (Info.update m.sequence_info given now) (
          subst
            (λ k.
              IsUpdated (length m.sequence_info.block_infos)
                (k == length m.sequence_info.block_uids) (Info.update m.sequence_info given now))
            (length-map (filter_banned blacklist m.banned_peers) news)
            (update-IsUpdated m.sequence_info given now))
      where
        n : ℕ
        n = length m.sequence_info.block_infos

        fits : Bool
        fits = length news == length m.sequence_info.block_uids

        listed :
            (info : RemoteSequenceInfo F) (missing : List ℕ)
            → missing_from 0 info.spans_containing_block ≡ missing
            → IsUpdated n fits (some info)
            → IsPass n m news (elim missing [
              | [] ↦ (record m { sequence_info = info; ready = true }, true)
              | _ ∷ _ ↦ (record m { sequence_info = info }, false)
            ])
        listed info [] full (size, table) =
            (size, λ _. (refl, size, table, full), λ e. absurd (false≢true (sym e)))
        listed info (i ∷ missing) full (size, table) =
            let (j, lt, bare) = missing_from-cons 0 info.spans_containing_block i missing full in
            let same = table.size ∙ length-map some info.block_infos in
            (
              size,
              λ e. absurd (false≢true e),
              λ _.
                  inr
                    (j, omega (arith, lt, same), λ p. sym (table.peers p j) ∙ ap (has_peer p) bare),
            )

        updated :
            (r : Option (RemoteSequenceInfo F))
            → IsUpdated n fits r
            → IsPass n m news (elim r [
              | none ↦ (m, false)
              | some info ↦ elim (missing_from 0 info.spans_containing_block) [
                | [] ↦ (record m { sequence_info = info; ready = true }, true)
                | _ ∷ _ ↦ (record m { sequence_info = info }, false)
              ]
            ])
        updated none u = (refl, λ e. absurd (false≢true e), λ _. inl u)
        updated (some info) u = listed info (missing_from 0 info.spans_containing_block) refl u

    -- No pass of the updater ends its loop, since each lacks something.
    pub data NeverEnds : Manager F B → Passes F → Type 0 where
      no_pass : (m : Manager F B) → NeverEnds m []
      goes_on :
          (m : Manager F B) (news : List (Option (RemoteModuleInfo F))) (now : ℕ)
          (passes : Passes F)
          → (update_attempt blacklist m news now).1 ≡ false
          → IsLacking m news (update_attempt blacklist m news now).0
          → NeverEnds (update_attempt blacklist m news now).0 passes
          → NeverEnds m ((news, now) ∷ passes)

    -- The manager behind the first pass that ends the loop.
    pub data EndsWith : Manager F B → Passes F → Manager F B → Type 0 where
      here :
          (m : Manager F B) (news : List (Option (RemoteModuleInfo F))) (now : ℕ)
          (passes : Passes F)
          → (update_attempt blacklist m news now).1 ≡ true
          → EndsWith m ((news, now) ∷ passes) (update_attempt blacklist m news now).0
      later :
          (m u : Manager F B) (news : List (Option (RemoteModuleInfo F))) (now : ℕ)
          (passes : Passes F)
          → (update_attempt blacklist m news now).1 ≡ false
          → EndsWith (update_attempt blacklist m news now).0 passes u
          → EndsWith m ((news, now) ∷ passes) u

    abbrev IsAwaited : ℕ → Manager F B → Passes F → Option (Manager F B) → Type 0
    IsAwaited n m passes none = NeverEnds m passes
    IsAwaited n m passes (some u) = IsReady n u × EndsWith m passes u

    later-IsAwaited :
        (n : ℕ) (m : Manager F B) (news : List (Option (RemoteModuleInfo F))) (now : ℕ)
        (passes : Passes F) (r : Option (Manager F B))
        → (update_attempt blacklist m news now).1 ≡ false
        → IsLacking m news (update_attempt blacklist m news now).0
        → IsAwaited n (update_attempt blacklist m news now).0 passes r
        → IsAwaited n m ((news, now) ∷ passes) r
    later-IsAwaited n m news now passes none open_still lacks h =
        goes_on m news now passes open_still lacks h
    later-IsAwaited n m news now passes (some u) open_still lacks h =
        (h.0, later m u news now passes open_still h.1)

    await_ready-IsAwaited :
        (n : ℕ) (m : Manager F B) (passes : Passes F)
        → length m.sequence_info.block_infos ≡ n
        → IsAwaited n m passes (await_ready blacklist m passes)
    unfolding await_ready IsPass
    await_ready-IsAwaited n m [] size = no_pass m
    await_ready-IsAwaited n m ((news, now) ∷ passes) size =
        let pass =
          subst (λ k. IsPass k m news (update_attempt blacklist m news now)) size
            (update_attempt-IsPass m news now) in
        let rest = await_ready-IsAwaited n (update_attempt blacklist m news now).0 passes pass.0 in
        awaited (update_attempt blacklist m news now).1 refl pass.1 pass.2 rest
      where
        updated : Manager F B
        updated = (update_attempt blacklist m news now).0

        awaited :
            (ends : Bool)
            → (update_attempt blacklist m news now).1 ≡ ends
            → ((update_attempt blacklist m news now).1 ≡ true → IsReady n updated)
            → ((update_attempt blacklist m news now).1 ≡ false → IsLacking m news updated)
            → IsAwaited n updated passes (await_ready blacklist updated passes)
            → IsAwaited n m
                ((news, now) ∷ passes)
                (if ends then some updated else await_ready blacklist updated passes)
        awaited true e ready lacks rest = (ready e, here m news now passes e)
        awaited false e ready lacks rest =
            later-IsAwaited n m news now passes (await_ready blacklist updated passes) e (lacks e)
              rest

    -- a manager that is ready after an update misses no block
    no_missing :
        (n start end : ℕ) (m : Manager F B) (r : Result (List RemoteSpanInfo))
        → end ≤ n
        → IsReady n m
        → Outcome (records m.sequence_info) start end r
        → (spans : List RemoteSpanInfo) × (r ≡ ok spans)
    no_missing n start end m (ok spans) le h o = (spans, refl)
    no_missing n start end m (err (missing_blocks i)) le (_, size, table, full)
          (_, lt, none_online) =
        let inside = table.size ∙ length-map some m.sequence_info.block_infos ∙ size in
        let (s, spans, listed_there) =
          missing_from-nil 0 m.sequence_info.spans_containing_block i full
            (omega (arith, lt, le, inside)) in
        let listed : has_peer s.peer_id (s ∷ spans) ≡ true = ground arith in
        absurd (
          false≢true (
            sym (none_online s.peer_id)
            ∙ sym (table.peers s.peer_id i)
            ∙ ap (has_peer s.peer_id) listed_there
            ∙ listed))
    no_missing n start end m (err unexpected_mode) le h o = absurd o
    no_missing n start end m (err assertion_failed) le h o = absurd o
    no_missing n start end m (err index_error) le h o = absurd o
    no_missing n start end m (err out_of_fuel) le h o = absurd o

    -- What `make_sequence` does at a manager whose table is of the records `infos`.
    abbrev pub Answer :
        List (Option (RemoteModuleInfo F))
        → Manager F B
        → Passes F
        → ℕ
        → ℕ
        → Option (Manager F B × Result (List RemoteSpanInfo))
        → Type 0
    Answer infos m passes start end none =
        (m.ready ≡ false) × NeverEnds (request_update blacklist m) passes
    Answer infos m passes start end (some (u, r)) =
        (m.ready ≡ true) × (u ≡ m) × Outcome infos start end r
        ⊎ (m.ready ≡ false)
          × (u.ready ≡ true)
          × EndsWith (request_update blacklist m) passes u
          × ((spans : List RemoteSpanInfo) × (r ≡ ok spans))
          × Outcome (records u.sequence_info) start end r

    -- `make_sequence` in a known mode, from `start` to at most the number of blocks, whatever is
    -- drawn. A manager that is ready, with a table of the blocks, is left as it is, and the result is
    -- either a route from `start` to `end` or behind it, in which each span is of a peer that is
    -- online at every block of it, or a `MissingBlocksError` with a block of the range at which no
    -- peer is online. A manager that is not ready asks for an update and waits for the updater thread:
    -- `make_sequence` does not return exactly if no pass of the updater ends its loop, and each
    -- of these passes got records that are not one for each block, or left a block at which no peer
    -- is online. Behind the first pass that ends the loop, the manager is ready, and the result is such a route by the records of
    -- that update, never an error.
    pub make_sequence-Outcome :
        (infos : List (Option (RemoteModuleInfo F))) (draw : ℕ → ℕ) (mode : Mode) (m : Manager F B)
        (passes : Passes F) (start end : ℕ)
        → IsKnown mode
        → IsTable infos m.sequence_info.spans_containing_block
        → end ≤ length infos
        → end ≤ length m.sequence_info.block_infos
        → Answer infos m passes start end
            (make_sequence blacklist draw mode m passes start (some end))
    unfolding make_sequence request_update
    make_sequence-Outcome infos draw mode m passes start end known table le inside =
        gated m.ready refl
      where
        answered :
            (r : Option (Manager F B))
            → m.ready ≡ false
            → IsAwaited (length m.sequence_info.block_infos) (request_update blacklist m) passes r
            → Answer infos m passes start end (elim r [
              | none ↦ none
              | some u ↦ some (u, form_sequence draw mode u.sequence_info start (some end))
            ])
        answered none waits h = (waits, h)
        answered (some u) waits (h, reached) =
            let size = length-map some u.sequence_info.block_infos ∙ h.1 in
            let o =
              form_sequence-Outcome (records u.sequence_info) draw mode u.sequence_info start end
                known h.2 (omega (arith, size, inside)) in
            inr (
              waits,
              h.0,
              reached,
              no_missing (length m.sequence_info.block_infos) start end u
                  (form_sequence draw mode u.sequence_info start (some end)) inside h o,
              o,
            )

        gated :
            (b : Bool)
            → m.ready ≡ b
            → Answer infos m passes start end (
                if b
                then some (m, form_sequence draw mode m.sequence_info start (some end))
                else elim (await_ready blacklist (request_update blacklist m) passes) [
                  | none ↦ none
                  | some u ↦ some (u, form_sequence draw mode u.sequence_info start (some end))
                ])
        gated true ready = inl (
          ready,
          refl,
          form_sequence-Outcome infos draw mode m.sequence_info start end known table le,
        )
        gated false waits =
            answered (await_ready blacklist (request_update blacklist m) passes) waits (
              await_ready-IsAwaited (length m.sequence_info.block_infos)
                (request_update blacklist m) passes refl)
