-- ===== src/Routing/Info.antt =====
-- `RemoteSequenceInfo` of client/routing/sequence_info.py. A block's record in it is always there;
-- what the DHT gives for a block may be missing.
use petals_ai_refactor.Prelude.{
  ℕ, ◌-◌, Bool, true, false, ◌&&◌, Option, none, some, List, [], ◌∷◌, ◌==◌, map, length, replicate,
  take, drop, if◌then◌else◌,
}
use petals_ai_refactor.Data.{ModuleUid, RemoteModuleInfo, RemoteSpanInfo}
use petals_ai_refactor.Routing.Spans.{Spans, compute_spans}

pub record RemoteSequenceInfo (F : Type 0) : Type 0 where
  pub block_uids : List ModuleUid
  pub block_infos : List (RemoteModuleInfo F)
  pub spans_by_priority : List RemoteSpanInfo
  pub spans_containing_block : List (List RemoteSpanInfo)
  -- `none` is minus infinity
  pub last_updated_time : Option ℕ

abbrev pub uid_eq : ModuleUid → ModuleUid → Bool
uid_eq [] [] = true
uid_eq (c ∷ cs) (d ∷ ds) = c == d && uid_eq cs ds
uid_eq _ _ = false

-- `xs[start:stop]`
abbrev pub slice {ℓ} : {A : Type ℓ} → ℕ → ℕ → List A → List A
slice start stop xs = take (stop - start) (drop start xs)

module _ {F : Type 0} where
  unfoldable pub make_empty : List ModuleUid → RemoteSequenceInfo F
  make_empty uids = record {
    block_uids = uids;
    block_infos = map (λ uid. record { uid = uid; servers = [] }) uids;
    spans_by_priority = [];
    spans_containing_block = replicate (length uids) [];
    last_updated_time = none;
  }

  -- the guards of the loop of `update_`: a missing entry, one without servers, and one of another
  -- block leave the record as it is
  unfoldable pub update_block :
      ModuleUid → RemoteModuleInfo F → Option (RemoteModuleInfo F) → RemoteModuleInfo F
  update_block uid old none = old
  update_block uid old (some info) = elim info.servers [
    | [] ↦ old
    | s ∷ servers ↦ if uid_eq info.uid uid then record old { servers = s ∷ servers } else old
  ]

  unfoldable pub update_blocks :
      List ModuleUid
      → List (RemoteModuleInfo F)
      → List (Option (RemoteModuleInfo F))
      → List (RemoteModuleInfo F)
  unfolding update_block
  update_blocks (uid ∷ uids) (old ∷ olds) (new ∷ news) =
      update_block uid old new ∷ update_blocks uids olds news
  update_blocks _ olds _ = olds

  abbrev pub with_spans : RemoteSequenceInfo F → Option Spans → Option (RemoteSequenceInfo F)
  with_spans info none = none
  with_spans info (some spans) = some (record info {
    spans_by_priority = spans.by_priority;
    spans_containing_block = spans.containing_block;
  })

  -- `update_` at the given time; `none` is an AssertionError
  unfoldable pub update :
      RemoteSequenceInfo F → List (Option (RemoteModuleInfo F)) → ℕ → Option (RemoteSequenceInfo F)
  unfolding update_blocks compute_spans
  update info news now =
      let infos = update_blocks info.block_uids info.block_infos news in
      if length news == length info.block_uids
      then with_spans (record info { block_infos = infos; last_updated_time = some now })
          (compute_spans (map some infos))
      else none

  -- `__getitem__` at the slice `start:stop`
  unfoldable pub get_slice : RemoteSequenceInfo F → ℕ → ℕ → Option (RemoteSequenceInfo F)
  unfolding compute_spans
  get_slice info start stop =
      let infos = slice start stop info.block_infos in
      with_spans
        (record info { block_uids = slice start stop info.block_uids; block_infos = infos })
        (compute_spans (map some infos))
