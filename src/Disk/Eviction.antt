-- ===== src/Disk/Eviction.antt =====
-- What `free_disk_space_for` deletes.
use mathlib.Core.List.{Perm}
use mathlib.Core.List.Perm
use mathlib.Core.Path.{subst}
use petals_ai_refactor.Prelude.{
  ltb, leb, ◌==◌, if◌then◌else◌, ltb→lt, leb→le, Bool-cases, ℕ, ◌+◌, ◌≤◌, ◌<◌, ◌≡◌, refl, ap, inl,
  inr, true, false, Option, none, some, List, [], ◌∷◌, ◌++◌, arith,
}
use petals_ai_refactor.Disk.{
  Revision, RepoType, model, dataset, space, Repo, sort_revisions, Removal, choose_removal,
  model_repos, occupied, all_revisions, extra_space_needed, Freed, free_disk_space_for,
}
use petals_ai_refactor.Disk.Order.{
  IsByUse, sort_revisions-Perm, sort_revisions-IsByUse, UsedBefore, split-UsedBefore,
}

abbrev pub size_of : List Revision → ℕ
size_of [] = 0
size_of (rev ∷ revs) = rev.size_on_disk + size_of revs

-- What is freed before each of the removals is not yet enough.
abbrev pub IsTight : ℕ → ℕ → List Revision → Type 0
IsTight needed freed [] = Unit
IsTight needed freed (rev ∷ revs) =
    (freed < needed) × IsTight needed (freed + rev.size_on_disk) revs

record IsChoice (needed freed : ℕ) (revs kept : List Revision) (r : Removal) : Type 0 where
  splits : revs ≡ r.pending_removal ++ kept
  counts : r.freed_space ≡ freed + size_of r.pending_removal
  tight : IsTight needed freed r.pending_removal
  short : r.freed_space < needed → kept ≡ []

choose_removal-IsChoice :
    (needed freed : ℕ) (revs : List Revision)
    → freed < needed
    → (kept : List Revision) × IsChoice needed freed revs kept (choose_removal needed freed revs)
unfolding choose_removal
choose_removal-IsChoice needed freed [] lt =
    ([], record { splits = refl; counts = omega arith; tight = tt; short = λ l. refl })
choose_removal-IsChoice needed freed (rev ∷ revs) lt =
    elim (Bool-cases (leb needed (freed + rev.size_on_disk))) [
      | inl enough ↦
          let le = leb→le needed (freed + rev.size_on_disk) enough in
          rw enough (
            revs,
            record {
              splits = refl;
              counts = omega arith;
              tight = (lt, tt);
              short = λ l. absurd (omega (arith, l, le));
            },
          )
      | inr more ↦
          let below : freed + rev.size_on_disk < needed = ground (arith, more) in
          let (kept, c) = choose_removal-IsChoice needed (freed + rev.size_on_disk) revs below in
          rw more (
            kept,
            record {
              splits = ap (λ l. rev ∷ l) c.splits;
              counts = omega (arith, c.counts);
              tight = (lt, c.tight);
              short = c.short;
            },
          )
    ]

-- The bytes that the repositories of the model take.
abbrev pub occupied_by : ℕ → List Repo → ℕ
occupied_by name [] = 0
occupied_by name (repo ∷ repos) = elim repo.repo_type [
  | model ↦
      if repo.repo_id == name
      then repo.repo_size_on_disk + occupied_by name repos
      else occupied_by name repos
  | dataset ↦ occupied_by name repos
  | space ↦ occupied_by name repos
]

-- The revisions of the model, whatever else is in the cache.
abbrev pub revisions_of : ℕ → List Repo → List Revision
revisions_of name [] = []
revisions_of name (repo ∷ repos) = elim repo.repo_type [
  | model ↦
      if repo.repo_id == name
      then repo.revisions ++ revisions_of name repos
      else revisions_of name repos
  | dataset ↦ revisions_of name repos
  | space ↦ revisions_of name repos
]

model_repos_lem :
    (name : ℕ) (repos : List Repo)
    → (occupied (model_repos name repos) ≡ occupied_by name repos)
      × (all_revisions (model_repos name repos) ≡ revisions_of name repos)
unfolding model_repos
model_repos_lem name [] = (refl, refl)
model_repos_lem name (repo ∷ repos) = kept (model_repos_lem name repos) repo.repo_type refl
  where
    kept :
        (occupied (model_repos name repos) ≡ occupied_by name repos)
          × (all_revisions (model_repos name repos) ≡ revisions_of name repos)
        → (t : RepoType) → repo.repo_type ≡ t
        → (occupied (model_repos name (repo ∷ repos)) ≡ occupied_by name (repo ∷ repos))
          × (all_revisions (model_repos name (repo ∷ repos)) ≡ revisions_of name (repo ∷ repos))
    kept rest model e = elim (Bool-cases (repo.repo_id == name)) [
      | inl same ↦ rw e (
          rw same
            (ap (λ m. repo.repo_size_on_disk + m) rest.0, ap (λ m. repo.revisions ++ m) rest.1))
      | inr other ↦ rw e (rw other rest)
    ]
    kept rest dataset e = rw e rest
    kept rest space e = rw e rest

-- Once `freed` bytes are freed, a block of `size` bytes leaves the quota free on the disk, and the
-- model stays within the limit, where one is given.
abbrev pub HasRoom : ℕ → ℕ → ℕ → Option ℕ → ℕ → ℕ → Type 0
HasRoom size free os_quota none used freed = size + os_quota ≤ free + freed
HasRoom size free os_quota (some m) used freed =
    (size + os_quota ≤ free + freed) × (size + used ≤ m + freed)

room :
    (size free os_quota : ℕ) (limit : Option ℕ) (used freed : ℕ)
    → extra_space_needed size free os_quota limit used ≤ freed
    → HasRoom size free os_quota limit used freed
unfolding extra_space_needed
room size free os_quota none used freed le = omega (arith, le)
room size free os_quota (some m) used freed le = (omega (arith, le), omega (arith, le))

no_room :
    (size free os_quota : ℕ) (limit : Option ℕ) (used freed : ℕ)
    → freed < extra_space_needed size free os_quota limit used
    → ¬ HasRoom size free os_quota limit used freed
unfolding extra_space_needed
no_room size free os_quota none used freed lt = λ h. omega (arith, lt, h)
no_room size free os_quota (some m) used freed lt = λ (h, h'). omega (arith, lt, h, h')

-- Before each of the removals there is no room yet.
abbrev pub IsFrugal : (ℕ → Type 0) → ℕ → List Revision → Type 0
IsFrugal Room freed [] = Unit
IsFrugal Room freed (rev ∷ revs) = ¬ Room freed × IsFrugal Room (freed + rev.size_on_disk) revs

IsTight-IsFrugal :
    (Room : ℕ → Type 0) (needed : ℕ)
    → ((freed : ℕ) → freed < needed → ¬ Room freed)
    → (freed : ℕ) (revs : List Revision) → IsTight needed freed revs
    → IsFrugal Room freed revs
IsTight-IsFrugal Room needed lacks freed [] tight = tt
IsTight-IsFrugal Room needed lacks freed (rev ∷ revs) tight = (
  lacks freed tight.0,
  IsTight-IsFrugal Room needed lacks (freed + rev.size_on_disk) revs tight.1,
)

-- The revisions are those that are deleted and those that are kept, the deleted ones were not used
-- after the kept ones, and the deletion stops as soon as there is room. If the function raises,
-- all revisions are deleted and there is no room; else there is.
pub record IsFreed (Room : ℕ → Type 0) (all : List Revision) (r : Freed) : Type 0 where
  pub kept : List Revision
  pub whole : Perm (r.deleted ++ kept) all
  pub oldest : UsedBefore r.deleted kept
  pub tight : IsFrugal Room 0 r.deleted
  pub failure : r.raises ≡ true → (kept ≡ []) × ¬ Room (size_of r.deleted)
  pub success : r.raises ≡ false → Room (size_of r.deleted)

module _ (Room : ℕ → Type 0) (needed : ℕ) (has : (freed : ℕ) → needed ≤ freed → Room freed)
    (lacks : (freed : ℕ) → freed < needed → ¬ Room freed) (revs : List Revision) where
  chosen-IsFreed :
      (kept : List Revision) (r : Removal)
      → IsChoice needed 0 (sort_revisions revs) kept r
      → IsFreed Room revs
          (record { deleted = r.pending_removal; raises = ltb r.freed_space needed })
  chosen-IsFreed kept r c = record {
    kept = kept;
    whole = subst (λ l. Perm l revs) c.splits (sort_revisions-Perm revs);
    oldest =
        split-UsedBefore r.pending_removal kept
          (subst IsByUse c.splits (sort_revisions-IsByUse revs));
    tight = IsTight-IsFrugal Room needed lacks 0 r.pending_removal c.tight;
    failure = λ raised.
        let lt = ltb→lt r.freed_space needed raised in
        (c.short lt, lacks (size_of r.pending_removal) (omega (arith, c.counts, lt)));
    success = λ raised.
        let le : needed ≤ r.freed_space = ground (arith, raised) in
        has (size_of r.pending_removal) (omega (arith, c.counts, le));
  }

  evicts-IsFreed : IsFreed Room revs (
      if needed == 0
      then record { deleted = []; raises = false }
      else (let r = choose_removal needed 0 (sort_revisions revs) in
          record { deleted = r.pending_removal; raises = ltb r.freed_space needed }))
  evicts-IsFreed = elim (Bool-cases (needed == 0)) [
    | inl fits ↦
        let zero_needed : needed ≡ 0 = ground (arith, fits) in
        rw fits (record {
          kept = revs;
          whole = Perm.refl revs;
          oldest = tt;
          tight = tt;
          failure = λ raised. cc;
          success = λ raised. has 0 (omega (arith, zero_needed));
        })
    | inr short ↦
        let lt : 0 < needed = ground (arith, short) in
        let (kept, c) = choose_removal-IsChoice needed 0 (sort_revisions revs) lt in
        rw short (chosen-IsFreed kept (choose_removal needed 0 (sort_revisions revs)) c)
  ]

-- There is room for a block of `size` bytes once the disk keeps the quota free beside it and, where
-- a limit is given, the repositories of the model stay within it. `free_disk_space_for` deletes
-- revisions of these repositories only, the least recently used ones first, and before each
-- deletion there is no room yet. It raises exactly if there is no room after all of them are
-- deleted.
pub free_disk_space_for-IsFreed :
    (model_name size free os_quota : ℕ) (max_disk_space : Option ℕ) (cache_repos : List Repo)
    → IsFreed
        (HasRoom size free os_quota max_disk_space (occupied_by model_name cache_repos))
        (revisions_of model_name cache_repos)
        (free_disk_space_for model_name size free os_quota max_disk_space cache_repos)
unfolding free_disk_space_for
free_disk_space_for-IsFreed model_name size free os_quota max_disk_space cache_repos =
    let (used, all) = model_repos_lem model_name cache_repos in
    let n = occupied_by model_name cache_repos in
    rw used (
      rw all (
        evicts-IsFreed (HasRoom size free os_quota max_disk_space n)
          (extra_space_needed size free os_quota max_disk_space n)
          (room size free os_quota max_disk_space n) (no_room size free os_quota max_disk_space n)
          (revisions_of model_name cache_repos)))
