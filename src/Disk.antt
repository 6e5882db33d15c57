-- ===== src/Disk.antt =====
-- `free_disk_space_for` of utils/disk_cache.py (src/petals): which revisions of a model are removed
-- from the disk to make room for a block. What hugging_face_hub and the OS report are arguments.
-- Spaces are numbers of bytes; a free space below the quota, where the source's difference is
-- negative, is kept apart by its shortage, so that the space still needed is the same number.
pub mod Order
pub mod Eviction
use petals_ai_refactor.Prelude.{
  ltb, leb, ◌==◌, if◌then◌else◌, ℕ, ◌+◌, ◌-◌, max, Bool, true, false, ◌&&◌, Option, none, some,
  List, [], ◌∷◌, ◌++◌,
}

-- A revision: its hash, its size, when its files were accessed, and when it was modified.
pub record Revision : Type 0 where
  pub commit_hash : ℕ
  pub size_on_disk : ℕ
  pub blob_last_accessed : List ℕ
  pub last_modified : ℕ

pub data RepoType : Type 0 where
  model dataset space : RepoType

-- A repository of the cache; its `repo_id`, a name, is a number.
pub record Repo : Type 0 where
  pub repo_type : RepoType
  pub repo_id : ℕ
  pub repo_size_on_disk : ℕ
  pub revisions : List Revision

-- `max(accessed, default=rev.last_modified)`
abbrev pub max_of : ℕ → List ℕ → ℕ
max_of m [] = m
max_of m (t ∷ times) = max_of (max m t) times

unfoldable pub last_used : Revision → ℕ
last_used rev = elim rev.blob_last_accessed [ [] ↦ rev.last_modified | t ∷ times ↦ max_of t times ]

-- `revisions.sort(key=…)`, which keeps the order of equal keys
unfoldable pub insert_revision : Revision → List Revision → List Revision
unfolding last_used
insert_revision rev [] = rev ∷ []
insert_revision rev (other ∷ revs) =
    if ltb (last_used other) (last_used rev)
    then other ∷ insert_revision rev revs
    else rev ∷ other ∷ revs

unfoldable pub sort_revisions : List Revision → List Revision
unfolding insert_revision
sort_revisions [] = []
sort_revisions (rev ∷ revs) = insert_revision rev (sort_revisions revs)

-- What the loop leaves: the revisions to remove, and the space that this frees.
pub record Removal : Type 0 where
  pub pending_removal : List Revision
  pub freed_space : ℕ

-- the loop over the sorted revisions, which stops once enough is freed
unfoldable pub choose_removal : ℕ → ℕ → List Revision → Removal
choose_removal needed freed [] = record { pending_removal = []; freed_space = freed }
choose_removal needed freed (rev ∷ revs) =
    let freed' = freed + rev.size_on_disk in
    let rest = choose_removal needed freed' revs in
    if leb needed freed'
    then record { pending_removal = rev ∷ []; freed_space = freed' }
    else record { pending_removal = rev ∷ rest.pending_removal; freed_space = rest.freed_space }

abbrev is_model : RepoType → Bool
is_model model = true
is_model dataset = false
is_model space = false

-- the list comprehension that filters `cache_info.repos`
unfoldable pub model_repos : ℕ → List Repo → List Repo
model_repos model_name [] = []
model_repos model_name (repo ∷ repos) =
    if is_model repo.repo_type && (repo.repo_id == model_name)
    then repo ∷ model_repos model_name repos
    else model_repos model_name repos

abbrev pub occupied : List Repo → ℕ
occupied [] = 0
occupied (repo ∷ repos) = repo.repo_size_on_disk + occupied repos

abbrev pub all_revisions : List Repo → List Revision
all_revisions [] = []
all_revisions (repo ∷ repos) = repo.revisions ++ all_revisions repos

-- `size - available_space` where that is positive: the larger of the shortages on the disk, beside
-- the quota, and below the limit given. It is 0 where the block fits.
unfoldable pub extra_space_needed : ℕ → ℕ → ℕ → Option ℕ → ℕ → ℕ
extra_space_needed size free os_quota none used = size + os_quota - free
extra_space_needed size free os_quota (some max_disk_space) used =
    max (size + os_quota - free) (size + used - max_disk_space)

-- What the function does: the revisions that are deleted, and whether it raises.
pub record Freed : Type 0 where
  pub deleted : List Revision
  pub raises : Bool

-- `cache_repos` are the repositories that `scan_cache_dir` finds, `free` the space that
-- `disk_usage` reports.
unfoldable pub free_disk_space_for : ℕ → ℕ → ℕ → ℕ → Option ℕ → List Repo → Freed
unfolding model_repos extra_space_needed sort_revisions choose_removal
free_disk_space_for model_name size free os_quota max_disk_space cache_repos =
    let repos = model_repos model_name cache_repos in
    let needed = extra_space_needed size free os_quota max_disk_space (occupied repos) in
    let r = choose_removal needed 0 (sort_revisions (all_revisions repos)) in
    if needed == 0
    then record { deleted = []; raises = false }
    else record { deleted = r.pending_removal; raises = ltb r.freed_space needed }
