-- ===== src/Tests/DiskTests.antt =====
-- A disk with three revisions of a model.
use petals_ai_refactor.Prelude.{ℕ, ◌≡◌, refl, some, List, [], ◌∷◌}
use petals_ai_refactor.Disk.{
  Revision, model, dataset, Repo, last_used, insert_revision, sort_revisions, choose_removal,
  model_repos, extra_space_needed, free_disk_space_for,
}
use petals_ai_refactor.Disk.Eviction.{HasRoom, IsFreed, free_disk_space_for-IsFreed}

abbrev revision : ℕ → ℕ → List ℕ → Revision
revision hash size accessed = record {
  commit_hash = hash;
  size_on_disk = size;
  blob_last_accessed = accessed;
  last_modified = 2;
}

abbrev old : Revision
old = revision 1 5 (3 ∷ 1 ∷ [])

abbrev recent : Revision
recent = revision 2 6 (9 ∷ [])

abbrev unread : Revision
unread = revision 3 4 []

abbrev repo : Repo
repo = record {
  repo_type = model;
  repo_id = 7;
  repo_size_on_disk = 15;
  revisions = recent ∷ old ∷ unread ∷ [];
}

-- a data set of the same name, and another model
abbrev others : List Repo
others =
    record { repo_type = dataset; repo_id = 7; repo_size_on_disk = 30; revisions = old ∷ [] }
    ∷ record { repo_type = model; repo_id = 8; repo_size_on_disk = 40; revisions = old ∷ [] }
    ∷ []

-- the limit of 20 leaves 5, so that 7 more are needed
removes_oldest :
    (free_disk_space_for 7 12 100 50 (some 20) (repo ∷ others)).deleted ≡ unread ∷ old ∷ []
unfolding free_disk_space_for model_repos extra_space_needed sort_revisions insert_revision
    choose_removal last_used
removes_oldest = refl

free_disk_space_for-IsFreed_example :
    IsFreed
      (HasRoom 12 100 50 (some 20) 15)
      (recent ∷ old ∷ unread ∷ [])
      (free_disk_space_for 7 12 100 50 (some 20) (repo ∷ others))
free_disk_space_for-IsFreed_example =
    free_disk_space_for-IsFreed 7 12 100 50 (some 20) (repo ∷ others)
