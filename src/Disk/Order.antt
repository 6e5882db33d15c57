-- ===== src/Disk/Order.antt =====
-- The order in which `free_disk_space_for` goes through the revisions.
use mathlib.Core.List.{Perm}
use mathlib.Core.List.Perm
use petals_ai_refactor.Prelude.{
  ltb, ltb→lt, Bool-cases, All, All-weaken, ◌≤◌, inl, inr, List, [], ◌∷◌, ◌++◌, arith,
}
use petals_ai_refactor.Disk.{Revision, last_used, insert_revision, sort_revisions}

-- No revision was used after one that stands behind it.
abbrev pub IsByUse : List Revision → Type 0
IsByUse [] = Unit
IsByUse (rev ∷ revs) = All (λ later. last_used rev ≤ last_used later) revs × IsByUse revs

insert_revision-Perm :
    (rev : Revision) (revs : List Revision) → Perm (insert_revision rev revs) (rev ∷ revs)
unfolding insert_revision
insert_revision-Perm rev [] = Perm.refl (rev ∷ [])
insert_revision-Perm rev (other ∷ revs) =
    elim (Bool-cases (ltb (last_used other) (last_used rev))) [
      | inl after ↦
          rw after (
            Perm.trans (Perm.cons other (insert_revision-Perm rev revs)) (Perm.swap rev other revs))
      | inr before ↦ rw before (Perm.refl (rev ∷ other ∷ revs))
    ]

pub sort_revisions-Perm : (revs : List Revision) → Perm (sort_revisions revs) revs
unfolding sort_revisions
sort_revisions-Perm [] = Perm.refl []
sort_revisions-Perm (rev ∷ revs) =
    Perm.trans (insert_revision-Perm rev (sort_revisions revs))
      (Perm.cons rev (sort_revisions-Perm revs))

All-insert_revision :
    (P : Revision → Type 0) (rev : Revision) (revs : List Revision)
    → P rev
    → All P revs
    → All P (insert_revision rev revs)
unfolding insert_revision
All-insert_revision P rev [] p all = (p, tt)
All-insert_revision P rev (other ∷ revs) p all =
    elim (Bool-cases (ltb (last_used other) (last_used rev))) [
      | inl after ↦ rw after (all.0, All-insert_revision P rev revs p all.1)
      | inr before ↦ rw before (p, all)
    ]

insert_revision-IsByUse :
    (rev : Revision) (revs : List Revision) → IsByUse revs → IsByUse (insert_revision rev revs)
unfolding insert_revision
insert_revision-IsByUse rev [] sorted = (tt, tt)
insert_revision-IsByUse rev (other ∷ revs) sorted =
    elim (Bool-cases (ltb (last_used other) (last_used rev))) [
      | inl after ↦
          let lt = ltb→lt (last_used other) (last_used rev) after in
          rw after (
            All-insert_revision (λ later. last_used other ≤ last_used later) rev revs (omega arith)
                sorted.0,
            insert_revision-IsByUse rev revs sorted.1,
          )
      | inr before ↦
          let le : last_used rev ≤ last_used other = ground (arith, before) in
          rw before ((le, All-weaken _ _ revs (λ later l. omega (arith, l, le)) sorted.0), sorted)
    ]

pub sort_revisions-IsByUse : (revs : List Revision) → IsByUse (sort_revisions revs)
unfolding sort_revisions
sort_revisions-IsByUse [] = tt
sort_revisions-IsByUse (rev ∷ revs) =
    insert_revision-IsByUse rev (sort_revisions revs) (sort_revisions-IsByUse revs)

-- Each revision of the first list was last used before each of the second, or at the same time.
abbrev pub UsedBefore : List Revision → List Revision → Type 0
UsedBefore removed kept = All (λ rev. All (λ later. last_used rev ≤ last_used later) kept) removed

All-suffix :
    (P : Revision → Type 0) (front back : List Revision) → All P (front ++ back) → All P back
All-suffix P [] back all = all
All-suffix P (rev ∷ front) back all = All-suffix P front back all.1

pub split-UsedBefore :
    (front back : List Revision) → IsByUse (front ++ back) → UsedBefore front back
split-UsedBefore [] back sorted = tt
split-UsedBefore (rev ∷ front) back sorted =
    (All-suffix _ front back sorted.0, split-UsedBefore front back sorted.1)
