-- ===== src/Handler/Uids.antt =====
-- `_check_uids` of server/handler.py. A text is the list of its code points.
use mathlib.Core.Path.{subst}
use petals_ai_refactor.Prelude.{
  ◌==◌, if◌then◌else◌, Bool-cases, All, err, ok, ◌>>=◌, ◌>>◌, guard, ℕ, ◌≡◌, refl, ap, ◌∙◌, ◌≢◌,
  inl, inr, Bool, true, false, List, [], ◌∷◌, ◌++◌, arith,
}
use petals_ai_refactor.Data.{ModuleUid}
use petals_ai_refactor.Handler.Errors.{no_uids, not_served, Result}

-- `CHAIN_DELIMITER`
abbrev pub chain_delimiter : ℕ
chain_delimiter = 32

-- `uids.split(CHAIN_DELIMITER)`: the first part, and the others
unfoldable pub split_first : List ℕ → List ℕ × List (List ℕ)
split_first [] = ([], [])
split_first (c ∷ cs) =
    let (part, parts) = split_first cs in
    if c == chain_delimiter then ([], part ∷ parts) else (c ∷ part, parts)

unfoldable pub split : List ℕ → List ModuleUid
unfolding split_first
split text = let (part, parts) = split_first text in part ∷ parts

-- `CHAIN_DELIMITER.join(uids)`
abbrev pub join : List ModuleUid → List ℕ
join [] = []
join (uid ∷ []) = uid
join (uid ∷ v ∷ uids) = uid ++ chain_delimiter ∷ join (v ∷ uids)

-- the loop of `_check_uids` over the uids; `serves` is membership in `module_backends`
unfoldable pub all_served : (ModuleUid → Bool) → List ModuleUid → Result (Unit {0})
all_served serves [] = ok tt
all_served serves (uid ∷ uids) =
    let rest = all_served serves uids in if serves uid then rest else err (not_served uid)

abbrev pub is_nil {ℓ} : {A : Type ℓ} → List A → Bool
is_nil [] = true
is_nil (x ∷ xs) = false

unfoldable pub check_uids : (ModuleUid → Bool) → List ℕ → Result (List ModuleUid)
check_uids serves text = do
  let uids = split text
  guard (if is_nil uids then false else true) no_uids
  all_served serves uids
  ok uids

join-cons :
    (c : ℕ) (part : ModuleUid) (parts : List ModuleUid)
    → join ((c ∷ part) ∷ parts) ≡ c ∷ join (part ∷ parts)
join-cons c part [] = refl
join-cons c part (_ ∷ _) = refl

split_first-join : (text : List ℕ) → join ((split_first text).0 ∷ (split_first text).1) ≡ text
unfolding split_first
split_first-join [] = refl
split_first-join (c ∷ cs) = elim (Bool-cases (c == chain_delimiter)) [
  | inl same ↦
      let delimiter : chain_delimiter ≡ c = ground arith in
      rw same (rw (split_first-join cs) (ap (λ (d : ℕ). d ∷ cs) delimiter))
  | inr other ↦
      rw other
        (join-cons c (split_first cs).0 (split_first cs).1 ∙ ap (◌∷◌ c) (split_first-join cs))
]

-- No part of a split text has a delimiter.
abbrev pub IsPart : ModuleUid → Type 0
IsPart part = All (λ (c : ℕ). c ≢ chain_delimiter) part

split_first-IsPart : (text : List ℕ) → IsPart (split_first text).0 × All IsPart (split_first text).1
unfolding split_first
split_first-IsPart [] = (tt, tt)
split_first-IsPart (c ∷ cs) = elim (Bool-cases (c == chain_delimiter)) [
  | inl same ↦ rw same (tt, split_first-IsPart cs)
  | inr other ↦
      let ne : c ≢ chain_delimiter = ground arith in
      rw other ((ne, (split_first-IsPart cs).0), (split_first-IsPart cs).1)
]

all_served_lem :
    (serves : ModuleUid → Bool) (uids : List ModuleUid)
    → all_served serves uids ≡ ok tt
    → All (λ uid. serves uid ≡ true) uids
unfolding all_served
all_served_lem serves [] h = tt
all_served_lem serves (uid ∷ uids) h = ground (arith, all_served_lem serves uids)

-- The uids that a request names, if the server answers it: what the text gives at its delimiters,
-- at least one, and each of them served.
abbrev pub IsChain : (ModuleUid → Bool) → List ℕ → List ModuleUid → Type 0
IsChain serves text uids =
    (join uids ≡ text) × (uids ≢ []) × All IsPart uids × All (λ uid. serves uid ≡ true) uids

all_served-not_no_uids :
    (serves : ModuleUid → Bool) (uids : List ModuleUid) → all_served serves uids ≢ err no_uids
unfolding all_served
all_served-not_no_uids serves [] h = cc
all_served-not_no_uids serves (uid ∷ uids) h = ground (arith, all_served-not_no_uids serves uids)

-- the two ways in which `all_served` ends
served_cases :
    (r : Result (Unit {0})) (uids us : List ModuleUid)
    → (r >>= λ _. ok us) ≡ ok uids
    → (r ≡ ok tt) × (us ≡ uids)
served_cases (ok tt) uids us h = ground arith
served_cases (err e) uids us h = cc

-- `_check_uids` returns the parts of the text between its delimiters, all of them served, at least
-- one, and joined by the delimiter the text again. It never complains that no uid was given: an
-- empty text has one part, which is empty.
pub check_uids-IsChain :
    (serves : ModuleUid → Bool) (text : List ℕ)
    → ((uids : List ModuleUid) → check_uids serves text ≡ ok uids → IsChain serves text uids)
      × (check_uids serves text ≢ err no_uids)
unfolding check_uids split
check_uids-IsChain serves text =
    let parts = (split_first text).0 ∷ (split_first text).1 in
    (
      λ uids h.
          let (served, same) = served_cases (all_served serves parts) uids parts h in
          subst (IsChain serves text) same (
            split_first-join text,
            λ e. cc,
            split_first-IsPart text,
            all_served_lem serves parts served,
          ),
      λ h. not_no_uids (all_served serves parts) parts (all_served-not_no_uids serves parts) h,
    )
  where
    not_no_uids :
        (r : Result (Unit {0})) (us : List ModuleUid)
        → r ≢ err no_uids
        → (r >>= λ _. ok us) ≢ err no_uids
    not_no_uids (ok tt) us ne h = cc
    not_no_uids (err e) us ne h = ne (ground arith)
