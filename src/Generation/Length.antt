-- ===== src/Generation/Length.antt =====
-- How long a generation goes on, and how far it takes its session.
use petals_ai_refactor.Prelude.{
  ltb, length, Fallible, err, ok, ℕ, ◌+◌, ◌-◌, ◌≤◌, ◌<◌, ◌≡◌, refl, ◌⊎◌, Bool, true, false, Option,
  some, List,
}
use petals_ai_refactor.Generation.{
  Column, GenerateError, Model, Round, last_column, is_nil, add_tokens, is_over,
}

module _ {S : Type 0} (model : Model S) (beams : ℕ) (one_beam : ltb 1 beams ≡ false)
    (inputs : List Column) (position : S → ℕ) (limit : ℕ) where
  open model use {pre_seq_len, eos_token_id, next_tokens}

  -- the positions that a round takes of the session
  abbrev taken : Bool → List Column → ℕ
  taken true columns = length columns + pre_seq_len
  taken false columns = length columns

  -- A session that is within its length after a round returns from it, and goes on by the new
  -- positions.
  abbrev pub RunsWithin : Type 0
  RunsWithin =
      (s : S) (columns : List Column) (is_first : Bool) (ids : List ℕ) (last : Option Column)
      → position s + taken is_first columns ≤ limit
      → (t : S) × (column : Column) × (new_ids : List ℕ) × (next_tokens s columns is_first ids last
          ≡ some (t, column, new_ids))
        × (position t ≡ position s + taken is_first columns)

  module _ (runs : RunsWithin) where
    abbrev round_of : Round S → Fallible GenerateError (Round S)
    round_of r = add_tokens model beams inputs r (
        next_tokens r.session (last_column r.first r.rest) (is_nil r.rest) r.hypo_ids
          r.last_token_id)

    abbrev Advances : Round S → Fallible GenerateError (Round S) → Type 0
    Advances r x =
        (m : Round S) × (x ≡ ok m)
        × (m.first ≡ r.first)
        × (length m.rest ≡ length r.rest + 1)
        × (position m.session
            ≡ position r.session + taken (is_nil r.rest) (last_column r.first r.rest))

    -- what a round still takes, until `n` columns are generated
    abbrev still : ℕ → Round S → ℕ
    still n r = taken (is_nil r.rest) (last_column r.first r.rest) + (n - (length r.rest + 1))

    -- At least one column is generated, and at most `n`; fewer only where the last one ends every
    -- sequence.
    abbrev pub IsGenerated : List Column → ℕ → Fallible GenerateError (Round S) → Type 0
    IsGenerated first n (err e) = ⊥
    IsGenerated first n (ok r) =
        (r.first ≡ first)
        × (0 < length r.rest)
        × (length r.rest ≤ n)
        × ((is_over model beams inputs r.last_token_id ≡ true) ⊎ (length r.rest ≡ n))
        × (position r.session ≤ limit)

    pub returned :
        (first : List Column) (n : ℕ) (x : Fallible GenerateError (Round S))
        → IsGenerated first n x
        → (r : Round S) × (x ≡ ok r) × IsGenerated first n (ok r)
    returned first n (err e) h = absurd h
    returned first n (ok r) h = (r, refl, h)
