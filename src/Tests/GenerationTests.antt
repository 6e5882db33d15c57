-- ===== src/Tests/GenerationTests.antt =====
-- A model that counts: the next token of each row is the number of positions so far. The state is
-- that number, and the end token is 5.
use petals_ai_refactor.Prelude.{
  length, Fallible, err, ok, ℕ, ◌+◌, ◌≡◌, refl, Option, none, some, List, [], ◌∷◌, map,
}
use petals_ai_refactor.Generation.{
  Column, GenerateError, Model, Arguments, Round, resolve_lengths, start_inputs, first_outputs,
  add_tokens, generate_loop, generate,
}

abbrev counting : Model ℕ
counting = record {
  pre_seq_len = 0;
  bos_token_id = some 1;
  pad_token_id = 9;
  eos_token_id = 5;
  next_tokens = λ s columns is_first ids last.
      some (s + length columns, map (λ i. s + length columns) ids, ids);
}

abbrev with_lengths : Option ℕ → Option ℕ → Arguments
with_lengths given_length given_new = record {
  inputs = some ((3 ∷ 9 ∷ []) ∷ (4 ∷ 9 ∷ []) ∷ []);
  max_length = given_length;
  max_new_tokens = given_new;
  num_beams = 1;
  num_return_sequences = none;
  last_token_id = none;
}

abbrev columns_only :
    Fallible GenerateError (List Column × Round ℕ) → Fallible GenerateError (List Column)
columns_only (ok r) = ok r.0
columns_only (err e) = err e

-- the second row is padded from the start, so that the first row follows its inputs for two rounds;
-- three columns are generated in all
padded_test :
    columns_only (generate counting (λ limit. 0) none (with_lengths none (some 3)))
    ≡ ok ((3 ∷ 0 ∷ []) ∷ (4 ∷ 1 ∷ []) ∷ (2 ∷ 2 ∷ []) ∷ [])
unfolding generate first_outputs generate_loop add_tokens resolve_lengths start_inputs
padded_test = refl

abbrev two_columns : List Column
two_columns = (3 ∷ []) ∷ (4 ∷ []) ∷ []
