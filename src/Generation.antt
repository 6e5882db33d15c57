-- ===== src/Generation.antt =====
-- `generate` of client/remote_generation.py (src/petals). A tensor of token ids is the list of its
-- columns, one for each position, and a column has one token for each row of the batch.
pub mod Length
use petals_ai_refactor.Prelude.{
  ltb, leb, ◌==◌, if◌then◌else◌, length, get_elem?, take, drop, replicate, range_from, Fallible,
  err, ok, ◌>>=◌, ◌>>◌, guard, or_error, ℕ, zero, suc, ◌+◌, ◌-◌, ◌*◌, max, Bool, true, false, not,
  ◌&&◌, ◌||◌, Option, none, some, List, [], ◌∷◌, ◌++◌, map,
}

abbrev pub Column : Type 0
Column = List ℕ

pub data GenerateError : Type 0 where
  lengths_wrong resuming_beams no_bos too_many_sequences bad_hypothesis : GenerateError
  -- an exception of the session, of a constraint or of the decoding algorithm
  raised out_of_fuel : GenerateError

-- What the loop calls in each round, from the embeddings of the last outputs through the step of the
-- session and the constraints to the decoding algorithm: the state of all these, the columns that are
-- new, whether they are the first, the hypotheses and the last tokens give the next ones; none is an
-- exception.
pub record Model (S : Type 0) : Type 0 where
  pub pre_seq_len : ℕ
  pub bos_token_id : Option ℕ
  pub pad_token_id : ℕ
  pub eos_token_id : ℕ
  pub next_tokens : S → List Column → Bool → List ℕ → Option Column → Option (S × Column × List ℕ)

-- Whether there is a session to resume is whether it has a last token.
pub record Arguments : Type 0 where
  pub inputs : Option (List Column)
  pub max_length : Option ℕ
  pub max_new_tokens : Option ℕ
  pub num_beams : ℕ
  pub num_return_sequences : Option ℕ
  pub last_token_id : Option Column

-- The variables of the loop: `first` is `outputs[0]`, and `rest` the columns behind it.
pub record Round (S : Type 0) : Type 0 where
  pub session : S
  pub first : List Column
  pub rest : List Column
  pub last_token_id : Option Column
  pub hypo_ids : List ℕ

-- `max_length` and `max_new_tokens`, of which one has to be given
unfoldable pub resolve_lengths : ℕ → Option ℕ → Option ℕ → Fallible GenerateError (ℕ × ℕ)
resolve_lengths prefix (some max_length) none = do
  guard (ltb prefix max_length) lengths_wrong
  ok (max_length, max_length - prefix)
resolve_lengths prefix none (some max_new_tokens) = ok (prefix + max_new_tokens, max_new_tokens)
resolve_lengths prefix _ _ = err lengths_wrong

abbrev pub columns_of : Option (List Column) → List Column
columns_of none = []
columns_of (some columns) = columns

-- the inputs, after the last token of a session that is resumed
unfoldable pub start_inputs :
    ℕ → Option ℕ → Option (List Column) → Option Column → Fallible GenerateError (List Column)
start_inputs beams bos (some inputs) none = ok inputs
start_inputs beams bos (some inputs) (some last) = ok (last ∷ inputs)
start_inputs beams bos none (some last) = ok (last ∷ [])
start_inputs beams (some bos) none none = ok (replicate beams bos ∷ [])
start_inputs beams none none none = err no_bos

abbrev pub repeat_rows : ℕ → Column → Column
repeat_rows zero column = []
repeat_rows (suc n) column = column ++ repeat_rows n column

abbrev pub batch_size : List Column → ℕ
batch_size [] = 0
batch_size (column ∷ columns) = length column

-- `(inputs == pad_token_id).sum(-1)`
abbrev pub add_pads : ℕ → Column → List ℕ → List ℕ
add_pads pad [] counts = counts
add_pads pad (t ∷ column) [] = (if t == pad then 1 else 0) ∷ add_pads pad column []
add_pads pad (t ∷ column) (n ∷ counts) =
    ((if t == pad then 1 else 0) + n) ∷ add_pads pad column counts

abbrev pub pad_counts : ℕ → List Column → List ℕ
pad_counts pad [] = []
pad_counts pad (column ∷ columns) = add_pads pad column (pad_counts pad columns)

abbrev pub max_of : List ℕ → ℕ
max_of [] = 0
max_of (n ∷ ns) = max n (max_of ns)

-- the columns up to where the first row is padded; without any padding, that is all of them
unfoldable pub first_outputs : ℕ → List Column → List Column
first_outputs pad inputs = take (length inputs - max_of (pad_counts pad inputs)) inputs

-- a padded row takes the new token, and any other row that of the inputs
abbrev pub mix : ℕ → Column → Column → Column
mix pad (t ∷ given) (u ∷ tokens) = (if t == pad then u else t) ∷ mix pad given tokens
mix pad _ _ = []

abbrev pub mix_at : ℕ → Option Column → Column → Column
mix_at pad none tokens = tokens
mix_at pad (some given) tokens = mix pad given tokens

abbrev pub all_eos : ℕ → Column → Bool
all_eos eos [] = true
all_eos eos (t ∷ tokens) = (t == eos) && all_eos eos tokens

-- `column[hypo_ids]`
abbrev pub select : List ℕ → Column → Fallible GenerateError Column
select [] column = ok []
select (i ∷ ids) column = do
  t ← or_error bad_hypothesis (get_elem? column i)
  ts ← select ids column
  ok (t ∷ ts)

unfoldable pub select_all : List ℕ → List Column → Fallible GenerateError (List Column)
select_all ids [] = ok []
select_all ids (column ∷ columns) = do
  c ← select ids column
  cs ← select_all ids columns
  ok (c ∷ cs)

abbrev pub last_column : List Column → List Column → List Column
last_column first [] = first
last_column first (column ∷ []) = column ∷ []
last_column first (_ ∷ column ∷ rest) = last_column first (column ∷ rest)

abbrev pub is_nil : List Column → Bool
is_nil [] = true
is_nil (_ ∷ _) = false

-- `break`, or the next round
abbrev pub stop_or : {A : Type 0} → Bool → A → Fallible GenerateError A → Fallible GenerateError A
stop_or true r later = ok r
stop_or false r later = later

module _ {S : Type 0} (model : Model S) (beams : ℕ) (inputs : List Column) where
  open model use {pad_token_id, eos_token_id, next_tokens}

  abbrev pub reorder : List ℕ → List Column → Fallible GenerateError (List Column)
  reorder hypo_ids rest = if ltb 1 beams then select_all hypo_ids rest else ok rest

  -- the rest of a round, once the next tokens are there
  unfoldable pub add_tokens :
      Round S → Option (S × Column × List ℕ) → Fallible GenerateError (Round S)
  unfolding select_all
  add_tokens r none = err raised
  add_tokens r (some (session, tokens, hypo_ids)) = do
    let column = mix_at pad_token_id (get_elem? inputs (length r.first + length r.rest)) tokens
    rest ← reorder hypo_ids r.rest
    ok (record r {
      session = session;
      rest = rest ++ column ∷ [];
      last_token_id = some column;
      hypo_ids = hypo_ids;
    })

  -- whether the last column is the end of each sequence
  abbrev pub is_over : Option Column → Bool
  is_over none = false
  is_over (some column) = all_eos eos_token_id column

  -- `while True`, with fuel for its rounds
  unfoldable pub generate_loop : ℕ → ℕ → Round S → Fallible GenerateError (Round S)
  unfolding add_tokens
  generate_loop zero max_new_tokens r = err out_of_fuel
  generate_loop (suc fuel) max_new_tokens r = do
    next ← add_tokens r (
        next_tokens r.session (last_column r.first r.rest) (is_nil r.rest) r.hypo_ids
          r.last_token_id)
    let later = generate_loop fuel max_new_tokens next
    stop_or (is_over next.last_token_id || ltb max_new_tokens (1 + length next.rest)) next later

-- the rows of the sequences to return
abbrev pub return_rows : ℕ → ℕ → ℕ → List ℕ
return_rows sequences batch zero = []
return_rows sequences batch (suc idx) =
    return_rows sequences batch idx ++ map (λ k. idx + k * batch) (range_from 0 sequences)

abbrev pub after_resumed : Option Column → List Column → List Column
after_resumed none columns = columns
after_resumed (some last) columns = drop 1 columns

module _ {S : Type 0} (model : Model S) where
  open model use {pre_seq_len, bos_token_id, pad_token_id}

  abbrev pub is_resumed : Option Column → Bool
  is_resumed none = false
  is_resumed (some last) = true

  -- The outputs, with the last round. `open_session` makes one for a length, where the
  -- caller gives none.
  unfoldable pub generate :
      (ℕ → S) → Option S → Arguments → Fallible GenerateError (List Column × Round S)
  unfolding resolve_lengths start_inputs first_outputs generate_loop select_all
  generate open_session given a = do
    (max_length, max_new_tokens) ←
        resolve_lengths (length (columns_of a.inputs) + pre_seq_len) a.max_length a.max_new_tokens
    guard (not (ltb 1 a.num_beams && is_resumed a.last_token_id)) resuming_beams
    started ← start_inputs a.num_beams bos_token_id a.inputs a.last_token_id
    let batch = batch_size started
    let inputs = if ltb 1 a.num_beams then map (repeat_rows a.num_beams) started else started
    let sequences : ℕ = elim a.num_return_sequences [ none ↦ 1 | some n ↦ n ]
    guard (leb sequences a.num_beams) too_many_sequences
    let session : S = elim given [ none ↦ open_session max_length | some s ↦ s ]
    -- a slice keeps the rows, also where it has no columns
    let first = first_outputs pad_token_id inputs
    r ← generate_loop model a.num_beams inputs (max 1 max_new_tokens) max_new_tokens (record {
      session = session;
      first = first;
      rest = [];
      last_token_id = none;
      hypo_ids = range_from 0 (batch_size inputs);
    })
    let columns = after_resumed a.last_token_id (r.first ++ r.rest)
    chosen ←
        (if ltb 1 a.num_beams
          then select_all (return_rows sequences batch batch) columns
          else ok columns)
    ok (chosen, r)
