-- ===== src/Handler/Serialize.antt =====
-- `_serialize_outputs` and `_serialize_grads` of server/handler.py: a schema gives a data type and a
-- compression for each tensor, and a request may ask for other compressions.
use petals_ai_refactor.Prelude.{
  ◌==◌, length, err, ok, ◌>>=◌, ◌>>◌, guard, or_error, ℕ, zero, suc, Bool, ◌&&◌, ◌||◌, Option, none,
  some, List, [], ◌∷◌, ◌++◌, map,
}
use petals_ai_refactor.Handler.Errors.{
  no_blocks, not_three_dims, bad_compression, bad_schema, Result, Value, absent,
}

pub record Proto (D : Type 0) : Type 0 where
  pub dtype : D
  pub compression : ℕ

-- `metadata.get("output_compression")`; an entry is none where it is not an int
pub data Compressions : Type 0 where
  no_compressions not_a_sequence : Compressions
  entries : List (Option ℕ) → Compressions

-- What a request says beside its tensors.
pub record Metadata : Type 0 where
  pub points : Value
  pub output_compression : Compressions

-- `{}`
abbrev pub no_metadata : Metadata
no_metadata = record { points = absent; output_compression = no_compressions }

-- `loads(request.metadata) if request.metadata else {}`
abbrev pub metadata_of : Option Metadata → Metadata
metadata_of none = no_metadata
metadata_of (some m) = m

-- A backend's schemas, flattened, and how tensors are written: `serialize` stands for
-- `serialize_torch_tensor` after the cast to a data type.
pub record Schemas (B X T D : Type 0) : Type 0 where
  pub outputs_schema : B → List (Proto D)
  pub args_schema : B → List (Proto D)
  pub kwargs_schema : B → List (Proto D)
  pub serialize : X → D → ℕ → T

abbrev pub all_ints : List (Option ℕ) → Result (List ℕ)
all_ints [] = ok []
all_ints (none ∷ es) = err bad_compression
all_ints (some c ∷ es) = do cs ← all_ints es; ok (c ∷ cs)

-- the compressions asked for, of which there have to be `n`, or those of the schema
unfoldable pub output_compression :
    {D : Type 0} → ℕ → List (Proto D) → Compressions → Result (List ℕ)
output_compression n schema no_compressions = ok (map (λ proto. proto.compression) schema)
output_compression n schema not_a_sequence = err bad_compression
output_compression n schema (entries es) = do
  cs ← all_ints es
  guard (length cs == n) bad_compression
  ok cs

-- `xs * n`
abbrev pub repeated : {A : Type 0} → ℕ → List A → List A
repeated zero xs = []
repeated (suc n) xs = xs ++ repeated n xs

abbrev pub first_of : {A : Type 0} → List A → Option A
first_of [] = none
first_of (x ∷ xs) = some x

abbrev pub final_of : {A : Type 0} → List A → Option A
final_of [] = none
final_of (x ∷ []) = some x
final_of (x ∷ y ∷ xs) = final_of (y ∷ xs)

module _ {B X T D : Type 0} (schemas : Schemas B X T D) where
  open schemas use {outputs_schema, args_schema, kwargs_schema, serialize}

  -- `zip`, which ends with the shortest of the three
  abbrev pub serialize_all : List X → List (Proto D) → List ℕ → List T
  serialize_all (x ∷ xs) (proto ∷ schema) (c ∷ cs) =
      serialize x proto.dtype c ∷ serialize_all xs schema cs
  serialize_all _ _ _ = []

  -- An index into no backends is an IndexError.
  unfoldable pub serialize_outputs : (X → Bool) → List B → X → Compressions → Result (List T)
  unfolding output_compression
  serialize_outputs is_three_dims bs h asked = do
    guard (is_three_dims h) not_three_dims
    b ← or_error no_blocks (final_of bs)
    cs ← output_compression 1 (outputs_schema b) asked
    ok (serialize_all (h ∷ []) (outputs_schema b) cs)

  unfoldable pub serialize_grads : List B → List X → Compressions → Result (List T)
  unfolding output_compression
  serialize_grads bs grads asked = do
    let n = length grads
    b ← or_error no_blocks (first_of bs)
    guard (length (args_schema b) == 1 && (n == 1 || n == 2)) bad_schema
    let schema = repeated n (args_schema b) ++ kwargs_schema b
    cs ← output_compression n schema asked
    ok (serialize_all grads schema cs)
