-- ===== src/Prelude/Results.antt =====
-- A result that may be an error of the type `E`, and the sequencing of such results, which the
-- routing, the handler and the client share.
use mathlib.Core.Bool.{Bool, true, false}
use mathlib.Core.Option.{Option, none, some}

pub data Fallible {ℓ} (E : Type 0) (A : Type ℓ) : Type ℓ where
  err : E → Fallible E A
  ok : A → Fallible E A

infixl 5 ◌>>=◌ ◌>>◌
abbrev pub ◌>>=◌ {κ ℓ} :
    {E : Type 0} {A : Type κ} {B : Type ℓ} → Fallible E A → (A → Fallible E B) → Fallible E B
err e >>= next = err e
ok a >>= next = next a

abbrev pub ◌>>◌ {ℓ} :
    {E : Type 0} {B : Type ℓ} → Fallible E (Unit {0}) → Fallible E B → Fallible E B
check >> next = check >>= λ t. next

abbrev pub guard : {E : Type 0} → Bool → E → Fallible E (Unit {0})
guard false e = err e
guard true e = ok tt

abbrev pub or_error {ℓ} : {E : Type 0} {A : Type ℓ} → E → Option A → Fallible E A
or_error e none = err e
or_error e (some a) = ok a
