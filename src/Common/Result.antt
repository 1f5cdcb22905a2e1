-- ===== src/Common/Result.antt =====
-- Go's pair of a value and an error, of which exactly one is there.
use Prim.Native.String.{String}
use mathlib.Core.Path.{◌≡◌, refl}
use mathlib.Core.Logic.{◌⊎◌, inl, inr}

pub data Result {ℓ} (A : Type ℓ) : Type ℓ where
  failed : String → Result A
  ok : A → Result A

-- `if err != nil { return ..., err }`
unfoldable pub then_with {ℓ κ} : {A : Type ℓ} {B : Type κ} → Result A → (A → Result B) → Result B
then_with (failed err) f = failed err
then_with (ok a) f = f a

pub Result-cases {ℓ} :
    {A : Type ℓ} (r : Result A) → ((err : String) × (r ≡ failed err)) ⊎ ((a : A) × (r ≡ ok a))
Result-cases (failed err) = inl (err, refl)
Result-cases (ok a) = inr (a, refl)
