-- ===== src/Base/Errors.antt =====
-- `anyhow::Result`. Of an `anyhow::Error` the program reads only the message.
use Prim.Native.String.{String}
use mathlib.Core.Path.{◌≡◌, refl}
use mathlib.Core.Logic.{◌⊎◌, inl, inr}

pub record Error : Type 0 where
  pub message : String

pub data Result {ℓ} (A : Type ℓ) : Type ℓ where
  ok : A → Result A
  err : Error → Result A

abbrev pub anyhow {ℓ} : {A : Type ℓ} → String → Result A
anyhow m = err (record { message = m })

pub Result-cases {ℓ} :
    {T : Type ℓ} (res : Result T)
    → ((value : T) × (res ≡ ok value)) ⊎ ((error : Error) × (res ≡ err error))
Result-cases (ok value) = inl (value, refl)
Result-cases (err error) = inr (error, refl)
