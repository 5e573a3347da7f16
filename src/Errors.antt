-- ===== src/Errors.antt =====
-- api/errors.go, and what a Go call comes back with: a value, an error, or a panic.
use eebus_go.Prelude.{String, ◌≡◌, ◌⊎◌, refl, inl, inr}

-- `message` is an error made by `errors.New` or `fmt.Errorf` in place.
pub data Error : Type 0 where
  metadata_not_available data_not_available data_invalid not_supported missing_data : Error
  no_compatible_entity function_not_supported device_disconnected : Error
  message : String → Error

pub data Result {ℓ} (A : Type ℓ) : Type ℓ where
  ok : A → Result A
  err : Error → Result A
  panic : Result A

infixl 5 ◌>>=◌
abbrev pub ◌>>=◌ {ℓ κ} : {A : Type ℓ} {B : Type κ} → Result A → (A → Result B) → Result B
ok a >>= f = f a
err e >>= f = err e
panic >>= f = panic

pub Result-cases {ℓ} :
    {A : Type ℓ} (r : Result A)
    → ((a : A) × (r ≡ ok a)) ⊎ (((e : Error) × (r ≡ err e)) ⊎ (r ≡ panic))
Result-cases (ok a) = inl (a, refl)
Result-cases (err e) = inr (inl (e, refl))
Result-cases panic = inr (inr refl)
