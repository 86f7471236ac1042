-- ===== src/Bench/Result.antt =====
-- The exceptions of the benchmark's code as values.
use driftless.Prelude.{◌≡◌, refl, ◌⊎◌, inl, inr}

-- `out_of_fuel` is the model's own: it stands for a loop that did not end, and theorems exclude it.
pub data Error : Type 0 where
  key_error value_error client_error index_error runtime_error timeout_error out_of_fuel : Error

pub data Result {ℓ} (A : Type ℓ) : Type ℓ where
  ok : A → Result A
  raise : Error → Result A

infixl 5 ◌>>=◌
abbrev pub ◌>>=◌ {ℓ κ} : {A : Type ℓ} {B : Type κ} → Result A → (A → Result B) → Result B
◌>>=◌ (ok a) f = f a
◌>>=◌ (raise e) f = raise e

-- To split on a computed outcome and keep the equation.
pub Result-cases {ℓ} :
    {A : Type ℓ} (r : Result A) → ((a : A) × (r ≡ ok a)) ⊎ ((e : Error) × (r ≡ raise e))
Result-cases (ok a) = inl (a, refl)
Result-cases (raise e) = inr (e, refl)

pub ok-injective {ℓ} : {A : Type ℓ} {a b : A} → ok a ≡ ok b → a ≡ b
ok-injective h = cc

pub raise-ne-ok {ℓ} : {A : Type ℓ} {e : Error} {a : A} → raise e ≡ ok a → ⊥
raise-ne-ok h = cc
