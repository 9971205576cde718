-- ===== src/Common/Effects.antt =====
-- Methods that change an object and may raise. The object keeps, across an exception, what was
-- assigned before it.
use mathlib.Core.Path.{◌≡◌, refl}
use mathlib.Core.Logic.{◌⊎◌, inl, inr}

pub data Exception : Type 0 where
  value_error index_error key_error runtime_error zero_division_error attribute_error : Exception
  system_exit file_not_found http_exception : Exception

pub data Result {ℓ} (A : Type ℓ) : Type ℓ where
  return : A → Result A
  raise : Exception → Result A

-- A method of an object with state `S`.
abbrev pub Action {ℓ κ} : Type ℓ → Type κ → Type (ℓ ⊔ κ)
Action S A = S → Result A × S

module _ {ℓ κ} {S : Type ℓ} {A : Type κ} where
  abbrev pub pure : A → Action S A
  pure a s = (return a, s)

  abbrev pub throw : Exception → Action S A
  throw e s = (raise e, s)

abbrev pub update {ℓ} : {S : Type ℓ} → (S → S) → Action S (Unit {0})
update f s = (return tt, f s)

module _ {ℓ κ μ} {S : Type ℓ} {A : Type κ} {B : Type μ} where
  abbrev pub and_then : Result A → (A → Action S B) → Action S B
  and_then (return a) f = f a
  and_then (raise e) f = throw e

  infixl 5 ◌>>=◌ ◌>>◌
  abbrev pub ◌>>=◌ : Action S A → (A → Action S B) → Action S B
  m >>= f = λ s. let (r, s') = m s in and_then r f s'

  abbrev pub ◌>>◌ : Action S A → Action S B → Action S B
  m >> n = m >>= λ _. n

pub Result-cases {ℓ} :
    {A : Type ℓ} (r : Result A) → ((a : A) × (r ≡ return a)) ⊎ ((e : Exception) × (r ≡ raise e))
Result-cases (return a) = inl (a, refl)
Result-cases (raise e) = inr (e, refl)
