-- ===== src/Base/Results.antt =====
-- A Go (value, error) pair whose error is one of `E`, and its do blocks.
use mathlib.Core.Path.{◌≡◌, refl}
use mathlib.Core.Bool.{Bool, true, false}
use mathlib.Core.Logic.{◌⊎◌, inl, inr}

pub data Result {ℓ κ} (E : Type κ) (A : Type ℓ) : Type (ℓ ⊔ κ) where
  ok : A → Result E A
  err : E → Result E A

module _ {μ κ} {E : Type κ} {B : Type μ} where
  infixl 5 ◌>>=◌ ◌>>◌
  abbrev pub ◌>>=◌ {ℓ} : {A : Type ℓ} → Result E A → (A → Result E B) → Result E B
  err reason >>= next = err reason
  ok value >>= next = next value

  abbrev pub ◌>>◌ : Result E (Unit {0}) → Result E B → Result E B
  step >> next = step >>= λ _. next

-- `if !test { return reason }`.
abbrev pub guard {κ} : {E : Type κ} → Bool → E → Result E (Unit {0})
guard false reason = err reason
guard true reason = ok tt

-- Inversion of a successful step.
module _ {μ κ} {E : Type κ} {B : Type μ} where
  pub >>=-eq-ok {ℓ} :
      {A : Type ℓ} (step : Result E A) (next : A → Result E B) {end : B}
      → (step >>= next) ≡ ok end
      → (value : A) × (step ≡ ok value) × (next value ≡ ok end)
  >>=-eq-ok (err reason) next done = cc
  >>=-eq-ok (ok value) next done = (value, refl, done)

  pub guard-eq-ok :
      (test : Bool) (reason : E) (next : Result E B) {end : B}
      → (guard test reason >> next) ≡ ok end
      → (test ≡ true) × (next ≡ ok end)
  guard-eq-ok false reason next done = cc
  guard-eq-ok true reason next done = (refl, done)

pub ok-injective {ℓ κ} :
    {E : Type κ} {A : Type ℓ} {a b : A} → ◌≡◌ {A = Result E A} (ok a) (ok b) → a ≡ b
ok-injective h = cc

-- A result is an error or a value.
pub Result-cases {ℓ κ} :
    {E : Type κ} {A : Type ℓ} (r : Result E A) → ((e : E) × (r ≡ err e)) ⊎ ((a : A) × (r ≡ ok a))
Result-cases (err e) = inl (e, refl)
Result-cases (ok a) = inr (a, refl)
