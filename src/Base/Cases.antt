-- ===== src/Base/Cases.antt =====
-- A predicate of a program that branches, from the predicate of its branches. The equation of the
-- branch that was taken comes with it.
use mathlib.Core.Path.{◌≡◌, refl}
use mathlib.Core.Bool.{Bool, true, false}
use mathlib.Core.List.{List, [], ◌∷◌}
use mathlib.Core.Option.{Option, none, some}
use opusref.Base.Tests.{if◌then◌else◌}
use opusref.Base.Results.{Result, ok, err}

module _ {ℓ κ} {B : Type ℓ} (P : B → Type κ) where
  pub if_rule :
      (test : Bool) {x y : B}
      → (test ≡ true → P x)
      → (test ≡ false → P y)
      → P (if test then x else y)
  if_rule true f g = f refl
  if_rule false f g = g refl

  pub option_rule {μ} :
      {A : Type μ} (o : Option A) {x : B} {f : A → B}
      → (o ≡ none → P x)
      → ((a : A) → o ≡ some a → P (f a))
      → P (elim o [ none ↦ x | some a ↦ f a ])
  option_rule none g h = g refl
  option_rule (some a) g h = h a refl

  pub result_rule {μ ν} :
      {A : Type μ} {E : Type ν} (r : Result E A) {g : E → B} {f : A → B}
      → ((e : E) → r ≡ err e → P (g e))
      → ((a : A) → r ≡ ok a → P (f a))
      → P (elim r [ err e ↦ g e | ok a ↦ f a ])
  result_rule (err e) g h = g e refl
  result_rule (ok a) g h = h a refl

  pub list_rule {μ} :
      {A : Type μ} (xs : List A) {x : B} {f : A → List A → B}
      → (xs ≡ [] → P x)
      → ((a : A) (rest : List A) → xs ≡ a ∷ rest → P (f a rest))
      → P (elim xs [ [] ↦ x | a ∷ rest ↦ f a rest ])
  list_rule [] g h = g refl
  list_rule (a ∷ rest) g h = h a rest refl

-- A predicate of the first part of a pair, as one of the pair.
pub record First {ℓ κ μ} {A : Type ℓ} {B : Type μ} (P : A → Type κ) (x : A × B) : Type κ where
  pub held : P x.0
