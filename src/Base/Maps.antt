-- ===== src/Base/Maps.antt =====
-- Go maps as association lists. The order of the list stands for the order in which `range` visits
-- the map, which Go leaves open: a statement about every list covers every such order.
use Prim.Native.Nat.{ℕ, suc, ◌≤◌}
use mathlib.Core.Path.{◌≡◌, refl}
use mathlib.Core.Logic.{◌↔◌}
use mathlib.Core.Bool.{Bool, true, false}
use mathlib.Core.Option.{Option, none, some}
use mathlib.Core.List.{List, [], ◌∷◌}
use native.Mathlib.Omega.{arith}
use opusref.Base.Tests.{if◌then◌else◌, ==_iff, ◌==◌ as nat_eq}
use opusref.Base.Lists.{length, bytes_equal, bytes_equal→eq, bytes_equal_refl}

-- Keys that `==` compares.
pub record Key {ℓ} (A : Type ℓ) : Type ℓ where
  pub same : A → A → Bool
  pub same_iff : (a b : A) → (same a b ≡ true) ↔ (a ≡ b)

instance abbrev pub ℕ-Key : Key ℕ
ℕ-Key = record { same = nat_eq; same_iff = ==_iff }

pub bytes_equal_iff : (xs ys : List ℕ) → (bytes_equal xs ys ≡ true) ↔ (xs ≡ ys)
bytes_equal_iff xs ys = (bytes_equal→eq xs ys, λ e. rw e (bytes_equal_refl ys))

instance abbrev pub Bytes-Key : Key (List ℕ)
Bytes-Key = record { same = bytes_equal; same_iff = bytes_equal_iff }

-- The `ok` of `v, ok := m[k]`.
abbrev pub has {ℓ} : {V : Type ℓ} → Option V → Bool
has none = false
has (some v) = true

module _ {ℓ κ} {K : Type κ} {V : Type ℓ} ⦃e : Key K⦄ where
  unfoldable pub lookup : K → List (K × V) → Option V
  lookup key [] = none
  lookup key ((other, held) ∷ more) = if e.same other key then some held else lookup key more

  unfoldable pub insert : K → V → List (K × V) → List (K × V)
  insert key value [] = (key, value) ∷ []
  insert key value ((other, held) ∷ more) =
      if e.same other key then (key, value) ∷ more else (other, held) ∷ insert key value more

  unfoldable pub delete : K → List (K × V) → List (K × V)
  delete key [] = []
  delete key ((other, held) ∷ more) =
      let rest = delete key more in if e.same other key then rest else (other, held) ∷ rest

  pub lookup-insert :
      (key asked : K) (value : V) (entries : List (K × V))
      → lookup asked (insert key value entries)
        ≡ (if e.same key asked then some value else lookup asked entries)
  unfolding lookup insert
  lookup-insert key asked value [] = ground arith
  lookup-insert key asked value ((other, held) ∷ more) = ground (
    arith,
    lookup-insert key asked value more,
    e.same_iff other key,
    e.same_iff other asked,
    e.same_iff key asked,
  )

  pub lookup-delete :
      (key asked : K) (entries : List (K × V))
      → lookup asked (delete key entries)
        ≡ (if e.same key asked then none else lookup asked entries)
  unfolding lookup delete
  lookup-delete key asked [] = ground arith
  lookup-delete key asked ((other, held) ∷ more) = ground (
    arith,
    lookup-delete key asked more,
    e.same_iff other key,
    e.same_iff other asked,
    e.same_iff key asked,
  )

  pub length-insert :
      (key : K) (value : V) (entries : List (K × V))
      → length (insert key value entries)
        ≡ (if has (lookup key entries) then length entries else suc (length entries))
  unfolding lookup insert
  length-insert key value [] = refl
  length-insert key value ((other, held) ∷ more) = ground (arith, length-insert key value more)

  pub length-delete-le :
      (key : K) (entries : List (K × V)) → length (delete key entries) ≤ length entries
  unfolding delete
  length-delete-le key [] = omega arith
  length-delete-le key ((other, held) ∷ more) = ground (arith, length-delete-le key more)

  -- No key stands twice.
  abbrev pub Distinct : List (K × V) → Type ℓ
  Distinct [] = Unit
  Distinct ((key, held) ∷ more) = (lookup key more ≡ none) × Distinct more

  pub Distinct-insert :
      (key : K) (value : V) (entries : List (K × V))
      → Distinct entries
      → Distinct (insert key value entries)
  unfolding insert lookup
  Distinct-insert key value [] h = (refl, tt)
  Distinct-insert key value ((other, held) ∷ more) h = ground (
    arith,
    e.same_iff other key,
    e.same_iff key other,
    lookup-insert key other value more,
    Distinct-insert key value more h.1,
  )

  pub Distinct-delete :
      (key : K) (entries : List (K × V)) → Distinct entries → Distinct (delete key entries)
  unfolding delete
  Distinct-delete key [] h = tt
  Distinct-delete key ((other, held) ∷ more) h =
      ground (arith, lookup-delete key other more, Distinct-delete key more h.1)
