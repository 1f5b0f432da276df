-- ===== src/Prelude/Map.antt =====
-- A concurrent or ordered map (`DashMap`, `HashMap`, `BTreeMap`) as an association list. `insert`
-- overwrites in place or adds at the end, and no client depends on the order of the entries.
pub mod Distinct
use mathlib.Core.Path.{◌≡◌, refl}
use mathlib.Core.List.{List, [], ◌∷◌, map}
use mathlib.Core.Option.{Option, none, some}
use native.Mathlib.Omega.{arith}
use calod.Prelude.Tests.{Eq, if◌then◌else◌}

abbrev pub Map {ℓ κ} : Type ℓ → Type κ → Type (ℓ ⊔ κ)
Map K V = List (K × V)

module _ {ℓ κ} {K : Type ℓ} {V : Type κ} ⦃e : Eq K⦄ where
  unfoldable pub get : K → Map K V → Option V
  get k [] = none
  get k ((j, v) ∷ m) = if e.beq j k then some v else get k m

  unfoldable pub insert : K → V → Map K V → Map K V
  insert k v [] = (k, v) ∷ []
  insert k v ((j, w) ∷ m) = if e.beq j k then (k, v) ∷ m else (j, w) ∷ insert k v m

  unfoldable pub remove : K → Map K V → Map K V
  remove k [] = []
  remove k ((j, w) ∷ m) = let rest = remove k m in if e.beq j k then rest else (j, w) ∷ rest

  pub get-insert :
      (k j : K) (v : V) (m : Map K V)
      → get j (insert k v m) ≡ (if e.beq k j then some v else get j m)
  unfolding get insert
  get-insert k j v [] = refl
  get-insert k j v ((i, w) ∷ m) =
      ground (arith, e.beq_iff k j, e.beq_iff i k, e.beq_iff i j, get-insert k j v m)

  pub get-remove :
      (k j : K) (m : Map K V) → get j (remove k m) ≡ (if e.beq k j then none else get j m)
  unfolding get remove
  get-remove k j [] = ground arith
  get-remove k j ((i, w) ∷ m) =
      ground (arith, e.beq_iff k j, e.beq_iff i k, e.beq_iff i j, get-remove k j m)

module _ {ℓ κ} {K : Type ℓ} {V : Type κ} where
  -- The values, in the order of iteration.
  unfoldable pub values : Map K V → List V
  values = map (λ p. p.1)
