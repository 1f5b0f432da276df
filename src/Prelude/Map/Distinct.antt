-- ===== src/Prelude/Map/Distinct.antt =====
-- About maps that bind no key twice, and the number of their entries.
use mathlib.Core.Path.{◌≡◌, refl, ap}
use mathlib.Core.List.{[], ◌∷◌}
use mathlib.Core.Option.{none, some}
use native.Mathlib.Omega.{arith}
use mathlib.Core.Logic.{inl, inr}
use Prim.Native.Nat.{suc}
use calod.Prelude.Lists.{length}
use calod.Prelude.Tests.{Eq, Bool-cases}
use calod.Prelude.Map.{Map, get, insert, remove, get-insert, get-remove}

module _ {ℓ κ} {K : Type ℓ} {V : Type κ} ⦃e : Eq K⦄ where
  pub data IsDistinct : Map K V → Type (ℓ ⊔ κ) where
    empty : IsDistinct []
    bind : {k : K} {v : V} {m : Map K V} → get k m ≡ none → IsDistinct m → IsDistinct ((k, v) ∷ m)

  pub insert-IsDistinct : (k : K) (v : V) (m : Map K V) → IsDistinct m → IsDistinct (insert k v m)
  unfolding insert get
  insert-IsDistinct k v m empty = bind refl empty
  insert-IsDistinct k v m (bind {k = j} {v = w} {m = rest} fresh d) =
      elim (Bool-cases (e.beq j k)) [
        | inl same ↦ rw same (bind (rw ((e.beq_iff j k).0 same) at fresh) d)
        | inr other ↦ rw other (
            bind (ground (arith, fresh, get-insert k j v rest, e.beq_iff k j, e.beq_iff j k))
              (insert-IsDistinct k v rest d))
      ]

  pub remove-IsDistinct : (k : K) (m : Map K V) → IsDistinct m → IsDistinct (remove k m)
  unfolding remove get
  remove-IsDistinct k m empty = empty
  remove-IsDistinct k m (bind {k = j} {v = w} {m = rest} fresh d) = elim (Bool-cases (e.beq j k)) [
    | inl same ↦ rw same (remove-IsDistinct k rest d)
    | inr other ↦ rw other (
        bind (ground (arith, fresh, get-remove k j rest, e.beq_iff k j, e.beq_iff j k))
          (remove-IsDistinct k rest d))
  ]

  pub length-insert_new :
      (k : K) (v : V) (m : Map K V) → get k m ≡ none → length (insert k v m) ≡ suc (length m)
  unfolding insert get
  length-insert_new k v [] fresh = refl
  length-insert_new k v ((j, w) ∷ m) fresh = ground (arith, length-insert_new k v m)

  pub length-insert_old :
      (k : K) (v w : V) (m : Map K V) → get k m ≡ some w → length (insert k v m) ≡ length m
  unfolding insert get
  length-insert_old k v w [] old = cc
  length-insert_old k v w ((j, u) ∷ m) old = ground (arith, length-insert_old k v w m)

  length-remove_fresh : (k : K) (m : Map K V) → get k m ≡ none → length (remove k m) ≡ length m
  unfolding remove get
  length-remove_fresh k [] fresh = refl
  length-remove_fresh k ((j, w) ∷ m) fresh = ground (arith, length-remove_fresh k m)

  pub length-remove :
      (k : K) (v : V) {m : Map K V}
      → IsDistinct m
      → get k m ≡ some v
      → suc (length (remove k m)) ≡ length m
  unfolding remove get
  length-remove k v empty here = cc
  length-remove k v (bind {k = j} {v = w} {m = rest} fresh d) here = elim (Bool-cases (e.beq j k)) [
    | inl same ↦
        rw same (ap suc (length-remove_fresh k rest (rw ((e.beq_iff j k).0 same) at fresh)))
    | inr other ↦ rw other (ap suc (length-remove k v d (rw other at here)))
  ]
