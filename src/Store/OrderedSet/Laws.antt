-- ===== src/Store/OrderedSet/Laws.antt =====
-- About insertion into and removal from an ordered set.
use calod.Prelude.{
  suc, ◌≡◌, refl, Bool, true, false, List, [], ◌∷◌, if◌then◌else◌, all, arith, length, Bool-cases,
  inl, inr,
}
use calod.Store.OrderedSet.{Order, same, insert, remove, contains, IsSorted, nil, cons}

module _ {ℓ} {A : Type ℓ} (o : Order A) where
  pub same→eq : (a b : A) → same o a b ≡ true → a ≡ b
  same→eq a b h = o.connected a b (ground arith) (ground arith)

  pub same_refl : (a : A) → same o a a ≡ true
  same_refl a = ground (arith, o.irrefl a)

  pub lt→not_same : (a b : A) → o.lt a b ≡ true → same o a b ≡ false
  lt→not_same a b h = ground arith

  pub lt_asym : (a b : A) → o.lt a b ≡ true → o.lt b a ≡ false
  lt_asym a b h = ground (arith, o.trans a b a h, o.irrefl a)

  pub all-lt_trans :
      (a b : A) (xs : List A) → o.lt a b ≡ true → all (o.lt b) xs ≡ true → all (o.lt a) xs ≡ true
  unfolding all
  all-lt_trans a b [] h below = refl
  all-lt_trans a b (x ∷ xs) h below = ground (arith, o.trans a b x, all-lt_trans a b xs h)

  all-insert :
      (p : A → Bool) (a : A) (xs : List A)
      → p a ≡ true
      → all p xs ≡ true
      → all p (insert o a xs) ≡ true
  unfolding all insert
  all-insert p a [] h k = ground arith
  all-insert p a (x ∷ xs) h k = ground (arith, all-insert p a xs h)

  all-remove : (p : A → Bool) (a : A) (xs : List A) → all p xs ≡ true → all p (remove o a xs) ≡ true
  unfolding all remove
  all-remove p a [] k = refl
  all-remove p a (x ∷ xs) k = ground (arith, all-remove p a xs)

  -- What is above `a` does not contain it.
  pub above-contains : (a : A) (xs : List A) → all (o.lt a) xs ≡ true → contains o a xs ≡ false
  unfolding all contains
  above-contains a [] h = refl
  above-contains a (x ∷ xs) h = ground (arith, above-contains a xs)

  pub insert-IsSorted : (a : A) {xs : List A} → IsSorted o xs → IsSorted o (insert o a xs)
  unfolding insert all
  insert-IsSorted a nil = cons refl nil
  insert-IsSorted a (cons {x = x} {xs = xs} above sorted) = elim (Bool-cases (o.lt a x)) [
    | inl first ↦
        rw first (cons (ground (arith, all-lt_trans a x xs first above)) (cons above sorted))
    | inr later ↦ elim (Bool-cases (o.lt x a)) [
      | inl inside ↦
          rw (later, inside)
            (cons (all-insert (o.lt x) a xs inside above) (insert-IsSorted a sorted))
      | inr here ↦ rw (later, here) (cons above sorted)
    ]
  ]

  pub remove-IsSorted : (a : A) {xs : List A} → IsSorted o xs → IsSorted o (remove o a xs)
  unfolding remove
  remove-IsSorted a nil = nil
  remove-IsSorted a (cons {x = x} {xs = xs} above sorted) = elim (Bool-cases (same o x a)) [
    | inl here ↦ rw here sorted
    | inr other ↦ rw other (cons (all-remove (o.lt x) a xs above) (remove-IsSorted a sorted))
  ]

  pub contains-insert :
      (a b : A) (xs : List A)
      → contains o b (insert o a xs) ≡ (if same o a b then true else contains o b xs)
  unfolding contains insert
  contains-insert a b [] = ground arith
  contains-insert a b (x ∷ xs) =
      ground (arith, contains-insert a b xs, same→eq a b, o.connected a x)

  pub contains-remove :
      (a b : A) {xs : List A}
      → IsSorted o xs
      → contains o b (remove o a xs) ≡ (if same o a b then false else contains o b xs)
  unfolding contains remove
  contains-remove a b nil = ground arith
  contains-remove a b (cons {x = x} {xs = xs} above sorted) =
      ground
        (arith, contains-remove a b sorted, same→eq a b, same→eq x a, above-contains x xs above)

  pub length-insert :
      (a : A) (xs : List A) → contains o a xs ≡ false → length (insert o a xs) ≡ suc (length xs)
  unfolding contains insert
  length-insert a [] h = refl
  length-insert a (x ∷ xs) h = ground (arith, length-insert a xs)

  pub length-remove :
      (a : A) (xs : List A) → contains o a xs ≡ true → suc (length (remove o a xs)) ≡ length xs
  unfolding contains remove
  length-remove a [] h = cc
  length-remove a (x ∷ xs) h = ground (arith, length-remove a xs)
