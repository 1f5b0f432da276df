-- ===== src/Store/OrderedSet/Parts.antt =====
-- About parts of an ordered set, and about ordered sets with the same elements.
use mathlib.Core.List.{reverse, reverse-cons}
use calod.Prelude.{
  ℕ, zero, suc, ◌≡◌, refl, ◌∙◌, Bool, true, false, ◌&&◌, ◌||◌, List, [], ◌∷◌, ◌++◌, all, arith,
  Bool-cases, inl, inr, keep, take, drop,
}
use mathlib.Core.Path.{ap₂}
use calod.Store.OrderedSet.{Order, same, remove, contains, IsSorted, nil, cons}
use calod.Store.OrderedSet.Laws.{
  same→eq, same_refl, lt→not_same, above-contains, contains-remove, all-lt_trans, remove-IsSorted,
}

module _ {ℓ} {A : Type ℓ} (o : Order A) where
  -- No element stands twice.
  pub data IsApart : List A → Type ℓ where
    none_left : IsApart []
    one_more : {x : A} {xs : List A} → contains o x xs ≡ false → IsApart xs → IsApart (x ∷ xs)

  pub IsSorted-IsApart : {xs : List A} → IsSorted o xs → IsApart xs
  IsSorted-IsApart nil = none_left
  IsSorted-IsApart (cons {x = x} {xs = xs} above sorted) =
      one_more (above-contains o x xs above) (IsSorted-IsApart sorted)

  -- Elements that can be removed one after another, each one being there.
  pub data IsRemovable : List A → List A → Type ℓ where
    done : {xs : List A} → IsRemovable xs []
    next :
        {a : A} {xs as' : List A}
        → contains o a xs ≡ true
        → IsRemovable (remove o a xs) as'
        → IsRemovable xs (a ∷ as')

  same_sym : (a b : A) → same o a b ≡ same o b a
  same_sym a b = ground arith

  all-contains-remove :
      (a : A) (ys : List A) {xs : List A}
      → IsSorted o xs
      → contains o a ys ≡ false
      → all (λ y. contains o y xs) ys ≡ true
      → all (λ y. contains o y (remove o a xs)) ys ≡ true
  unfolding all contains
  all-contains-remove a [] sorted fresh h = refl
  all-contains-remove a (y ∷ ys) sorted fresh h =
      ground (arith, contains-remove o a y sorted, same_sym a y, all-contains-remove a ys sorted)

  pub apart-IsRemovable :
      (ys : List A) {xs : List A}
      → IsSorted o xs
      → IsApart ys
      → all (λ y. contains o y xs) ys ≡ true
      → IsRemovable xs ys
  unfolding all
  apart-IsRemovable [] sorted apart h = done
  apart-IsRemovable (y ∷ ys) sorted (one_more fresh apart) h = next (ground arith) (
      apart-IsRemovable ys (remove-IsSorted o y sorted) apart
        (all-contains-remove y ys sorted fresh (ground arith)))

  -- Parts of a list whose elements satisfy a test, or do not contain an element.
  pub all-keep : (q p : A → Bool) (xs : List A) → all q xs ≡ true → all q (keep p xs) ≡ true
  unfolding all keep
  all-keep q p [] h = refl
  all-keep q p (x ∷ xs) h = ground (arith, all-keep q p xs)

  pub all-take : (q : A → Bool) (n : ℕ) (xs : List A) → all q xs ≡ true → all q (take n xs) ≡ true
  unfolding all
  all-take q zero xs h = refl
  all-take q (suc n) [] h = refl
  all-take q (suc n) (x ∷ xs) h = ground (arith, all-take q n xs)

  pub all-drop : (q : A → Bool) (n : ℕ) (xs : List A) → all q xs ≡ true → all q (drop n xs) ≡ true
  unfolding all
  all-drop q zero xs h = h
  all-drop q (suc n) [] h = refl
  all-drop q (suc n) (x ∷ xs) h = all-drop q n xs (ground arith)

  all-append : (q : A → Bool) (xs ys : List A) → all q (xs ++ ys) ≡ all q xs && all q ys
  unfolding all
  all-append q [] ys = refl
  all-append q (x ∷ xs) ys = ground (arith, all-append q xs ys)

  pub all-reverse : (q : A → Bool) (xs : List A) → all q xs ≡ true → all q (reverse xs) ≡ true
  unfolding all
  all-reverse q [] h = refl
  all-reverse q (x ∷ xs) h =
      rw reverse-cons (ground (arith, all-append q (reverse xs) (x ∷ []), all-reverse q xs))

  -- Every element is there.
  self_contains : (x : A) (xs : List A) → contains o x (x ∷ xs) ≡ true
  unfolding contains
  self_contains x xs = ground (arith, same_refl o x)

  all-contains-cons :
      (x : A) (xs ys : List A)
      → all (λ y. contains o y xs) ys ≡ true
      → all (λ y. contains o y (x ∷ xs)) ys ≡ true
  unfolding all contains
  all-contains-cons x xs [] h = refl
  all-contains-cons x xs (y ∷ ys) h = ground (arith, all-contains-cons x xs ys)

  pub all-contains_self : (xs : List A) → all (λ y. contains o y xs) xs ≡ true
  unfolding all
  all-contains_self [] = refl
  all-contains_self (x ∷ xs) =
      ground (arith, self_contains x xs, all-contains-cons x xs xs, all-contains_self xs)

  contains-keep :
      (a : A) (p : A → Bool) (xs : List A)
      → contains o a xs ≡ false
      → contains o a (keep p xs) ≡ false
  unfolding contains keep
  contains-keep a p [] h = refl
  contains-keep a p (x ∷ xs) h = ground (arith, contains-keep a p xs)

  pub IsApart-keep : (p : A → Bool) {xs : List A} → IsApart xs → IsApart (keep p xs)
  unfolding keep
  IsApart-keep p none_left = none_left
  IsApart-keep p (one_more {x = x} {xs = xs} fresh apart) = elim (Bool-cases (p x)) [
    | inl kept ↦ rw kept (one_more (contains-keep x p xs fresh) (IsApart-keep p apart))
    | inr dropped ↦ rw dropped (IsApart-keep p apart)
  ]

  contains-take :
      (a : A) (n : ℕ) (xs : List A) → contains o a xs ≡ false → contains o a (take n xs) ≡ false
  unfolding contains
  contains-take a zero xs h = refl
  contains-take a (suc n) [] h = refl
  contains-take a (suc n) (x ∷ xs) h = ground (arith, contains-take a n xs)

  pub IsApart-take : (n : ℕ) {xs : List A} → IsApart xs → IsApart (take n xs)
  IsApart-take zero apart = none_left
  IsApart-take (suc n) none_left = none_left
  IsApart-take (suc n) (one_more {x = x} {xs = xs} fresh apart) =
      one_more (contains-take x n xs fresh) (IsApart-take n apart)

  pub IsApart-drop : (n : ℕ) {xs : List A} → IsApart xs → IsApart (drop n xs)
  IsApart-drop zero apart = apart
  IsApart-drop (suc n) none_left = none_left
  IsApart-drop (suc n) (one_more fresh apart) = IsApart-drop n apart

  contains-append :
      (a : A) (xs ys : List A) → contains o a (xs ++ ys) ≡ contains o a xs || contains o a ys
  unfolding contains
  contains-append a [] ys = refl
  contains-append a (x ∷ xs) ys = ground (arith, contains-append a xs ys)

  contains-reverse : (a : A) (xs : List A) → contains o a (reverse xs) ≡ contains o a xs
  unfolding contains
  contains-reverse a [] = refl
  contains-reverse a (x ∷ xs) =
      rw reverse-cons
        (ground (arith, contains-append a (reverse xs) (x ∷ []), contains-reverse a xs))

  IsApart-snoc :
      (a : A) {xs : List A} → contains o a xs ≡ false → IsApart xs → IsApart (xs ++ a ∷ [])
  unfolding contains
  IsApart-snoc a h none_left = one_more refl none_left
  IsApart-snoc a h (one_more {x = x} {xs = xs} fresh apart) =
      one_more (ground (arith, contains-append x xs (a ∷ []), same_sym x a))
        (IsApart-snoc a (ground arith) apart)

  pub IsApart-reverse : {xs : List A} → IsApart xs → IsApart (reverse xs)
  IsApart-reverse none_left = none_left
  IsApart-reverse (one_more {x = x} {xs = xs} fresh apart) =
      rw reverse-cons (IsApart-snoc x (contains-reverse x xs ∙ fresh) (IsApart-reverse apart))

  module _ (x y : A) (xs ys : List A) where
    heads :
        all (o.lt x) xs ≡ true
        → all (o.lt y) ys ≡ true
        → contains o x (x ∷ xs) ≡ contains o x (y ∷ ys)
        → contains o y (x ∷ xs) ≡ contains o y (y ∷ ys)
        → x ≡ y
    unfolding contains
    heads above above' hx hy = ground (
      arith,
      hx,
      hy,
      same_refl o x,
      same_refl o y,
      o.connected x y,
      lt→not_same o x y,
      lt→not_same o y x,
      all-lt_trans o x y ys,
      all-lt_trans o y x xs,
      above-contains o x ys,
      above-contains o y xs,
    )

    tails :
        x ≡ y
        → all (o.lt x) xs ≡ true
        → all (o.lt y) ys ≡ true
        → (a : A) → contains o a (x ∷ xs) ≡ contains o a (y ∷ ys)
        → contains o a xs ≡ contains o a ys
    unfolding contains
    tails head above above' a h =
        ground (
          arith,
          h,
          head,
          above-contains o x xs,
          above-contains o y ys,
          same→eq o x a,
          same→eq o y a,
        )

  -- Two ordered sets with the same elements are the same list.
  pub sorted_unique :
      {xs ys : List A}
      → IsSorted o xs
      → IsSorted o ys
      → ((a : A) → contains o a xs ≡ contains o a ys)
      → xs ≡ ys
  unfolding contains
  sorted_unique nil nil h = refl
  sorted_unique nil (cons {x = y} above sorted) h = ground (arith, h y, same_refl o y)
  sorted_unique (cons {x = x} above sorted) nil h = ground (arith, h x, same_refl o x)
  sorted_unique (cons {x = x} {xs = xs} above sorted) (cons {x = y} {xs = ys} above' sorted') h =
      let head : x ≡ y = heads x y xs ys above above' (h x) (h y) in
      ap₂ ◌∷◌ head (sorted_unique sorted sorted' (λ a. tails x y xs ys head above above' a (h a)))
