-- ===== src/Prelude/Cuts.antt =====
-- Lists cut in two.
use Prim.Native.Nat.{ℕ, zero, suc, ◌+◌, ◌-◌, ◌≤◌}
use mathlib.Core.Path.{◌≡◌, refl, sym, ap, ◌∙◌}
use mathlib.Core.List.{List, [], ◌∷◌, ◌++◌}
use native.Mathlib.Nat.{zero-add, suc-add, sub-zero, suc-sub-suc}
use native.Mathlib.Omega.{arith}
use calod.Prelude.Lists.{length, take, drop}

module _ {ℓ} {A : Type ℓ} where
  pub take-append_self : (xs ys : List A) → take (length xs) (xs ++ ys) ≡ xs
  take-append_self [] ys = refl
  take-append_self (x ∷ xs) ys = rw (take-append_self xs ys)

  pub drop-append_self : (xs ys : List A) → drop (length xs) (xs ++ ys) ≡ ys
  drop-append_self [] ys = refl
  drop-append_self (x ∷ xs) ys = drop-append_self xs ys

  pub take-append_le : (k : ℕ) (xs ys : List A) → k ≤ length xs → take k (xs ++ ys) ≡ take k xs
  take-append_le zero xs ys h = refl
  take-append_le (suc k) [] ys h = absurd (omega arith)
  take-append_le (suc k) (x ∷ xs) ys h = rw (take-append_le k xs ys (omega arith))

  pub take-append_ge :
      (k : ℕ) (xs ys : List A) → length xs ≤ k → take k (xs ++ ys) ≡ xs ++ take (k - length xs) ys
  take-append_ge k [] ys h = rw sub-zero
  take-append_ge zero (x ∷ xs) ys h = absurd (omega arith)
  take-append_ge (suc k) (x ∷ xs) ys h =
      rw suc-sub-suc (ap (◌∷◌ x) (take-append_ge k xs ys (omega arith)))

  pub take_all : (k : ℕ) (xs : List A) → length xs ≤ k → take k xs ≡ xs
  take_all zero [] h = refl
  take_all (suc k) [] h = refl
  take_all zero (x ∷ xs) h = absurd (omega arith)
  take_all (suc k) (x ∷ xs) h = rw (take_all k xs (omega arith))

  pub length-drop : (n : ℕ) (xs : List A) → length (drop n xs) ≡ length xs - n
  length-drop zero xs = omega arith
  length-drop (suc n) [] = omega arith
  length-drop (suc n) (x ∷ xs) = omega (arith, length-drop n xs)

  drop-nil : (n : ℕ) → ◌≡◌ {A = List A} (drop n []) []
  drop-nil zero = refl
  drop-nil (suc n) = refl

  drop-drop : (m n : ℕ) (xs : List A) → drop (m + n) xs ≡ drop n (drop m xs)
  drop-drop zero n xs = rw zero-add
  drop-drop (suc m) n [] = drop-nil (suc m + n) ∙ sym (drop-nil n)
  drop-drop (suc m) n (x ∷ xs) = rw suc-add (drop-drop m n xs)

  pub take-nil : (n : ℕ) → ◌≡◌ {A = List A} (take n []) []
  take-nil zero = refl
  take-nil (suc n) = refl

  pub take-add : (m n : ℕ) (xs : List A) → take (m + n) xs ≡ take m xs ++ take n (drop m xs)
  take-add zero n xs = rw zero-add
  take-add (suc m) n [] = take-nil (suc m + n) ∙ sym (take-nil n)
  take-add (suc m) n (x ∷ xs) = rw suc-add (ap (λ r. x ∷ r) (take-add m n xs))

  -- Past a known front.
  pub drop_past : (n : ℕ) (zs xs ys : List A) → drop n zs ≡ xs ++ ys → drop (n + length xs) zs ≡ ys
  drop_past n zs xs ys h =
      drop-drop n (length xs) zs ∙ ap (drop (length xs)) h ∙ drop-append_self xs ys

  -- A front that both lists share.
  pub take_both :
      (xs ys zs : List A)
      → take (length ys) zs ≡ ys
      → take (length (xs ++ ys)) (xs ++ zs) ≡ xs ++ ys
  take_both [] ys zs h = h
  take_both (x ∷ xs) ys zs h = ap (◌∷◌ x) (take_both xs ys zs h)
