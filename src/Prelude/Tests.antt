-- ===== src/Prelude/Tests.antt =====
-- Boolean tests on numbers and byte strings, the conditional, and equality as an interface.
use Prim.Native.Nat.{ℕ, ◌≤◌, ◌<◌, compare, Ordering}
use Prim.Native.Char.{code}
use Prim.Native.String.{String}
use mathlib.Core.Path.{◌≡◌, refl, ap₂}
use mathlib.Core.Logic.{◌↔◌, ◌⊎◌, inl, inr}
use mathlib.Core.Bool.{Bool, true, false, ◌&&◌}
use mathlib.Core.List.{List, [], ◌∷◌}
use mathlib.Core.Option.{Option, none, some}
use native.Mathlib.Omega.{arith}

abbrev pub ltb : ℕ → ℕ → Bool
ltb a b = elim (compare a b) [ Ordering.lt ↦ true | _ ↦ false ]

abbrev pub leb : ℕ → ℕ → Bool
leb a b = elim (compare a b) [ Ordering.gt ↦ false | _ ↦ true ]

abbrev pub nat_beq : ℕ → ℕ → Bool
nat_beq a b = elim (compare a b) [ Ordering.eq ↦ true | _ ↦ false ]

infix 1 if◌then◌else◌
abbrev pub if◌then◌else◌ {ℓ} : {A : Type ℓ} → Bool → A → A → A
if true then x else y = x
if false then x else y = y

pub ltb→lt : (a b : ℕ) → ltb a b ≡ true → a < b
ltb→lt a b h = ground arith

pub lt→ltb : (a b : ℕ) → a < b → ltb a b ≡ true
lt→ltb a b h = ground arith

pub leb→le : (a b : ℕ) → leb a b ≡ true → a ≤ b
leb→le a b h = ground arith

pub nat_beq_iff : (a b : ℕ) → (nat_beq a b ≡ true) ↔ (a ≡ b)
nat_beq_iff a b = ground arith

-- To split on a computed value and keep the equation.
pub Bool-cases : (b : Bool) → (b ≡ true) ⊎ (b ≡ false)
Bool-cases true = inl refl
Bool-cases false = inr refl

pub Option-cases {ℓ} : {A : Type ℓ} (o : Option A) → (o ≡ none) ⊎ ((a : A) × (o ≡ some a))
Option-cases none = inl refl
Option-cases (some a) = inr (a, refl)

-- A Rust `String`: its UTF-8 bytes.
abbrev pub Str : Type 0
Str = List ℕ

-- The bytes of an ASCII literal.
unfoldable pub str : String → Str
str String.[] = []
str (String.◌∷◌ c s) = code c ∷ str s

unfoldable pub str_eq : Str → Str → Bool
str_eq [] [] = true
str_eq [] (y ∷ ys) = false
str_eq (x ∷ xs) [] = false
str_eq (x ∷ xs) (y ∷ ys) = nat_beq x y && str_eq xs ys

str_eq_sound : (a b : Str) → str_eq a b ≡ true → a ≡ b
unfolding str_eq
str_eq_sound [] [] h = refl
str_eq_sound [] (y ∷ ys) h = ground arith
str_eq_sound (x ∷ xs) [] h = ground arith
str_eq_sound (x ∷ xs) (y ∷ ys) h = ap₂ ◌∷◌ (ground arith) (str_eq_sound xs ys (ground arith))

pub str_eq_refl : (a : Str) → str_eq a a ≡ true
unfolding str_eq
str_eq_refl [] = refl
str_eq_refl (x ∷ xs) = ground (arith, str_eq_refl xs)

pub str_eq_iff : (a b : Str) → (str_eq a b ≡ true) ↔ (a ≡ b)
str_eq_iff a b = (str_eq_sound a b, λ e. rw e (str_eq_refl b))

-- `==` of a key type.
pub record Eq {ℓ} (A : Type ℓ) : Type ℓ where
  pub beq : A → A → Bool
  pub beq_iff : (a b : A) → (beq a b ≡ true) ↔ (a ≡ b)

pub beq_refl {ℓ} : {A : Type ℓ} ⦃e : Eq A⦄ (a : A) → e.beq a a ≡ true
beq_refl ⦃e⦄ a = (e.beq_iff a a).1 refl

instance abbrev pub nat_eq : Eq ℕ
nat_eq = record { beq = nat_beq; beq_iff = nat_beq_iff }

instance abbrev pub str_Eq : Eq Str
str_Eq = record { beq = str_eq; beq_iff = str_eq_iff }

-- `==` of two optional values.
unfoldable pub opt_eq {ℓ} : {A : Type ℓ} → (A → A → Bool) → Option A → Option A → Bool
opt_eq eq none none = true
opt_eq eq none (some y) = false
opt_eq eq (some x) none = false
opt_eq eq (some x) (some y) = eq x y
