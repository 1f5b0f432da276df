-- ===== src/Store/OrderedSet.antt =====
-- `BTreeSet` as the list of its elements in order, over any strict total order.
pub mod Laws
pub mod Parts
use calod.Prelude.{Bool, true, false, not, ◌&&◌, ◌||◌, ◌≡◌, List, [], ◌∷◌, if◌then◌else◌, all}

-- `Ord`: `lt a b` is `a.cmp(&b) == Less`.
pub record Order {ℓ} (A : Type ℓ) : Type ℓ where
  pub lt : A → A → Bool
  pub irrefl : (a : A) → lt a a ≡ false
  pub trans : (a b c : A) → lt a b ≡ true → lt b c ≡ true → lt a c ≡ true
  pub connected : (a b : A) → lt a b ≡ false → lt b a ≡ false → a ≡ b

module _ {ℓ} {A : Type ℓ} (o : Order A) where
  -- `a.cmp(&b) == Equal`
  abbrev pub same : A → A → Bool
  same a b = not (o.lt a b) && not (o.lt b a)

  -- `set.insert(a)`: an element that is there stays.
  unfoldable pub insert : A → List A → List A
  insert a [] = a ∷ []
  insert a (x ∷ xs) =
      let rest = insert a xs in
      if o.lt a x then a ∷ x ∷ xs else if o.lt x a then x ∷ rest else x ∷ xs

  -- `set.remove(&a)`
  unfoldable pub remove : A → List A → List A
  remove a [] = []
  remove a (x ∷ xs) = let rest = remove a xs in if same x a then xs else x ∷ rest

  -- `set.contains(&a)`
  unfoldable pub contains : A → List A → Bool
  contains a [] = false
  contains a (x ∷ xs) = same x a || contains a xs

  -- The elements ascend.
  pub data IsSorted : List A → Type ℓ where
    nil : IsSorted []
    cons : {x : A} {xs : List A} → all (o.lt x) xs ≡ true → IsSorted xs → IsSorted (x ∷ xs)
