-- ===== src/Store/SortedSet/Windows.antt =====
-- About ranges by position.
use mathlib.Core.List.{reverse, reverse-cons, reverse-append, append_assoc}
use calod.Prelude.{
  zero, suc, Bool, ◌&&◌, leb, if◌then◌else◌, ℕ, ◌+◌, ◌-◌, ◌≤◌, ◌<◌, ◌≡◌, refl, sym, ap, ◌∙◌, true,
  false, some, List, [], ◌∷◌, ◌++◌, arith, length, inl, inr, Option-cases, take, drop,
  take-append-drop, length-append, length-take,
}
use calod.Prelude.Cuts.{take-nil, take-append_self, drop-append_self, length-drop}
use calod.Prelude.Int.{ℤ}
use calod.Store.SortedSet.{SortedSetData, len}
use calod.Store.SortedSet.Keys.{ScoreKey}
use calod.Store.SortedSet.Synced.{IsSynced}
use calod.Store.SortedSet.Ranges.{normalize_index_range, range_by_index}
use calod.Store.SortedSet.Positions.{
  from_start, upto_stop, is_inside, normalize_index_range-bounds, normalize_index_range_places,
}

-- A window of a list is, from the end, the window of the reversed list.
module _ {ℓ} {A : Type ℓ} where
  length-reverse : (xs : List A) → length (reverse xs) ≡ length xs
  length-reverse [] = refl
  length-reverse (x ∷ xs) =
      rw reverse-cons (omega (arith, length-append (reverse xs) (x ∷ []), length-reverse xs))

  reverse_parts :
      (xs ys zs : List A)
      → take (length ys) (drop (length zs) (reverse (xs ++ (ys ++ zs)))) ≡ reverse ys
  reverse_parts xs ys zs =
      rw
        (
          reverse-append,
          reverse-append,
          append_assoc,
          sym (length-reverse zs),
          drop-append_self,
          sym (length-reverse ys),
          take-append_self,
        )
        refl

  window-reverse :
      (lo n : ℕ) (xs : List A)
      → lo + n ≤ length xs
      → take n (drop (length xs - (lo + n)) (reverse xs)) ≡ reverse (take n (drop lo xs))
  window-reverse lo n xs inside =
      let ys = take n (drop lo xs) in
      let zs = drop n (drop lo xs) in
      let whole : take lo xs ++ (ys ++ zs) ≡ xs =
        rw (take-append-drop n (drop lo xs)) (take-append-drop lo xs) in
      let ys_len : length ys ≡ n =
        omega (arith, inside, length-take n (drop lo xs), length-drop lo xs) in
      let zs_len : length zs ≡ length xs - (lo + n) =
        omega (arith, inside, length-drop n (drop lo xs), length-drop lo xs) in
      let parts = reverse_parts (take lo xs) ys zs in cc (whole, ys_len, zs_len, parts)

module _ (start stop : ℤ) (s : SortedSetData) (lo hi : ℕ)
    (range : normalize_index_range start stop (len s) ≡ some (lo, hi)) where
  pub forwards : range_by_index start stop false s ≡ take (hi - lo + 1) (drop lo s.index)
  unfolding range_by_index
  forwards = rw (range, range_by_index) refl

  backwards :
      range_by_index start stop true s
      ≡ take (hi - lo + 1) (drop (len s - 1 - hi) (reverse s.index))
  unfolding range_by_index
  backwards = rw (range, range_by_index) refl

  backwards-forwards :
      IsSynced s → range_by_index start stop true s ≡ reverse (range_by_index start stop false s)
  backwards-forwards synced =
      let bounds = normalize_index_range-bounds start stop (len s) lo hi range in
      let skipped : len s - 1 - hi ≡ length s.index - (lo + (hi - lo + 1)) =
        omega (arith, bounds, synced.lengths) in
      backwards
      ∙ ap (λ m. take (hi - lo + 1) (drop m (reverse s.index))) skipped
      ∙ window-reverse lo (hi - lo + 1) s.index (omega (arith, bounds, synced.lengths))
      ∙ ap reverse (sym forwards)

-- The entries at the places that satisfy a test, of a list that begins at place i.
abbrev pub at_places : (ℕ → Bool) → ℕ → List ScoreKey → List ScoreKey
at_places p i [] = []
at_places p i (k ∷ ks) = let rest = at_places p (suc i) ks in if p i then k ∷ rest else rest

at_places_same :
    (p q : ℕ → Bool) (i : ℕ) (ks : List ScoreKey)
    → ((r : ℕ) → r < i + length ks → p r ≡ q r)
    → at_places p i ks ≡ at_places q i ks
at_places_same p q i [] h = refl
at_places_same p q i (k ∷ ks) h =
    let rest = at_places_same p q (suc i) ks (λ r inside. h r (omega (arith, inside))) in
    rw (h i (omega arith), rest) refl

at_places-none : (i : ℕ) (ks : List ScoreKey) → at_places (λ r. false) i ks ≡ []
at_places-none i [] = refl
at_places-none i (k ∷ ks) = at_places-none (suc i) ks

-- The places between two positions are a window.
module _ (lo hi : ℕ) where
  abbrev between : ℕ → Bool
  between r = leb lo r && leb r hi

  beyond : (i : ℕ) (ks : List ScoreKey) → hi < i → at_places between i ks ≡ []
  beyond i [] h = refl
  beyond i (k ∷ ks) h =
      let out : between i ≡ false = ground (arith, h) in
      rw out (beyond (suc i) ks (omega (arith, h)))

  from_inside :
      (w i : ℕ) (ks : List ScoreKey) → lo ≤ i → i + w ≡ suc hi → at_places between i ks ≡ take w ks
  from_inside zero i ks h e = beyond i ks (omega (arith, e))
  from_inside (suc w) i [] h e = refl
  from_inside (suc w) i (k ∷ ks) h e =
      let here : between i ≡ true = ground (arith, h, e) in
      rw here (ap (λ r. k ∷ r) (from_inside w (suc i) ks (omega (arith, h)) (omega (arith, e))))

  from_behind :
      (d i : ℕ) (ks : List ScoreKey)
      → i + d ≡ lo
      → lo ≤ hi
      → at_places between i ks ≡ take (hi - lo + 1) (drop d ks)
  from_behind zero i ks e h =
      from_inside (hi - lo + 1) i ks (omega (arith, e)) (omega (arith, e, h))
  from_behind (suc d) i [] e h = sym (take-nil (hi - lo + 1))
  from_behind (suc d) i (k ∷ ks) e h =
      let out : between i ≡ false = ground (arith, e) in
      rw out (from_behind d (suc i) ks (omega (arith, e)) h)

-- The entries of the index whose places a range names.
abbrev pub named : ℤ → ℤ → SortedSetData → List ScoreKey
named start stop s =
    at_places (λ r. from_start start (len s) r && upto_stop stop (len s) r) 0 s.index

module _ (start stop : ℤ) (s : SortedSetData) (synced : IsSynced s) where
  named-inside :
      named start stop s
      ≡ at_places (is_inside (normalize_index_range start stop (len s))) 0 s.index
  named-inside = at_places_same _ _ 0 s.index (λ r inside.
      ground (arith, normalize_index_range_places start stop (len s) r, inside, synced.lengths))

  forwards-named : range_by_index start stop false s ≡ named start stop s
  unfolding range_by_index
  forwards-named = elim (Option-cases (normalize_index_range start stop (len s))) [
    | inl empty ↦
        rw (empty, range_by_index) (sym (named-inside ∙ rw empty (at_places-none 0 s.index)))
    | inr ((lo, hi), range) ↦
        let bounds = normalize_index_range-bounds start stop (len s) lo hi range in
        forwards start stop s lo hi range
        ∙ sym (from_behind lo hi lo 0 s.index (omega arith) bounds.0)
        ∙ sym (named-inside ∙ rw range refl)
  ]

  rev-forwards : range_by_index start stop true s ≡ reverse (range_by_index start stop false s)
  unfolding range_by_index
  rev-forwards = elim (Option-cases (normalize_index_range start stop (len s))) [
    | inl empty ↦ rw (empty, range_by_index) refl
    | inr ((lo, hi), range) ↦ backwards-forwards start stop s lo hi range synced
  ]

  -- A range by position answers with exactly the entries of the index at the places that are at or
  -- behind the start and at or before the stop, from the lowest entry on, or in the opposite order if it
  -- is read backwards. In both directions, place 0 is the lowest entry and -1 the highest, and a stop
  -- before the first place is the first place.
  pub range_by_index_places :
      (rev : Bool)
      → range_by_index start stop rev s
        ≡ (if rev then reverse (named start stop s) else named start stop s)
  range_by_index_places false = forwards-named
  range_by_index_places true = rev-forwards ∙ ap reverse forwards-named
