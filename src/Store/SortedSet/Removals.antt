-- ===== src/Store/SortedSet/Removals.antt =====
-- About the removal of many members.
use mathlib.Core.List.{reverse}
use Prim.Native.Nat.{min}
use calod.Prelude.{
  length-take, take-append-drop, ◌++◌, ℕ, zero, suc, ◌+◌, ◌≡◌, refl, sym, ap, ◌∙◌, Bool, false, not,
  ◌&&◌, Option, none, some, List, [], ◌∷◌, arith, length, keep, take, drop, if◌then◌else◌, inl, inr,
  Option-cases,
}
use calod.Prelude.Int.{ℤ}
use calod.Store.F64.{F64, same_bits, same_bits_iff}
use calod.Store.OrderedSet
use calod.Store.OrderedSet.{IsSorted, nil, cons, contains, same}
use calod.Store.OrderedSet.Laws
use calod.Store.OrderedSet.Parts
use calod.Store.OrderedSet.Parts.{IsApart, IsRemovable, done, next}
use calod.Store.SortedSet.{
  SortedSetData, score, key, remove_entry, remove_all, pop_min, pop_max, len,
}
use calod.Store.SortedSet.Keys.{ScoreKey, Bytes, score_order}
use calod.Store.SortedSet.Synced.{IsSynced, remove_entry-IsSynced}
use calod.Store.SortedSet.Ranges.{
  ScoreBound, LexBound, range_by_index, normalize_index_range, remove_range_by_rank,
  remove_range_by_score, remove_range_by_lex, score_within, lex_within, score_in_bounds,
}

remove_entry_index :
    (k : ScoreKey) (s : SortedSetData)
    → (remove_entry k s).index ≡ OrderedSet.remove score_order k s.index
unfolding remove_entry
remove_entry_index k s = refl

pub remove_all-IsSynced :
    (ks : List ScoreKey) (s : SortedSetData)
    → IsSynced s
    → IsRemovable score_order s.index ks
    → IsSynced (remove_all ks s)
unfolding remove_all
remove_all-IsSynced [] s synced removable = synced
remove_all-IsSynced (k ∷ ks) s synced (next here rest) =
    remove_all-IsSynced ks (remove_entry k s) (remove_entry-IsSynced k s synced here)
      (rw (remove_entry_index k s) rest)

-- Exactly the victims are gone.
pub remove_all-contains :
    (j : ScoreKey) (ks : List ScoreKey) (s : SortedSetData)
    → IsSynced s
    → IsRemovable score_order s.index ks
    → contains score_order j (remove_all ks s).index
      ≡ contains score_order j s.index && not (contains score_order j ks)
unfolding remove_all contains
remove_all-contains j [] s synced removable = ground arith
remove_all-contains j (k ∷ ks) s synced (next here rest) = ground (
  arith,
  remove_all-contains j ks (remove_entry k s) (remove_entry-IsSynced k s synced here)
      (rw (remove_entry_index k s) rest),
  Laws.contains-remove score_order k j synced.sorted,
  remove_entry_index k s,
)

-- A part of the index can be removed.
module _ (s : SortedSetData) (synced : IsSynced s) where
  whole-IsApart : IsApart score_order s.index
  whole-IsApart = Parts.IsSorted-IsApart score_order synced.sorted

  pub keep-IsRemovable : (p : ScoreKey → Bool) → IsRemovable score_order s.index (keep p s.index)
  keep-IsRemovable p =
      Parts.apart-IsRemovable score_order (keep p s.index) synced.sorted
        (Parts.IsApart-keep score_order p whole-IsApart)
        (Parts.all-keep score_order _ p s.index (Parts.all-contains_self score_order s.index))

  take-IsRemovable : (n : ℕ) → IsRemovable score_order s.index (take n s.index)
  take-IsRemovable n =
      Parts.apart-IsRemovable score_order (take n s.index) synced.sorted
        (Parts.IsApart-take score_order n whole-IsApart)
        (Parts.all-take score_order _ n s.index (Parts.all-contains_self score_order s.index))

  take-reverse-IsRemovable : (n : ℕ) → IsRemovable score_order s.index (take n (reverse s.index))
  take-reverse-IsRemovable n =
      Parts.apart-IsRemovable score_order (take n (reverse s.index)) synced.sorted
        (Parts.IsApart-take score_order n (Parts.IsApart-reverse score_order whole-IsApart))
        (Parts.all-take score_order _ n (reverse s.index)
          (Parts.all-reverse score_order _ s.index (Parts.all-contains_self score_order s.index)))

  window-IsRemovable : (m n : ℕ) → IsRemovable score_order s.index (take n (drop m s.index))
  window-IsRemovable m n =
      Parts.apart-IsRemovable score_order (take n (drop m s.index)) synced.sorted
        (Parts.IsApart-take score_order n (Parts.IsApart-drop score_order m whole-IsApart))
        (Parts.all-take score_order _ n (drop m s.index)
          (Parts.all-drop score_order _ m s.index (Parts.all-contains_self score_order s.index)))

  range-IsRemovable :
      (start stop : ℤ) → IsRemovable score_order s.index (range_by_index start stop false s)
  unfolding range_by_index
  range-IsRemovable start stop = elim (Option-cases (normalize_index_range start stop (len s))) [
    | inl empty ↦ rw (empty, range_by_index) done
    | inr ((lo, hi), some_range) ↦ rw (some_range, range_by_index) (window-IsRemovable lo _)
  ]

  pub pop_min-IsSynced : (count : ℕ) → IsSynced (pop_min count s).1
  unfolding pop_min
  pop_min-IsSynced count = remove_all-IsSynced _ s synced (take-IsRemovable count)

  pub pop_max-IsSynced : (count : ℕ) → IsSynced (pop_max count s).1
  unfolding pop_max
  pop_max-IsSynced count = remove_all-IsSynced _ s synced (take-reverse-IsRemovable count)

  pub remove_range_by_rank-IsSynced :
      (start stop : ℤ) → IsSynced (remove_range_by_rank start stop s).1
  unfolding remove_range_by_rank
  remove_range_by_rank-IsSynced start stop =
      remove_all-IsSynced _ s synced (range-IsRemovable start stop)

  pub remove_range_by_score-IsSynced :
      (min max : ScoreBound) → IsSynced (remove_range_by_score min max s).1
  unfolding remove_range_by_score
  remove_range_by_score-IsSynced min max =
      remove_all-IsSynced _ s synced (keep-IsRemovable (score_within min max))

  pub remove_range_by_lex-IsSynced :
      (min max : LexBound) → IsSynced (remove_range_by_lex min max s).1
  unfolding remove_range_by_lex
  remove_range_by_lex-IsSynced min max =
      remove_all-IsSynced _ s synced (keep-IsRemovable (lex_within min max))

pub remove_all-length :
    (ks : List ScoreKey) (s : SortedSetData)
    → IsRemovable score_order s.index ks
    → length ks + length (remove_all ks s).index ≡ length s.index
unfolding remove_all
remove_all-length [] s removable = omega arith
remove_all-length (k ∷ ks) s (next here rest) = omega (
  arith,
  remove_all-length ks (remove_entry k s) (rw (remove_entry_index k s) rest),
  ap length (remove_entry_index k s),
  Laws.length-remove score_order k s.index here,
)

contains-keep :
    (j : ScoreKey) (p : ScoreKey → Bool) (ks : List ScoreKey)
    → contains score_order j (keep p ks) ≡ contains score_order j ks && p j
unfolding contains keep
contains-keep j p [] = ground arith
contains-keep j p (k ∷ ks) = ground (arith, contains-keep j p ks, Laws.same→eq score_order k j)

-- A score, kept if it satisfies a test.
abbrev pub filtered : (F64 → Bool) → Option F64 → Option F64
filtered q none = none
filtered q (some score) = if q score then some score else none

abbrev is_at : F64 → Option F64 → Bool
is_at score bound = elim bound [ none ↦ false | some other ↦ same_bits other score ]

filtered_unique :
    (q : F64 → Bool) (a b : Option F64)
    → ((score : F64) → is_at score a ≡ is_at score b && q score)
    → a ≡ filtered q b
filtered_unique q none none h = refl
filtered_unique q none (some y) h = ground (arith, h y, same_bits_iff y y)
filtered_unique q (some x) none h = ground (arith, h x, same_bits_iff x x)
filtered_unique q (some x) (some y) h = ground (arith, h x, same_bits_iff x x, same_bits_iff y x)

module _ (min max : ScoreBound) (s : SortedSetData) (synced : IsSynced s) where
  abbrev after : SortedSetData
  after = (remove_range_by_score min max s).1

  after-contains :
      (j : ScoreKey)
      → contains score_order j after.index
        ≡ contains score_order j s.index && not (score_in_bounds j.score min max)
  unfolding remove_range_by_score
  after-contains j = ground (
    arith,
    remove_all-contains j (keep (score_within min max) s.index) s synced
        (keep-IsRemovable s synced (score_within min max)),
    contains-keep j (score_within min max) s.index,
  )

  -- Removing a range of scores takes exactly the members whose score is within the bounds, and
  -- answers with their number.
  pub remove_range_by_score_exact :
      ((member : Bytes)
        → score member after ≡ filtered (λ x. not (score_in_bounds x min max)) (score member s))
      × ((remove_range_by_score min max s).0 + len after ≡ len s)
  unfolding remove_range_by_score
  remove_range_by_score_exact =
      let synced' = remove_range_by_score-IsSynced s synced min max in
      (
        λ member. filtered_unique _ _ _ (λ x.
            sym (synced'.agree (key x member))
            ∙ after-contains (key x member)
            ∙ ap (λ b. b && not (score_in_bounds x min max)) (synced.agree (key x member))),
        omega (
          arith,
          remove_all-length (keep (score_within min max) s.index) s
              (keep-IsRemovable s synced (score_within min max)),
          synced.lengths,
          synced'.lengths,
        ),
      )

-- The lowest entries.
remove_all-take :
    (n : ℕ) (ks : List ScoreKey) (s : SortedSetData)
    → s.index ≡ ks
    → (remove_all (take n ks) s).index ≡ drop n ks
unfolding remove_all OrderedSet.remove
remove_all-take zero ks s h = h
remove_all-take (suc n) [] s h = h
remove_all-take (suc n) (k ∷ ks) s h =
    remove_all-take n ks (remove_entry k s)
      (remove_entry_index k s ∙ rw (h, Laws.same_refl score_order k, OrderedSet.remove))

-- `pop_min` takes the lowest entries off the front of the index, as many as it is asked for or all of
-- them, and leaves the others.
pub pop_min_exact :
    (count : ℕ) (s : SortedSetData)
    → IsSynced s
    → ((pop_min count s).0 ++ (pop_min count s).1.index ≡ s.index)
      × (length (pop_min count s).0 ≡ min count (len s))
unfolding pop_min
pop_min_exact count s synced = (
  rw (remove_all-take count s.index s refl) (take-append-drop count s.index),
  length-take count s.index ∙ ap (min count) synced.lengths,
)
