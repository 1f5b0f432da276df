-- ===== src/Store/SortedSet/Ranks.antt =====
-- About ranks: a member's rank is its place in the index.
use calod.Prelude.{
  ℕ, zero, suc, ◌≡◌, ◌↔◌, refl, ◌∙◌, true, Option, none, some, List, [], ◌∷◌, arith, all,
  Bool-cases, inl, inr, Option-cases, get_elem?, str_Eq,
}
use calod.Prelude.Map.{get}
use calod.Store.OrderedSet.{IsSorted, nil, cons, contains, same}
use calod.Store.OrderedSet.Laws
use calod.Store.SortedSet.{SortedSetData, key, count_below, rank}
use calod.Store.SortedSet.Keys.{ScoreKey, score_order, key_lt, key_lt_irrefl, Bytes}
use calod.Store.SortedSet.Synced.{IsSynced, holds-key, here-get}

above_lt :
    (k x : ScoreKey) (xs : List ScoreKey)
    → all (key_lt x) xs ≡ true
    → contains score_order k xs ≡ true
    → key_lt x k ≡ true
unfolding all contains
above_lt k x [] above here = cc
above_lt k x (y ∷ ys) above here = ground (arith, above_lt k x ys, Laws.same→eq score_order y k)

count_below-first : (k : ScoreKey) (xs : List ScoreKey) → count_below k (k ∷ xs) ≡ 0
unfolding count_below
count_below-first k xs = rw (key_lt_irrefl k) refl

-- The entries below an entry of the index are those before it.
get_elem?-count_below :
    (k : ScoreKey) {xs : List ScoreKey}
    → IsSorted score_order xs
    → contains score_order k xs ≡ true
    → get_elem? xs (count_below k xs) ≡ some k
unfolding count_below contains
get_elem?-count_below k nil here = cc
get_elem?-count_below k (cons {x = x} {xs = xs} above sorted) here =
    elim (Bool-cases (same score_order x k)) [
      | inl first ↦ rw (Laws.same→eq score_order x k first, key_lt_irrefl k) refl
      | inr later ↦
          let deeper : contains score_order k xs ≡ true = ground (arith, here, later) in
          rw (above_lt k x xs above deeper) (get_elem?-count_below k sorted deeper)
    ]

get_elem?-contains :
    (k : ScoreKey) (xs : List ScoreKey) (r : ℕ)
    → get_elem? xs r ≡ some k
    → contains score_order k xs ≡ true
unfolding contains
get_elem?-contains k [] r h = cc
get_elem?-contains k (x ∷ xs) zero h = ground (arith, h, Laws.same_refl score_order k)
get_elem?-contains k (x ∷ xs) (suc r) h = ground (arith, get_elem?-contains k xs r h)

count_below_unique :
    (k : ScoreKey) {xs : List ScoreKey} (r : ℕ)
    → IsSorted score_order xs
    → get_elem? xs r ≡ some k
    → count_below k xs ≡ r
unfolding count_below
count_below_unique k r nil h = cc
count_below_unique k zero (cons {x = x} {xs = xs} above sorted) h =
    ground (arith, h, key_lt_irrefl k)
count_below_unique k (suc r) (cons {x = x} {xs = xs} above sorted) h =
    rw (above_lt k x xs above (get_elem?-contains k xs r h), count_below_unique k r sorted h)

-- The member at a place of the index.
abbrev member_at : ℕ → SortedSetData → Option Bytes
member_at r s = elim (get_elem? s.index r) [ none ↦ none | some k ↦ some k.member ]

module _ (s : SortedSetData) (synced : IsSynced s) (member : Bytes) (r : ℕ) where
  at_rank : rank member s ≡ some r → member_at r s ≡ some member
  unfolding rank
  at_rank h = elim (Option-cases (get member s.map_of)) [
    | inl absent ↦ ground (arith, h, absent)
    | inr (sc, bound) ↦
        let here : contains score_order (key sc member) s.index ≡ true =
          synced.agree (key sc member) ∙ holds-key member sc s.map_of bound in
        ground (arith, h, bound, get_elem?-count_below (key sc member) synced.sorted here)
  ]

  of_place : member_at r s ≡ some member → rank member s ≡ some r
  unfolding rank
  of_place h = elim (Option-cases (get_elem? s.index r)) [
    | inl beyond ↦ ground (arith, h, beyond)
    | inr (k, there) ↦ ground (
      arith,
      h,
      there,
      count_below_unique k r synced.sorted there,
      here-get k s synced (get_elem?-contains k s.index r there),
    )
  ]

  -- A member's rank is r exactly if the member stands at place r of the order by score and member.
  pub rank_iff : (rank member s ≡ some r) ↔ (member_at r s ≡ some member)
  rank_iff = (at_rank, of_place)
