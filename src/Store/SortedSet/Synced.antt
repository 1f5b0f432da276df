-- ===== src/Store/SortedSet/Synced.antt =====
-- About the two structures of a sorted set, the map and the index.
use calod.Prelude.{
  suc, ◌≡◌, ◌↔◌, refl, sym, ap, ◌∙◌, Bool, true, false, ◌&&◌, none, some, List, arith, length,
  str_Eq, str_eq, str_eq_iff, Bool-cases, Option-cases, inl, inr,
}
use calod.Prelude.Map.{Map, get, insert, remove, get-insert, get-remove}
use calod.Prelude.Map.Distinct.{
  IsDistinct, empty, insert-IsDistinct, remove-IsDistinct, length-insert_new, length-insert_old,
  length-remove,
}
use calod.Store.F64.{F64, same_bits, same_bits_iff}
use calod.Store.OrderedSet
use calod.Store.OrderedSet.{IsSorted, nil, contains, same}
use calod.Store.OrderedSet.Laws
use calod.Store.SortedSet.{SortedSetData, new, key, add, remove_entry, remove_member}
use calod.Store.SortedSet.Keys.{ScoreKey, score_order, Bytes}

-- The map binds the key's member to the key's score.
abbrev pub holds : ScoreKey → Map Bytes F64 → Bool
holds k m = elim (get k.member m) [ none ↦ false | some score ↦ same_bits score k.score ]

pub record IsSynced (s : SortedSetData) : Type 0 where
  pub sorted : IsSorted score_order s.index
  pub agree : (k : ScoreKey) → contains score_order k s.index ≡ holds k s.map_of
  pub distinct : IsDistinct s.map_of
  pub lengths : length s.index ≡ length s.map_of

pub same_key : (a b : ScoreKey) → (same score_order a b ≡ true) ↔ (a ≡ b)
same_key a b = (Laws.same→eq score_order a b, λ e. rw e (Laws.same_refl score_order b))

pub new-IsSynced : IsSynced new
unfolding get
new-IsSynced = record {
  sorted = nil;
  agree = λ k. unfold contains in refl;
  distinct = empty;
  lengths = refl;
}

pub same_parts :
    (a b : ScoreKey) → same score_order a b ≡ str_eq a.member b.member && same_bits a.score b.score
same_parts a b =
    ground (arith, same_key a b, str_eq_iff a.member b.member, same_bits_iff a.score b.score)

-- A member that is not in the set is added to both.
module _ (member : Bytes) (score : F64) (s : SortedSetData) (synced : IsSynced s)
    (fresh : get member s.map_of ≡ none) where
  fresh-contains : contains score_order (key score member) s.index ≡ false
  fresh-contains = ground (arith, synced.agree (key score member), fresh)

  add_new_agree :
      (k : ScoreKey)
      → contains score_order k (OrderedSet.insert score_order (key score member) s.index)
        ≡ holds k (insert member score s.map_of)
  add_new_agree k = ground (
    arith,
    Laws.contains-insert score_order (key score member) k s.index,
    get-insert member k.member score s.map_of,
    same_parts (key score member) k,
    synced.agree k,
    str_eq_iff member k.member,
    fresh,
  )

  add_new-IsSynced : IsSynced (record {
    map_of = insert member score s.map_of;
    index = OrderedSet.insert score_order (key score member) s.index;
  })
  add_new-IsSynced = record {
    sorted = Laws.insert-IsSorted score_order (key score member) synced.sorted;
    agree = add_new_agree;
    distinct = insert-IsDistinct member score s.map_of synced.distinct;
    lengths =
        Laws.length-insert score_order (key score member) s.index fresh-contains
        ∙ ap suc synced.lengths
        ∙ sym (length-insert_new member score s.map_of fresh);
  }

-- An entry that is in the set is removed from both.
module _ (k : ScoreKey) (s : SortedSetData) (synced : IsSynced s)
    (here : contains score_order k s.index ≡ true) where
  pub here-get : get k.member s.map_of ≡ some k.score
  here-get = elim (Option-cases (get k.member s.map_of)) [
    | inl none_bound ↦ ground (arith, synced.agree k, here, none_bound)
    | inr (sc, bound) ↦ ground (arith, synced.agree k, here, bound, same_bits_iff sc k.score)
  ]

  remove_entry_agree :
      (j : ScoreKey)
      → contains score_order j (OrderedSet.remove score_order k s.index)
        ≡ holds j (remove k.member s.map_of)
  remove_entry_agree j = ground (
    arith,
    Laws.contains-remove score_order k j synced.sorted,
    get-remove k.member j.member s.map_of,
    same_parts k j,
    synced.agree j,
    str_eq_iff k.member j.member,
    here-get,
  )

  pub remove_entry-IsSynced : IsSynced (remove_entry k s)
  unfolding remove_entry
  remove_entry-IsSynced = record {
    sorted = Laws.remove-IsSorted score_order k synced.sorted;
    agree = remove_entry_agree;
    distinct = remove-IsDistinct k.member s.map_of synced.distinct;
    lengths = omega (
      arith,
      Laws.length-remove score_order k s.index here,
      synced.lengths,
      length-remove k.member k.score synced.distinct here-get,
    );
  }

pub holds-key :
    (member : Bytes) (score : F64) (m : Map Bytes F64)
    → get member m ≡ some score
    → holds (key score member) m ≡ true
holds-key member score m h = ground (arith, h, same_bits_iff score score)

-- Removing a member.
pub remove_member-IsSynced :
    (member : Bytes) (s : SortedSetData) → IsSynced s → IsSynced (remove_member member s).0
unfolding remove_member
remove_member-IsSynced member s synced = elim (Option-cases (get member s.map_of)) [
  | inl absent ↦ rw (absent, remove_member) synced
  | inr (score, bound) ↦
      rw (bound, remove_member)
        (remove_entry-IsSynced (key score member) s synced
          (synced.agree (key score member) ∙ holds-key member score s.map_of bound))
]

-- A member that is in the set under another score moves.
module _ (member : Bytes) (score old : F64) (s : SortedSetData) (synced : IsSynced s)
    (bound : get member s.map_of ≡ some old) where
  old-contains : contains score_order (key old member) s.index ≡ true
  old-contains = synced.agree (key old member) ∙ holds-key member old s.map_of bound

  abbrev without : List ScoreKey
  without = OrderedSet.remove score_order (key old member) s.index

  without_score :
      same_bits old score ≡ false → contains score_order (key score member) without ≡ false
  without_score moved = ground (
    arith,
    Laws.contains-remove score_order (key old member) (key score member) synced.sorted,
    synced.agree (key score member),
    bound,
    moved,
  )

  add_moved_agree :
      same_bits old score ≡ false
      → (k : ScoreKey)
      → contains score_order k (OrderedSet.insert score_order (key score member) without)
        ≡ holds k (insert member score s.map_of)
  add_moved_agree moved k = ground (
    arith,
    Laws.contains-insert score_order (key score member) k without,
    Laws.contains-remove score_order (key old member) k synced.sorted,
    get-insert member k.member score s.map_of,
    same_parts (key score member) k,
    same_parts (key old member) k,
    synced.agree k,
    str_eq_iff member k.member,
    bound,
    same_bits_iff old k.score,
    same_bits_iff score k.score,
    same_bits_iff old score,
  )

  add_moved-IsSynced :
      same_bits old score ≡ false
      → IsSynced (record {
        map_of = insert member score s.map_of;
        index = OrderedSet.insert score_order (key score member) without;
      })
  add_moved-IsSynced moved = record {
    sorted =
        Laws.insert-IsSorted score_order (key score member)
          (Laws.remove-IsSorted score_order (key old member) synced.sorted);
    agree = add_moved_agree moved;
    distinct = insert-IsDistinct member score s.map_of synced.distinct;
    lengths = omega (
      arith,
      Laws.length-insert score_order (key score member) without (without_score moved),
      Laws.length-remove score_order (key old member) s.index old-contains,
      synced.lengths,
      length-insert_old member score old s.map_of bound,
    );
  }

  add_same-IsSynced :
      same_bits old score ≡ true → IsSynced (record s { map_of = insert member score s.map_of })
  add_same-IsSynced same = record {
    sorted = synced.sorted;
    agree = λ k. ground (
      arith,
      get-insert member k.member score s.map_of,
      synced.agree k,
      bound,
      str_eq_iff member k.member,
      same_bits_iff old score,
      same,
    );
    distinct = insert-IsDistinct member score s.map_of synced.distinct;
    lengths = synced.lengths ∙ sym (length-insert_old member score old s.map_of bound);
  }

pub add-IsSynced :
    (member : Bytes) (score : F64) (s : SortedSetData)
    → IsSynced s
    → IsSynced (add member score s).0
unfolding add
add-IsSynced member score s synced = elim (Option-cases (get member s.map_of)) [
  | inl fresh ↦ rw (fresh, add) (add_new-IsSynced member score s synced fresh)
  | inr (old, bound) ↦ elim (Bool-cases (same_bits old score)) [
    | inl same ↦ rw (bound, same, add) (add_same-IsSynced member score old s synced bound same)
    | inr moved ↦ rw (bound, moved, add) (add_moved-IsSynced member score old s synced bound moved)
  ]
]
