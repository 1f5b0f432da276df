-- ===== src/Store/Stream/Ascending.antt =====
-- About entries in the order of their ids.
use calod.Prelude.{
  ◌≡◌, refl, Bool, true, not, List, [], ◌∷◌, str_Eq, arith, Bool-cases, inl, inr, all,
}
use calod.Prelude.Map.{remove}
use calod.Store.Stream.{remove_ids}
use calod.Store.Stream.Ids.{StreamId, id_Eq, id_eq, id_lt, Tree, Fields, Entry, put}
use calod.Store.Stream.Delivered.{IsAscending, end, step}

pub all-put :
    (p : Entry → Bool) (k : StreamId) (v : Fields) (t : Tree Fields)
    → p (k, v) ≡ true
    → all p t ≡ true
    → all p (put k v t) ≡ true
unfolding all put
all-put p k v [] h rest = ground arith
all-put p k v ((j, w) ∷ t) h rest = ground (arith, all-put p k v t h)

pub all-above :
    (k j : StreamId) (t : Tree Fields)
    → id_lt k j ≡ true
    → all (λ f. id_lt j f.0) t ≡ true
    → all (λ f. id_lt k f.0) t ≡ true
unfolding all
all-above k j [] h above = refl
all-above k j ((i, v) ∷ t) h above = ground (arith, all-above k j t h)

same_place :
    (k j : StreamId) {v : Fields} (t : Tree Fields)
    → k ≡ j
    → all (λ f. id_lt j f.0) t ≡ true
    → IsAscending t
    → IsAscending ((k, v) ∷ t)
same_place k j t same above sorted = step (rw same above) sorted

pub put-IsAscending :
    (k : StreamId) (v : Fields) {t : Tree Fields} → IsAscending t → IsAscending (put k v t)
unfolding put all
put-IsAscending k v end = step refl end
put-IsAscending k v (step {e = (j, w)} {es = t} above sorted) = elim (Bool-cases (id_lt k j)) [
  | inl first ↦ rw first (step (ground (arith, all-above k j t first above)) (step above sorted))
  | inr later ↦ elim (Bool-cases (id_lt j k)) [
    | inl inside ↦
        rw (later, inside) (step (all-put _ k v t inside above) (put-IsAscending k v sorted))
    | inr here ↦ rw (later, here) (same_place k j t (ground (arith, later, here)) above sorted)
  ]
]

pub all-remove :
    (p : Entry → Bool) (k : StreamId) (t : Tree Fields) → all p t ≡ true → all p (remove k t) ≡ true
unfolding all remove
all-remove p k [] h = refl
all-remove p k ((j, w) ∷ t) h = ground (arith, all-remove p k t)

pub remove-IsAscending : (k : StreamId) {t : Tree Fields} → IsAscending t → IsAscending (remove k t)
unfolding remove
remove-IsAscending k end = end
remove-IsAscending k (step {e = (j, w)} {es = t} above sorted) = elim (Bool-cases (id_eq j k)) [
  | inl here ↦ rw here (remove-IsAscending k sorted)
  | inr other ↦ rw other (step (all-remove _ k t above) (remove-IsAscending k sorted))
]

pub remove_ids-IsAscending :
    (ids : List StreamId) {t : Tree Fields} → IsAscending t → IsAscending (remove_ids ids t)
unfolding remove_ids
remove_ids-IsAscending [] sorted = sorted
remove_ids-IsAscending (id ∷ ids) sorted = remove_ids-IsAscending ids (remove-IsAscending id sorted)

-- No entry is newer than the id.
abbrev pub capped : StreamId → Tree Fields → Bool
capped last t = all (λ f. not (id_lt last f.0)) t

pub capped-later :
    (a b : StreamId) (t : Tree Fields) → id_lt a b ≡ true → capped a t ≡ true → capped b t ≡ true
unfolding all
capped-later a b [] h below = refl
capped-later a b ((j, v) ∷ t) h below = ground (arith, capped-later a b t h)

pub all-remove_ids :
    (p : Entry → Bool) (ids : List StreamId) (t : Tree Fields)
    → all p t ≡ true
    → all p (remove_ids ids t) ≡ true
unfolding remove_ids
all-remove_ids p [] t h = h
all-remove_ids p (id ∷ ids) t h = all-remove_ids p ids (remove id t) (all-remove p id t h)
