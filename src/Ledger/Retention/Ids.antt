-- ===== src/Ledger/Retention/Ids.antt =====
-- The identifiers that a retention pass lists, and what pruning them leaves.
use calod.Prelude.{
  ◌≡◌, refl, Bool, false, ◌||◌, Option, none, some, List, [], ◌∷◌, map, any, keep, nat_beq,
  nat_beq_iff, nat_eq, arith, if◌then◌else◌, Bool-cases, inl, inr,
}
use calod.Prelude.Map.{Map, get, remove, values, get-remove}
use calod.Prelude.Map.Distinct.{IsDistinct, empty, bind}
use calod.Ledger.Model.{Uuid, EffectRecord}
use calod.Ledger.Indexes.{Indexes, prune_runs, prune_effect, prune_effects}
use calod.Ledger.Retention.{insert_id, sort_ids}

abbrev pub listed : List Uuid → Uuid → Bool
listed ids id = any (λ r. nat_beq r id) ids

-- `values`, filtered: what is there and passes the test.
abbrev pub passes {ℓ} : {A : Type ℓ} → (A → Bool) → Option A → Bool
passes test none = false
passes test (some a) = test a

abbrev pub unless {ℓ} : {A : Type ℓ} → (A → Bool) → Option A → Option A
unless test none = none
unless test (some a) = if test a then none else some a

listed-insert_id :
    (a id : Uuid) (ids : List Uuid) → listed (insert_id a ids) id ≡ (nat_beq a id || listed ids id)
unfolding insert_id any
listed-insert_id a id [] = refl
listed-insert_id a id (b ∷ bs) = ground (arith, listed-insert_id a id bs)

pub listed-sort_ids : (ids : List Uuid) (id : Uuid) → listed (sort_ids ids) id ≡ listed ids id
unfolding sort_ids any
listed-sort_ids [] id = refl
listed-sort_ids (a ∷ as') id =
    ground (arith, listed-insert_id a id (sort_ids as'), listed-sort_ids as' id)

module _ {V : Type 0} (id_of : V → Uuid) (test : V → Bool) where
  -- Each value is bound to its own identifier.
  abbrev pub Agrees : Map Uuid V → Type 0
  Agrees m = (k : Uuid) (v : V) → get k m ≡ some v → id_of v ≡ k

  pub head-Agrees : (k : Uuid) (v : V) (rest : Map Uuid V) → Agrees ((k, v) ∷ rest) → id_of v ≡ k
  unfolding get
  head-Agrees k v rest agrees = agrees k v (ground (arith, nat_beq_iff k k))

  pub tail-Agrees :
      (k : Uuid) (v : V) (rest : Map Uuid V)
      → get k rest ≡ none
      → Agrees ((k, v) ∷ rest)
      → Agrees rest
  unfolding get
  tail-Agrees k v rest fresh agrees j w there = agrees j w (elim (Bool-cases (nat_beq k j)) [
    | inl same ↦ let eq : k ≡ j = (nat_beq_iff k j).0 same in absurd (cc (eq, fresh, there))
    | inr other ↦ rw other there
  ])

  listed-cons :
      (k id : Uuid) (v : V) (rest : Map Uuid V)
      → id_of v ≡ k
      → get k rest ≡ none
      → listed (map id_of (keep test (values rest))) id ≡ passes test (get id rest)
      → listed (map id_of (keep test (v ∷ values rest))) id ≡ passes test (get id ((k, v) ∷ rest))
  unfolding keep any get
  listed-cons k id v rest own fresh ih = elim (Bool-cases (nat_beq k id)) [
    | inl here ↦
        let eq : k ≡ id = (nat_beq_iff k id).0 here in
        let absent : get id rest ≡ none = rw eq at fresh in
        elim (Bool-cases (test v)) [
          | inl passed ↦ rw (passed, here, own, here) (rw passed refl)
          | inr failed ↦ rw (failed, here, ih, absent) (rw failed refl)
        ]
    | inr other ↦ elim (Bool-cases (test v)) [
      | inl passed ↦ rw (passed, other, own, other) ih
      | inr failed ↦ rw (failed, other) ih
    ]
  ]

  pub listed-keep :
      (m : Map Uuid V) (id : Uuid)
      → IsDistinct m
      → Agrees m
      → listed (map id_of (keep test (values m))) id ≡ passes test (get id m)
  unfolding values keep any get
  listed-keep m id empty agrees = refl
  listed-keep m id (bind {k} {v} {m = rest} fresh d) agrees =
      listed-cons k id v rest (head-Agrees k v rest agrees) fresh
        (listed-keep rest id d (tail-Agrees k v rest fresh agrees))

get-prune_effect :
    (e id : Uuid) (o : Option EffectRecord) (ix : Indexes)
    → get e ix.effects_by_id ≡ o
    → get id (prune_effect e o ix).effects_by_id
      ≡ (if nat_beq e id then none else get id ix.effects_by_id)
unfolding prune_effect
get-prune_effect e id none ix absent = ground (arith, nat_beq_iff e id)
get-prune_effect e id (some effect) ix there = get-remove e id ix.effects_by_id

pub get-prune_effects :
    (ids : List Uuid) (id : Uuid) (ix : Indexes)
    → get id (prune_effects ids ix).effects_by_id
      ≡ (if listed ids id then none else get id ix.effects_by_id)
unfolding prune_effects any
get-prune_effects [] id ix = refl
get-prune_effects (e ∷ ids) id ix = ground (
  arith,
  get-prune_effects ids id (prune_effect e (get e ix.effects_by_id) ix),
  get-prune_effect e id (get e ix.effects_by_id) ix refl,
)

pub effects-prune_runs :
    (rs : List Uuid) (ix : Indexes) → (prune_runs rs ix).effects_by_id ≡ ix.effects_by_id
unfolding prune_runs
effects-prune_runs [] ix = refl
effects-prune_runs (r ∷ rs) ix = effects-prune_runs rs _

pub runs-prune_effects : (ids : List Uuid) (ix : Indexes) → (prune_effects ids ix).runs ≡ ix.runs
unfolding prune_effects prune_effect
runs-prune_effects [] ix = refl
runs-prune_effects (e ∷ ids) ix =
    ground (arith, runs-prune_effects ids (prune_effect e (get e ix.effects_by_id) ix))

pub get-prune_runs :
    (rs : List Uuid) (id : Uuid) (ix : Indexes)
    → get id (prune_runs rs ix).runs ≡ (if listed rs id then none else get id ix.runs)
unfolding prune_runs any
get-prune_runs [] id ix = refl
get-prune_runs (r ∷ rs) id ix = ground (
  arith,
  get-prune_runs rs id (record ix {
    runs = remove r ix.runs;
    events = remove r ix.events;
    checkpoints = remove r ix.checkpoints;
  }),
  get-remove r id ix.runs,
)
