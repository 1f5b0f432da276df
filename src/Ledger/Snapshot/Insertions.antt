-- ===== src/Ledger/Snapshot/Insertions.antt =====
-- Insertions of all values of a map, one after the other.
use calod.Prelude.{
  ◌≡◌, refl, ◌∙◌, ap, Bool, true, false, ◌||◌, Option, none, some, List, [], ◌∷◌, nat_eq, nat_beq,
  nat_beq_iff, arith, if◌then◌else◌, Bool-cases, inl, inr, any,
}
use calod.Prelude.Map.{Map, get, insert, values, get-insert}
use calod.Prelude.Map.Distinct.{IsDistinct, empty, bind}
use calod.Ledger.Model.{Uuid, EffectRecord}
use calod.Ledger.Indexes.{EffectKey, key_beq, key_beq_iff, key_eq, effect_key_of}
use calod.Ledger.Retention.Ids.{Agrees, head-Agrees, tail-Agrees}

abbrev pub or_else : {A : Type 0} → Option A → Option A → Option A
or_else none other = other
or_else (some a) other = some a

module _ {V : Type 0} (id_of : V → Uuid) where
  -- The loop of insertions.
  unfoldable pub insert_all : List V → Map Uuid V → Map Uuid V
  insert_all [] m = m
  insert_all (v ∷ vs) m = insert_all vs (insert (id_of v) v m)

  pub get-insert_all :
      (src : Map Uuid V) (id : Uuid) (m : Map Uuid V)
      → IsDistinct src
      → Agrees id_of (λ v. true) src
      → get id (insert_all (values src) m) ≡ or_else (get id src) (get id m)
  unfolding insert_all values get
  get-insert_all src id m empty agrees = refl
  get-insert_all src id m (bind {k} {v} {m = rest} fresh d) agrees =
      let own : id_of v ≡ k = head-Agrees id_of (λ v. true) k v rest agrees in
      let ih =
        get-insert_all rest id (insert (id_of v) v m) d
          (tail-Agrees id_of (λ v. true) k v rest fresh agrees) in
      ih ∙ elim (Bool-cases (nat_beq k id)) [
        | inl same ↦
            let absent : get id rest ≡ none = rw ((nat_beq_iff k id).0 same) at fresh in
            rw (absent, get-insert (id_of v) id v m, own, same) refl
        | inr other ↦ rw (get-insert (id_of v) id v m, own, other) refl
      ]

module _ {V : Type 0} (k : Uuid) (v : V) (rest : Map Uuid V) where
  get-head : get k ((k, v) ∷ rest) ≡ some v
  unfolding get
  get-head = ground (arith, nat_beq_iff k k)

  get-tail :
      get k rest ≡ none → (j : Uuid) (w : V) → get j rest ≡ some w → get j ((k, v) ∷ rest) ≡ some w
  unfolding get
  get-tail fresh j w there = elim (Bool-cases (nat_beq k j)) [
    | inl same ↦ let eq : k ≡ j = (nat_beq_iff k j).0 same in absurd (cc (eq, fresh, there))
    | inr other ↦ rw other there
  ]

-- What is visible in a map satisfies, or does not satisfy, a test.
module _ {V : Type 0} (test : V → Bool) where
  pub any-there :
      (src : Map Uuid V) (k : Uuid) (v : V)
      → get k src ≡ some v
      → test v ≡ true
      → any test (values src) ≡ true
  unfolding any values get
  any-there [] k v there h = absurd (cc)
  any-there ((j, w) ∷ rest) k v there h = elim (Bool-cases (nat_beq j k)) [
    | inl same ↦
        let eq : some w ≡ some v = rw same at there in
        let passed : test w ≡ true = cc (eq, h) in rw passed refl
    | inr other ↦ ground (arith, any-there rest k v (rw other at there) h)
  ]

  pub any-absent :
      (src : Map Uuid V)
      → IsDistinct src
      → ((k : Uuid) (v : V) → get k src ≡ some v → test v ≡ false)
      → any test (values src) ≡ false
  unfolding any values get
  any-absent src empty h = refl
  any-absent src (bind {k} {v} {m = rest} fresh d) h = ground (
    arith,
    h k v (get-head k v rest),
    any-absent rest d (λ j w there. h j w (get-tail k v rest fresh j w there)),
  )

-- The keys of the effects that are inserted.
unfoldable pub insert_keys : List EffectRecord → Map EffectKey Uuid → Map EffectKey Uuid
insert_keys [] m = m
insert_keys (e ∷ es) m = insert_keys es (insert (effect_key_of e) e.id m)

abbrev pub has_key : EffectKey → EffectRecord → Bool
has_key key e = key_beq (effect_key_of e) key

keys_step :
    (hit later : Bool) (own id : Uuid) (before : Option Uuid) {inserted : Option Uuid}
    → inserted ≡ (if hit then some own else before)
    → (hit ≡ true → own ≡ id)
    → (if later then some id else inserted) ≡ (if hit || later then some id else before)
keys_step true true own id before h same = refl
keys_step true false own id before h same = h ∙ ap some (same refl)
keys_step false true own id before h same = refl
keys_step false false own id before h same = h

pub get-insert_keys :
    (src : Map Uuid EffectRecord) (key : EffectKey) (id : Uuid) (m : Map EffectKey Uuid)
    → IsDistinct src
    → ((k : Uuid) (e : EffectRecord) → get k src ≡ some e → effect_key_of e ≡ key → e.id ≡ id)
    → get key (insert_keys (values src) m)
      ≡ (if any (has_key key) (values src) then some id else get key m)
unfolding insert_keys any values
get-insert_keys src key id m empty same = refl
get-insert_keys src key id m (bind {k} {v} {m = rest} fresh d) same =
    let ih =
      get-insert_keys rest key id (insert (effect_key_of v) v.id m) d
        (λ j w there. same j w (get-tail k v rest fresh j w there)) in
    ih
    ∙ keys_step (has_key key v) (any (has_key key) (values rest)) v.id id (get key m)
        (get-insert (effect_key_of v) key v.id m)
        (λ hit. same k v (get-head k v rest) ((key_beq_iff (effect_key_of v) key).0 hit))
