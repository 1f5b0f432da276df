-- ===== src/Store/Stream/Ids.antt =====
-- Stream ids and the maps that they order: calod/crates/calod-core/src/store/stream.rs.
use calod.Prelude.{
  ℕ, ◌≡◌, ◌↔◌, refl, Bool, true, ◌&&◌, ◌||◌, List, [], ◌∷◌, some, Eq, ltb, nat_beq, arith,
  if◌then◌else◌,
}
use calod.Prelude.Map.{Map, get}

-- Two `u64`s, compared in this order.
pub record StreamId : Type 0 where
  pub ms : ℕ
  pub seq : ℕ

abbrev pub min_id : StreamId
min_id = record { ms = 0; seq = 0 }

abbrev pub id_lt : StreamId → StreamId → Bool
id_lt a b = ltb a.ms b.ms || (nat_beq a.ms b.ms && ltb a.seq b.seq)

abbrev pub id_eq : StreamId → StreamId → Bool
id_eq a b = nat_beq a.ms b.ms && nat_beq a.seq b.seq

pub id_eq_iff : (a b : StreamId) → (id_eq a b ≡ true) ↔ (a ≡ b)
id_eq_iff a b = (λ h. ground arith, λ h. ground arith)

instance abbrev pub id_Eq : Eq StreamId
id_Eq = record { beq = id_eq; beq_iff = id_eq_iff }

-- `BTreeMap` with these ids as keys: the bindings in the order of the ids.
abbrev pub Tree {ℓ} : Type ℓ → Type ℓ
Tree V = Map StreamId V

-- The field/value pairs of an entry.
abbrev pub Fields : Type 0
Fields = List (List ℕ × List ℕ)

abbrev pub Entry : Type 0
Entry = StreamId × Fields

module _ {ℓ} {V : Type ℓ} where
  -- `tree.insert(k, v)`
  unfoldable pub put : StreamId → V → Tree V → Tree V
  put k v [] = (k, v) ∷ []
  put k v ((j, w) ∷ t) =
      let rest = put k v t in
      if id_lt k j then (k, v) ∷ (j, w) ∷ t else if id_lt j k then (j, w) ∷ rest else (k, v) ∷ t

  pub get-put :
      (k j : StreamId) (v : V) (t : Tree V)
      → get j (put k v t) ≡ (if id_eq k j then some v else get j t)
  unfolding get put
  get-put k j v [] = refl
  get-put k j v ((i, w) ∷ t) = ground (arith, get-put k j v t)
