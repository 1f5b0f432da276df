-- ===== src/Store/Stream/Joins.antt =====
-- About consumers that join or leave a group.
use calod.Prelude.{ℕ, ◌≡◌, true, none, [], Str, str_Eq, str_eq_iff, arith, Option-cases, inl, inr}
use calod.Prelude.Map.{get, insert, get-insert}
use calod.Store.Stream.Ids.{id_Eq}
use calod.Store.Stream.Groups.{ConsumerGroup, or_default, create_consumer, default_consumer}
use calod.Store.Stream.Owners.{IsOwned, is_present}

-- A consumer that joins has no entries.
module _ (name : Str) (now_ms : ℕ) (g : ConsumerGroup) (absent : get name g.consumers ≡ none) where
  abbrev joined : ConsumerGroup
  joined = record g {
    consumers =
        insert name (record { pending = []; seen_time_ms = now_ms; active_time_ms = now_ms })
          g.consumers;
  }

  joined-IsOwned : IsOwned g → IsOwned joined
  unfolding get
  joined-IsOwned owned n j = ground (
    arith,
    owned n j,
    absent,
    str_eq_iff name n,
    get-insert name n (record { pending = []; seen_time_ms = now_ms; active_time_ms = now_ms })
        g.consumers,
  )

pub create_consumer-IsOwned :
    (name : Str) (now_ms : ℕ) (g : ConsumerGroup)
    → IsOwned g
    → IsOwned (create_consumer name now_ms g).0
unfolding create_consumer
create_consumer-IsOwned name now_ms g owned = elim (Option-cases (get name g.consumers)) [
  | inl absent ↦ rw (absent, create_consumer) (joined-IsOwned name now_ms g absent owned)
  | inr (c, here) ↦ rw (here, create_consumer) owned
]

pub or_default-IsOwned : (name : Str) (g : ConsumerGroup) → IsOwned g → IsOwned (or_default name g)
unfolding or_default
or_default-IsOwned name g owned = elim (Option-cases (get name g.consumers)) [
  | inl absent ↦ rw (absent, or_default) (joined-IsOwned name 0 g absent owned)
  | inr (c, here) ↦ rw (here, or_default) owned
]

pub or_default-present :
    (name : Str) (g : ConsumerGroup) → is_present name (or_default name g) ≡ true
unfolding or_default
or_default-present name g = elim (Option-cases (get name g.consumers)) [
  | inl absent ↦
      rw (absent, or_default)
        (ground (arith, get-insert name name default_consumer g.consumers, str_eq_iff name name))
  | inr (c, here) ↦ rw (here, or_default) (ground (arith, here))
]
