-- ===== src/Store/Stream/Groups.antt =====
-- Consumer groups of a stream: calod/crates/calod-core/src/store/stream.rs. `HashSet` is a map to unit.
use calod.Prelude.{ℕ, Bool, true, false, none, some, [], ◌∷◌, Str, str_Eq}
use Prim.{Unit}
use calod.Prelude.Map.{Map, get, insert, remove}
use calod.Store.Stream.Ids.{StreamId, id_Eq, Tree}

pub record PendingEntry : Type 0 where
  pub consumer : Str
  pub delivery_time_ms : ℕ
  pub delivery_count : ℕ

pub record Consumer : Type 0 where
  pub pending : Map StreamId (Unit {0})
  pub seen_time_ms : ℕ
  pub active_time_ms : ℕ

pub record ConsumerGroup : Type 0 where
  pub last_delivered_id : StreamId
  pub pending : Tree PendingEntry
  pub consumers : Map Str Consumer
  pub entries_read : ℕ

abbrev pub default_consumer : Consumer
default_consumer = record { pending = []; seen_time_ms = 0; active_time_ms = 0 }

abbrev pub new_group : StreamId → ConsumerGroup
new_group start = record {
  last_delivered_id = start;
  pending = [];
  consumers = [];
  entries_read = 0;
}

-- `if let Some(c) = consumers.get_mut(name)`
unfoldable pub with_consumer : Str → (Consumer → Consumer) → ConsumerGroup → ConsumerGroup
with_consumer name f g = elim (get name g.consumers) [
  | none ↦ g
  | some c ↦ record g { consumers = insert name (f c) g.consumers }
]

-- `consumers.entry(name).or_default()`
unfoldable pub or_default : Str → ConsumerGroup → ConsumerGroup
or_default name g = elim (get name g.consumers) [
  | none ↦ record g { consumers = insert name default_consumer g.consumers }
  | some c ↦ g
]

-- `c.pending.remove(id)` for the consumer of that name
unfoldable pub release : StreamId → Str → ConsumerGroup → ConsumerGroup
release id name g = with_consumer name (λ c. record c { pending = remove id c.pending }) g

-- A pending entry leaves the group and its consumer.
unfoldable pub purge : StreamId → PendingEntry → ConsumerGroup → ConsumerGroup
unfolding release
purge id p g = release id p.consumer (record g { pending = remove id g.pending })

unfoldable pub create_consumer : Str → ℕ → ConsumerGroup → ConsumerGroup × Bool
create_consumer name now_ms g = elim (get name g.consumers) [
  | some c ↦ (g, false)
  | none ↦ (
    record g {
      consumers =
          insert name (record { pending = []; seen_time_ms = now_ms; active_time_ms = now_ms })
            g.consumers;
    },
    true,
  )
]

unfoldable pub forget_ids : Map StreamId (Unit {0}) → Tree PendingEntry → Tree PendingEntry
forget_ids [] t = t
forget_ids ((id, u) ∷ ids) t = forget_ids ids (remove id t)
