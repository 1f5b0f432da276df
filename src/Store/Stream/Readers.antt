-- ===== src/Store/Stream/Readers.antt =====
-- Groups, their consumers, and reading and acknowledging as a consumer:
-- calod/crates/calod-core/src/store/stream.rs. An answer `none` says that there is no such group.
use calod.Prelude.{
  ℕ, ◌+◌, ◌%◌, Bool, true, false, not, ◌&&◌, Option, none, some, List, [], ◌∷◌, Str, str_Eq, str_eq,
  map, keep, take, length, if◌then◌else◌,
}
use Prim.{tt}
use calod.Prelude.Int.{two64}
use calod.Prelude.Map.{get, insert, remove}
use calod.Store.Stream.{StreamData, collect_limited}
use calod.Store.Stream.Ids.{StreamId, id_Eq, id_lt, Tree, put, Entry, Fields}
use calod.Store.Stream.Groups.{
  ConsumerGroup, new_group, with_consumer, or_default, purge, forget_ids,
}

abbrev pub set_group : Str → ConsumerGroup → StreamData → StreamData
set_group name g s = record s { groups = insert name g s.groups }

-- An operation on one group: `self.groups.get_mut(group)?`, and `none` if it is not there.
unfoldable pub in_group {ℓ} :
    {A : Type ℓ} → Str → (ConsumerGroup → ConsumerGroup × A) → StreamData → StreamData × Option A
in_group group f s = elim (get group s.groups) [
  | none ↦ (s, none)
  | some g ↦ (set_group group (f g).0 s, some (f g).1)
]

unfoldable pub create_group : Str → StreamId → StreamData → StreamData × Bool
create_group name start s = elim (get name s.groups) [
  | some g ↦ (s, false)
  | none ↦ (set_group name (new_group start) s, true)
]

unfoldable pub set_group_id : Str → StreamId → StreamData → StreamData × Bool
set_group_id name id s = elim (get name s.groups) [
  | some g ↦ (set_group name (record g { last_delivered_id = id }) s, true)
  | none ↦ (s, false)
]

unfoldable pub destroy_group : Str → StreamData → StreamData × Bool
destroy_group name s = elim (get name s.groups) [
  | some g ↦ (record s { groups = remove name s.groups }, true)
  | none ↦ (s, false)
]

-- `del_consumer` in one group, and the number of its pending entries.
unfoldable pub del_consumer : Str → ConsumerGroup → ConsumerGroup × ℕ
del_consumer name g = elim (get name g.consumers) [
  | some c ↦ (
    record g { consumers = remove name g.consumers; pending = forget_ids c.pending g.pending },
    length c.pending,
  )
  | none ↦ (g, 0)
]

-- One entry that `group_read_new` delivers.
unfoldable pub deliver : Str → ℕ → Bool → StreamId → ConsumerGroup → ConsumerGroup
deliver consumer now_ms noack id g =
    let read = record g { last_delivered_id = id; entries_read = (g.entries_read + 1) % two64 } in
    if noack
    then read
    else with_consumer consumer (λ c. record c { pending = insert id tt c.pending })
        (record read {
          pending =
              put id (record { consumer = consumer; delivery_time_ms = now_ms; delivery_count = 1 })
                g.pending;
        })

unfoldable pub deliver_all : Str → ℕ → Bool → List Entry → ConsumerGroup → ConsumerGroup
deliver_all consumer now_ms noack [] g = g
deliver_all consumer now_ms noack ((id, fields) ∷ es) g =
    deliver_all consumer now_ms noack es (deliver consumer now_ms noack id g)

-- `seen_time_ms`, and `active_time_ms` if something was read.
unfoldable pub touch : Str → ℕ → Bool → ConsumerGroup → ConsumerGroup
touch consumer now_ms active g =
    with_consumer consumer
      (λ c. record c {
        seen_time_ms = now_ms;
        active_time_ms = if active then now_ms else c.active_time_ms;
      })
      g

abbrev pub is_some_entry : List Entry → Bool
is_some_entry [] = false
is_some_entry (e ∷ es) = true

-- The entries after the last one that the group delivered.
abbrev pub undelivered : Tree Fields → Option ℕ → ConsumerGroup → List Entry
undelivered entries count g =
    collect_limited (keep (λ e. id_lt g.last_delivered_id e.0) entries) count

unfoldable pub read_new : Tree Fields → Str → Option ℕ → ℕ → Bool → ConsumerGroup → ConsumerGroup
read_new entries consumer count now_ms noack g =
    let es = undelivered entries count g in
    touch consumer now_ms (is_some_entry es)
      (deliver_all consumer now_ms noack es (or_default consumer g))

unfoldable pub group_read_new :
    Str → Str → Option ℕ → ℕ → Bool → StreamData → StreamData × Option (List Entry)
unfolding in_group read_new
group_read_new group consumer count now_ms noack s =
    in_group group
      (λ g. (read_new s.entries consumer count now_ms noack g, undelivered s.entries count g)) s

-- Entries that were deleted are answered without fields.
abbrev pub fields_of : StreamId → Tree Fields → Fields
fields_of id entries = elim (get id entries) [ none ↦ [] | some fields ↦ fields ]

abbrev pub take_upto {ℓ} : {A : Type ℓ} → Option ℕ → List A → List A
take_upto none xs = xs
take_upto (some n) xs = take n xs

unfoldable pub group_read_history :
    Str → Str → StreamId → Option ℕ → ℕ → StreamData → StreamData × Option (List Entry)
unfolding in_group touch
group_read_history group consumer from count now_ms s =
    in_group group
      (λ g. (
        touch consumer now_ms false g,
        map (λ e. (e.0, fields_of e.0 s.entries))
            (take_upto count
              (keep (λ e. not (id_lt e.0 from) && str_eq e.1.consumer consumer) g.pending)),
      ))
      s

-- `ack` in one group, and the number of ids that were pending.
unfoldable pub ack : List StreamId → ConsumerGroup → ConsumerGroup × ℕ
ack [] g = (g, 0)
ack (id ∷ ids) g = elim (get id g.pending) [
  | none ↦ ack ids g
  | some p ↦ let (after, n) = ack ids (purge id p g) in (after, n + 1)
]
