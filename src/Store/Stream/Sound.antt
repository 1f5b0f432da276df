-- ===== src/Store/Stream/Sound.antt =====
-- About sound groups: each operation on a group keeps them.
use calod.Prelude.{
  ℕ, ◌≡◌, refl, sym, ◌∙◌, Bool, true, false, Option, none, some, Str, str_Eq, str_eq_iff, arith,
  Option-cases, inl, inr, if◌then◌else◌, all,
}
use calod.Prelude.Map.{get}
use calod.Store.Stream.Ids.{StreamId, id_Eq, id_lt, Tree, Fields}
use calod.Store.Stream.Groups.{ConsumerGroup, Consumer, new_group, or_default}
use calod.Store.Stream.Readers.{touch, undelivered, read_new}
use calod.Store.Stream.Owners.{
  holds, has, mapped, IsOwned, is_present, with_consumer-pending, with_consumer-last,
  with_consumer-owns, get-with_consumer,
}
use calod.Store.Stream.Joins.{or_default-IsOwned, or_default-present}
use calod.Store.Stream.Keeps.{Keeps}
use calod.Store.Stream.Delivered.{
  IsBelow, IsAscending, IsHealthy, deliver_all-IsHealthy, all-keep_self, all-collect_limited,
  IsAscending-keep, IsAscending-collect_limited,
}

-- The consumers own what the group says, and nothing newer than the last delivery is pending.
pub record IsSound (g : ConsumerGroup) : Type 0 where
  pub owned : IsOwned g
  pub below : IsBelow g

pub new_group-IsSound : (start : StreamId) → IsSound (new_group start)
unfolding get
new_group-IsSound start = record { owned = λ name id. refl; below = λ j h. ground arith }

-- Reading again from an earlier place would deliver what is pending. This one is not earlier.
pub later-IsSound :
    (id : StreamId) (g : ConsumerGroup)
    → id_lt id g.last_delivered_id ≡ false
    → IsSound g
    → IsSound (record g { last_delivered_id = id })
later-IsSound id g later sound = record {
  owned = sound.owned;
  below = λ j h. ground (arith, later, sound.below j h);
}

pub or_default-pending : (name : Str) (g : ConsumerGroup) → (or_default name g).pending ≡ g.pending
unfolding or_default
or_default-pending name g = elim (Option-cases (get name g.consumers)) [
  | inl absent ↦ rw (absent, or_default) refl
  | inr (c, here) ↦ rw (here, or_default) refl
]

pub or_default-last :
    (name : Str) (g : ConsumerGroup) → (or_default name g).last_delivered_id ≡ g.last_delivered_id
unfolding or_default
or_default-last name g = elim (Option-cases (get name g.consumers)) [
  | inl absent ↦ rw (absent, or_default) refl
  | inr (c, here) ↦ rw (here, or_default) refl
]

pub or_default-IsHealthy :
    (name : Str) (g : ConsumerGroup) → IsSound g → IsHealthy name (or_default name g)
or_default-IsHealthy name g sound = record {
  present = or_default-present name g;
  owned = or_default-IsOwned name g sound.owned;
  below = rw (or_default-last name g, or_default-pending name g) sound.below;
}

-- Times do not matter.
module _ (name : Str) (now_ms : ℕ) (active : Bool) (g : ConsumerGroup) where
  abbrev touched : Consumer → Consumer
  touched c = record c {
    seen_time_ms = now_ms;
    active_time_ms = if active then now_ms else c.active_time_ms;
  }

  has-touched : (j : StreamId) (c : Option Consumer) → has j (mapped touched c) ≡ has j c
  has-touched j none = refl
  has-touched j (some c) = refl

  pub touch-holds : (n : Str) (j : StreamId) → holds n j (touch name now_ms active g) ≡ holds n j g
  unfolding touch
  touch-holds n j = ground (
    arith,
    get-with_consumer name touched g n,
    has-touched j (get name g.consumers),
    str_eq_iff name n,
  )

  pub touch-IsSound : IsSound g → IsSound (touch name now_ms active g)
  unfolding touch
  touch-IsSound sound = record {
    owned = λ n j. with_consumer-owns name touched g n j ∙ sound.owned n j ∙ sym (touch-holds n j);
    below =
        rw (with_consumer-last name touched g, with_consumer-pending name touched g) sound.below;
  }

-- New entries are delivered in order, each one once.
pub read_new-IsSound :
    (entries : Tree Fields) (consumer : Str) (count : Option ℕ) (now_ms : ℕ) (noack : Bool)
    (g : ConsumerGroup)
    → IsAscending entries
    → IsSound g
    → IsSound (read_new entries consumer count now_ms noack g)
unfolding read_new
read_new-IsSound entries consumer count now_ms noack g ascending sound =
    let es = undelivered entries count g in
    let newer : all (λ e. id_lt (or_default consumer g).last_delivered_id e.0) es ≡ true =
      rw (or_default-last consumer g) (all-collect_limited _ count _ (all-keep_self _ entries)) in
    let healthy =
      deliver_all-IsHealthy consumer now_ms noack es (or_default consumer g)
        (IsAscending-collect_limited count (IsAscending-keep _ ascending)) newer
        (or_default-IsHealthy consumer g sound) in
    touch-IsSound consumer now_ms _ _ (record { owned = healthy.owned; below = healthy.below })

pub Keeps-IsSound :
    {consumer : Str} {g after : ConsumerGroup}
    → Keeps consumer g after
    → is_present consumer g ≡ true
    → IsSound g
    → IsSound after
Keeps-IsSound {g = g} {after = after} keeps present sound = record {
  owned = keeps.owned present sound.owned;
  below = λ j h. ground (arith, sound.below j (keeps.pending j h), keeps.last);
}
