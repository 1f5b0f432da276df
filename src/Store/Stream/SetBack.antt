-- ===== src/Store/Stream/SetBack.antt =====
-- About entries that are delivered again after a group was set back.
use calod.Prelude.{
  ℕ, ◌+◌, ◌%◌, ◌≡◌, refl, sym, ◌∙◌, Bool, true, false, none, some, [], ◌∷◌, Str, str_Eq, str_eq,
  str_eq_iff, arith, Option-cases, inl, inr,
}
use Prim.{tt}
use calod.Prelude.Int.{two64}
use calod.Prelude.Map.{get, insert}
use calod.Store.Stream.Ids.{StreamId, id_Eq, id_eq_iff, Tree, Fields}
use calod.Store.Stream.Groups.{ConsumerGroup, PendingEntry, or_default}
use calod.Store.Stream.Readers.{deliver, deliver_all, touch, undelivered, read_new, del_consumer}
use calod.Store.Stream.Owners.{
  owns, holds, is_present, gained-owns, gained-holds, with_consumer-owns,
}
use calod.Store.Stream.Settled.{get-forget_ids}
use calod.Store.Stream.Sound.{IsSound, or_default-pending, touch-holds}
use calod.Store.Stream.Joins.{or_default-IsOwned, or_default-present}

-- Delivering to one consumer leaves the sets of the others.
module _ (consumer : Str) (now_ms : ℕ) (id : StreamId) (g : ConsumerGroup)
    (present : is_present consumer g ≡ true) where
  deliver-owns : owns consumer id (deliver consumer now_ms false id g) ≡ true
  unfolding deliver
  deliver-owns =
      gained-owns consumer id _ (λ c. record c { pending = insert id tt c.pending })
        (record g { last_delivered_id = id; entries_read = (g.entries_read + 1) % two64 })
        ((str_eq_iff consumer consumer).1 refl) (λ c. refl) present consumer id
      ∙ ground (arith, id_eq_iff id id, str_eq_iff consumer consumer)

  deliver-holds :
      (n : Str) → holds n id g ≡ true → holds n id (deliver consumer now_ms false id g) ≡ true
  unfolding deliver
  deliver-holds n h =
      gained-holds consumer id _ (λ c. record c { pending = insert id tt c.pending })
        (record g { last_delivered_id = id; entries_read = (g.entries_read + 1) % two64 })
        ((str_eq_iff consumer consumer).1 refl) (λ c. refl) present n id
      ∙ ground (arith, h)

del_consumer-drops :
    (name : Str) (id : StreamId) (g : ConsumerGroup)
    → holds name id g ≡ true
    → get id (del_consumer name g).0.pending ≡ none
unfolding del_consumer
del_consumer-drops name id g h = elim (Option-cases (get name g.consumers)) [
  | inl absent ↦ ground (arith, h, absent)
  | inr (c, here) ↦
      rw (here, del_consumer) (ground (arith, h, here, get-forget_ids id c.pending g.pending))
]

touch-owns :
    (name : Str) (now_ms : ℕ) (active : Bool) (g : ConsumerGroup) (n : Str) (j : StreamId)
    → owns n j (touch name now_ms active g) ≡ owns n j g
unfolding touch
touch-owns name now_ms active g n j = with_consumer-owns name _ g n j

-- A sound group is set back to an id after which the next entry is one that is pending for a consumer,
-- and another consumer reads that entry. Then the entry is pending for the reader, and still stands in
-- the set of the first consumer: when that one is deleted, the reader's pending entry is gone.
pub redelivered_splits :
    (entries : Tree Fields) (consumer : Str) (back id : StreamId) (fields : Fields)
    (p : PendingEntry) (now_ms : ℕ) (g : ConsumerGroup)
    → IsSound g
    → get id g.pending ≡ some p
    → str_eq p.consumer consumer ≡ false
    → undelivered entries (some 1) (record g { last_delivered_id = back }) ≡ (id, fields) ∷ []
    → let after =
        read_new entries consumer (some 1) now_ms false (record g { last_delivered_id = back }) in
      (owns consumer id after ≡ true) × (get id (del_consumer p.consumer after).0.pending ≡ none)
unfolding read_new deliver_all
redelivered_splits entries consumer back id fields p now_ms g sound pending other next =
    let set_back = record g { last_delivered_id = back } in
    let opened = or_default consumer set_back in
    let present = or_default-present consumer set_back in
    let held : holds p.consumer id opened ≡ true =
      sym (or_default-IsOwned consumer set_back sound.owned p.consumer id)
      ∙ rw (or_default-pending consumer set_back, pending)
          ((str_eq_iff p.consumer p.consumer).1 refl) in
    let read = deliver consumer now_ms false id opened in
    rw next (
      touch-owns consumer now_ms true read consumer id
          ∙ deliver-owns consumer now_ms id opened present,
      del_consumer-drops p.consumer id (touch consumer now_ms true read) (
          touch-holds consumer now_ms true read p.consumer id
          ∙ deliver-holds consumer now_ms id opened present p.consumer held),
    )
