-- ===== src/Store/Stream/Delivered.antt =====
-- About the delivery of new entries.
use calod.Prelude.{
  ℕ, zero, suc, ◌+◌, ◌%◌, ◌≡◌, refl, ap, ◌∙◌, Bool, true, false, Option, none, some, List, [], ◌∷◌,
  Str, str_Eq, str_eq_iff, arith, Option-cases, Bool-cases, inl, inr, keep, all,
}
use Prim.{tt}
use calod.Prelude.Int.{two64}
use calod.Prelude.Map.{get, insert}
use calod.Store.Stream.{collect_limited}
use calod.Store.Stream.Ids.{StreamId, id_Eq, id_lt, id_eq_iff, Entry, put, get-put}
use calod.Store.Stream.Groups.{ConsumerGroup, PendingEntry}
use calod.Store.Stream.Readers.{deliver, deliver_all}
use calod.Store.Stream.Owners.{
  is_there, IsOwned, is_present, with_consumer-pending, with_consumer-last, gained-IsOwned,
  with_consumer-present,
}

-- No pending entry is newer than the last one delivered.
abbrev pub IsBelow : ConsumerGroup → Type 0
IsBelow g = (j : StreamId) → is_there (get j g.pending) ≡ true → id_lt g.last_delivered_id j ≡ false

-- The entries ascend.
pub data IsAscending : List Entry → Type 0 where
  end : IsAscending []
  step :
      {e : Entry} {es : List Entry}
      → all (λ f. id_lt e.0 f.0) es ≡ true
      → IsAscending es
      → IsAscending (e ∷ es)

pub all-keep_self : (p : Entry → Bool) (es : List Entry) → all p (keep p es) ≡ true
unfolding all keep
all-keep_self p [] = refl
all-keep_self p (e ∷ es) = ground (arith, all-keep_self p es)

all-keep : (q p : Entry → Bool) (es : List Entry) → all q es ≡ true → all q (keep p es) ≡ true
unfolding all keep
all-keep q p [] h = refl
all-keep q p (e ∷ es) h = ground (arith, all-keep q p es)

pub all-collect_limited :
    (q : Entry → Bool) (count : Option ℕ) (es : List Entry)
    → all q es ≡ true
    → all q (collect_limited es count) ≡ true
unfolding all
all-collect_limited q none es h = h
all-collect_limited q (some zero) es h = refl
all-collect_limited q (some (suc n)) [] h = refl
all-collect_limited q (some (suc n)) (e ∷ es) h = ground (arith, all-collect_limited q (some n) es)

pub IsAscending-keep :
    (p : Entry → Bool) {es : List Entry} → IsAscending es → IsAscending (keep p es)
unfolding keep
IsAscending-keep p end = end
IsAscending-keep p (step {e = e} {es = es} above sorted) = elim (Bool-cases (p e)) [
  | inl kept ↦ rw kept (step (all-keep _ p es above) (IsAscending-keep p sorted))
  | inr dropped ↦ rw dropped (IsAscending-keep p sorted)
]

pub IsAscending-collect_limited :
    (count : Option ℕ) {es : List Entry} → IsAscending es → IsAscending (collect_limited es count)
IsAscending-collect_limited none sorted = sorted
IsAscending-collect_limited (some zero) sorted = end
IsAscending-collect_limited (some (suc n)) end = end
IsAscending-collect_limited (some (suc n)) (step {es = es} above sorted) =
    step (all-collect_limited _ (some n) es above) (IsAscending-collect_limited (some n) sorted)

pub deliver-last :
    (consumer : Str) (now_ms : ℕ) (noack : Bool) (id : StreamId) (g : ConsumerGroup)
    → (deliver consumer now_ms noack id g).last_delivered_id ≡ id
unfolding deliver
deliver-last consumer now_ms true id g = refl
deliver-last consumer now_ms false id g = with_consumer-last consumer _ _

-- One new entry is delivered.
module _ (consumer : Str) (now_ms : ℕ) (id : StreamId) (g : ConsumerGroup)
    (newer : id_lt g.last_delivered_id id ≡ true) (present : is_present consumer g ≡ true)
    (below : IsBelow g) where
  fresh : get id g.pending ≡ none
  fresh = elim (Option-cases (get id g.pending)) [
    | inl absent ↦ absent
    | inr (p, pending) ↦ ground (arith, below id (ap is_there pending), newer)
  ]

  abbrev entry : PendingEntry
  entry = record { consumer = consumer; delivery_time_ms = now_ms; delivery_count = 1 }

  deliver-pending : (deliver consumer now_ms false id g).pending ≡ put id entry g.pending
  unfolding deliver
  deliver-pending = with_consumer-pending consumer _ _

  deliver-present : (noack : Bool) → is_present consumer (deliver consumer now_ms noack id g) ≡ true
  unfolding deliver
  deliver-present true = present
  deliver-present false = with_consumer-present consumer _ _ consumer ∙ present

  deliver-IsOwned : (noack : Bool) → IsOwned g → IsOwned (deliver consumer now_ms noack id g)
  unfolding deliver
  deliver-IsOwned true owned = owned
  deliver-IsOwned false owned =
      gained-IsOwned consumer id entry (λ c. record c { pending = insert id tt c.pending })
        (record g { last_delivered_id = id; entries_read = (g.entries_read + 1) % two64 })
        ((str_eq_iff consumer consumer).1 refl) (λ c. refl) present
        (λ n j. ground (arith, owned n j, fresh, id_eq_iff id j))

  deliver-IsBelow : (noack : Bool) → IsBelow (deliver consumer now_ms noack id g)
  deliver-IsBelow true j h = unfold deliver in ground (arith, below j, newer, h)
  deliver-IsBelow false j h =
      rw (deliver-last consumer now_ms false id g)
        (ground (arith, h, deliver-pending, get-put id j entry g.pending, below j, newer))

-- The consumer is there, its entries agree, and nothing newer than the last delivery is pending.
pub record IsHealthy (consumer : Str) (g : ConsumerGroup) : Type 0 where
  pub present : is_present consumer g ≡ true
  pub owned : IsOwned g
  pub below : IsBelow g

pub deliver_all-IsHealthy :
    (consumer : Str) (now_ms : ℕ) (noack : Bool) (es : List Entry) (g : ConsumerGroup)
    → IsAscending es
    → all (λ e. id_lt g.last_delivered_id e.0) es ≡ true
    → IsHealthy consumer g
    → IsHealthy consumer (deliver_all consumer now_ms noack es g)
unfolding deliver_all all
deliver_all-IsHealthy consumer now_ms noack [] g sorted newer healthy = healthy
deliver_all-IsHealthy consumer now_ms noack ((id, fields) ∷ es) g (step above sorted) newer
      healthy =
    let new : id_lt g.last_delivered_id id ≡ true = ground (arith, newer) in
    deliver_all-IsHealthy consumer now_ms noack es (deliver consumer now_ms noack id g) sorted
      (rw (deliver-last consumer now_ms noack id g) above)
      (record {
        present = deliver-present consumer now_ms id g new healthy.present healthy.below noack;
        owned =
            deliver-IsOwned consumer now_ms id g new healthy.present healthy.below noack
              healthy.owned;
        below = deliver-IsBelow consumer now_ms id g new healthy.present healthy.below noack;
      })
