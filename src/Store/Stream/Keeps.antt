-- ===== src/Store/Stream/Keeps.antt =====
-- What reading and claiming keep in a group.
use calod.Prelude.{
  ℕ, ◌≡◌, refl, ◌∙◌, true, some, Str, str_Eq, str_eq, arith, ap, Bool-cases, inl, inr,
}
use calod.Prelude.Map.{get, remove, get-remove}
use calod.Store.Stream.Ids.{StreamId, id_Eq, id_eq_iff, put, get-put}
use calod.Store.Stream.Groups.{ConsumerGroup, PendingEntry, purge, release}
use calod.Store.Stream.Claims.{own, pass}
use calod.Store.Stream.Owners.{
  is_there, IsOwned, is_present, with_consumer-pending, with_consumer-last, purge-IsOwned,
  purge-present, pass-IsOwned, pass-present,
}

-- From one group to another: the consumer stays, the owners agree if they did, nothing else becomes
-- pending.
pub record Keeps (consumer : Str) (g after : ConsumerGroup) : Type 0 where
  pub present : is_present consumer g ≡ true → is_present consumer after ≡ true
  pub owned : is_present consumer g ≡ true → IsOwned g → IsOwned after
  pub last : after.last_delivered_id ≡ g.last_delivered_id
  pub pending :
      (j : StreamId) → is_there (get j after.pending) ≡ true → is_there (get j g.pending) ≡ true

module _ {consumer : Str} where
  pub Keeps-refl : (g : ConsumerGroup) → Keeps consumer g g
  Keeps-refl g = record {
    present = λ here. here;
    owned = λ here owned. owned;
    last = refl;
    pending = λ j h. h;
  }

  pub Keeps-trans :
      {g h k : ConsumerGroup} → Keeps consumer g h → Keeps consumer h k → Keeps consumer g k
  Keeps-trans a b = record {
    present = λ here. b.present (a.present here);
    owned = λ here owned. b.owned (a.present here) (a.owned here owned);
    last = b.last ∙ a.last;
    pending = λ j h. a.pending j (b.pending j h);
  }

module _ (consumer : Str) (id : StreamId) (p : PendingEntry) (g : ConsumerGroup)
    (pending : get id g.pending ≡ some p) where
  purge-last : (purge id p g).last_delivered_id ≡ g.last_delivered_id
  unfolding purge release
  purge-last = with_consumer-last p.consumer _ _

  purge-pending : (purge id p g).pending ≡ remove id g.pending
  unfolding purge release
  purge-pending = with_consumer-pending p.consumer _ _

  pub purge-Keeps : Keeps consumer g (purge id p g)
  purge-Keeps = record {
    present = λ here. purge-present id p g pending consumer ∙ here;
    owned = λ here. purge-IsOwned id p g pending;
    last = purge-last;
    pending = λ j h. ground (arith, h, purge-pending, get-remove id j g.pending);
  }

  module _ (time count now_ms : ℕ) where
    abbrev passed : ConsumerGroup
    passed = pass consumer id p time count now_ms g

    passed-last : passed.last_delivered_id ≡ g.last_delivered_id
    unfolding pass own release
    passed-last = elim (Bool-cases (str_eq p.consumer consumer)) [
      | inl mine ↦ rw mine (with_consumer-last consumer _ _)
      | inr other ↦ rw other (with_consumer-last consumer _ _ ∙ with_consumer-last p.consumer _ g)
    ]

    passed-pending :
        passed.pending
        ≡ put id
            (record { consumer = consumer; delivery_time_ms = time; delivery_count = count })
            g.pending
    unfolding pass own release
    passed-pending = elim (Bool-cases (str_eq p.consumer consumer)) [
      | inl mine ↦ rw mine (with_consumer-pending consumer _ _)
      | inr other ↦ rw other (
          with_consumer-pending consumer _ _ ∙ ap (put id _) (with_consumer-pending p.consumer _ g))
    ]

    pub pass-Keeps : Keeps consumer g passed
    pass-Keeps = record {
      present = λ here. pass-present consumer id p time count now_ms g consumer ∙ here;
      owned = λ here. pass-IsOwned consumer id p time count now_ms g pending here;
      last = passed-last;
      pending = λ j h. ground (
        arith,
        h,
        passed-pending,
        pending,
        id_eq_iff id j,
        get-put id j
            (record { consumer = consumer; delivery_time_ms = time; delivery_count = count })
            g.pending,
      );
    }
