-- ===== src/Store/Stream/Settled.antt =====
-- About sound groups when entries are acknowledged or claimed, and when consumers leave.
use calod.Prelude.{
  ℕ, ◌≡◌, refl, Bool, false, none, some, List, [], ◌∷◌, Str, str_Eq, str_eq_iff, arith,
  Option-cases, inl, inr, if◌then◌else◌,
}
use Prim.{Unit}
use calod.Prelude.Map.{Map, get, remove, get-remove}
use calod.Store.Stream.Ids.{StreamId, id_Eq, id_eq_iff, Tree, Fields}
use calod.Store.Stream.Groups.{
  ConsumerGroup, Consumer, PendingEntry, or_default, purge, create_consumer, forget_ids,
}
use calod.Store.Stream.Readers.{ack, del_consumer}
use calod.Store.Stream.Claims.{ClaimOptions, claim, autoclaim}
use calod.Store.Stream.Owners.{is_there, IsOwned}
use calod.Store.Stream.Joins.{create_consumer-IsOwned}
use calod.Store.Stream.Keeps.{purge-Keeps}
use calod.Store.Stream.Claimed.{claim_all-Keeps, autoclaim_from-Keeps}
use calod.Store.Stream.Delivered.{IsBelow}
use calod.Store.Stream.Sound.{IsSound, Keeps-IsSound, or_default-IsHealthy}

pub claim-IsSound :
    (entries : Tree Fields) (consumer : Str) (ids : List StreamId) (opt : ClaimOptions) (now_ms : ℕ)
    (g : ConsumerGroup)
    → opt.force ≡ false
    → IsSound g
    → IsSound (claim entries consumer ids opt now_ms g).0
unfolding claim
claim-IsSound entries consumer ids opt now_ms g unforced sound =
    let healthy = or_default-IsHealthy consumer g sound in
    Keeps-IsSound (claim_all-Keeps entries consumer now_ms opt ids (or_default consumer g) unforced)
      healthy.present (record { owned = healthy.owned; below = healthy.below })

pub autoclaim-IsSound :
    (entries : Tree Fields) (consumer : Str) (min_idle_ms : ℕ) (start : StreamId) (count now_ms : ℕ)
    (justid : Bool) (g : ConsumerGroup)
    → IsSound g
    → IsSound (autoclaim entries consumer min_idle_ms start count now_ms justid g).0
unfolding autoclaim
autoclaim-IsSound entries consumer min_idle_ms start count now_ms justid g sound =
    let healthy = or_default-IsHealthy consumer g sound in
    Keeps-IsSound
      (autoclaim_from-Keeps entries consumer now_ms min_idle_ms justid _ _ (or_default consumer g))
      healthy.present (record { owned = healthy.owned; below = healthy.below })

create_consumer-IsBelow :
    (name : Str) (now_ms : ℕ) (g : ConsumerGroup)
    → IsBelow g
    → IsBelow (create_consumer name now_ms g).0
unfolding create_consumer
create_consumer-IsBelow name now_ms g below = elim (Option-cases (get name g.consumers)) [
  | inl absent ↦ rw (absent, create_consumer) below
  | inr (c, here) ↦ rw (here, create_consumer) below
]

pub create_consumer-IsSound :
    (name : Str) (now_ms : ℕ) (g : ConsumerGroup)
    → IsSound g
    → IsSound (create_consumer name now_ms g).0
create_consumer-IsSound name now_ms g sound = record {
  owned = create_consumer-IsOwned name now_ms g sound.owned;
  below = create_consumer-IsBelow name now_ms g sound.below;
}

pub get-forget_ids :
    (j : StreamId) (ids : Map StreamId (Unit {0})) (t : Tree PendingEntry)
    → get j (forget_ids ids t) ≡ (if is_there (get j ids) then none else get j t)
unfolding forget_ids get
get-forget_ids j [] t = refl
get-forget_ids j ((id, u) ∷ ids) t =
    ground (arith, get-forget_ids j ids (remove id t), get-remove id j t, id_eq_iff id j)

-- Whoever leaves takes along exactly the entries that the group says are theirs.
module _ (name : Str) (c : Consumer) (g : ConsumerGroup)
    (here : get name g.consumers ≡ some c) where
  abbrev left : ConsumerGroup
  left = record g { consumers = remove name g.consumers; pending = forget_ids c.pending g.pending }

  left-IsOwned : IsSound g → IsOwned left
  left-IsOwned sound n j = elim (Option-cases (get j g.pending)) [
    | inl absent ↦ ground (
      arith,
      get-forget_ids j c.pending g.pending,
      get-remove name n g.consumers,
      sound.owned n j,
      sound.owned name j,
      here,
      str_eq_iff name n,
      absent,
    )
    | inr (p, pending) ↦ ground (
      arith,
      get-forget_ids j c.pending g.pending,
      get-remove name n g.consumers,
      sound.owned n j,
      sound.owned name j,
      here,
      str_eq_iff name n,
      pending,
      str_eq_iff p.consumer n,
      str_eq_iff p.consumer name,
    )
  ]

  left-IsSound : IsSound g → IsSound left
  left-IsSound sound = record {
    owned = left-IsOwned sound;
    below = λ j h. ground (arith, get-forget_ids j c.pending g.pending, sound.below j, h);
  }

pub del_consumer-IsSound :
    (name : Str) (g : ConsumerGroup) → IsSound g → IsSound (del_consumer name g).0
unfolding del_consumer
del_consumer-IsSound name g sound = elim (Option-cases (get name g.consumers)) [
  | inl absent ↦ rw (absent, del_consumer) sound
  | inr (c, here) ↦ rw (here, del_consumer) (left-IsSound name c g here sound)
]

purge-IsSound :
    (id : StreamId) (p : PendingEntry) (g : ConsumerGroup)
    → get id g.pending ≡ some p
    → IsSound g
    → IsSound (purge id p g)
purge-IsSound id p g pending sound =
    Keeps-IsSound (purge-Keeps p.consumer id p g pending)
      (ground (arith, sound.owned p.consumer id, pending, str_eq_iff p.consumer p.consumer)) sound

pub ack-IsSound : (ids : List StreamId) (g : ConsumerGroup) → IsSound g → IsSound (ack ids g).0
unfolding ack
ack-IsSound [] g sound = sound
ack-IsSound (id ∷ ids) g sound = elim (Option-cases (get id g.pending)) [
  | inl absent ↦ rw (absent, ack) (ack-IsSound ids g sound)
  | inr (p, pending) ↦
      rw (pending, ack) (ack-IsSound ids (purge id p g) (purge-IsSound id p g pending sound))
]
