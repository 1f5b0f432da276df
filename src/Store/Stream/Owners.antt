-- ===== src/Store/Stream/Owners.antt =====
-- About who owns a pending entry: the group's list of pending entries, and each consumer's own set.
use calod.Prelude.{
  ℕ, ◌≡◌, refl, sym, ◌∙◌, Bool, true, false, not, ◌&&◌, ◌||◌, Option, none, some, Str, str_Eq,
  str_eq, str_eq_iff, arith, Option-cases, Bool-cases, inl, inr, if◌then◌else◌,
}
use Prim.{tt}
use calod.Prelude.Map.{get, insert, remove, get-insert, get-remove}
use calod.Store.Stream.Ids.{StreamId, id_Eq, id_eq, id_eq_iff, put, get-put}
use calod.Store.Stream.Groups.{ConsumerGroup, Consumer, PendingEntry, with_consumer, purge, release}
use calod.Store.Stream.Claims.{own, pass}

abbrev pub is_there {ℓ} : {A : Type ℓ} → Option A → Bool
is_there none = false
is_there (some a) = true

abbrev pub owned_by : Str → Option PendingEntry → Bool
owned_by name none = false
owned_by name (some p) = str_eq p.consumer name

abbrev pub has : StreamId → Option Consumer → Bool
has id none = false
has id (some c) = is_there (get id c.pending)

-- The group says that the consumer owns the entry; the consumer's set says so.
abbrev pub owns : Str → StreamId → ConsumerGroup → Bool
owns name id g = owned_by name (get id g.pending)

abbrev pub holds : Str → StreamId → ConsumerGroup → Bool
holds name id g = has id (get name g.consumers)

-- Both agree about every consumer and every entry. In particular a pending entry has an owner that
-- is a consumer of the group.
abbrev pub IsOwned : ConsumerGroup → Type 0
IsOwned g = (name : Str) (id : StreamId) → owns name id g ≡ holds name id g

abbrev pub is_present : Str → ConsumerGroup → Bool
is_present name g = is_there (get name g.consumers)

abbrev pub mapped : (Consumer → Consumer) → Option Consumer → Option Consumer
mapped f none = none
mapped f (some c) = some (f c)

-- Changing one consumer.
module _ (name : Str) (f : Consumer → Consumer) (g : ConsumerGroup) where
  pub with_consumer-pending : (with_consumer name f g).pending ≡ g.pending
  unfolding with_consumer
  with_consumer-pending = elim (Option-cases (get name g.consumers)) [
    | inl absent ↦ rw (absent, with_consumer) refl
    | inr (c, here) ↦ rw (here, with_consumer) refl
  ]

  pub with_consumer-last : (with_consumer name f g).last_delivered_id ≡ g.last_delivered_id
  unfolding with_consumer
  with_consumer-last = elim (Option-cases (get name g.consumers)) [
    | inl absent ↦ rw (absent, with_consumer) refl
    | inr (c, here) ↦ rw (here, with_consumer) refl
  ]

  pub get-with_consumer :
      (n : Str)
      → get n (with_consumer name f g).consumers
        ≡ (if str_eq name n then mapped f (get name g.consumers) else get n g.consumers)
  unfolding with_consumer
  get-with_consumer n = elim (Option-cases (get name g.consumers)) [
    | inl absent ↦ rw (absent, with_consumer) (ground (arith, absent, str_eq_iff name n))
    | inr (c, here) ↦ rw (here, with_consumer) (get-insert name n (f c) g.consumers)
  ]

  pub with_consumer-owns : (n : Str) (j : StreamId) → owns n j (with_consumer name f g) ≡ owns n j g
  with_consumer-owns n j = rw with_consumer-pending refl

  pub with_consumer-present : (n : Str) → is_present n (with_consumer name f g) ≡ is_present n g
  with_consumer-present n = ground (arith, get-with_consumer n, str_eq_iff name n)

-- The consumer becomes the owner of an entry that no other consumer owns.
module _ (consumer : Str) (id : StreamId) (p : PendingEntry) (f : Consumer → Consumer)
    (g : ConsumerGroup) (mine : str_eq p.consumer consumer ≡ true)
    (grows : (c : Consumer) → (f c).pending ≡ insert id tt c.pending)
    (present : is_present consumer g ≡ true) where
  abbrev pub gained : ConsumerGroup
  gained = with_consumer consumer f (record g { pending = put id p g.pending })

  pub gained-owns :
      (n : Str) (j : StreamId)
      → owns n j gained ≡ (if id_eq id j then str_eq consumer n else owns n j g)
  gained-owns n j =
      rw
        (
          with_consumer-pending consumer f (record g { pending = put id p g.pending }),
          get-put id j p g.pending,
        )
        (ground (arith, mine, str_eq_iff p.consumer consumer))

  pub gained-holds :
      (n : Str) (j : StreamId) → holds n j gained ≡ holds n j g || (str_eq consumer n && id_eq id j)
  gained-holds n j = elim (Option-cases (get consumer g.consumers)) [
    | inl absent ↦ ground (arith, absent, present)
    | inr (c, here) ↦ ground (
      arith,
      here,
      get-with_consumer consumer f (record g { pending = put id p g.pending }) n,
      str_eq_iff consumer n,
      grows c,
      get-insert id j tt c.pending,
    )
  ]

  -- Before, the entry has no other holder, and all other entries agree.
  pub gained-IsOwned :
      ((n : Str) (j : StreamId)
        → (if id_eq id j then str_eq consumer n else owns n j g)
          ≡ holds n j g || (str_eq consumer n && id_eq id j))
      → IsOwned gained
  gained-IsOwned ready n j = gained-owns n j ∙ ready n j ∙ sym (gained-holds n j)

  pub gained-present : (n : Str) → is_present n gained ≡ is_present n g
  gained-present n = with_consumer-present consumer f (record g { pending = put id p g.pending }) n

-- A consumer loses an entry.
module _ (id : StreamId) (owner : Str) (g : ConsumerGroup) where
  release-owns : (n : Str) (j : StreamId) → owns n j (release id owner g) ≡ owns n j g
  unfolding release
  release-owns n j = with_consumer-owns owner _ g n j

  release-holds :
      (n : Str) (j : StreamId)
      → holds n j (release id owner g) ≡ holds n j g && not (str_eq owner n && id_eq id j)
  unfolding release
  release-holds n j = elim (Option-cases (get owner g.consumers)) [
    | inl absent ↦ ground (
      arith,
      absent,
      get-with_consumer owner (λ c. record c { pending = remove id c.pending }) g n,
      str_eq_iff owner n,
    )
    | inr (c, here) ↦ ground (
      arith,
      here,
      get-with_consumer owner (λ c. record c { pending = remove id c.pending }) g n,
      str_eq_iff owner n,
      get-remove id j c.pending,
    )
  ]

  release-present : (n : Str) → is_present n (release id owner g) ≡ is_present n g
  unfolding release
  release-present n = with_consumer-present owner _ g n

module _ (id : StreamId) (p : PendingEntry) (g : ConsumerGroup)
    (pending : get id g.pending ≡ some p) where
  purge-owns : (n : Str) (j : StreamId) → owns n j (purge id p g) ≡ owns n j g && not (id_eq id j)
  unfolding purge
  purge-owns n j =
      release-owns id p.consumer (record g { pending = remove id g.pending }) n j
      ∙ ground (arith, get-remove id j g.pending)

  pub purge-IsOwned : IsOwned g → IsOwned (purge id p g)
  unfolding purge
  purge-IsOwned owned n j = ground (
    arith,
    purge-owns n j,
    release-holds id p.consumer (record g { pending = remove id g.pending }) n j,
    owned n j,
    pending,
    id_eq_iff id j,
    str_eq_iff p.consumer n,
  )

  pub purge-present : (n : Str) → is_present n (purge id p g) ≡ is_present n g
  unfolding purge
  purge-present n = release-present id p.consumer (record g { pending = remove id g.pending }) n

own-IsOwned :
    (consumer : Str) (id : StreamId) (time count now_ms : ℕ) (g : ConsumerGroup)
    → is_present consumer g ≡ true
    → ((n : Str) (j : StreamId)
        → (if id_eq id j then str_eq consumer n else owns n j g)
          ≡ holds n j g || (str_eq consumer n && id_eq id j))
    → IsOwned (own consumer id time count now_ms g)
unfolding own
own-IsOwned consumer id time count now_ms g present ready =
    gained-IsOwned consumer id _ _ g ((str_eq_iff consumer consumer).1 refl) (λ c. refl) present
      ready

-- An entry that is not pending gets an owner.
pub own_new-IsOwned :
    (consumer : Str) (id : StreamId) (time count now_ms : ℕ) (g : ConsumerGroup)
    → get id g.pending ≡ none
    → is_present consumer g ≡ true
    → IsOwned g
    → IsOwned (own consumer id time count now_ms g)
own_new-IsOwned consumer id time count now_ms g fresh present owned =
    own-IsOwned consumer id time count now_ms g present
      (λ n j. ground (arith, owned n j, fresh, id_eq_iff id j))

pub own-present :
    (consumer : Str) (id : StreamId) (time count now_ms : ℕ) (g : ConsumerGroup) (n : Str)
    → is_present n (own consumer id time count now_ms g) ≡ is_present n g
unfolding own
own-present consumer id time count now_ms g n = with_consumer-present consumer _ _ n

-- The entry goes from its owner to a consumer of the group.
module _ (consumer : Str) (id : StreamId) (p : PendingEntry) (time count now_ms : ℕ)
    (g : ConsumerGroup) where
  pub pass-present :
      (n : Str) → is_present n (pass consumer id p time count now_ms g) ≡ is_present n g
  unfolding pass
  pass-present n = elim (Bool-cases (str_eq p.consumer consumer)) [
    | inl mine ↦ rw mine (own-present consumer id time count now_ms g n)
    | inr other ↦ rw other (
        own-present consumer id time count now_ms (release id p.consumer g) n
        ∙ release-present id p.consumer g n)
  ]

  pub pass-IsOwned :
      get id g.pending ≡ some p
      → is_present consumer g ≡ true
      → IsOwned g
      → IsOwned (pass consumer id p time count now_ms g)
  unfolding pass
  pass-IsOwned pending present owned = elim (Bool-cases (str_eq p.consumer consumer)) [
    | inl mine ↦ rw mine (
        own-IsOwned consumer id time count now_ms g present (λ n j.
          ground (arith, owned n j, pending, mine, id_eq_iff id j, str_eq_iff p.consumer consumer)))
    | inr other ↦ rw other (
        own-IsOwned consumer id time count now_ms (release id p.consumer g)
          (release-present id p.consumer g consumer ∙ present)
          (λ n j. ground (
            arith,
            owned n j,
            pending,
            id_eq_iff id j,
            release-owns id p.consumer g n j,
            release-holds id p.consumer g n j,
          )))
  ]
