-- ===== src/Store/Stream/Shared.antt =====
-- About consumers that share the entries of a stream.
use calod.Prelude.{
  ℕ, zero, suc, ◌+◌, ◌≡◌, refl, ap, ◌∙◌, Bool, true, false, Option, some, List, [], ◌∷◌, ◌++◌, Str,
  arith, keep, take, drop, all,
}
use calod.Prelude.Cuts.{take-add}
use calod.Store.Stream.Ids.{StreamId, id_lt, Tree, Fields, Entry}
use calod.Store.Stream.Groups.{ConsumerGroup, or_default}
use calod.Store.Stream.Readers.{deliver, deliver_all, touch, undelivered, read_new}
use calod.Store.Stream.Owners.{with_consumer-last}
use calod.Store.Stream.Delivered.{
  IsAscending, step, deliver-last, all-keep_self, all-collect_limited, IsAscending-keep,
  IsAscending-collect_limited,
}
use calod.Store.Stream.Sound.{or_default-last}

-- The id of the last entry, or the given one.
abbrev last_after : List Entry → StreamId → StreamId
last_after [] a = a
last_after (e ∷ es) a = last_after es e.0

deliver_all-last :
    (consumer : Str) (now_ms : ℕ) (noack : Bool) (es : List Entry) (g : ConsumerGroup)
    → (deliver_all consumer now_ms noack es g).last_delivered_id ≡ last_after es g.last_delivered_id
unfolding deliver_all
deliver_all-last consumer now_ms noack [] g = refl
deliver_all-last consumer now_ms noack ((id, fields) ∷ es) g =
    deliver_all-last consumer now_ms noack es (deliver consumer now_ms noack id g)
    ∙ ap (last_after es) (deliver-last consumer now_ms noack id g)

read_new-last :
    (entries : Tree Fields) (consumer : Str) (count : Option ℕ) (now_ms : ℕ) (noack : Bool)
    (g : ConsumerGroup)
    → (read_new entries consumer count now_ms noack g).last_delivered_id
      ≡ last_after (undelivered entries count g) g.last_delivered_id
unfolding read_new touch
read_new-last entries consumer count now_ms noack g =
    with_consumer-last consumer _ _
    ∙ deliver_all-last consumer now_ms noack (undelivered entries count g) (or_default consumer g)
    ∙ ap (last_after (undelivered entries count g)) (or_default-last consumer g)

abbrev newer_than : StreamId → List Entry → List Entry
newer_than a es = keep (λ e. id_lt a e.0) es

keep-all : (p : Entry → Bool) (es : List Entry) → all p es ≡ true → keep p es ≡ es
unfolding all keep
keep-all p [] h = refl
keep-all p (e ∷ es) h = ground (arith, keep-all p es)

last_after-later :
    (a : StreamId) (es : List Entry)
    → IsAscending es
    → all (λ e. id_lt a e.0) es ≡ true
    → id_lt (last_after es a) a ≡ false
unfolding all
last_after-later a [] sorted above = ground arith
last_after-later a (e ∷ es) (step above' sorted) above =
    ground (arith, last_after-later e.0 es sorted above', above)

keep_twice :
    (a b : StreamId) (es : List Entry)
    → id_lt b a ≡ false
    → newer_than b es ≡ newer_than b (newer_than a es)
unfolding keep
keep_twice a b [] h = refl
keep_twice a b (e ∷ es) h = ground (arith, keep_twice a b es)

-- What is newer than the first n entries is the rest.
newer_than-drop :
    (n : ℕ) (a : StreamId) (es : List Entry)
    → IsAscending es
    → all (λ e. id_lt a e.0) es ≡ true
    → newer_than (last_after (take n es) a) es ≡ drop n es
unfolding keep all
newer_than-drop zero a es sorted above = keep-all _ es above
newer_than-drop (suc n) a [] sorted above = refl
newer_than-drop (suc n) a (e ∷ es) (step above' sorted) above =
    let later =
      last_after-later e.0 (take n es) (IsAscending-collect_limited (some n) sorted)
        (all-collect_limited _ (some n) es above') in
    rw later (newer_than-drop n e.0 es sorted above')

module _ (entries : Tree Fields) (ascending : IsAscending entries) (consumer : Str) (n m now_ms : ℕ)
    (noack : Bool) (g : ConsumerGroup) where
  abbrev after : ConsumerGroup
  after = read_new entries consumer (some n) now_ms noack g

  abbrev fresh : List Entry
  fresh = newer_than g.last_delivered_id entries

  after-newer : newer_than after.last_delivered_id entries ≡ drop n fresh
  after-newer =
      let sorted = IsAscending-keep (λ e. id_lt g.last_delivered_id e.0) ascending in
      let above = all-keep_self (λ e. id_lt g.last_delivered_id e.0) entries in
      let later =
        last_after-later g.last_delivered_id (take n fresh)
          (IsAscending-collect_limited (some n) sorted)
          (all-collect_limited _ (some n) fresh above) in
      ap (λ b. newer_than b entries) (read_new-last entries consumer (some n) now_ms noack g)
      ∙ keep_twice g.last_delivered_id (last_after (take n fresh) g.last_delivered_id) entries later
      ∙ newer_than-drop n g.last_delivered_id fresh sorted above

  -- Of a stream whose entries ascend, one consumer of a group reads up to n new entries and then any
  -- consumer of the group up to m: together they get exactly the entries that one read of n + m would
  -- answer with, in order, none twice and none left out.
  pub reads_share :
      undelivered entries (some n) g ++ undelivered entries (some m) after
      ≡ undelivered entries (some (n + m)) g
  reads_share = rw (after-newer, take-add n m fresh) refl
