-- ===== src/Store/Stream/Tests.antt =====
-- Runs of streams on small inputs.
use calod.Prelude.{
  ℕ, ◌+◌, ◌<◌, ◌%◌, ◌≡◌, refl, inr, Bool, true, false, Option, none, some, List, [], ◌∷◌, ◌++◌, Str,
  str_Eq, arith,
}
use calod.Prelude.Map.{get}
use calod.Store.Stream.{StreamData, new, add, next_auto_id, delete}
use calod.Store.Stream.Ids.{StreamId, id_Eq, min_id, Fields, Entry}
use calod.Store.Stream.Groups.{ConsumerGroup, PendingEntry, new_group}
use calod.Store.Stream.Readers.{
  in_group, create_group, group_read_new, read_new, undelivered, del_consumer, ack,
}
use calod.Store.Stream.Claims.{autoclaim}
use calod.Store.Stream.Owners.{owns}
use calod.Store.Stream.Sound.{IsSound, new_group-IsSound, read_new-IsSound}
use calod.Store.Stream.Histories.{
  IsReached, IsConsistent, created, after, adds, creates, reads, acks, autoclaims,
  reached-IsConsistent,
}
use calod.Store.Stream.Appends.{auto_add_appends}
use calod.Store.Stream.SetBack.{redelivered_splits}
use calod.Store.Stream.Shared.{reads_share}

abbrev ann : Str
ann = b'a' ∷ []

abbrev bob : Str
bob = b'b' ∷ []

abbrev team : Str
team = b't' ∷ []

abbrev id : ℕ → ℕ → StreamId
id ms seq = record { ms = ms; seq = seq }

abbrev fields : Fields
fields = (b'k' ∷ [], b'v' ∷ []) ∷ []

abbrev filled : StreamData
filled = (add (id 7 1) fields (add (id 7 0) fields (add (id 5 0) fields new).1).1).1

filled_IsReached : IsReached filled
filled_IsReached =
    after (after (after created (adds (id 5 0) fields)) (adds (id 7 0) fields))
      (adds (id 7 1) fields)

filled_entries : filled.entries ≡ (id 5 0, fields) ∷ (id 7 0, fields) ∷ (id 7 1, fields) ∷ []
unfolding add calod.Store.Stream.Ids.put
filled_entries = refl

-- Ann reads two entries, the first is acknowledged, an entry is deleted, Bob takes over what is left.
abbrev worked : StreamData
worked =
    let made = (create_group team min_id filled).0 in
    let read = (group_read_new team ann (some 2) 100 false made).0 in
    let acked = (in_group team (ack (id 5 0 ∷ [])) read).0 in
    (in_group team (autoclaim acked.entries bob 10 min_id 5 200 false) acked).0

worked_IsReached : IsReached worked
worked_IsReached =
    after
      (after
        (after (after filled_IsReached (creates team min_id)) (reads team ann (some 2) 100 false))
        (acks team (id 5 0 ∷ [])))
      (autoclaims team bob 10 min_id 5 200 false)

-- Who owns the entry 7-0, in the end.
worked_owner : elim (get team worked.groups) [ none ↦ false | some g ↦ owns bob (id 7 0) g ] ≡ true
unfolding add get in_group group_read_new create_group calod.Prelude.Map.insert calod.Prelude.str_eq
    autoclaim calod.Store.Stream.Claims.autoclaim_from calod.Prelude.keep
    calod.Store.Stream.Groups.or_default ack calod.Store.Stream.Readers.touch
    calod.Store.Stream.Groups.with_consumer calod.Store.Stream.Readers.deliver_all
    calod.Store.Stream.Ids.put calod.Store.Stream.Readers.deliver calod.Store.Stream.Groups.purge
    calod.Prelude.Map.remove calod.Store.Stream.Claims.autoclaim_one calod.Store.Stream.Claims.pass
    calod.Store.Stream.Claims.own
worked_owner = refl

reached-IsConsistent_example : IsConsistent worked
reached-IsConsistent_example = reached-IsConsistent worked_IsReached

auto_add_appends_example : add (next_auto_id 3 filled) fields filled ≡ (
  inr (id 7 2),
  record filled {
    entries = filled.entries ++ (id 7 2, fields) ∷ [];
    last_id = id 7 2;
    entries_added = 4;
  },
)
unfolding add next_auto_id
auto_add_appends_example = auto_add_appends 3 fields filled filled_IsReached (omega arith)

abbrev group : ConsumerGroup
group = read_new filled.entries ann (some 1) 100 false (new_group min_id)

group-IsSound : IsSound group
group-IsSound =
    read_new-IsSound filled.entries ann (some 1) 100 false (new_group min_id)
      (reached-IsConsistent filled_IsReached).ascending (new_group-IsSound min_id)

redelivered_splits_example :
    let again =
      read_new filled.entries bob
        (some 1)
        300
        false
        (record group { last_delivered_id = min_id }) in
    (owns bob (id 5 0) again ≡ true) × (get (id 5 0) (del_consumer ann again).0.pending ≡ none)
unfolding add read_new get calod.Store.Stream.Readers.touch calod.Store.Stream.Groups.with_consumer
    calod.Store.Stream.Readers.deliver_all calod.Prelude.keep calod.Store.Stream.Ids.put
    calod.Store.Stream.Readers.deliver calod.Store.Stream.Groups.or_default calod.Prelude.Map.insert
    calod.Prelude.str_eq
redelivered_splits_example =
    redelivered_splits filled.entries bob min_id (id 5 0) fields
      (record { consumer = ann; delivery_time_ms = 100; delivery_count = 1 }) 300 group
      group-IsSound refl refl refl

reads_share_example :
    undelivered filled.entries (some 1) (new_group min_id)
      ++ undelivered filled.entries (some 5) group
    ≡ undelivered filled.entries (some 6) (new_group min_id)
reads_share_example =
    reads_share filled.entries (reached-IsConsistent filled_IsReached).ascending ann 1 5 100 false
      (new_group min_id)
