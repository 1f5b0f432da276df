-- ===== src/Store/Stream/Histories.antt =====
-- The streams that sequences of operations lead to.
use calod.Prelude.{
  ℕ, ◌≡◌, refl, sym, Bool, true, false, Option, some, List, [], ◌∷◌, Str, str_Eq, str_eq, arith,
  Option-cases, Bool-cases, inl, inr, all, leb, length,
}
use calod.Prelude.Map.{get, get-insert, get-remove}
use calod.Store.Stream.{
  StreamData, new, add, delete, delete_from, delete_one, trim_maxlen, set_last_id,
}
use calod.Store.Stream.Ids.{StreamId, id_Eq, id_eq, id_lt, min_id, Fields}
use calod.Store.Stream.Groups.{ConsumerGroup, create_consumer, new_group}
use calod.Store.Stream.Readers.{
  set_group, in_group, create_group, set_group_id, destroy_group, del_consumer, group_read_new,
  group_read_history, ack,
}
use calod.Store.Stream.Claims.{ClaimOptions, claim, autoclaim}
use calod.Store.Stream.Ascending.{
  put-IsAscending, all-put, all-remove, remove-IsAscending, remove_ids-IsAscending, all-remove_ids,
  capped, capped-later,
}
use calod.Store.Stream.Delivered.{IsAscending, end}
use calod.Store.Stream.Sound.{
  IsSound, new_group-IsSound, later-IsSound, read_new-IsSound, touch-IsSound,
}
use calod.Store.Stream.Settled.{
  claim-IsSound, autoclaim-IsSound, create_consumer-IsSound, del_consumer-IsSound, ack-IsSound,
}

-- The entries ascend, none is newer than the last id, and all groups are sound.
pub record IsConsistent (s : StreamData) : Type 0 where
  pub ascending : IsAscending s.entries
  pub below_last : capped s.last_id s.entries ≡ true
  pub sound : (name : Str) (g : ConsumerGroup) → get name s.groups ≡ some g → IsSound g

-- One operation that changes a stream. The last id is not set below an entry (XSETID refuses that), a
-- group is not set back (XGROUP SETID to an earlier id), and no entry is claimed by force.
pub data Step (s : StreamData) : StreamData → Type 0 where
  adds : (id : StreamId) (fields : Fields) → Step s (add id fields s).1
  deletes : (ids : List StreamId) → Step s (delete ids s).1
  trims : (maxlen : ℕ) → Step s (trim_maxlen maxlen s).1
  sets_last :
      (id : StreamId) (entries_added : Option ℕ) (max_deleted : Option StreamId)
      → capped id s.entries ≡ true
      → Step s (set_last_id id entries_added max_deleted s)
  creates : (name : Str) (start : StreamId) → Step s (create_group name start s).0
  sets :
      (name : Str) (id : StreamId)
      → ((g : ConsumerGroup) → get name s.groups ≡ some g → id_lt id g.last_delivered_id ≡ false)
      → Step s (set_group_id name id s).0
  destroys : (name : Str) → Step s (destroy_group name s).0
  joins :
      (group consumer : Str) (now_ms : ℕ)
      → Step s (in_group group (create_consumer consumer now_ms) s).0
  leaves : (group consumer : Str) → Step s (in_group group (del_consumer consumer) s).0
  reads :
      (group consumer : Str) (count : Option ℕ) (now_ms : ℕ) (noack : Bool)
      → Step s (group_read_new group consumer count now_ms noack s).0
  reads_again :
      (group consumer : Str) (from : StreamId) (count : Option ℕ) (now_ms : ℕ)
      → Step s (group_read_history group consumer from count now_ms s).0
  acks : (group : Str) (ids : List StreamId) → Step s (in_group group (ack ids) s).0
  claims :
      (group consumer : Str) (ids : List StreamId) (opt : ClaimOptions) (now_ms : ℕ)
      → opt.force ≡ false
      → Step s (in_group group (claim s.entries consumer ids opt now_ms) s).0
  autoclaims :
      (group consumer : Str) (min_idle_ms : ℕ) (start : StreamId) (count now_ms : ℕ) (justid : Bool)
      → Step s
          (in_group group (autoclaim s.entries consumer min_idle_ms start count now_ms justid) s).0

pub data IsReached : StreamData → Type 0 where
  created : IsReached new
  after : {s t : StreamData} → IsReached s → Step s t → IsReached t

-- The entries.
add-IsConsistent :
    (id : StreamId) (fields : Fields) (s : StreamData)
    → IsConsistent s
    → IsConsistent (add id fields s).1
unfolding add
add-IsConsistent id fields s ok = elim (Bool-cases (id_eq id min_id)) [
  | inl zero_id ↦ rw (zero_id, add) ok
  | inr other ↦ elim (Bool-cases (id_lt s.last_id id)) [
    | inr small ↦ rw (other, small, add) ok
    | inl newer ↦
        rw (other, newer, add)
          (record {
            ascending = put-IsAscending id fields ok.ascending;
            below_last =
                all-put _ id fields s.entries (ground arith)
                  (capped-later s.last_id id s.entries newer ok.below_last);
            sound = ok.sound;
          })
  ]
]

delete_one-IsConsistent :
    (id : StreamId) (n : ℕ) (s : StreamData)
    → IsConsistent s
    → IsConsistent (delete_one id (n, s)).1
unfolding delete_one
delete_one-IsConsistent id n s ok = elim (Option-cases (get id s.entries)) [
  | inl absent ↦ rw (absent, delete_one) ok
  | inr (fields, here) ↦
      rw (here, delete_one)
        (record {
          ascending = remove-IsAscending id ok.ascending;
          below_last = all-remove _ id s.entries ok.below_last;
          sound = ok.sound;
        })
]

delete_from-IsConsistent :
    (ids : List StreamId) (n : ℕ) (s : StreamData)
    → IsConsistent s
    → IsConsistent (delete_from ids (n, s)).1
unfolding delete_from
delete_from-IsConsistent [] n s ok = ok
delete_from-IsConsistent (id ∷ ids) n s ok =
    delete_from-IsConsistent ids (delete_one id (n, s)).0 (delete_one id (n, s)).1
      (delete_one-IsConsistent id n s ok)

trim_maxlen-IsConsistent :
    (maxlen : ℕ) (s : StreamData) → IsConsistent s → IsConsistent (trim_maxlen maxlen s).1
unfolding trim_maxlen
trim_maxlen-IsConsistent maxlen s ok = elim (Bool-cases (leb (length s.entries) maxlen)) [
  | inl short ↦ rw (short, trim_maxlen) ok
  | inr long ↦
      rw (long, trim_maxlen)
        (record {
          ascending = remove_ids-IsAscending _ ok.ascending;
          below_last = all-remove_ids _ _ s.entries ok.below_last;
          sound = ok.sound;
        })
]

-- The groups.
set_group-IsConsistent :
    (name : Str) (g : ConsumerGroup) (s : StreamData)
    → IsConsistent s
    → IsSound g
    → IsConsistent (set_group name g s)
set_group-IsConsistent name g s ok sound = record {
  ascending = ok.ascending;
  below_last = ok.below_last;
  sound = λ n h found. elim (Bool-cases (str_eq name n)) [
    | inl same ↦
        let this : g ≡ h = ground (arith, found, get-insert name n g s.groups, same) in
        rw (sym this) sound
    | inr other ↦ ok.sound n h (ground (arith, found, get-insert name n g s.groups, other))
  ];
}

in_group-IsConsistent {ℓ} :
    {A : Type ℓ} (name : Str) (f : ConsumerGroup → ConsumerGroup × A) (s : StreamData)
    → IsConsistent s
    → ((g : ConsumerGroup) → IsSound g → IsSound (f g).0)
    → IsConsistent (in_group name f s).0
unfolding in_group
in_group-IsConsistent name f s ok kept = elim (Option-cases (get name s.groups)) [
  | inl absent ↦ rw (absent, in_group) ok
  | inr (g, here) ↦
      rw (here, in_group) (set_group-IsConsistent name (f g).0 s ok (kept g (ok.sound name g here)))
]

create_group-IsConsistent :
    (name : Str) (start : StreamId) (s : StreamData)
    → IsConsistent s
    → IsConsistent (create_group name start s).0
unfolding create_group
create_group-IsConsistent name start s ok = elim (Option-cases (get name s.groups)) [
  | inl absent ↦
      rw (absent, create_group)
        (set_group-IsConsistent name (new_group start) s ok (new_group-IsSound start))
  | inr (g, here) ↦ rw (here, create_group) ok
]

set_group_id-IsConsistent :
    (name : Str) (id : StreamId) (s : StreamData)
    → ((g : ConsumerGroup) → get name s.groups ≡ some g → id_lt id g.last_delivered_id ≡ false)
    → IsConsistent s
    → IsConsistent (set_group_id name id s).0
unfolding set_group_id
set_group_id-IsConsistent name id s later ok = elim (Option-cases (get name s.groups)) [
  | inl absent ↦ rw (absent, set_group_id) ok
  | inr (g, here) ↦
      rw (here, set_group_id)
        (set_group-IsConsistent name (record g { last_delivered_id = id }) s ok
          (later-IsSound id g (later g here) (ok.sound name g here)))
]

destroy_group-IsConsistent :
    (name : Str) (s : StreamData) → IsConsistent s → IsConsistent (destroy_group name s).0
unfolding destroy_group
destroy_group-IsConsistent name s ok = elim (Option-cases (get name s.groups)) [
  | inl absent ↦ rw (absent, destroy_group) ok
  | inr (g, here) ↦
      rw (here, destroy_group)
        (record {
          ascending = ok.ascending;
          below_last = ok.below_last;
          sound = λ n h found. ok.sound n h (ground (arith, found, get-remove name n s.groups));
        })
]

Step-IsConsistent : {s t : StreamData} → Step s t → IsConsistent s → IsConsistent t
unfolding delete set_last_id group_read_new group_read_history
Step-IsConsistent {s} (adds id fields) ok = add-IsConsistent id fields s ok
Step-IsConsistent {s} (deletes ids) ok = delete_from-IsConsistent ids 0 s ok
Step-IsConsistent {s} (trims maxlen) ok = trim_maxlen-IsConsistent maxlen s ok
Step-IsConsistent {s} (sets_last id entries_added max_deleted above) ok = record {
  ascending = ok.ascending;
  below_last = above;
  sound = ok.sound;
}
Step-IsConsistent {s} (creates name start) ok = create_group-IsConsistent name start s ok
Step-IsConsistent {s} (sets name id later) ok = set_group_id-IsConsistent name id s later ok
Step-IsConsistent {s} (destroys name) ok = destroy_group-IsConsistent name s ok
Step-IsConsistent {s} (joins group consumer now_ms) ok =
    in_group-IsConsistent group _ s ok (create_consumer-IsSound consumer now_ms)
Step-IsConsistent {s} (leaves group consumer) ok =
    in_group-IsConsistent group _ s ok (del_consumer-IsSound consumer)
Step-IsConsistent {s} (reads group consumer count now_ms noack) ok =
    in_group-IsConsistent group _ s ok
      (λ g. read_new-IsSound s.entries consumer count now_ms noack g ok.ascending)
Step-IsConsistent {s} (reads_again group consumer from count now_ms) ok =
    in_group-IsConsistent group _ s ok (touch-IsSound consumer now_ms false)
Step-IsConsistent {s} (acks group ids) ok = in_group-IsConsistent group _ s ok (ack-IsSound ids)
Step-IsConsistent {s} (claims group consumer ids opt now_ms unforced) ok =
    in_group-IsConsistent group _ s ok
      (λ g. claim-IsSound s.entries consumer ids opt now_ms g unforced)
Step-IsConsistent {s} (autoclaims group consumer min_idle_ms start count now_ms justid) ok =
    in_group-IsConsistent group _ s ok
      (autoclaim-IsSound s.entries consumer min_idle_ms start count now_ms justid)

-- In every stream that is reached without claiming by force and without setting a group or the last id
-- back, the entries ascend, none is newer than the last id, and in each group the set of every consumer
-- holds exactly the entries that the group's pending list assigns to it, none of them newer than the
-- last one delivered.
pub reached-IsConsistent : {s : StreamData} → IsReached s → IsConsistent s
unfolding all get
reached-IsConsistent created = record {
  ascending = end;
  below_last = refl;
  sound = λ name g found. ground (arith, found);
}
reached-IsConsistent (after reached move) = Step-IsConsistent move (reached-IsConsistent reached)
