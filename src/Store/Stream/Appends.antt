-- ===== src/Store/Stream/Appends.antt =====
-- About entries that are added with an automatic id.
use calod.Prelude.{ℕ, ◌+◌, ◌<◌, ◌%◌, ◌≡◌, refl, inr, true, false, [], ◌∷◌, ◌++◌, arith, all, ap}
use calod.Prelude.Int.{two64}
use calod.Store.Stream.{StreamData, add, next_auto_id}
use calod.Store.Stream.Ids.{StreamId, id_eq, id_lt, min_id, Tree, put, Fields}
use calod.Store.Stream.Ascending.{capped}
use calod.Store.Stream.Histories.{IsReached, reached-IsConsistent}

put_last :
    (last id : StreamId) (fields : Fields) (t : Tree Fields)
    → id_lt last id ≡ true
    → capped last t ≡ true
    → put id fields t ≡ t ++ (id, fields) ∷ []
unfolding put all
put_last last id fields [] newer below = refl
put_last last id fields ((j, v) ∷ t) newer below =
    let before : id_lt j id ≡ true = ground (arith, newer, below) in
    let not_after : id_lt id j ≡ false = ground (arith, newer, below) in
    rw (before, not_after)
      (ap (λ r. (j, v) ∷ r) (put_last last id fields t newer (ground (arith, below))))

next_auto_id-newer :
    (now_ms : ℕ) (s : StreamData)
    → s.last_id.seq + 1 < two64
    → id_lt s.last_id (next_auto_id now_ms s) ≡ true
unfolding next_auto_id
next_auto_id-newer now_ms s room = ground (arith, room)

-- In a reached stream whose last sequence number is not the largest one, an entry that is added with the
-- automatic id is accepted, whatever the clock says, and stands behind all others.
pub auto_add_appends :
    (now_ms : ℕ) (fields : Fields) (s : StreamData)
    → IsReached s
    → s.last_id.seq + 1 < two64
    → add (next_auto_id now_ms s) fields s ≡ (
      inr (next_auto_id now_ms s),
      record s {
        entries = s.entries ++ (next_auto_id now_ms s, fields) ∷ [];
        last_id = next_auto_id now_ms s;
        entries_added = (s.entries_added + 1) % two64;
      },
    )
unfolding add
auto_add_appends now_ms fields s reached room =
    let id = next_auto_id now_ms s in
    let newer : id_lt s.last_id id ≡ true = next_auto_id-newer now_ms s room in
    let nonzero : id_eq id min_id ≡ false = ground (arith, newer) in
    let behind =
      put_last s.last_id id fields s.entries newer (reached-IsConsistent reached).below_last in
    rw (nonzero, newer, behind, add) refl
