-- ===== src/Store/Stream/Claims.antt =====
-- Claiming pending entries: calod/crates/calod-core/src/store/stream.rs. One group, and the entries of
-- its stream. `u64` counters wrap around.
use calod.Prelude.{
  ℕ, zero, suc, ◌+◌, ◌-◌, ◌%◌, Bool, not, Option, none, some, List, [], ◌∷◌, Str, str_eq, map, keep,
  ltb, leb, if◌then◌else◌,
}
use Prim.{tt}
use calod.Prelude.Int.{two64}
use calod.Prelude.Map.{get, insert}
use calod.Store.Stream.Ids.{StreamId, id_Eq, id_lt, min_id, Tree, put, Entry, Fields}
use calod.Store.Stream.Groups.{
  ConsumerGroup, PendingEntry, with_consumer, or_default, purge, release,
}

pub record ClaimOptions : Type 0 where
  pub min_idle_ms : ℕ
  pub set_idle_ms : Option ℕ
  pub set_time_ms : Option ℕ
  pub set_retry : Option ℕ
  pub force : Bool
  pub justid : Bool

abbrev pub or_else : Option ℕ → ℕ → ℕ
or_else none n = n
or_else (some m) n = m

-- The consumer becomes the owner of the entry.
unfoldable pub own : Str → StreamId → ℕ → ℕ → ℕ → ConsumerGroup → ConsumerGroup
own consumer id time count now_ms g =
    with_consumer consumer
      (λ c. record c {
        pending = insert id tt c.pending;
        seen_time_ms = now_ms;
        active_time_ms = now_ms;
      })
      (record g {
        pending =
            put id (record { consumer = consumer; delivery_time_ms = time; delivery_count = count })
              g.pending;
      })

-- The previous owner loses it first.
unfoldable pub pass : Str → StreamId → PendingEntry → ℕ → ℕ → ℕ → ConsumerGroup → ConsumerGroup
pass consumer id p time count now_ms g =
    own consumer id time count now_ms
      (if str_eq p.consumer consumer then g else release id p.consumer g)

abbrev pub claim_time : ClaimOptions → ℕ → ℕ
claim_time opt now_ms = or_else opt.set_time_ms (now_ms - or_else opt.set_idle_ms 0)

abbrev pub claim_count : ClaimOptions → ℕ → ℕ
claim_count opt prev = or_else opt.set_retry (if opt.justid then prev else (prev + 1) % two64)

-- What became of one id.
pub data Outcome : Type 0 where
  skipped purged : Outcome
  taken : Fields → Outcome

-- One round of the loop of `claim`.
unfoldable pub claim_one :
    Tree Fields → Str → ClaimOptions → ℕ → StreamId → ConsumerGroup → ConsumerGroup × Outcome
claim_one entries consumer opt now_ms id g = elim (get id g.pending) [
  | none ↦ elim (get id entries) [
    | none ↦ (g, skipped)
    | some fields ↦
        if opt.force
        then (own consumer id (claim_time opt now_ms) (claim_count opt 0) now_ms g, taken fields)
        else (g, skipped)
  ]
  | some p ↦ elim (get id entries) [
    | none ↦ (purge id p g, purged)
    | some fields ↦ if ltb (now_ms - p.delivery_time_ms) opt.min_idle_ms then (g, skipped) else (
      pass consumer id p (claim_time opt now_ms) (claim_count opt p.delivery_count) now_ms g,
      taken fields,
    )
  ]
]

abbrev pub answer_taken : StreamId → Outcome → List Entry → List Entry
answer_taken id (taken fields) es = (id, fields) ∷ es
answer_taken id skipped es = es
answer_taken id purged es = es

unfoldable pub claim_all :
    Tree Fields
    → Str
    → ClaimOptions
    → ℕ
    → List StreamId
    → ConsumerGroup
    → ConsumerGroup × List Entry
claim_all entries consumer opt now_ms [] g = (g, [])
claim_all entries consumer opt now_ms (id ∷ ids) g =
    let (next, outcome) = claim_one entries consumer opt now_ms id g in
    let (after, es) = claim_all entries consumer opt now_ms ids next in
    (after, answer_taken id outcome es)

unfoldable pub claim :
    Tree Fields
    → Str
    → List StreamId
    → ClaimOptions
    → ℕ
    → ConsumerGroup
    → ConsumerGroup × List Entry
claim entries consumer ids opt now_ms g =
    claim_all entries consumer opt now_ms ids (or_default consumer g)

pub record AutoclaimResult : Type 0 where
  pub cursor : StreamId
  pub claimed : List Entry
  pub deleted : List StreamId

-- One round of the loop of `autoclaim`. A candidate that is not pending any more would be a panic;
-- the candidates are the pending ids, and a round removes no other id than its own.
unfoldable pub autoclaim_one :
    Tree Fields → Str → ℕ → ℕ → Bool → StreamId → ConsumerGroup → ConsumerGroup × Outcome
autoclaim_one entries consumer min_idle_ms now_ms justid id g = elim (get id g.pending) [
  | none ↦ (g, skipped)
  | some p ↦
      if ltb (now_ms - p.delivery_time_ms) min_idle_ms
      then (g, skipped)
      else elim (get id entries) [
        | none ↦ (purge id p g, purged)
        | some fields ↦ (
          pass consumer id p now_ms
              (if justid then p.delivery_count else (p.delivery_count + 1) % two64) now_ms g,
          taken fields,
        )
      ]
]

abbrev pub with_outcome : StreamId → Outcome → AutoclaimResult → AutoclaimResult
with_outcome id skipped r = r
with_outcome id purged r = record r { deleted = id ∷ r.deleted }
with_outcome id (taken fields) r = record r { claimed = (id, fields) ∷ r.claimed }

abbrev pub left_after : Outcome → ℕ → ℕ
left_after skipped n = n
left_after purged n = n
left_after (taken fields) n = n - 1

-- The loop of `autoclaim`, while `left` more entries may be claimed.
unfoldable pub autoclaim_from :
    Tree Fields
    → Str
    → ℕ
    → ℕ
    → Bool
    → ℕ
    → List StreamId
    → ConsumerGroup
    → ConsumerGroup × AutoclaimResult
autoclaim_from entries consumer min_idle_ms now_ms justid left [] g =
    (g, record { cursor = min_id; claimed = []; deleted = [] })
autoclaim_from entries consumer min_idle_ms now_ms justid zero (id ∷ ids) g =
    (g, record { cursor = id; claimed = []; deleted = [] })
autoclaim_from entries consumer min_idle_ms now_ms justid (suc left) (id ∷ ids) g =
    let (next, outcome) = autoclaim_one entries consumer min_idle_ms now_ms justid id g in
    let (after, r) =
      autoclaim_from entries consumer min_idle_ms now_ms justid (left_after outcome (suc left)) ids
        next in
    (after, with_outcome id outcome r)

unfoldable pub autoclaim :
    Tree Fields
    → Str
    → ℕ
    → StreamId
    → ℕ
    → ℕ
    → Bool
    → ConsumerGroup
    → ConsumerGroup × AutoclaimResult
autoclaim entries consumer min_idle_ms start count now_ms justid g =
    let opened = or_default consumer g in
    autoclaim_from entries consumer min_idle_ms now_ms justid (if leb count 1 then 1 else count)
      (map (λ e. e.0) (keep (λ e. not (id_lt e.0 start)) opened.pending)) opened
