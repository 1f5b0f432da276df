-- ===== src/Ledger/Consistency/Persist.antt =====
-- About `persist` and the consistency of the ledger, for every answer of the log writer.
use calod.Prelude.{◌+◌, ◌<◌, ◌≡◌, refl, ap, ◌∙◌, Option, none, some, [], ◌∷◌, ◌++◌, nat_eq, length}
use calod.Prelude.Int.{two63}
use calod.Prelude.Map.{get}
use calod.Ledger.Json.{Platform}
use calod.Ledger.Model.{Uuid, RetentionPolicy}
use calod.Ledger.Chain.{verify_event_chain}
use calod.Ledger.Indexes.{Applied, RecordKind, apply, replay, empty_indexes, entries_of}
use calod.Ledger.Indexes.Sound.{IsSound, Fits, timeline}
use calod.Ledger.Indexes.Apply.{Succeeds, apply-Succeeds, replay-append}
use calod.Ledger.Indexes.Tidy.{IsTidy, replay-IsTidy, empty_indexes-IsTidy}
use calod.Ledger.State.{
  Env, Ledger, AppendOutcome, WalPosition, acknowledged, failed, settle, persist, new_ledger,
}

pub record IsConsistent (p : Platform) (l : Ledger) : Type 0 where
  pub sound : IsSound p l.indexes
  pub replays : replay l.log empty_indexes ≡ (none, l.indexes)

-- No run's timeline is so long that the next sequence number leaves `i64`.
pub record HasRoom (l : Ledger) : Type 0 where
  pub room : (r : Uuid) → length (timeline r l.indexes) + 1 < two63

pub empty_indexes-IsSound : (p : Platform) → IsSound p empty_indexes
unfolding get entries_of verify_event_chain
empty_indexes-IsSound p = record {
  heads = λ r run h. cc;
  run_ids = λ r run h. cc;
  orphans = λ r h. refl;
  chains = λ r. refl;
  effect_ids_agree = λ id e h. cc;
  keyed = λ id e h. cc;
  named = λ key id h. absurd (cc);
}

pub new_ledger-IsConsistent :
    (p : Platform) (retention : Option RetentionPolicy) → IsConsistent p (new_ledger retention)
unfolding new_ledger replay
new_ledger-IsConsistent p retention = record { sound = empty_indexes-IsSound p; replays = refl }

settle-IsConsistent :
    (p : Platform) (kind : RecordKind) (l : Ledger) (position : WalPosition) (a : Applied)
    → apply kind l.indexes ≡ a
    → IsConsistent p l
    → Succeeds p a
    → IsConsistent p (settle position a (record l { log = l.log ++ kind ∷ [] })).1
unfolding settle
settle-IsConsistent p kind l position (none, ix) e c s = record {
  sound = s.sound;
  replays =
      replay-append l.log kind empty_indexes l.indexes c.replays (ap (λ (a : Applied). a.0) e)
      ∙ ap (λ (a : Applied). (none, a.1)) e;
}
settle-IsConsistent p kind l position (some x, ix) e c s = absurd (cc (s.no_error))

persist_answer :
    (p : Platform) (env : Env) (kind : RecordKind) (l : Ledger) (answer : AppendOutcome)
    → env.append ≡ answer
    → IsConsistent p l
    → Fits p l.indexes kind
    → IsConsistent p (persist env kind l).1
unfolding persist
persist_answer p env kind l (acknowledged position) e c fits =
    rw (e, persist)
      (settle-IsConsistent p kind l position (apply kind l.indexes) refl c
        (apply-Succeeds p l.indexes kind c.sound fits))
persist_answer p env kind l (failed x) e c fits = rw (e, persist) c

-- Whatever the log writer answers.
pub persist-IsConsistent :
    (p : Platform) (env : Env) (kind : RecordKind) (l : Ledger)
    → IsConsistent p l
    → Fits p l.indexes kind
    → IsConsistent p (persist env kind l).1
persist-IsConsistent p env kind l = persist_answer p env kind l env.append refl

-- The maps of a consistent ledger bind no key twice, since its log replays to them.
pub IsConsistent-IsTidy : (p : Platform) (l : Ledger) → IsConsistent p l → IsTidy l.indexes
IsConsistent-IsTidy p l c =
    rw (ap (λ (a : Applied). a.1) c.replays) at
      (replay-IsTidy l.log empty_indexes empty_indexes-IsTidy)
