-- ===== src/Ledger/Retention/Unknown.antt =====
-- What a retention pass does with effects whose outcome nobody knows.
use calod.Prelude.{◌≡◌, refl, ◌∙◌, ap, Option, none, some, nat_eq, if◌then◌else◌}
use calod.Prelude.Int.{ℤ}
use calod.Prelude.Map.{get}
use calod.Ledger.Json.{Platform}
use calod.Ledger.Model.{
  Uuid, EffectRecord, EffectStatus, RunRecord, RetentionPolicy, is_retention_terminal,
}
use calod.Ledger.Indexes.{Indexes}
use calod.Ledger.State.{Env, Ledger, WalPosition, acknowledged}
use calod.Ledger.Retention.{cutoff_of, run_is_old, apply_retention}
use calod.Ledger.Retention.Ids.{unless, passes}
use calod.Ledger.Retention.Exact.{is_prunable, of_old_run, retention_removes_exactly}
use calod.Ledger.Consistency.Persist.{IsConsistent}

unknown_test :
    (cutoff : ℤ) (ix : Indexes) (e : EffectRecord)
    → e.state ≡ EffectStatus.outcome_unknown
    → is_prunable cutoff ix e ≡ of_old_run cutoff ix e.run_id
unfolding is_retention_terminal
unknown_test cutoff ix e state = rw (ap is_retention_terminal state) refl

of_run_test :
    (cutoff : ℤ) (ix : Indexes) (o : Option Uuid) (r : Uuid) (run : RunRecord)
    → o ≡ some r
    → get r ix.runs ≡ some run
    → of_old_run cutoff ix o ≡ run_is_old cutoff run
of_run_test cutoff ix none r run on there = absurd (cc)
of_run_test cutoff ix (some q) r run on there =
    let same : q ≡ r = cc (on) in rw same (ap (passes (run_is_old cutoff)) there)

-- An effect whose outcome is unknown stays in the ledger through a retention pass over a consistent
-- ledger whose record is acknowledged if its run is not old, and is removed if its run is: terminal
-- and last updated at or before the cutoff.
pub unknown_effect_follows_run :
    (p : Platform) (env : Env) (policy : RetentionPolicy) (l : Ledger) (position : WalPosition)
    (id r : Uuid) (e : EffectRecord) (run : RunRecord)
    → IsConsistent p l
    → env.append ≡ acknowledged position
    → get id l.indexes.effects_by_id ≡ some e
    → e.state ≡ EffectStatus.outcome_unknown
    → e.run_id ≡ some r
    → get r l.indexes.runs ≡ some run
    → get id (apply_retention env policy l).1.indexes.effects_by_id
      ≡ (if run_is_old (cutoff_of env policy) run then none else some e)
unknown_effect_follows_run p env policy l position id r e run c answer there state on run_there =
    let exact = retention_removes_exactly p env policy l position c answer in
    exact.effects id
    ∙ (ap (unless (is_prunable (cutoff_of env policy) l.indexes)) there
        ∙ ap (λ b. if b then none else some e)
            (unknown_test (cutoff_of env policy) l.indexes e state
              ∙ of_run_test (cutoff_of env policy) l.indexes e.run_id r run on run_there))
