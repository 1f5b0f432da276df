-- ===== src/Ledger/Lifecycle/Edges.antt =====
-- The edges of the state machine of one effect.
use calod.Prelude.{◌≡◌, true, Str, arith}
use calod.Ledger.Model.{EffectStatus, EffectTransition, EffectRecord, UpdateEffectRequest, ok}
use calod.Ledger.State.{Env, Ledger}
use calod.Ledger.Transition.{legal, next_effect, fail_effect, failed_state}

-- The states that hold a lease.
pub data IsLeased : EffectStatus → Type 0 where
  is_claimed : IsLeased EffectStatus.claimed
  is_in_progress : IsLeased EffectStatus.in_progress

-- The edges of the effect state machine.
pub data Edge : EffectStatus → EffectTransition → EffectStatus → Type 0 where
  starts : Edge EffectStatus.claimed EffectTransition.start EffectStatus.in_progress
  renews : {s : EffectStatus} → IsLeased s → Edge s EffectTransition.renew s
  commits : {s : EffectStatus} → IsLeased s → Edge s EffectTransition.commit EffectStatus.committed
  fails :
      {s : EffectStatus}
      → IsLeased s
      → Edge s EffectTransition.fail_retryable EffectStatus.failed_retryable
  fails_for_good :
      {s : EffectStatus}
      → IsLeased s
      → Edge s EffectTransition.fail_terminal EffectStatus.failed_terminal
  loses :
      {s : EffectStatus}
      → IsLeased s
      → Edge s EffectTransition.mark_outcome_unknown EffectStatus.outcome_unknown
  reconciles :
      Edge EffectStatus.outcome_unknown EffectTransition.reconcile_committed
        EffectStatus.reconciled_committed
  writes_off :
      Edge EffectStatus.outcome_unknown EffectTransition.reconcile_failed
        EffectStatus.reconciled_failed

-- Where a transition leads from a state.
abbrev pub target : EffectTransition → EffectStatus → EffectStatus
target EffectTransition.start s = EffectStatus.in_progress
target EffectTransition.renew s = s
target EffectTransition.commit s = EffectStatus.committed
target EffectTransition.fail_retryable s = EffectStatus.failed_retryable
target EffectTransition.fail_terminal s = EffectStatus.failed_terminal
target EffectTransition.mark_outcome_unknown s = EffectStatus.outcome_unknown
target EffectTransition.reconcile_committed s = EffectStatus.reconciled_committed
target EffectTransition.reconcile_failed s = EffectStatus.reconciled_failed

-- Each row of the table is an edge.
pub row-Edge : (t : EffectTransition) (s : EffectStatus) → legal t s ≡ true → Edge s t (target t s)
unfolding legal
row-Edge EffectTransition.start EffectStatus.claimed h = starts
row-Edge EffectTransition.renew EffectStatus.claimed h = renews is_claimed
row-Edge EffectTransition.renew EffectStatus.in_progress h = renews is_in_progress
row-Edge EffectTransition.commit EffectStatus.claimed h = commits is_claimed
row-Edge EffectTransition.commit EffectStatus.in_progress h = commits is_in_progress
row-Edge EffectTransition.fail_retryable EffectStatus.claimed h = fails is_claimed
row-Edge EffectTransition.fail_retryable EffectStatus.in_progress h = fails is_in_progress
row-Edge EffectTransition.fail_terminal EffectStatus.claimed h = fails_for_good is_claimed
row-Edge EffectTransition.fail_terminal EffectStatus.in_progress h = fails_for_good is_in_progress
row-Edge EffectTransition.mark_outcome_unknown EffectStatus.claimed h = loses is_claimed
row-Edge EffectTransition.mark_outcome_unknown EffectStatus.in_progress h = loses is_in_progress
row-Edge EffectTransition.reconcile_committed EffectStatus.outcome_unknown h = reconciles
row-Edge EffectTransition.reconcile_failed EffectStatus.outcome_unknown h = writes_off
row-Edge t s h = absurd (cc)

pub next_effect-target :
    (env : Env) (l : Ledger) (req : UpdateEffectRequest) (t : EffectTransition)
    (effect next : EffectRecord) (event_type : Str)
    → next_effect env l req t effect ≡ ok (next, event_type)
    → (next.state ≡ target t effect.state) × (next.fencing_token ≡ effect.fencing_token)
unfolding next_effect fail_effect failed_state
next_effect-target env l req EffectTransition.start effect next event_type h = ground arith
next_effect-target env l req EffectTransition.renew effect next event_type h = ground arith
next_effect-target env l req EffectTransition.commit effect next event_type h = ground arith
next_effect-target env l req EffectTransition.fail_retryable effect next event_type h = ground arith
next_effect-target env l req EffectTransition.fail_terminal effect next event_type h = ground arith
next_effect-target env l req EffectTransition.mark_outcome_unknown effect next event_type h =
    ground arith
next_effect-target env l req EffectTransition.reconcile_committed effect next event_type h =
    ground arith
next_effect-target env l req EffectTransition.reconcile_failed effect next event_type h =
    ground arith
