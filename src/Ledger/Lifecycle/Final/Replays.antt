-- ===== src/Ledger/Lifecycle/Final/Replays.antt =====
-- About effects in a final state and later repetitions of their requests.
use calod.Prelude.{◌≡◌, refl, true, false, some, Str, str_eq_iff, nat_eq}
use calod.Prelude.Int.{ℤ}
use calod.Ledger.Json.{Platform}
use calod.Ledger.Digest.{input_digest}
use calod.Ledger.Model.{
  Scope, EffectStatus, EffectRecord, EffectDecisionType, AcquireEffectRequest,
  is_retention_terminal, ok,
}
use calod.Ledger.Indexes.{Indexes, EffectKey, key_eq}
use calod.Ledger.State.{Env, Ledger, resolve_lease_ms}
use calod.Ledger.Validate.{validate_effect_fields}
use calod.Ledger.Acquire.{
  decide, plan_state, plan_existing, plan_for, read_decision, acquire_key, find_effect,
  acquire_plan, run_plan, acquire,
}
use calod.Ledger.Calls.{Call, step}
use calod.Ledger.Consistency.Persist.{IsConsistent, HasRoom}
use calod.Ledger.Consistency.Effects.{IsFresh}
use calod.Ledger.Consistency.Steps.{Reach, Reach-IsConsistent, step-IsConsistent}
use calod.Ledger.Lifecycle.Plans.{Matches}
use calod.Ledger.Lifecycle.Final.{IsFinal}
use calod.Ledger.Lifecycle.Final.Steps.{prunes, step-IsFinal}

-- The ledgers that calls other than retention lead to from `l`.
pub data Later (p : Platform) (l : Ledger) : Ledger → Type 0 where
  now : Later p l l
  after :
      {m : Ledger} (env : Env) (call : Call)
      → Later p l m
      → HasRoom m
      → IsFresh env m
      → prunes call ≡ false
      → Later p l (step p env call m)

Later-IsConsistent :
    {p : Platform} {l m : Ledger} → IsConsistent p l → Later p l m → IsConsistent p m
Later-IsConsistent c now = c
Later-IsConsistent {p} c (after {m} env call later space fresh kept) =
    step-IsConsistent p env call m (Later-IsConsistent c later) space fresh

-- An effect of a reachable ledger that is in a final state (committed, failed for good, or
-- reconciled) is stored unchanged, under the same key, after any calls that are not retention passes.
pub Later-IsFinal :
    {p : Platform} {l m : Ledger} (key : EffectKey) (e : EffectRecord)
    → Reach p l
    → IsFinal key e l.indexes
    → Later p l m
    → IsFinal key e m.indexes
Later-IsFinal key e r final now = final
Later-IsFinal {p} key e r final (after {m} env call later space fresh kept) =
    step-IsFinal p env m (Later-IsConsistent (Reach-IsConsistent r) later).sound key e
      (Later-IsFinal key e r final later) call fresh kept

module _ (p : Platform) (env : Env) (scope : Scope) (name : Str) (req : AcquireEffectRequest) where
  final_state-replays :
      (lease_ms : ℤ) (state : EffectStatus) (e : EffectRecord)
      → is_retention_terminal state ≡ true
      → plan_state p env scope name req lease_ms state e
        ≡ decide (read_decision EffectDecisionType.replay e)
  unfolding plan_state is_retention_terminal
  final_state-replays lease_ms EffectStatus.committed e h = refl
  final_state-replays lease_ms EffectStatus.reconciled_committed e h = refl
  final_state-replays lease_ms EffectStatus.failed_terminal e h = refl
  final_state-replays lease_ms EffectStatus.reconciled_failed e h = refl
  final_state-replays lease_ms state e h = absurd (cc)

  plan_for-replays :
      (lease_ms : ℤ) (e : EffectRecord) (m : Ledger)
      → Matches p req e
      → is_retention_terminal e.state ≡ true
      → plan_for p env scope name req lease_ms (some e) m
        ≡ ok (decide (read_decision EffectDecisionType.replay e))
  unfolding plan_for plan_existing
  plan_for-replays lease_ms e m matches final =
      rw
        (
          (str_eq_iff e.input_digest (input_digest p req.input)).1 matches.digest,
          (str_eq_iff e.tool_name req.tool_name).1 matches.tool,
          final_state-replays lease_ms e.state e final,
        )
        refl

  find_effect-IsFinal :
      (key : EffectKey) (e : EffectRecord) (ix : Indexes)
      → IsFinal key e ix
      → find_effect key ix ≡ some e
  unfolding find_effect
  find_effect-IsFinal key e ix final = rw (final.named, find_effect) final.there

  acquire_plan-replays :
      (lease_ms : ℤ) (e : EffectRecord) (m : Ledger)
      → validate_effect_fields req.scope name req.tool_name ≡ ok tt
      → resolve_lease_ms req.lease_duration_seconds m ≡ ok lease_ms
      → Matches p req e
      → IsFinal (acquire_key scope name req) e m.indexes
      → acquire_plan p env scope name req m
        ≡ ok (decide (read_decision EffectDecisionType.replay e))
  unfolding acquire_plan
  acquire_plan-replays lease_ms e m valid resolved matches final =
      rw (valid, resolved, find_effect-IsFinal (acquire_key scope name req) e m.indexes final)
        (plan_for-replays lease_ms e m matches final.final)

-- Whatever calls but retention have run since, a valid repetition of the request of an effect in a
-- final state is answered by `replay` with that effect, and hands out no lease token.
pub final_replays :
    (p : Platform) (env : Env) (scope : Scope) (name : Str) (req : AcquireEffectRequest)
    (lease_ms : ℤ) (e : EffectRecord) (l m : Ledger)
    → Reach p l
    → IsFinal (acquire_key scope name req) e l.indexes
    → Later p l m
    → Matches p req e
    → validate_effect_fields req.scope name req.tool_name ≡ ok tt
    → resolve_lease_ms req.lease_duration_seconds m ≡ ok lease_ms
    → (acquire p env scope name req m).0 ≡ ok (read_decision EffectDecisionType.replay e)
unfolding acquire run_plan
final_replays p env scope name req lease_ms e l m r final later matches valid resolved =
    rw
      (acquire_plan-replays p env scope name req lease_ms e m valid resolved matches
        (Later-IsFinal (acquire_key scope name req) e r final later))
      refl
