-- ===== src/Ledger/Tests/Refused.antt =====
-- Refused calls on the small ledgers.
use calod.Prelude.{◌≡◌, refl, some, str, nat_eq}
use calod.Prelude.Int.{pos}
use calod.Ledger.Model.{UpdateEffectRequest, LedgerError}
use calod.Ledger.Transition.{transition}
use calod.Ledger.State.{new_ledger}
use calod.Ledger.Acquire.{acquire}
use calod.Ledger.Calls.{transitions, step}
use calod.Ledger.Consistency.Steps.{Reach-IsConsistent}
use calod.Ledger.Refusals.{refusal, refused_call_changes_nothing}
use calod.Ledger.Tests.Reached.{with_claim-Reach, with_claim-HasRoom, with_claim-IsFresh}
use calod.Ledger.Tests.Data.{small_platform, env_at, scope_a, commit_request, worker, with_claim}

abbrev stale_request : UpdateEffectRequest
stale_request = record commit_request { fencing_token = pos 7 }

is_refused :
    refusal small_platform (env_at 20 2) (transitions scope_a 1 stale_request worker) with_claim
    ≡ some (LedgerError.stale_fencing_token (pos 1) (pos 7))
unfolding refusal new_ledger step acquire transition calod.Ledger.State.effect_in_scope
    calod.Prelude.Map.get calod.Ledger.Validate.validate_effect_fields str calod.Prelude.all
    calod.Prelude.any calod.Ledger.State.resolve_lease_ms calod.Ledger.Acquire.check_run
    calod.Ledger.State.build_effect_event calod.Ledger.State.persist calod.Ledger.Indexes.apply
    calod.Prelude.Map.insert calod.Prelude.str_eq calod.Ledger.Transition.check_transition
is_refused = refl

refused_call_changes_nothing_example :
    step small_platform (env_at 20 2) (transitions scope_a 1 stale_request worker) with_claim
    ≡ with_claim
refused_call_changes_nothing_example =
    refused_call_changes_nothing small_platform (env_at 20 2)
      (transitions scope_a 1 stale_request worker) with_claim
      (LedgerError.stale_fencing_token (pos 1) (pos 7)) (Reach-IsConsistent with_claim-Reach)
      with_claim-HasRoom with_claim-IsFresh is_refused
