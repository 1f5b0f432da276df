-- ===== src/Ledger/Lifecycle/Authority.antt =====
-- What `transition` demands of a caller before it changes an effect.
use calod.Prelude.{
  ◌≡◌, refl, ap, Option, none, some, nat_eq, Bool, true, false, Str, str_eq, str_eq_iff, opt_eq,
}
use calod.Prelude.Int.{eq_ℤ, eq_ℤ_iff}
use calod.Ledger.Json.{Platform}
use calod.Ledger.Digest.{sha256_digest}
use calod.Ledger.Model.{
  EffectRecord, UpdateEffectRequest, CallerCapabilities, Result, ok, err, is_worker_transition,
  LedgerError, ◌>>◌,
}
use calod.Ledger.Transition.{guard, check_lease_token, check_transition, authorize, legal}

-- What a caller must have shown.
pub record Authorized (p : Platform) (req : UpdateEffectRequest) (capabilities : CallerCapabilities)
    (effect : EffectRecord) : Type 0 where
  pub fence : req.fencing_token ≡ effect.fencing_token
  pub allowed : legal req.transition effect.state ≡ true
  pub worker :
      is_worker_transition req.transition ≡ true
      → (token : Str) × (req.lease_token ≡ some token)
        × (effect.lease_token_digest ≡ some (sha256_digest p token))
  pub reconciler : is_worker_transition req.transition ≡ false → capabilities.can_reconcile ≡ true

guard_passed : (b : Bool) (e : LedgerError) → guard b e ≡ ok tt → b ≡ true
unfolding guard
guard_passed true e h = refl
guard_passed false e h = absurd (cc)

then_passed :
    {A : Type 0} (m : Result (Unit {0})) (k : Result A) (a : A)
    → (m >> k) ≡ ok a
    → (m ≡ ok tt) × (k ≡ ok a)
then_passed (err e) k a h = absurd (cc)
then_passed (ok u) k a h = (refl, h)

same_digest : (o : Option Str) (s : Str) → opt_eq str_eq o (some s) ≡ true → o ≡ some s
unfolding opt_eq
same_digest none s h = absurd (cc)
same_digest (some t) s h = ap some ((str_eq_iff t s).0 h)

lease_token_shown :
    (p : Platform) (shown : Option Str) (effect : EffectRecord)
    → check_lease_token p shown effect ≡ ok tt
    → (token : Str) × (shown ≡ some token)
      × (effect.lease_token_digest ≡ some (sha256_digest p token))
unfolding check_lease_token
lease_token_shown p none effect h = absurd (cc)
lease_token_shown p (some token) effect h =
    (token, refl, same_digest effect.lease_token_digest _ (guard_passed _ _ h))

authorized :
    (p : Platform) (req : UpdateEffectRequest) (capabilities : CallerCapabilities)
    (effect : EffectRecord)
    → authorize p req capabilities effect ≡ ok tt
    → (is_worker_transition req.transition ≡ true
        → (token : Str) × (req.lease_token ≡ some token)
          × (effect.lease_token_digest ≡ some (sha256_digest p token)))
      × (is_worker_transition req.transition ≡ false → capabilities.can_reconcile ≡ true)
unfolding authorize
authorized p req capabilities effect h = (
  λ w. lease_token_shown p req.lease_token effect (rw (w, authorize) at h),
  λ w. guard_passed capabilities.can_reconcile _ (rw (w, authorize) at h),
)

pub check_transition-Authorized :
    (p : Platform) (req : UpdateEffectRequest) (capabilities : CallerCapabilities)
    (effect : EffectRecord)
    → check_transition p req capabilities effect ≡ ok tt
    → Authorized p req capabilities effect
unfolding check_transition
check_transition-Authorized p req capabilities effect h =
    let (fence, h2) = then_passed (guard (eq_ℤ req.fencing_token effect.fencing_token) _) _ _ h in
    let (allowed, h3) = then_passed (guard (legal req.transition effect.state) _) _ _ h2 in
    let (worker, reconciler) = authorized p req capabilities effect h3 in
    record {
      fence = (eq_ℤ_iff req.fencing_token effect.fencing_token).0 (guard_passed _ _ fence);
      allowed = guard_passed _ _ allowed;
      worker = worker;
      reconciler = reconciler;
    }
