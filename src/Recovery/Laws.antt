-- ===== src/Recovery/Laws.antt =====
-- The decisions of `classify`.
use pasi_engineering_workspa.Prelude.{
  ℤ, pos, ltb_ℤ, ◌≤ℤ◌, ◌≡◌, refl, subst, Bool, true, false, not, ◌&&◌, String, ok, arith,
  Bool-cases, inl, inr, ok-injective, raise_if->>=-eq-ok,
}
use pasi_engineering_workspa.Text.{strip}
use pasi_engineering_workspa.Recovery.{
  RecoveryClassification, RecoveryInput, RecoveryDecision, lost, decide_by, classify, is_retryable,
  validate_recovery_decision,
}

abbrev pub is_human : RecoveryClassification → Bool
is_human RecoveryClassification.human_required = true
is_human _ = false

-- What is true of every decision on a failure with this retry count.
pub record IsSafeDecision (identity : Bool) (retries : ℤ) (d : RecoveryDecision) : Type 0 where
  pub valid : validate_recovery_decision d ≡ ok tt
  pub kept : d.preserve_operation_identity ≡ identity
  pub bounded : d.max_attempts ≤ℤ pos 2
  pub budget : (is_retryable d.classification && not (ltb_ℤ retries (pos 2))) ≡ false
  pub paused : d.requires_human ≡ is_human d.classification

decide_by-valid :
    (code family : String) (retries : ℤ)
    → validate_recovery_decision (decide_by code family retries) ≡ ok tt
unfolding decide_by validate_recovery_decision
decide_by-valid code family retries = ground arith

decide_by-kept :
    (code family : String) (retries : ℤ)
    → (decide_by code family retries).preserve_operation_identity ≡ true
unfolding decide_by
decide_by-kept code family retries = ground arith

decide_by-bounded :
    (code family : String) (retries : ℤ) → (decide_by code family retries).max_attempts ≤ℤ pos 2
unfolding decide_by
decide_by-bounded code family retries = ground arith

decide_by-budget :
    (code family : String) (retries : ℤ)
    → (is_retryable (decide_by code family retries).classification && not (ltb_ℤ retries (pos 2)))
      ≡ false
unfolding decide_by
decide_by-budget code family retries = ground arith

decide_by-paused :
    (code family : String) (retries : ℤ)
    → (decide_by code family retries).requires_human
      ≡ is_human (decide_by code family retries).classification
unfolding decide_by
decide_by-paused code family retries = ground arith

decide_by-IsSafeDecision :
    (code family : String) (retries : ℤ)
    → IsSafeDecision true retries (decide_by code family retries)
decide_by-IsSafeDecision code family retries = record {
  valid = decide_by-valid code family retries;
  kept = decide_by-kept code family retries;
  bounded = decide_by-bounded code family retries;
  budget = decide_by-budget code family retries;
  paused = decide_by-paused code family retries;
}

lost-IsSafeDecision : (retries : ℤ) → IsSafeDecision false retries lost
unfolding validate_recovery_decision
lost-IsSafeDecision retries = record {
  valid = refl;
  kept = refl;
  bounded = omega arith;
  budget = refl;
  paused = refl;
}

-- Every decision of `classify` passes `validate_recovery_decision`, keeps the identity of the
-- operation exactly where the request says it is preserved, allows two attempts at most, is a retry
-- only below two earlier retries, and asks for a human exactly where it is classified so.
pub classify-IsSafeDecision :
    (r : RecoveryInput) {d : RecoveryDecision}
    → classify r ≡ ok d
    → IsSafeDecision r.operation_identity_preserved r.retry_count d
unfolding classify
classify-IsSafeDecision r {d} h =
    let (_, h₁) = raise_if->>=-eq-ok (ltb_ℤ r.retry_count (pos 0)) _ _ h in
    subst (IsSafeDecision r.operation_identity_preserved r.retry_count) (ok-injective h₁)
      (elim (Bool-cases r.operation_identity_preserved) [
        | inl e ↦
            rw e (
              decide_by-IsSafeDecision (strip r.failure_code) (strip r.failure_family)
                r.retry_count)
        | inr e ↦ rw e (lost-IsSafeDecision r.retry_count)
      ])
