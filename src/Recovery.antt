-- ===== src/Recovery.antt =====
-- src/pasi/core/recovery.py: what follows from a failure. `Laws` is about its decisions, `Repair` is
-- src/pasi/core/repair_loop.py.
pub mod Laws
pub mod Repair
mod Tests
use pasi_engineering_workspa.Prelude.{
  ℤ, pos, ltb_ℤ, leb_ℤ, eqb_ℤ, Bool, true, false, not, ◌||◌, ◌&&◌, String, Result, ok, err,
  raise_if, ◌>>=◌, ◌>>◌, List, [], ◌∷◌, if◌then◌else◌,
}
use pasi_engineering_workspa.Text.{strip}
use pasi_engineering_workspa.Text.Case.{lower_eq, lower_in}

pub data RecoveryClassification : Type 0 where
  retryable recoverable blocked terminal human_required : RecoveryClassification

pub record RecoveryInput : Type 0 where
  pub failure_code : String
  pub failure_family : String
  pub retry_count : ℤ
  pub checkpoint_preserved : Bool
  pub operation_identity_preserved : Bool

pub record RecoveryDecision : Type 0 where
  pub classification : RecoveryClassification
  pub reason_code : String
  pub action : String
  pub max_attempts : ℤ
  pub requires_human : Bool
  pub preserve_operation_identity : Bool

-- The messages of the `ValueError`s.
pub data RecoveryError : Type 0 where
  negative_retries negative_attempts no_budget spare_budget : RecoveryError

-- A decision that keeps the operation and asks for no human.
abbrev decision : RecoveryClassification → String → String → ℤ → RecoveryDecision
decision classification reason action attempts = record {
  classification = classification;
  reason_code = reason;
  action = action;
  max_attempts = attempts;
  requires_human = false;
  preserve_operation_identity = true;
}

abbrev human : String → String → RecoveryDecision
human reason action =
    record (decision RecoveryClassification.human_required reason action (pos 0)) {
      requires_human = true;
    }

abbrev lost : RecoveryDecision
lost =
    record (decision RecoveryClassification.terminal "operation_identity_lost"
      "stop_and_preserve_evidence" (pos 0)) { preserve_operation_identity = false }

-- The tests of `classify` after the first, in their order, on the stripped texts.
unfoldable pub decide_by : String → String → ℤ → RecoveryDecision
unfolding lower_eq lower_in
decide_by code family retries =
    if lower_in family ("corruption" ∷ "integrity" ∷ [])
    then decision RecoveryClassification.terminal "integrity_failure" "stop_and_preserve_evidence"
        (pos 0)
    else if lower_in family ("auth" ∷ "authorization" ∷ "permission" ∷ [])
    then human "authorization_required" "pause_for_authorization"
    else if lower_in code ("invalid_request" ∷ "schema_invalid" ∷ "unsafe_command" ∷ [])
    then decision RecoveryClassification.blocked "input_contract_invalid"
        "repair_input_before_retry" (pos 0)
    else if lower_in code ("usage_limit" ∷ "context_exhausted" ∷ []) || lower_eq family "context"
    then decision RecoveryClassification.recoverable "provider_context_limit"
        "fresh_chat_and_rebind" (pos 1)
    else if lower_in code ("connection_lost" ∷ "controller_lost" ∷ [])
        || lower_eq family "connection"
    then decision RecoveryClassification.recoverable "controller_connection_lost"
        "reconnect_same_operation" (pos 1)
    else if lower_in family ("transient_provider" ∷ "timeout" ∷ "overloaded" ∷ [])
    then (if ltb_ℤ retries (pos 2)
        then decision RecoveryClassification.retryable "transient_provider_failure"
            "retry_same_operation" (pos 2)
        else decision RecoveryClassification.terminal "provider_retry_budget_exhausted"
            "stop_and_preserve_evidence" (pos 0))
    else human "unknown_failure" "pause_for_review"

-- `classify`; MAX_PROVIDER_RETRIES is 2 and MAX_RECOVERY_RETRIES is 1.
unfoldable pub classify : RecoveryInput → Result RecoveryError RecoveryDecision
unfolding decide_by
classify r = do
  raise_if (ltb_ℤ r.retry_count (pos 0)) negative_retries
  ok (
      if not r.operation_identity_preserved
      then lost
      else decide_by (strip r.failure_code) (strip r.failure_family) r.retry_count)

abbrev pub is_retryable : RecoveryClassification → Bool
is_retryable RecoveryClassification.retryable = true
is_retryable _ = false

-- `classification in {BLOCKED, TERMINAL, HUMAN_REQUIRED}`
abbrev pub is_final : RecoveryClassification → Bool
is_final RecoveryClassification.blocked = true
is_final RecoveryClassification.terminal = true
is_final RecoveryClassification.human_required = true
is_final _ = false

unfoldable pub validate_recovery_decision : RecoveryDecision → Result RecoveryError (Unit {0})
validate_recovery_decision d = do
  raise_if (ltb_ℤ d.max_attempts (pos 0)) negative_attempts
  raise_if (is_retryable d.classification && leb_ℤ d.max_attempts (pos 0)) no_budget
  raise_if (is_final d.classification && not (eqb_ℤ d.max_attempts (pos 0))) spare_budget
