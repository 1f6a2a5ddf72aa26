-- ===== src/Recovery/Tests.antt =====
-- Tests of src/pasi/core/recovery.py and src/pasi/core/repair_loop.py at small inputs.
use pasi_engineering_workspa.Prelude.{
  ℕ, ℤ, pos, ◌==◌, ◌≡◌, refl, true, false, ok, none, some, arith,
}
use pasi_engineering_workspa.Text.{strip}
use pasi_engineering_workspa.Recovery.{
  RecoveryClassification, RecoveryInput, RecoveryDecision, classify,
}
use pasi_engineering_workspa.Recovery.Laws.{IsSafeDecision, classify-IsSafeDecision}
use pasi_engineering_workspa.Recovery.Repair.{RepairResult, Action, execute}
use pasi_engineering_workspa.Recovery.Repair.Played.{Plays}
use pasi_engineering_workspa.Recovery.Repair.Laws.{log, IsRepair, execute-IsRepair, execute_returns}

abbrev timeout : ℤ → RecoveryInput
timeout retries = record {
  failure_code = "";
  failure_family = " TimeOut";
  retry_count = retries;
  checkpoint_preserved = true;
  operation_identity_preserved = true;
}

abbrev retry : RecoveryDecision
retry = record {
  classification = RecoveryClassification.retryable;
  reason_code = "transient_provider_failure";
  action = "retry_same_operation";
  max_attempts = pos 2;
  requires_human = false;
  preserve_operation_identity = true;
}

retried : classify (timeout (pos 1)) ≡ ok retry
unfolding classify strip
retried = refl

classify-IsSafeDecision_example : IsSafeDecision true (pos 1) retry
classify-IsSafeDecision_example = classify-IsSafeDecision (timeout (pos 1)) retried

-- The second call succeeds; the state counts the calls.
abbrev second_try : Action ℕ
second_try name n calls = ok (n == 2, n)

abbrev repaired : RepairResult
repaired = record {
  classification = RecoveryClassification.retryable;
  attempts = log "retry_same_operation" 1 1 true;
  terminal = false;
  exhausted = false;
}

won : execute second_try retry none 0 ≡ ok (repaired, 2)
unfolding execute
won = refl

execute-IsRepair_example : IsRepair retry (pos 2) repaired
execute-IsRepair_example = execute-IsRepair second_try retry none 0 won

execute_returns_example :
    (r : RepairResult) × (calls : ℕ) × (execute second_try retry (some (pos 5)) 0 ≡ ok (r, calls))
    × Plays second_try "retry_same_operation" 1 0 r.attempts calls
    × IsRepair retry (pos 5) r
execute_returns_example =
    execute_returns second_try retry (some (pos 5)) 0 (λ n calls. ((n == 2, n), refl)) (omega arith)
