-- ===== src/Recovery/Repair.antt =====
-- `BoundedRepairController.execute` of src/pasi/core/repair_loop.py. The action is a parameter: it
-- may raise, and it may change a state, which is passed through its calls.
pub mod Laws
pub mod Played
use pasi_engineering_workspa.Prelude.{
  ℕ, zero, suc, ℤ, pos, negsuc, Bool, true, false, String, Result, ok, err, raise_if, ◌>>=◌, ◌>>◌,
  Option, none, some, List, [], ◌∷◌,
}
use pasi_engineering_workspa.Recovery.{RecoveryClassification, RecoveryDecision, is_retryable}

pub record RepairAttempt : Type 0 where
  pub attempt : ℕ
  pub action : String
  pub succeeded : Bool

pub record RepairResult : Type 0 where
  pub classification : RecoveryClassification
  pub attempts : List RepairAttempt
  pub terminal : Bool
  pub exhausted : Bool

-- `raised` carries what the action raised.
pub data RepairError : Type 0 where
  negative_budget : RepairError
  raised : String → RepairError

abbrev pub Action : Type 0 → Type 0
Action S = String → ℕ → S → Result RepairError (Bool × S)

abbrev pub budget_of : RecoveryDecision → Option ℤ → ℤ
budget_of d none = d.max_attempts
budget_of d (some override) = override

module _ {S : Type 0} (action : Action S) (name : String) where
  -- The loop: `left` further rounds, the next of which is number `n`. Beside the attempts it tells
  -- whether the last one succeeded.
  unfoldable pub repair : (left n : ℕ) → S → Result RepairError ((List RepairAttempt × Bool) × S)
  repair zero n s = ok (([], false), s)
  repair (suc left) n s = do
    outcome ← action name n s
    let tried : RepairAttempt = record { attempt = n; action = name; succeeded = outcome.0 }
    elim outcome.0 [
      | true ↦ ok ((tried ∷ [], true), outcome.1)
      | false ↦ do rest ← repair left (suc n) outcome.1; ok ((tried ∷ rest.0.0, rest.0.1), rest.1)
    ]

-- What `execute` returns after the loop.
abbrev finished : RecoveryDecision → List RepairAttempt × Bool → RepairResult
finished d (attempts, true) = record {
  classification = d.classification;
  attempts = attempts;
  terminal = false;
  exhausted = false;
}
finished d (attempts, false) = record {
  classification = d.classification;
  attempts = attempts;
  terminal = true;
  exhausted = true;
}

abbrev idle : RecoveryDecision → RepairResult
idle d = record {
  classification = d.classification;
  attempts = [];
  terminal = true;
  exhausted = is_retryable d.classification;
}

pub run_budget :
    {S : Type 0} → Action S → RecoveryDecision → ℤ → S → Result RepairError (RepairResult × S)
unfolding repair
run_budget action d (negsuc _) s = err negative_budget
run_budget action d (pos zero) s = ok (idle d, s)
run_budget action d (pos (suc n)) s = do
  done ← repair action d.action (suc n) 1 s
  ok (finished d done.0, done.1)

unfoldable pub execute :
    {S : Type 0}
    → Action S
    → RecoveryDecision
    → Option ℤ
    → S
    → Result RepairError (RepairResult × S)
unfolding run_budget
execute action d override s = run_budget action d (budget_of d override) s
