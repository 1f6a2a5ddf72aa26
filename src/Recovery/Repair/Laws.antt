-- ===== src/Recovery/Repair/Laws.antt =====
-- What a repair loop has done when it returns.
use pasi_engineering_workspa.Prelude.{
  ℕ, zero, suc, ◌≤◌, ℤ, pos, negsuc, ◌≤ℤ◌, ◌≡◌, refl, ap, subst, Bool, true, false, not, ◌||◌, ◌&&◌,
  ◌==◌, String, ok, Option, none, List, [], ◌∷◌, length, arith, >>=-eq-ok, if◌then◌else◌,
  Bool-cases, inl, inr,
}
use pasi_engineering_workspa.Recovery.{RecoveryInput, RecoveryDecision, classify, is_retryable}
use pasi_engineering_workspa.Recovery.Laws.{classify-IsSafeDecision}
use pasi_engineering_workspa.Recovery.Repair.Played.{Plays, run_budget-Plays}
use pasi_engineering_workspa.Recovery.Repair.{
  RepairAttempt, RepairResult, Action, budget_of, repair, finished, idle, run_budget, execute,
}

-- `failures` attempts that failed, numbered from `n`, and behind them one that succeeded if the loop
-- was won.
abbrev pub log : String → ℕ → ℕ → Bool → List RepairAttempt
log name n zero true = record { attempt = n; action = name; succeeded = true } ∷ []
log name n zero false = []
log name n (suc failures) won =
    record { attempt = n; action = name; succeeded = false } ∷ log name (suc n) failures won

abbrev pub calls : ℕ → Bool → ℕ
calls failures won = if won then suc failures else failures

-- The loop is won within the budget, or it has failed as often as the budget allows.
pub record IsRun (name : String) (n left : ℕ) (attempts : List RepairAttempt) (won : Bool)
    : Type 0 where
  pub failures : ℕ
  pub logged : attempts ≡ log name n failures won
  pub within : calls failures won ≤ left
  pub spent : (won || failures == left) ≡ true

abbrev failure : String → ℕ → RepairAttempt
failure name n = record { attempt = n; action = name; succeeded = false }

IsRun-failed :
    (name : String) (n left : ℕ) {attempts : List RepairAttempt} {won : Bool}
    → IsRun name (suc n) left attempts won
    → IsRun name n (suc left) (failure name n ∷ attempts) won
IsRun-failed name n left {attempts} {won} run = record {
  failures = suc run.failures;
  logged = ap (λ l. failure name n ∷ l) run.logged;
  within = ground (arith, run.within);
  spent = ground (arith, run.spent);
}

repair-IsRun :
    {S : Type 0} (action : Action S) (name : String) (left n : ℕ) (s : S)
    {attempts : List RepairAttempt} {won : Bool} {s' : S}
    → repair action name left n s ≡ ok ((attempts, won), s')
    → IsRun name n left attempts won
unfolding repair
repair-IsRun action name zero n s {attempts} {won} h = record {
  failures = 0;
  logged = cc;
  within = ground arith;
  spent = ground arith;
}
repair-IsRun {S} action name (suc left) n s {attempts} {won} {s'} h =
    let (outcome, acted, h₁) = >>=-eq-ok (action name n s) _ h in
    elim (Bool-cases outcome.0) [
      | inl worked ↦
          let h₂ = rw worked at h₁ in
          record { failures = 0; logged = cc; within = ground arith; spent = ground arith }
      | inr failed ↦
          let (rest, further, h₂) =
            >>=-eq-ok (repair action name left (suc n) outcome.1) _ (rw failed at h₁) in
          subst (λ (r : (List RepairAttempt × Bool) × S). IsRun name n (suc left) r.0.0 r.0.1)
            {x = ((failure name n ∷ rest.0.0, rest.0.1), rest.1)} {y = ((attempts, won), s')}
            (cc (h₂, failed))
            (IsRun-failed name n left (repair-IsRun action name left (suc n) outcome.1 further))
    ]

-- A run of the controller that returned, with the budget that was given.
pub record IsRepair (d : RecoveryDecision) (budget : ℤ) (r : RepairResult) : Type 0 where
  pub limit : ℕ
  pub limited : budget ≡ pos limit
  pub run : IsRun d.action 1 limit r.attempts (not r.terminal)
  pub classification : r.classification ≡ d.classification
  pub exhausted : r.exhausted ≡ (r.terminal && (not (limit == 0) || is_retryable d.classification))

finished-IsRepair :
    (d : RecoveryDecision) (left : ℕ) (attempts : List RepairAttempt) (won : Bool)
    → IsRun d.action 1 (suc left) attempts won
    → IsRepair d (pos (suc left)) (finished d (attempts, won))
finished-IsRepair d left attempts true run = record {
  limit = suc left;
  limited = refl;
  run = run;
  classification = refl;
  exhausted = refl;
}
finished-IsRepair d left attempts false run = record {
  limit = suc left;
  limited = refl;
  run = run;
  classification = refl;
  exhausted = ground arith;
}

run_budget-IsRepair :
    {S : Type 0} (action : Action S) (d : RecoveryDecision) (budget : ℤ) (s : S) {r : RepairResult}
    {s' : S}
    → run_budget action d budget s ≡ ok (r, s')
    → IsRepair d budget r
unfolding run_budget
run_budget-IsRepair action d (negsuc n) s h = absurd (cc)
run_budget-IsRepair action d (pos zero) s {r} h =
    subst (IsRepair d (pos zero)) {x = idle d} {y = r} (cc) (record {
      limit = 0;
      limited = refl;
      run = record { failures = 0; logged = refl; within = omega arith; spent = refl };
      classification = refl;
      exhausted = refl;
    })
run_budget-IsRepair action d (pos (suc left)) s {r} h =
    let (done, looped, h₁) = >>=-eq-ok (repair action d.action (suc left) 1 s) _ h in
    subst (IsRepair d (pos (suc left))) {x = finished d done.0} {y = r} (cc) (
      finished-IsRepair d left done.0.0 done.0.1
        (repair-IsRun action d.action (suc left) 1 s looped))

-- When the controller returns, the budget was 0 or more and was not exceeded; the attempts are
-- numbered from 1, all of them but a last that succeeded have failed, and a run that was not won has
-- used the budget up. It is terminal exactly where no attempt succeeded, and exhausted where
-- it is terminal after an attempt, or without one for a retry.
pub execute-IsRepair :
    {S : Type 0} (action : Action S) (d : RecoveryDecision) (override : Option ℤ) (s : S)
    {r : RepairResult} {s' : S}
    → execute action d override s ≡ ok (r, s')
    → IsRepair d (budget_of d override) r
unfolding execute
execute-IsRepair action d override s h = run_budget-IsRepair action d (budget_of d override) s h

repair_returns :
    {S : Type 0} (action : Action S) (name : String) (left n : ℕ) (s : S)
    → ((i : ℕ) (t : S) → (o : Bool × S) × (action name i t ≡ ok o))
    → (r : (List RepairAttempt × Bool) × S) × (repair action name left n s ≡ ok r)
unfolding repair
repair_returns action name zero n s total = (_, refl)
repair_returns {S} action name (suc left) n s total =
    let ((won, t), acted) = total n s in
    go won t acted (repair_returns action name left (suc n) t total)
  where
    go :
        (won : Bool) (t : S)
        → action name n s ≡ ok (won, t)
        → ((r : (List RepairAttempt × Bool) × S) × (repair action name left (suc n) t ≡ ok r))
        → (r : (List RepairAttempt × Bool) × S) × (repair action name (suc left) n s ≡ ok r)
    go true t acted later =
        (((record { attempt = n; action = name; succeeded = true } ∷ [], true), t), rw acted refl)
    go false t acted (rest, further) =
        (((failure name n ∷ rest.0.0, rest.0.1), rest.1), rw (acted, further) refl)

run_budget_returns :
    {S : Type 0} (action : Action S) (d : RecoveryDecision) (budget : ℤ) (s : S)
    → ((i : ℕ) (t : S) → (o : Bool × S) × (action d.action i t ≡ ok o))
    → pos 0 ≤ℤ budget
    → (r : RepairResult × S) × (run_budget action d budget s ≡ ok r)
unfolding run_budget
run_budget_returns action d (negsuc n) s total h = absurd (omega (arith, h))
run_budget_returns action d (pos zero) s total h = (_, refl)
run_budget_returns action d (pos (suc n)) s total h =
    let (r, looped) = repair_returns action d.action (suc n) 1 s total in
    ((finished d r.0, r.1), rw looped refl)

-- With an action that never raises and a budget of 0 or more, the controller returns, also where the
-- budget is used up. Its attempts are the calls of the action, one after the other, each with the
-- answer that it had, and the state is the one that the last of them left. They are a run within the
-- budget: numbered from 1, all of them but a last that succeeded have failed, and a run that was
-- not won has used the budget up. The result is terminal exactly where no attempt succeeded, and
-- exhausted where it is terminal after an attempt, or without one for a retry.
pub execute_returns :
    {S : Type 0} (action : Action S) (d : RecoveryDecision) (override : Option ℤ) (s : S)
    → ((i : ℕ) (t : S) → (o : Bool × S) × (action d.action i t ≡ ok o))
    → pos 0 ≤ℤ budget_of d override
    → (r : RepairResult) × (s' : S) × (execute action d override s ≡ ok (r, s'))
      × Plays action d.action 1 s r.attempts s'
      × IsRepair d (budget_of d override) r
execute_returns {S} action d override s total h =
    let budget = budget_of d override in
    let ((r, s'), returned) = run_budget_returns action d budget s total h in
    (
      r,
      s',
      unfold execute in returned,
      run_budget-Plays action d budget s returned,
      run_budget-IsRepair action d budget s returned,
    )

length-log :
    (name : String) (n failures : ℕ) (won : Bool)
    → length (log name n failures won) ≡ calls failures won
length-log name n zero true = refl
length-log name n zero false = refl
length-log name n (suc failures) won = ground (arith, length-log name (suc n) failures won)

-- A repair that runs on a decision of `classify`, with no other budget, makes two attempts at most.
pub classify_two_attempts :
    {S : Type 0} (action : Action S) (request : RecoveryInput) (s : S) {d : RecoveryDecision}
    {r : RepairResult} {s' : S}
    → classify request ≡ ok d
    → execute action d none s ≡ ok (r, s')
    → length r.attempts ≤ 2
classify_two_attempts action request s {d} {r} decided h =
    let repaired = execute-IsRepair action d none s h in
    let run = repaired.run in
    let small =
      subst (λ b. b ≤ℤ pos 2) repaired.limited (classify-IsSafeDecision request decided).bounded in
    rw run.logged
      (omega (arith, length-log d.action 1 run.failures (not r.terminal), run.within, small))
