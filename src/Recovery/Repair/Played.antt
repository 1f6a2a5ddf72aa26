-- ===== src/Recovery/Repair/Played.antt =====
-- The calls of the action behind the attempts of src/pasi/core/repair_loop.py.
use pasi_engineering_workspa.Prelude.{
  ℕ, zero, suc, ℤ, pos, negsuc, ◌≡◌, refl, subst, true, false, inl, inr, Bool, Bool-cases, String,
  ok, List, [], ◌∷◌, >>=-eq-ok, ok-injective,
}
use pasi_engineering_workspa.Recovery.{RecoveryDecision}
use pasi_engineering_workspa.Recovery.Repair.{
  RepairAttempt, RepairResult, Action, repair, finished, run_budget,
}

-- The attempts from number `n` on are the calls of the action, one after the other, each with the
-- answer that it had; they lead from the first state to the second.
pub data Plays {S : Type 0} (action : Action S) (name : String)
    : ℕ → S → List RepairAttempt → S → Type 0 where
  over : {n : ℕ} {s : S} → Plays action name n s [] s
  tried :
      {n : ℕ} {s t u : S} {rest : List RepairAttempt} (won : Bool)
      → action name n s ≡ ok (won, t)
      → Plays action name (suc n) t rest u
      → Plays action name n s (record { attempt = n; action = name; succeeded = won } ∷ rest) u

finished-attempts :
    (d : RecoveryDecision) (done : List RepairAttempt × Bool) → done.0 ≡ (finished d done).attempts
finished-attempts d (attempts, true) = refl
finished-attempts d (attempts, false) = refl

module _ {S : Type 0} (action : Action S) where
  repair-Plays :
      (name : String) (left n : ℕ) (s : S) {done : (List RepairAttempt × Bool) × S}
      → repair action name left n s ≡ ok done
      → Plays action name n s done.0.0 done.1
  unfolding repair
  repair-Plays name zero n s h =
      subst (λ (d : (List RepairAttempt × Bool) × S). Plays action name n s d.0.0 d.1)
        (ok-injective h) over
  repair-Plays name (suc left) n s h =
      let P = λ (d : (List RepairAttempt × Bool) × S). Plays action name n s d.0.0 d.1 in
      let (outcome, acted, h₁) = >>=-eq-ok (action name n s) _ h in
      elim (Bool-cases outcome.0) [
        | inl e ↦ subst P (ok-injective (rw e at h₁)) (tried outcome.0 acted over)
        | inr e ↦
            let (rest, further, h₂) =
              >>=-eq-ok (repair action name left (suc n) outcome.1) _ (rw e at h₁) in
            subst P (ok-injective h₂)
              (tried outcome.0 acted (repair-Plays name left (suc n) outcome.1 further))
      ]

  pub run_budget-Plays :
      (d : RecoveryDecision) (budget : ℤ) (s : S) {done : RepairResult × S}
      → run_budget action d budget s ≡ ok done
      → Plays action d.action 1 s done.0.attempts done.1
  unfolding run_budget
  run_budget-Plays d (negsuc n) s h = absurd (cc h)
  run_budget-Plays d (pos zero) s h =
      subst (λ (r : RepairResult × S). Plays action d.action 1 s r.0.attempts r.1) (ok-injective h)
        over
  run_budget-Plays d (pos (suc left)) s h =
      let (done, looped, h₁) = >>=-eq-ok (repair action d.action (suc left) 1 s) _ h in
      subst (λ (r : RepairResult × S). Plays action d.action 1 s r.0.attempts r.1) (ok-injective h₁)
        (subst (λ l. Plays action d.action 1 s l done.1) (finished-attempts d done.0)
          (repair-Plays d.action (suc left) 1 s looped))
