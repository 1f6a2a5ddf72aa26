-- ===== src/Operation/Transition/Lifecycle.antt =====
-- The lifecycle of one operation: chains of accepted transitions.
use pasi_engineering_workspa.Prelude.{
  ℕ, zero, suc, ◌+◌, +ℤ-zero, +ℤ-suc, if◌then◌else◌, ap, ◌≤◌, ℤ, pos, ◌+ℤ◌, ◌≡◌, ◌≢◌, refl, sym,
  ◌∙◌, Bool, true, false, String, ok, Option, arith,
}
use pasi_engineering_workspa.Operation.Checks.{Status, queued, completed, failed}
use pasi_engineering_workspa.Operation.State.{OperationState}
use pasi_engineering_workspa.Operation.Transition.{
  allowed, Updates, is_recovery, next_count, transition,
}
use pasi_engineering_workspa.Operation.Transition.Laws.{IsStep, transition-IsStep}

-- `History s n t`: `n` accepted transitions lead from `s` to `t`, whatever the texts, the expected
-- revisions, the clock and the further arguments were.
pub data History (s : OperationState) : ℕ → OperationState → Type 0 where
  start : History s zero s
  step :
      {n : ℕ} {t w : OperationState} (now text : String) (expected : Option ℤ) (u : Updates)
      → History s n t
      → transition now t text expected u ≡ ok w
      → History s (suc n) w

-- A recovery leads out of `failed`, so one more may follow only a later failure.
abbrev pub slack : Status → ℕ
slack failed = 0
slack _ = 1

-- After `n` transitions, of which `recoveries` were recoveries.
pub record IsCounted (s : OperationState) (n : ℕ) (t : OperationState) : Type 0 where
  pub recoveries : ℕ
  pub revision : t.state_revision ≡ s.state_revision +ℤ pos n
  pub attempt : t.attempt ≡ s.attempt +ℤ pos recoveries
  pub recovery_count : t.recovery_count ≡ s.recovery_count +ℤ pos recoveries
  pub spaced : recoveries + recoveries ≤ n + slack t.status

add_one_if : Bool → ℕ → ℕ
add_one_if b n = if b then suc n else n

next_count-+ℤ : (b : Bool) (a : ℤ) (n : ℕ) → next_count b (a +ℤ pos n) ≡ a +ℤ pos (add_one_if b n)
unfolding next_count add_one_if
next_count-+ℤ true a n = +ℤ-suc a n
next_count-+ℤ false a n = refl

spaced_step :
    (s t : Status) (recovers : Bool) (r n : ℕ)
    → (recovers ≡ true → s ≡ failed)
    → allowed s t ≡ true
    → r + r ≤ n + slack s
    → add_one_if recovers r + add_one_if recovers r ≤ suc n + slack t
unfolding allowed add_one_if
spaced_step s t recovers r n from edge h = ground (arith, from)

is_recovery-failed :
    (s : OperationState) (text : String) → is_recovery s text ≡ true → s.status ≡ failed
unfolding is_recovery
is_recovery-failed s text h = ground arith

IsCounted-step :
    (s t w : OperationState) (n : ℕ) (text : String)
    → IsCounted s n t
    → IsStep t text w
    → IsCounted s (suc n) w
IsCounted-step s t w n text c st =
    let recovers = is_recovery t text in
    record {
      recoveries = add_one_if recovers c.recoveries;
      revision = st.revision ∙ ap (λ a. a +ℤ pos 1) c.revision ∙ +ℤ-suc s.state_revision n;
      attempt =
          st.attempt
          ∙ ap (next_count recovers) c.attempt
          ∙ next_count-+ℤ recovers s.attempt c.recoveries;
      recovery_count =
          st.recovery_count
          ∙ ap (next_count recovers) c.recovery_count
          ∙ next_count-+ℤ recovers s.recovery_count c.recoveries;
      spaced =
          spaced_step t.status w.status recovers c.recoveries n (is_recovery-failed t text) st.edge
            c.spaced;
    }

-- After `n` accepted transitions the revision has risen by exactly `n`; attempts and recoveries
-- have risen by one and the same number, which is at most half of `n`, or of `n + 1` where the
-- operation is not failed.
pub History-IsCounted :
    {s : OperationState} {n : ℕ} {t : OperationState} → History s n t → IsCounted s n t
History-IsCounted {s} start = record {
  recoveries = 0;
  revision = sym (+ℤ-zero s.state_revision);
  attempt = sym (+ℤ-zero s.attempt);
  recovery_count = sym (+ℤ-zero s.recovery_count);
  spaced = omega arith;
}
History-IsCounted {s} (step {n} {t} {w} now text expected u h e) =
    IsCounted-step s t w n text (History-IsCounted h) (transition-IsStep now t text expected u e)

-- No transition leaves `completed`, and none enters `queued`.
pub transition_ends :
    (now : String) (s t : OperationState) (text : String) (expected : Option ℤ) (u : Updates)
    → transition now s text expected u ≡ ok t
    → (s.status ≢ completed) × (t.status ≢ queued)
unfolding allowed
transition_ends now s t text expected u h =
    let edge = (transition-IsStep now s text expected u h).edge in ends s.status t.status edge
  where
    ends : (a b : Status) → allowed a b ≡ true → (a ≢ completed) × (b ≢ queued)
    ends a b e = ground arith
