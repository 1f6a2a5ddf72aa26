-- ===== src/Operation/Transition/Laws.antt =====
-- What an accepted transition changes, and which transitions are refused.
use pasi_engineering_workspa.Prelude.{
  ℤ, pos, ◌+ℤ◌, ◌≤ℤ◌, eqb_ℤ_iff, eqb_ℤ_refl, ◌≡◌, ◌≢◌, refl, sym, ◌∙◌, ap, Bool, true, false, not,
  String, ok, err, Option, some, arith, >>=-eq-ok, raise_if->>=-eq-ok, ok-injective, +ℤ_parts,
  eq_iff,
}
use pasi_engineering_workspa.Text.{strip, any_char}
use pasi_engineering_workspa.Json.{int, str}
use pasi_engineering_workspa.Operation.Text.{
  revision_conflict, bounded_string, bounded_text, is_control, IsNormal, bounded_string-IsNormal,
  bounded_string-eq-strip, bounded_string-eq_of_IsNormal,
}
use pasi_engineering_workspa.Operation.Checks.{
  Status, queued, claimed, generating, completed, failed, status_text, checked_count,
  checked_status,
}
use pasi_engineering_workspa.Operation.State.{OperationState, to_payload}
use pasi_engineering_workspa.Operation.State.Valid.{IsValid, post_init-IsValid, post_init-IsChecked}
use pasi_engineering_workspa.Operation.State.RoundTrip.{post_init-to_payload}
use pasi_engineering_workspa.Operation.Transition.{
  allowed, known_status, can_transition_to, Updates, no_updates, is_recovery, next_count,
  next_payload, transition,
}

count_of : (name : String) (n m : ℤ) → checked_count name (int n) ≡ ok m → n ≡ m
unfolding checked_count
count_of name n m h = ground arith

-- An accepted transition from `s` to `t`, asked for by the text `status`.
pub record IsStep (s : OperationState) (status : String) (t : OperationState) : Type 0 where
  pub edge : allowed s.status t.status ≡ true
  pub revision : t.state_revision ≡ s.state_revision +ℤ pos 1
  pub attempt : t.attempt ≡ next_count (is_recovery s status) s.attempt
  pub recovery_count : t.recovery_count ≡ next_count (is_recovery s status) s.recovery_count
  pub valid : IsValid t

checked_status-known_status :
    (text : String) {target : Status}
    → IsNormal 64 false text
    → known_status text ≡ ok target
    → checked_status (str text) ≡ ok target
unfolding checked_status known_status
checked_status-known_status text n h =
    rw (bounded_string-eq_of_IsNormal "status" text n) (ground arith)

-- The answer is about the status that the stripped text names.
can_transition_to_target :
    (s : OperationState) (status : String) (answer : Status × Bool)
    → can_transition_to s status ≡ ok answer
    → (checked_status (str (strip status)) ≡ ok answer.0) × (allowed s.status answer.0 ≡ answer.1)
unfolding can_transition_to
can_transition_to_target s status answer h =
    let (text, bounded, h₁) = >>=-eq-ok (bounded_string "status" 64 false (str status)) _ h in
    let (target, known, h₂) = >>=-eq-ok (known_status text) _ h₁ in
    let same = ok-injective h₂ in
    let normal = bounded_string-IsNormal "status" 64 false (str status) bounded in
    (
      rw
          (
            ← bounded_string-eq-strip "status" 64 false status bounded,
            checked_status-known_status text normal known,
          )
          (ap (λ (a : Status × Bool). ok a.0) same),
      cc,
    )

not-false : (b : Bool) → not b ≡ false → b ≡ true
not-false true h = refl
not-false false h = cc

-- A transition that is accepted follows the table, raises the revision by one, counts an attempt
-- and a recovery exactly at the text "claimed" from `failed`, and ends in a valid state.
pub transition-IsStep :
    (now : String) (s : OperationState) (status : String) (expected : Option ℤ) (u : Updates)
    {t : OperationState}
    → transition now s status expected u ≡ ok t
    → IsStep s status t
unfolding transition next_payload
transition-IsStep now s status expected u {t} h =
    let (fresh, h₁) = raise_if->>=-eq-ok _ _ _ h in
    let (answer, asked, h₂) = >>=-eq-ok (can_transition_to s status) _ h₁ in
    let (granted, h₃) = raise_if->>=-eq-ok (not answer.1) _ _ h₂ in
    let c = post_init-IsChecked (next_payload now s status u) h₃ in
    let (found, edge) = can_transition_to_target s status answer asked in
    record {
      edge = rw (ok-injective (sym c.status ∙ found)) (edge ∙ not-false answer.1 granted);
      revision = sym (count_of "state_revision" _ _ c.state_revision);
      attempt = sym (count_of "attempt" _ _ c.attempt);
      recovery_count = sym (count_of "recovery_count" _ _ c.recovery_count);
      valid = post_init-IsValid (next_payload now s status u) h₃;
    }

-- A transition keeps the identity of a valid operation.
pub operation_id-transition :
    (now : String) (s : OperationState) (status : String) (expected : Option ℤ) (u : Updates)
    {t : OperationState}
    → IsValid s
    → transition now s status expected u ≡ ok t
    → t.operation_id ≡ s.operation_id
unfolding transition next_payload
operation_id-transition now s status expected u v h =
    let (fresh, h₁) = raise_if->>=-eq-ok _ _ _ h in
    let (answer, asked, h₂) = >>=-eq-ok (can_transition_to s status) _ h₁ in
    let (granted, h₃) = raise_if->>=-eq-ok (not answer.1) _ _ h₂ in
    let c = post_init-IsChecked (next_payload now s status u) h₃ in
    bounded_string-eq-strip "operation_id" 256 false s.operation_id c.operation_id
    ∙ v.operation_id.stripped

-- A caller that holds another revision is refused before anything else is looked at.
pub transition_stale :
    (now : String) (s : OperationState) (status : String) (expected : ℤ) (u : Updates)
    → expected ≢ s.state_revision
    → transition now s status (some expected) u ≡ err revision_conflict
unfolding transition
transition_stale now s status expected u h = ground (arith, eqb_ℤ_iff expected s.state_revision)

-- The state that a granted transition without further arguments leads to.
abbrev pub moved : String → OperationState → Bool → Status → OperationState
moved now s recovery target = record s {
  status = target;
  schema_version = pos 2;
  state_revision = s.state_revision +ℤ pos 1;
  attempt = next_count recovery s.attempt;
  recovery_count = next_count recovery s.recovery_count;
  updated_at = now;
}

next_count_pos : (recovery : Bool) (n : ℤ) → pos 0 ≤ℤ n → pos 0 ≤ℤ next_count recovery n
unfolding next_count
next_count_pos recovery n h = ground (arith, +ℤ_parts n (pos 1))

next_count_mono :
    (recovery : Bool) (r a : ℤ) → r ≤ℤ a → next_count recovery r ≤ℤ next_count recovery a
unfolding next_count
next_count_mono recovery r a h = ground (arith, +ℤ_parts r (pos 1), +ℤ_parts a (pos 1))

pub moved-IsValid :
    (now : String) (s : OperationState) (recovery : Bool) (target : Status)
    → IsValid s
    → IsNormal 128 false now
    → IsValid (moved now s recovery target)
moved-IsValid now s recovery target v n = record {
  operation_id = v.operation_id;
  operation_type = v.operation_type;
  metadata = v.metadata;
  metadata_size = v.metadata_size;
  run_id = v.run_id;
  task_id = v.task_id;
  provider = v.provider;
  phase = v.phase;
  pr_number = v.pr_number;
  prompt_digest = v.prompt_digest;
  response_digest = v.response_digest;
  verification_status = v.verification_status;
  commit_sha = v.commit_sha;
  failure_signature = v.failure_signature;
  created_at = v.created_at;
  schema_version = refl;
  state_revision = omega (arith, +ℤ_parts s.state_revision (pos 1), v.state_revision);
  attempt = next_count_pos _ s.attempt v.attempt;
  recovery_count = next_count_pos _ s.recovery_count v.recovery_count;
  recoveries = next_count_mono _ s.recovery_count s.attempt v.recoveries;
  updated_at = n;
}

-- The answer at a text whose stripped form names a status.
can_transition_to-strip :
    (s : OperationState) (text : String) (target : Status)
    → strip text ≡ status_text target
    → can_transition_to s text ≡ ok (target, allowed s.status target)
unfolding can_transition_to bounded_string bounded_text any_char is_control
can_transition_to-strip s text queued e = rw e
can_transition_to-strip s text claimed e = rw e
can_transition_to-strip s text generating e = rw e
can_transition_to-strip s text completed e = rw e
can_transition_to-strip s text failed e = rw e

next_payload-moved :
    (now : String) (s : OperationState) (text : String) (target : Status)
    → strip text ≡ status_text target
    → next_payload now s text no_updates ≡ to_payload (moved now s (is_recovery s text) target)
unfolding next_payload
next_payload-moved now s text target e = rw e

-- From a valid state every edge of the table can be taken by a caller that holds the current
-- revision, and the new state is known in full. The attempt and the recovery are counted by the
-- text before it is stripped.
pub transition-moved :
    (now : String) (s : OperationState) (text : String) (target : Status)
    → IsValid s
    → IsNormal 128 false now
    → strip text ≡ status_text target
    → allowed s.status target ≡ true
    → transition now s text (some s.state_revision) no_updates
      ≡ ok (moved now s (is_recovery s text) target)
unfolding transition
transition-moved now s text target v n e edge =
    let next = moved now s (is_recovery s text) target in
    rw
      (
        eqb_ℤ_refl s.state_revision,
        can_transition_to-strip s text target e,
        edge,
        next_payload-moved now s text target e,
      )
      (post_init-to_payload next (moved-IsValid now s (is_recovery s text) target v n))

-- A failed operation that is claimed by a padded text, such as " claimed", is claimed without an
-- attempt and without a recovery being counted.
pub transition_padded_claim :
    (now : String) (s : OperationState) (text : String)
    → IsValid s
    → IsNormal 128 false now
    → s.status ≡ failed
    → strip text ≡ "claimed"
    → text ≢ "claimed"
    → (t : OperationState) × (transition now s text (some s.state_revision) no_updates ≡ ok t)
      × (t.status ≡ claimed)
      × (t.attempt ≡ s.attempt)
      × (t.recovery_count ≡ s.recovery_count)
unfolding allowed is_recovery next_count
transition_padded_claim now s text v n was e padded = (
  moved now s (is_recovery s text) claimed,
  transition-moved now s text claimed v n e (rw was),
  refl,
  ground (arith, eq_iff text "claimed"),
  ground (arith, eq_iff text "claimed"),
)
