-- ===== src/Operation/Transition.antt =====
-- `can_transition_to` and `transition` of src/pasi/core/operation_state.py.
pub mod Laws
pub mod Lifecycle
use pasi_engineering_workspa.Prelude.{
  ℕ, ℤ, pos, ◌+ℤ◌, eqb_ℤ, ◌≡◌, Bool, true, false, not, ◌&&◌, String, str_eq, Result, ok, err,
  raise_if, ◌>>=◌, ◌>>◌, Option, none, some, if◌then◌else◌,
}
use pasi_engineering_workspa.Text.{strip}
use pasi_engineering_workspa.Json.{Value, int, str}
use pasi_engineering_workspa.Operation.Text.{
  OperationError, invalid_transition, revision_conflict, bounded_string,
}
use pasi_engineering_workspa.Operation.Checks.{
  Status, queued, claimed, generating, completed, failed, status_of_text,
}
use pasi_engineering_workspa.Operation.State.{OperationState, Payload, post_init, to_payload}

-- _ALLOWED_TRANSITIONS
unfoldable pub allowed : Status → Status → Bool
allowed queued claimed = true
allowed queued failed = true
allowed claimed generating = true
allowed claimed failed = true
allowed generating completed = true
allowed generating failed = true
allowed failed claimed = true
allowed _ _ = false

known_status : String → Result OperationError Status
unfolding status_of_text
known_status text = elim (status_of_text text) [ none ↦ err invalid_transition | some s ↦ ok s ]

-- `can_transition_to`; the target is returned beside the answer.
unfoldable pub can_transition_to : OperationState → String → Result OperationError (Status × Bool)
unfolding known_status
can_transition_to s status = do
  normalized ← bounded_string "status" 64 false (str status)
  target ← known_status normalized
  ok (target, allowed s.status target)

-- The keyword arguments of `transition`; `none` is Python's `None`.
pub record Updates : Type 0 where
  pub phase : Option Value
  pub provider : Option Value
  pub prompt_digest : Option Value
  pub response_digest : Option Value
  pub verification_status : Option Value
  pub commit_sha : Option Value
  pub pr_number : Option Value
  pub failure_signature : Option Value
  pub metadata : Option Value

abbrev pub no_updates : Updates
no_updates = record {
  phase = none;
  provider = none;
  prompt_digest = none;
  response_digest = none;
  verification_status = none;
  commit_sha = none;
  pr_number = none;
  failure_signature = none;
  metadata = none;
}

-- `if value is not None: updates[name] = value`
abbrev pub or_old : Option Value → Value → Value
or_old none old = old
or_old (some v) old = v

is_failed : Status → Bool
is_failed failed = true
is_failed _ = false

-- `self.status == "failed" and status == "claimed"`, on the argument before `strip`.
unfoldable pub is_recovery : OperationState → String → Bool
unfolding is_failed
is_recovery s status = is_failed s.status && str_eq status "claimed"

unfoldable pub next_count : Bool → ℤ → ℤ
next_count recovery n = if recovery then n +ℤ pos 1 else n

-- The arguments that `replace` gives to the constructor.
unfoldable pub next_payload : String → OperationState → String → Updates → Payload
next_payload now s status u =
    let old = to_payload s in
    let recovery = is_recovery s status in
    record {
      operation_id = old.operation_id;
      operation_type = old.operation_type;
      status = str (strip status);
      schema_version = int (pos 2);
      state_revision = int (s.state_revision +ℤ pos 1);
      run_id = old.run_id;
      task_id = old.task_id;
      provider = or_old u.provider old.provider;
      phase = or_old u.phase old.phase;
      attempt = int (next_count recovery s.attempt);
      prompt_digest = or_old u.prompt_digest old.prompt_digest;
      response_digest = or_old u.response_digest old.response_digest;
      verification_status = or_old u.verification_status old.verification_status;
      commit_sha = or_old u.commit_sha old.commit_sha;
      pr_number = or_old u.pr_number old.pr_number;
      failure_signature = or_old u.failure_signature old.failure_signature;
      recovery_count = int (next_count recovery s.recovery_count);
      metadata = or_old u.metadata old.metadata;
      created_at = old.created_at;
      updated_at = str now;
    }

stale : Option ℤ → ℤ → Bool
stale none revision = false
stale (some expected) revision = not (eqb_ℤ expected revision)

-- `transition`, with `utc_now()` given.
unfoldable pub transition :
    String → OperationState → String → Option ℤ → Updates → Result OperationError OperationState
unfolding stale
transition now s status expected u = do
  raise_if (stale expected s.state_revision) revision_conflict
  answer ← can_transition_to s status
  raise_if (not answer.1) invalid_transition
  post_init (next_payload now s status u)
