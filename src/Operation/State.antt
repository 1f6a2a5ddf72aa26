-- ===== src/Operation/State.antt =====
-- `OperationState` of src/pasi/core/operation_state.py: the record, its constructor's checks and its
-- two conversions. A Python bool is kept as the integer that it equals.
pub mod Valid
pub mod RoundTrip
use Prim.Native.String.{count}
use pasi_engineering_workspa.Prelude.{
  ℕ, ℤ, pos, ltb_ℤ, eqb_ℤ, ◌≡◌, refl, Bool, true, false, not, ◌||◌, ◌&&◌, String, str_eq, Result,
  ok, err, raise_if, ◌>>=◌, ◌>>◌, ltb, leb, ◌==◌, Option, none, some, List, [], ◌∷◌, length,
  if◌then◌else◌,
}
use pasi_engineering_workspa.Text.{is_blank, any_char, elem}
use pasi_engineering_workspa.Dict.{Dict}
use pasi_engineering_workspa.Json.{
  Value, Fields, null, int, str, obj, arr, end, field, get, get_or, as_int, as_number, entries,
}
use pasi_engineering_workspa.Operation.Text.{Refusal, OperationError, invalid_state, bounded_string}
use pasi_engineering_workspa.Operation.Metadata.{normalize_metadata, to_fields}
use pasi_engineering_workspa.Operation.Checks.{
  Status, status_text, checked_status, checked_schema, checked_metadata, checked_count,
  checked_pr_number, checked_digest,
}

pub record OperationState : Type 0 where
  pub operation_id : String
  pub operation_type : String
  pub status : Status
  pub schema_version : ℤ
  pub state_revision : ℤ
  pub run_id : String
  pub task_id : String
  pub provider : String
  pub phase : String
  pub attempt : ℤ
  pub prompt_digest : String
  pub response_digest : String
  pub verification_status : String
  pub commit_sha : String
  pub pr_number : Option ℤ
  pub failure_signature : String
  pub recovery_count : ℤ
  pub metadata : Dict String
  pub created_at : String
  pub updated_at : String

-- The arguments of the constructor, before `__post_init__`.
pub record Payload : Type 0 where
  pub operation_id : Value
  pub operation_type : Value
  pub status : Value
  pub schema_version : Value
  pub state_revision : Value
  pub run_id : Value
  pub task_id : Value
  pub provider : Value
  pub phase : Value
  pub attempt : Value
  pub prompt_digest : Value
  pub response_digest : Value
  pub verification_status : Value
  pub commit_sha : Value
  pub pr_number : Value
  pub failure_signature : Value
  pub recovery_count : Value
  pub metadata : Value
  pub created_at : Value
  pub updated_at : Value

-- `__post_init__`, in the order of the source.
unfoldable pub post_init : Payload → Result OperationError OperationState
post_init p = do
  operation_id ← bounded_string "operation_id" 256 false p.operation_id
  operation_type ← bounded_string "operation_type" 256 false p.operation_type
  status ← checked_status p.status
  schema_version ← checked_schema p.schema_version
  metadata ← checked_metadata p.metadata
  state_revision ← checked_count "state_revision" p.state_revision
  run_id ← bounded_string "run_id" 256 true p.run_id
  task_id ← bounded_string "task_id" 256 true p.task_id
  provider ← bounded_string "provider" 128 true p.provider
  phase ← bounded_string "phase" 128 true p.phase
  attempt ← checked_count "attempt" p.attempt
  recovery_count ← checked_count "recovery_count" p.recovery_count
  raise_if (ltb_ℤ attempt recovery_count) (invalid_state "recovery_count" Refusal.above_attempt)
  pr_number ← checked_pr_number p.pr_number
  prompt_digest ← checked_digest "prompt_digest" p.prompt_digest
  response_digest ← checked_digest "response_digest" p.response_digest
  verification_status ← bounded_string "verification_status" 64 true p.verification_status
  commit_sha ← bounded_string "commit_sha" 128 true p.commit_sha
  failure_signature ← bounded_string "failure_signature" 512 true p.failure_signature
  created_at ← bounded_string "created_at" 128 false p.created_at
  updated_at ← bounded_string "updated_at" 128 false p.updated_at
  ok (record {
    operation_id = operation_id;
    operation_type = operation_type;
    status = status;
    schema_version = schema_version;
    state_revision = state_revision;
    run_id = run_id;
    task_id = task_id;
    provider = provider;
    phase = phase;
    attempt = attempt;
    prompt_digest = prompt_digest;
    response_digest = response_digest;
    verification_status = verification_status;
    commit_sha = commit_sha;
    pr_number = pr_number;
    failure_signature = failure_signature;
    recovery_count = recovery_count;
    metadata = metadata;
    created_at = created_at;
    updated_at = updated_at;
  })

abbrev pub pr_value : Option ℤ → Value
pr_value none = null
pr_value (some n) = int n

-- The fields as the arguments of a new constructor call, as `replace` passes them.
abbrev pub to_payload : OperationState → Payload
to_payload s = record {
  operation_id = str s.operation_id;
  operation_type = str s.operation_type;
  status = str (status_text s.status);
  schema_version = int s.schema_version;
  state_revision = int s.state_revision;
  run_id = str s.run_id;
  task_id = str s.task_id;
  provider = str s.provider;
  phase = str s.phase;
  attempt = int s.attempt;
  prompt_digest = str s.prompt_digest;
  response_digest = str s.response_digest;
  verification_status = str s.verification_status;
  commit_sha = str s.commit_sha;
  pr_number = pr_value s.pr_number;
  failure_signature = str s.failure_signature;
  recovery_count = int s.recovery_count;
  metadata = obj (to_fields s.metadata);
  created_at = str s.created_at;
  updated_at = str s.updated_at;
}

-- `to_dict`: `asdict` lists the fields in the order of their declaration.
unfoldable pub to_dict : OperationState → Fields
to_dict s =
    let p = to_payload s in
    field "operation_id" p.operation_id (
      field "operation_type" p.operation_type (
        field "status" p.status (
          field "schema_version" p.schema_version (
            field "state_revision" p.state_revision (
              field "run_id" p.run_id (
                field "task_id" p.task_id (
                  field "provider" p.provider (
                    field "phase" p.phase (
                      field "attempt" p.attempt (
                        field "prompt_digest" p.prompt_digest (
                          field "response_digest" p.response_digest (
                            field "verification_status" p.verification_status (
                              field "commit_sha" p.commit_sha (
                                field "pr_number" p.pr_number (
                                  field "failure_signature" p.failure_signature (
                                    field "recovery_count" p.recovery_count (
                                      field "metadata" p.metadata (
                                        field "created_at" p.created_at
                                          (field "updated_at" p.updated_at end)))))))))))))))))))

-- The payload that `from_mapping` builds, with `utc_now()` given.
unfoldable pub mapping_payload : String → Fields → Payload
mapping_payload now m = record {
  operation_id = get_or "operation_id" (str "") m;
  operation_type = get_or "operation_type" (str "") m;
  status = get_or "status" (str "queued") m;
  schema_version = get_or "schema_version" (int (pos 2)) m;
  state_revision = get_or "state_revision" (int (pos 0)) m;
  run_id = get_or "run_id" (str "") m;
  task_id = get_or "task_id" (str "") m;
  provider = get_or "provider" (str "") m;
  phase = get_or "phase" (str "") m;
  attempt = get_or "attempt" (int (pos 0)) m;
  prompt_digest = get_or "prompt_digest" (str "") m;
  response_digest = get_or "response_digest" (str "") m;
  verification_status = get_or "verification_status" (str "") m;
  commit_sha = get_or "commit_sha" (str "") m;
  pr_number = get_or "pr_number" null m;
  failure_signature = get_or "failure_signature" (str "") m;
  recovery_count = get_or "recovery_count" (int (pos 0)) m;
  metadata = get_or "metadata" (obj end) m;
  created_at = get_or "created_at" (str now) m;
  updated_at = get_or "updated_at" (str now) m;
}

unfoldable pub from_mapping : String → Value → Result OperationError OperationState
unfolding mapping_payload
from_mapping now (obj m) = post_init (mapping_payload now m)
from_mapping now _ = err (invalid_state "operation state" Refusal.not_an_object)
