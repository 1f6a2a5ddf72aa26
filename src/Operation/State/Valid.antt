-- ===== src/Operation/State/Valid.antt =====
-- What `__post_init__` guarantees.
use pasi_engineering_workspa.Prelude.{
  ℤ, pos, ltb_ℤ, ◌≤ℤ◌, ◌≡◌, true, false, String, ok, Option, some, length, ◌≤◌, arith, >>=-eq-ok,
  ok-injective, raise_if->>=-eq-ok, List, [], ltb, subst,
}
use pasi_engineering_workspa.Json.{Value, null, str, obj, entries}
use pasi_engineering_workspa.Operation.Text.{bounded_string, IsNormal, bounded_string-IsNormal}
use pasi_engineering_workspa.Operation.Checks.{
  checked_status, checked_schema, checked_metadata, checked_count, checked_pr_number,
  checked_digest, bad_digest,
}
use pasi_engineering_workspa.Operation.State.{OperationState, Payload, post_init}
use pasi_engineering_workspa.Operation.Metadata.{
  IsMetadata, normalize_metadata-IsMetadata, length-normalize_metadata,
}

-- Every text is stripped, short and free of control characters, the two names and the two times are
-- not empty, the counters are no less than 0, and recoveries are counted as attempts.
pub record IsValid (s : OperationState) : Type 0 where
  pub operation_id : IsNormal 256 false s.operation_id
  pub operation_type : IsNormal 256 false s.operation_type
  pub schema_version : s.schema_version ≡ pos 2
  pub metadata : IsMetadata s.metadata
  pub metadata_size : length s.metadata ≤ 64
  pub state_revision : pos 0 ≤ℤ s.state_revision
  pub run_id : IsNormal 256 true s.run_id
  pub task_id : IsNormal 256 true s.task_id
  pub provider : IsNormal 128 true s.provider
  pub phase : IsNormal 128 true s.phase
  pub attempt : pos 0 ≤ℤ s.attempt
  pub recovery_count : pos 0 ≤ℤ s.recovery_count
  pub recoveries : s.recovery_count ≤ℤ s.attempt
  pub pr_number : (n : ℤ) → s.pr_number ≡ some n → pos 1 ≤ℤ n
  pub prompt_digest : bad_digest s.prompt_digest ≡ false
  pub response_digest : bad_digest s.response_digest ≡ false
  pub verification_status : IsNormal 64 true s.verification_status
  pub commit_sha : IsNormal 128 true s.commit_sha
  pub failure_signature : IsNormal 512 true s.failure_signature
  pub created_at : IsNormal 128 false s.created_at
  pub updated_at : IsNormal 128 false s.updated_at

checked_schema_lem : (v : Value) {n : ℤ} → checked_schema v ≡ ok n → n ≡ pos 2
unfolding checked_schema
checked_schema_lem null h = cc
checked_schema_lem _ h = ground arith

checked_count_lem : (name : String) (v : Value) {n : ℤ} → checked_count name v ≡ ok n → pos 0 ≤ℤ n
unfolding checked_count
checked_count_lem name null h = cc
checked_count_lem name _ h = ground arith

checked_pr_number_lem :
    (v : Value) {o : Option ℤ} → checked_pr_number v ≡ ok o → (n : ℤ) → o ≡ some n → pos 1 ≤ℤ n
unfolding checked_pr_number
checked_pr_number_lem null h n e = cc
checked_pr_number_lem _ h n e = ground arith

checked_digest_lem :
    (name : String) (v : Value) {s : String} → checked_digest name v ≡ ok s → bad_digest s ≡ false
unfolding checked_digest
checked_digest_lem name (str t) h =
    let (_, _, h₁) = >>=-eq-ok (bounded_string name 128 true (str t)) _ h in
    let (p, e) = raise_if->>=-eq-ok (bad_digest t) _ _ h₁ in cc
checked_digest_lem name _ h = cc

checked_metadata_lem :
    (v : Value) {d : List (String × String)}
    → checked_metadata v ≡ ok d
    → IsMetadata d × (length d ≤ 64)
unfolding checked_metadata
checked_metadata_lem (obj fields) h =
    let (p, e) = raise_if->>=-eq-ok (ltb 64 (length (entries fields))) _ _ h in
    (
      normalize_metadata-IsMetadata [] fields (record { entry = tt; distinct = tt }) e,
      ground (arith, length-normalize_metadata [] fields e),
    )
checked_metadata_lem _ h = cc

not_above : (a r : ℤ) → ltb_ℤ a r ≡ false → r ≤ℤ a
not_above a r h = ground arith

-- Each field of the state is what its check returned.
pub record IsChecked (p : Payload) (s : OperationState) : Type 0 where
  pub operation_id : bounded_string "operation_id" 256 false p.operation_id ≡ ok s.operation_id
  pub operation_type :
      bounded_string "operation_type" 256 false p.operation_type ≡ ok s.operation_type
  pub status : checked_status p.status ≡ ok s.status
  pub schema_version : checked_schema p.schema_version ≡ ok s.schema_version
  pub metadata : checked_metadata p.metadata ≡ ok s.metadata
  pub state_revision : checked_count "state_revision" p.state_revision ≡ ok s.state_revision
  pub run_id : bounded_string "run_id" 256 true p.run_id ≡ ok s.run_id
  pub task_id : bounded_string "task_id" 256 true p.task_id ≡ ok s.task_id
  pub provider : bounded_string "provider" 128 true p.provider ≡ ok s.provider
  pub phase : bounded_string "phase" 128 true p.phase ≡ ok s.phase
  pub attempt : checked_count "attempt" p.attempt ≡ ok s.attempt
  pub recovery_count : checked_count "recovery_count" p.recovery_count ≡ ok s.recovery_count
  pub pr_number : checked_pr_number p.pr_number ≡ ok s.pr_number
  pub prompt_digest : checked_digest "prompt_digest" p.prompt_digest ≡ ok s.prompt_digest
  pub response_digest : checked_digest "response_digest" p.response_digest ≡ ok s.response_digest
  pub verification_status :
      bounded_string "verification_status" 64 true p.verification_status ≡ ok s.verification_status
  pub commit_sha : bounded_string "commit_sha" 128 true p.commit_sha ≡ ok s.commit_sha
  pub failure_signature :
      bounded_string "failure_signature" 512 true p.failure_signature ≡ ok s.failure_signature
  pub created_at : bounded_string "created_at" 128 false p.created_at ≡ ok s.created_at
  pub updated_at : bounded_string "updated_at" 128 false p.updated_at ≡ ok s.updated_at
  pub recoveries : ltb_ℤ s.attempt s.recovery_count ≡ false

pub post_init-IsChecked : (p : Payload) {s : OperationState} → post_init p ≡ ok s → IsChecked p s
unfolding post_init
post_init-IsChecked p {s} h =
    let (operation_id, a₁, h₁) =
      >>=-eq-ok (bounded_string "operation_id" 256 false p.operation_id) _ h in
    let (operation_type, a₂, h₂) =
      >>=-eq-ok (bounded_string "operation_type" 256 false p.operation_type) _ h₁ in
    let (status, a₃, h₃) = >>=-eq-ok (checked_status p.status) _ h₂ in
    let (schema_version, a₄, h₄) = >>=-eq-ok (checked_schema p.schema_version) _ h₃ in
    let (metadata, a₅, h₅) = >>=-eq-ok (checked_metadata p.metadata) _ h₄ in
    let (state_revision, a₆, h₆) =
      >>=-eq-ok (checked_count "state_revision" p.state_revision) _ h₅ in
    let (run_id, a₇, h₇) = >>=-eq-ok (bounded_string "run_id" 256 true p.run_id) _ h₆ in
    let (task_id, a₈, h₈) = >>=-eq-ok (bounded_string "task_id" 256 true p.task_id) _ h₇ in
    let (provider, a₉, h₉) = >>=-eq-ok (bounded_string "provider" 128 true p.provider) _ h₈ in
    let (phase, b₀, k₀) = >>=-eq-ok (bounded_string "phase" 128 true p.phase) _ h₉ in
    let (attempt, b₁, k₁) = >>=-eq-ok (checked_count "attempt" p.attempt) _ k₀ in
    let (recovery_count, b₂, k₂) =
      >>=-eq-ok (checked_count "recovery_count" p.recovery_count) _ k₁ in
    let (b₃, k₃) = raise_if->>=-eq-ok (ltb_ℤ attempt recovery_count) _ _ k₂ in
    let (pr_number, b₄, k₄) = >>=-eq-ok (checked_pr_number p.pr_number) _ k₃ in
    let (prompt_digest, b₅, k₅) = >>=-eq-ok (checked_digest "prompt_digest" p.prompt_digest) _ k₄ in
    let (response_digest, b₆, k₆) =
      >>=-eq-ok (checked_digest "response_digest" p.response_digest) _ k₅ in
    let (verification_status, b₇, k₇) =
      >>=-eq-ok (bounded_string "verification_status" 64 true p.verification_status) _ k₆ in
    let (commit_sha, b₈, k₈) = >>=-eq-ok (bounded_string "commit_sha" 128 true p.commit_sha) _ k₇ in
    let (failure_signature, b₉, k₉) =
      >>=-eq-ok (bounded_string "failure_signature" 512 true p.failure_signature) _ k₈ in
    let (created_at, c₀, l₀) =
      >>=-eq-ok (bounded_string "created_at" 128 false p.created_at) _ k₉ in
    let (updated_at, c₁, l₁) =
      >>=-eq-ok (bounded_string "updated_at" 128 false p.updated_at) _ l₀ in
    subst (IsChecked p) (ok-injective l₁) (record {
      operation_id = a₁;
      operation_type = a₂;
      status = a₃;
      schema_version = a₄;
      metadata = a₅;
      state_revision = a₆;
      run_id = a₇;
      task_id = a₈;
      provider = a₉;
      phase = b₀;
      attempt = b₁;
      recovery_count = b₂;
      pr_number = b₄;
      prompt_digest = b₅;
      response_digest = b₆;
      verification_status = b₇;
      commit_sha = b₈;
      failure_signature = b₉;
      created_at = c₀;
      updated_at = c₁;
      recoveries = b₃;
    })

-- Whatever the constructor accepts is valid.
pub post_init-IsValid : (p : Payload) {s : OperationState} → post_init p ≡ ok s → IsValid s
post_init-IsValid p {s} h =
    let c = post_init-IsChecked p h in
    let (metadata, size) = checked_metadata_lem p.metadata c.metadata in
    record {
      operation_id = bounded_string-IsNormal _ 256 false _ c.operation_id;
      operation_type = bounded_string-IsNormal _ 256 false _ c.operation_type;
      schema_version = checked_schema_lem _ c.schema_version;
      metadata = metadata;
      metadata_size = size;
      state_revision = checked_count_lem _ _ c.state_revision;
      run_id = bounded_string-IsNormal _ 256 true _ c.run_id;
      task_id = bounded_string-IsNormal _ 256 true _ c.task_id;
      provider = bounded_string-IsNormal _ 128 true _ c.provider;
      phase = bounded_string-IsNormal _ 128 true _ c.phase;
      attempt = checked_count_lem _ _ c.attempt;
      recovery_count = checked_count_lem _ _ c.recovery_count;
      recoveries = not_above s.attempt s.recovery_count c.recoveries;
      pr_number = checked_pr_number_lem _ c.pr_number;
      prompt_digest = checked_digest_lem _ _ c.prompt_digest;
      response_digest = checked_digest_lem _ _ c.response_digest;
      verification_status = bounded_string-IsNormal _ 64 true _ c.verification_status;
      commit_sha = bounded_string-IsNormal _ 128 true _ c.commit_sha;
      failure_signature = bounded_string-IsNormal _ 512 true _ c.failure_signature;
      created_at = bounded_string-IsNormal _ 128 false _ c.created_at;
      updated_at = bounded_string-IsNormal _ 128 false _ c.updated_at;
    }
