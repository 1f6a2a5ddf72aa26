-- ===== src/Operation/State/RoundTrip.antt =====
-- A valid state is a fixed point of its constructor, and survives `to_dict` and `from_mapping`.
use pasi_engineering_workspa.Prelude.{
  ℕ, ℤ, pos, ltb_ℤ, ◌≤ℤ◌, ◌≡◌, refl, Bool, true, false, String, ok, Option, none, some, length, ◌≤◌,
  arith, ltb, [],
}
use Prim.Native.String.{count}
use pasi_engineering_workspa.Text.{is_blank, any_char, strip, is_space}
use pasi_engineering_workspa.Text.Strip.{any_char_mono, strip_no_space}
use pasi_engineering_workspa.Dict.{Dict}
use pasi_engineering_workspa.Json.{int, str, obj, get}
use pasi_engineering_workspa.Operation.Text.{
  bounded_string, bounded_text, is_control, IsNormal, bounded_string-eq_of_IsNormal,
}
use pasi_engineering_workspa.Operation.Checks.{
  Status, queued, claimed, generating, completed, failed, status_text, checked_status,
  checked_schema, checked_metadata, checked_count, checked_pr_number, checked_digest, bad_digest,
  not_hex,
}
use pasi_engineering_workspa.Operation.State.{
  OperationState, Payload, post_init, pr_value, to_payload, to_dict, mapping_payload, from_mapping,
}
use pasi_engineering_workspa.Operation.Metadata.{
  IsMetadata, to_fields, normalize_metadata-to_fields, length-to_fields,
}
use pasi_engineering_workspa.Operation.State.Valid.{IsValid, post_init-IsValid}

checked_status-status_text : (s : Status) → checked_status (str (status_text s)) ≡ ok s
unfolding checked_status bounded_string bounded_text strip any_char is_control
checked_status-status_text queued = refl
checked_status-status_text claimed = refl
checked_status-status_text generating = refl
checked_status-status_text completed = refl
checked_status-status_text failed = refl

checked_count-int : (name : String) (n : ℤ) → pos 0 ≤ℤ n → checked_count name (int n) ≡ ok n
unfolding checked_count
checked_count-int name n h = ground arith

checked_pr_number-pr_value :
    (o : Option ℤ) → ((n : ℤ) → o ≡ some n → pos 1 ≤ℤ n) → checked_pr_number (pr_value o) ≡ ok o
unfolding checked_pr_number
checked_pr_number-pr_value none h = refl
checked_pr_number-pr_value (some n) h = ground (arith, h n refl)

checked_metadata-to_fields :
    (d : Dict String) → IsMetadata d → length d ≤ 64 → checked_metadata (obj (to_fields d)) ≡ ok d
unfolding checked_metadata
checked_metadata-to_fields d m h =
    rw (length-to_fields d, small (length d) h)
      (normalize_metadata-to_fields [] d m.entry m.distinct)
  where
    small : (n : ℕ) → n ≤ 64 → ltb 64 n ≡ false
    small n h = ground arith

is_space→not_hex : (c : ℕ) → is_space c ≡ true → not_hex c ≡ true
unfolding is_space not_hex
is_space→not_hex c h = ground arith

is_control→not_hex : (c : ℕ) → is_control c ≡ true → not_hex c ≡ true
unfolding is_control not_hex
is_control→not_hex c h = ground arith

any_char-blank : (p : ℕ → Bool) (s : String) → is_blank s ≡ true → any_char p s ≡ false
unfolding any_char
any_char-blank p String.[] h = refl
any_char-blank p (String.◌∷◌ c s) h = cc

count-blank : (s : String) → is_blank s ≡ true → count s ≡ 0
count-blank String.[] h = refl
count-blank (String.◌∷◌ c s) h = cc

-- A digest is empty, or of 64 hexadecimal digits.
good_digest :
    (s : String) → bad_digest s ≡ false → (any_char not_hex s ≡ false) × (ltb 128 (count s) ≡ false)
good_digest s h = ground (arith, any_char-blank not_hex s, count-blank s)

digest-IsNormal : (s : String) → bad_digest s ≡ false → IsNormal 128 true s
digest-IsNormal s h =
    let (hex, short) = good_digest s h in
    record {
      stripped = strip_no_space s (any_char_mono is_space not_hex s is_space→not_hex hex);
      filled = refl;
      short = short;
      clean = any_char_mono is_control not_hex s is_control→not_hex hex;
    }

checked_digest-str : (name s : String) → bad_digest s ≡ false → checked_digest name (str s) ≡ ok s
unfolding checked_digest
checked_digest-str name s h = rw (bounded_string-eq_of_IsNormal name s (digest-IsNormal s h), h)

checked_schema-int : (n : ℤ) → n ≡ pos 2 → checked_schema (int n) ≡ ok n
unfolding checked_schema
checked_schema-int n h = rw h

not_below : (r a : ℤ) → r ≤ℤ a → ltb_ℤ a r ≡ false
not_below r a h = ground arith

-- Running the constructor's checks on a valid state changes nothing.
pub post_init-to_payload : (s : OperationState) → IsValid s → post_init (to_payload s) ≡ ok s
unfolding post_init
post_init-to_payload s v = simp (
  bounded_string-eq_of_IsNormal "operation_id" s.operation_id v.operation_id,
  bounded_string-eq_of_IsNormal "operation_type" s.operation_type v.operation_type,
  checked_status-status_text s.status,
  checked_schema-int s.schema_version v.schema_version,
  checked_metadata-to_fields s.metadata v.metadata v.metadata_size,
  checked_count-int "state_revision" s.state_revision v.state_revision,
  bounded_string-eq_of_IsNormal "run_id" s.run_id v.run_id,
  bounded_string-eq_of_IsNormal "task_id" s.task_id v.task_id,
  bounded_string-eq_of_IsNormal "provider" s.provider v.provider,
  bounded_string-eq_of_IsNormal "phase" s.phase v.phase,
  checked_count-int "attempt" s.attempt v.attempt,
  checked_count-int "recovery_count" s.recovery_count v.recovery_count,
  not_below s.recovery_count s.attempt v.recoveries,
  checked_pr_number-pr_value s.pr_number v.pr_number,
  checked_digest-str "prompt_digest" s.prompt_digest v.prompt_digest,
  checked_digest-str "response_digest" s.response_digest v.response_digest,
  bounded_string-eq_of_IsNormal "verification_status" s.verification_status v.verification_status,
  bounded_string-eq_of_IsNormal "commit_sha" s.commit_sha v.commit_sha,
  bounded_string-eq_of_IsNormal "failure_signature" s.failure_signature v.failure_signature,
  bounded_string-eq_of_IsNormal "created_at" s.created_at v.created_at,
  bounded_string-eq_of_IsNormal "updated_at" s.updated_at v.updated_at,
)

mapping_payload-to_dict :
    (now : String) (s : OperationState) → mapping_payload now (to_dict s) ≡ to_payload s
unfolding mapping_payload to_dict get
mapping_payload-to_dict now s = refl

pub from_mapping-IsValid :
    (now : String) (s : OperationState) → IsValid s → from_mapping now (obj (to_dict s)) ≡ ok s
unfolding from_mapping
from_mapping-IsValid now s v = rw (mapping_payload-to_dict now s) (post_init-to_payload s v)

-- What the constructor built is read back from its own dictionary, field by field, whatever the
-- clock says at the time of reading.
pub from_mapping-to_dict :
    (p : Payload) (now : String) {s : OperationState}
    → post_init p ≡ ok s
    → from_mapping now (obj (to_dict s)) ≡ ok s
from_mapping-to_dict p now {s} h = from_mapping-IsValid now s (post_init-IsValid p h)
