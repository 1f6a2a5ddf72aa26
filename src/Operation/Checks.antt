-- ===== src/Operation/Checks.antt =====
-- What `__post_init__` of src/pasi/core/operation_state.py checks of single fields.
use Prim.Native.String.{count}
use pasi_engineering_workspa.Prelude.{
  ℕ, ℤ, pos, ltb_ℤ, eqb_ℤ, Bool, true, false, not, ◌||◌, ◌&&◌, String, str_eq, Result, ok, err,
  raise_if, ◌>>=◌, ◌>>◌, ltb, leb, ◌==◌, Option, none, some, [], length, if◌then◌else◌,
}
use pasi_engineering_workspa.Text.{is_blank, any_char}
use pasi_engineering_workspa.Dict.{Dict}
use pasi_engineering_workspa.Json.{Value, null, str, obj, arr, as_int, as_number, entries}
use pasi_engineering_workspa.Operation.Text.{Refusal, OperationError, invalid_state, bounded_string}
use pasi_engineering_workspa.Operation.Metadata.{normalize_metadata}

-- OPERATION_STATUSES
pub data Status : Type 0 where
  queued claimed generating completed failed : Status

abbrev pub status_text : Status → String
status_text queued = "queued"
status_text claimed = "claimed"
status_text generating = "generating"
status_text completed = "completed"
status_text failed = "failed"

unfoldable pub status_of_text : String → Option Status
status_of_text s =
    if str_eq s "queued"
    then some queued
    else if str_eq s "claimed"
    then some claimed
    else if str_eq s "generating"
    then some generating
    else if str_eq s "completed"
    then some completed
    else if str_eq s "failed"
    then some failed
    else none

or_raise : String → Refusal → {A : Type 0} → Option A → Result OperationError A
or_raise name why none = err (invalid_state name why)
or_raise name why (some a) = ok a

unfoldable pub checked_status : Value → Result OperationError Status
unfolding or_raise status_of_text
checked_status v = do
  text ← bounded_string "status" 64 false v
  or_raise "status" Refusal.unsupported_status (status_of_text text)

-- The membership test, which no list and no object survives, and the step from version 1 to 2.
unfoldable pub checked_schema : Value → Result OperationError ℤ
checked_schema (arr _) = err (invalid_state "schema_version" Refusal.unhashable)
checked_schema (obj _) = err (invalid_state "schema_version" Refusal.unhashable)
checked_schema v = elim (as_number v) [
  | none ↦ err (invalid_state "schema_version" Refusal.unsupported_schema)
  | some n ↦
      if eqb_ℤ n (pos 1) || eqb_ℤ n (pos 2)
      then ok (pos 2)
      else err (invalid_state "schema_version" Refusal.unsupported_schema)
]

unfoldable pub checked_metadata : Value → Result OperationError (Dict String)
checked_metadata (obj fields) = do
  raise_if (ltb 64 (length (entries fields))) (invalid_state "metadata" Refusal.too_many_keys)
  normalize_metadata [] fields
checked_metadata _ = err (invalid_state "metadata" Refusal.not_an_object)

-- `not isinstance(value, int) or value < 0`
unfoldable pub checked_count : String → Value → Result OperationError ℤ
checked_count name v = elim (as_int v) [
  | none ↦ err (invalid_state name Refusal.not_a_count)
  | some n ↦ if ltb_ℤ n (pos 0) then err (invalid_state name Refusal.not_a_count) else ok n
]

unfoldable pub checked_pr_number : Value → Result OperationError (Option ℤ)
checked_pr_number null = ok none
checked_pr_number v = elim (as_int v) [
  | none ↦ err (invalid_state "pr_number" Refusal.not_positive)
  | some n ↦
      if ltb_ℤ (pos 0) n then ok (some n) else err (invalid_state "pr_number" Refusal.not_positive)
]

-- `char not in "0123456789abcdef"`
unfoldable pub not_hex : ℕ → Bool
not_hex c = not ((leb 48 c && leb c 57) || (leb 97 c && leb c 102))

abbrev pub bad_digest : String → Bool
bad_digest s = not (is_blank s) && (not (count s == 64) || any_char not_hex s)

-- The digests are checked and not normalised.
unfoldable pub checked_digest : String → Value → Result OperationError String
checked_digest name (str s) = do
  bounded_string name 128 true (str s)
  raise_if (bad_digest s) (invalid_state name Refusal.not_a_digest)
  ok s
checked_digest name v = err (invalid_state name Refusal.not_a_string)
