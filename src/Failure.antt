-- ===== src/Failure.antt =====
-- `SQLiteFailureRegistry` of src/pasi/core/failure_registry.py. The table goes from `signature_id` to
-- the row, which is the signature that `_row_to_signature` reads. `lower`, the
-- `str.lower` of all of Unicode, and SHA-256 are arguments.
pub mod Laws
mod Tests
use Prim.Native.String.{◌++◌ as text_append}
use pasi_engineering_workspa.Prelude.{
  ℕ, ◌+◌, ◌==◌, ltb, Bool, true, false, ◌||◌, ◌&&◌, String, str_eq, Result, ok, err, Option, none,
  some, List, [], ◌∷◌, map, keep, if◌then◌else◌,
}
use pasi_engineering_workspa.Text.{strip, is_blank}
use pasi_engineering_workspa.Text.Order.{leb_text}
use pasi_engineering_workspa.Dict.{Dict, lookup, put}
use pasi_engineering_workspa.Sort.{sort}

pub record FailureSignature : Type 0 where
  pub signature_id : String
  pub subsystem : String
  pub failure_code : String
  pub failure_family : String
  pub first_seen_at : String
  pub last_seen_at : String
  pub occurrence_count : ℕ
  pub latest_operation_id : String
  pub evidence_ref : String

-- The arguments of `record`; `none` is Python's `None`.
pub record Failure : Type 0 where
  pub subsystem : String
  pub failure_code : String
  pub failure_family : String
  pub operation_id : String
  pub evidence_ref : String
  pub seen_at : Option String

abbrev pub FailureTable : Type 0
FailureTable = Dict FailureSignature

-- `seen_at or utc_now()`
unfoldable pub timestamp_of : String → Failure → String
timestamp_of now f = elim f.seen_at [ none ↦ now | some at ↦ if is_blank at then now else at ]

-- `INSERT`
unfoldable pub first_row : String → String → Failure → FailureSignature
first_row key timestamp f = record {
  signature_id = key;
  subsystem = strip f.subsystem;
  failure_code = strip f.failure_code;
  failure_family = strip f.failure_family;
  first_seen_at = timestamp;
  last_seen_at = timestamp;
  occurrence_count = 1;
  latest_operation_id = f.operation_id;
  evidence_ref = f.evidence_ref;
}

-- `UPDATE`
unfoldable pub seen_again : String → Failure → FailureSignature → FailureSignature
seen_again timestamp f row = record {
  signature_id = row.signature_id;
  subsystem = row.subsystem;
  failure_code = row.failure_code;
  failure_family = row.failure_family;
  first_seen_at = row.first_seen_at;
  last_seen_at = timestamp;
  occurrence_count = row.occurrence_count + 1;
  latest_operation_id = f.operation_id;
  evidence_ref = f.evidence_ref;
}

-- The row that `record` leaves under the key of the failure, by the row that was there
unfoldable pub row_after : String → String → Failure → Option FailureSignature → FailureSignature
unfolding first_row seen_again
row_after key timestamp f none = first_row key timestamp f
row_after key timestamp f (some row) = seen_again timestamp f row

module _ (lower sha256 : String → String) where
  unfoldable pub signature_key : Failure → String
  signature_key f = sha256 (
      text_append (lower (strip f.subsystem)) (
        text_append "|" (
          text_append (lower (strip f.failure_code))
            (text_append "|" (lower (strip f.failure_family))))))

  -- `record`
  unfoldable pub record_failure : String → Failure → FailureTable → FailureTable × FailureSignature
  unfolding row_after timestamp_of signature_key
  record_failure now f table =
      let key = signature_key f in
      let row = row_after key (timestamp_of now f) f (lookup key table) in (put key row table, row)

-- `get`; the error is the `KeyError`.
unfoldable pub get_failure : String → FailureTable → Result String FailureSignature
get_failure signature_id table = elim (lookup signature_id table) [
  | none ↦ err signature_id
  | some row ↦ ok row
]

-- `ORDER BY occurrence_count DESC, signature_id ASC`
abbrev pub more_frequent : FailureSignature → FailureSignature → Bool
more_frequent a b =
    ltb b.occurrence_count a.occurrence_count
    || ((a.occurrence_count == b.occurrence_count) && leb_text a.signature_id b.signature_id)

abbrev of_subsystem : Option String → FailureSignature → Bool
of_subsystem none row = true
of_subsystem (some subsystem) row = str_eq row.subsystem subsystem

-- `list`
unfoldable pub list_failures : Option String → FailureTable → List FailureSignature
list_failures subsystem table =
    sort more_frequent
      (keep (of_subsystem subsystem) (map (λ (e : String × FailureSignature). e.1) table))
