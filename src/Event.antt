-- ===== src/Event.antt =====
-- `DurableEvent` of src/pasi/core/events.py. A text of JSON is what the argument `dumps` makes of the
-- payload, and `sha256` is an argument. The texts of an event are texts, also in a mapping.
pub mod Laws
pub mod Store
mod Tests
use Prim.Native.Char.{code}
use pasi_engineering_workspa.Prelude.{
  ℕ, ℤ, pos, leb_ℤ, eqb_ℤ, ◌+◌, Bool, true, false, not, ◌&&◌, String, str_eq, Result, ok, err,
  raise_if, map_err, ◌>>=◌, ◌>>◌, ltb, Option, none, some, List, [], ◌∷◌, if◌then◌else◌,
}
use pasi_engineering_workspa.Text.{is_blank}
use pasi_engineering_workspa.Text.Bounded.{TextFault, check_text}
use pasi_engineering_workspa.Json.{Fields}

pub record DurableEvent : Type 0 where
  pub event_id : String
  pub event_type : String
  pub source : String
  pub operation_id : String
  pub task_id : String
  pub run_id : String
  pub correlation_id : String
  pub causation_id : String
  pub payload : Fields
  pub evidence_refs : List String
  pub occurred_at : String
  pub schema_version : ℤ
  pub payload_sha256 : String
  pub sequence : Option ℤ

-- `InvalidEvent`
pub data EventError : Type 0 where
  bad_text : (name : String) → TextFault → EventError
  unsupported_version bad_sequence payload_too_large wrong_digest : EventError

-- `len(payload.encode("utf-8"))`
unfoldable pub utf8_length : String → ℕ
utf8_length String.[] = 0
utf8_length (String.◌∷◌ c s) =
    (if ltb (code c) 128
      then 1
      else if ltb (code c) 2048
      then 2
      else if ltb (code c) 65536
      then 3
      else 4)
    + utf8_length s

-- `bounded_string`
unfoldable pub event_text : String → ℕ → Bool → String → Result EventError String
event_text name limit allow_empty value =
    map_err (bad_text name) (check_text limit allow_empty value)

unfoldable pub check_refs : List String → Result EventError (Unit {0})
unfolding event_text
check_refs [] = ok tt
check_refs (ref ∷ refs) = do event_text "evidence_ref" 512 false ref; check_refs refs

unfoldable pub check_sequence : Option ℤ → Result EventError (Unit {0})
check_sequence none = ok tt
check_sequence (some n) = raise_if (leb_ℤ n (pos 0)) bad_sequence

-- The checks of the names
unfoldable pub check_names : DurableEvent → Result EventError (Unit {0})
unfolding event_text
check_names e = do
  event_text "event_id" 256 false e.event_id
  event_text "event_type" 128 false e.event_type
  event_text "source" 128 false e.source
  event_text "operation_id" 256 true e.operation_id
  event_text "task_id" 256 true e.task_id
  event_text "run_id" 256 true e.run_id
  event_text "correlation_id" 256 true e.correlation_id
  event_text "causation_id" 256 true e.causation_id
  ok tt

module _ (dumps : Fields → String) (sha256 : String → String) where
  unfoldable pub canonical_json : Fields → Result EventError String
  unfolding utf8_length
  canonical_json payload =
      raise_if (ltb 262144 (utf8_length (dumps payload))) payload_too_large >> ok (dumps payload)

  unfoldable pub payload_digest : Fields → Result EventError String
  unfolding canonical_json
  payload_digest payload = do text ← canonical_json payload; ok (sha256 text)

  -- The constructor with its `__post_init__`
  unfoldable pub make_event : DurableEvent → Result EventError DurableEvent
  unfolding check_names check_sequence payload_digest check_refs
  make_event e = do
    check_names e
    raise_if (not (eqb_ℤ e.schema_version (pos 1))) unsupported_version
    check_sequence e.sequence
    digest ← payload_digest e.payload
    raise_if (not (is_blank e.payload_sha256) && not (str_eq e.payload_sha256 digest)) wrong_digest
    check_refs e.evidence_refs
    ok (record e { payload_sha256 = digest })
