-- ===== src/Control.antt =====
-- `RuntimeControlService` of src/pasi/core/runtime_controls.py over its three stores, each of which
-- commits by itself: an error comes with the stores as they are then. The hash of a request is an
-- argument, as are the text of JSON and SHA-256 of the events.
pub mod Laws
pub mod Moved
pub mod Stale
pub mod Idempotent
pub mod Effects
mod Tests
use Prim.Native.String.{◌++◌ as text_append}
use Prim.Native.Char.{code}
use pasi_engineering_workspa.Prelude.{
  ℕ, zero, suc, ℤ, pos, ltb_ℤ, leb, Bool, true, false, not, ◌&&◌, ◌||◌, String, str_eq, Result, ok,
  err, raise_if, map_err, ◌>>=◌, ◌>>◌, Option, none, some, List, [], ◌∷◌, if◌then◌else◌,
}
use pasi_engineering_workspa.Text.{strip, is_blank, any_char, elem}
use pasi_engineering_workspa.Dict.{Dict, lookup, put}
use pasi_engineering_workspa.Json.{Value, Fields, str, int, obj, field, end}
use pasi_engineering_workspa.Operation.Metadata.{to_fields}
use pasi_engineering_workspa.Operation.Checks.{status_text}
use pasi_engineering_workspa.Operation.State.{OperationState}
use pasi_engineering_workspa.Operation.Transition.{Updates, no_updates}
use pasi_engineering_workspa.Operation.Store.{StoreError, Table, get, transition_row}
use pasi_engineering_workspa.Event.{DurableEvent, EventError, make_event}
use pasi_engineering_workspa.Event.Store.{EventLog, LogError, invalid_event, append}

-- The dictionary that a command returns
pub record ControlResult : Type 0 where
  pub command_id : String
  pub operation_id : String
  pub action : String
  pub status : String
  pub state_revision : ℤ

pub record ControlCommand : Type 0 where
  pub command_id : String
  pub operation_id : String
  pub action : String
  pub expected_revision : ℤ
  pub payload_sha256 : String
  pub result : ControlResult

-- `AuthorizationError`, the `TypeError` of `compare_digest`, the messages of `ControlError`,
-- `IdempotencyConflict`, the `IntegrityError` of the commands, and what the other stores raise
pub data ControlError : Type 0 where
  unauthorized not_ascii : ControlError
  unsupported_action blank_key negative_revision : ControlError
  idempotency_conflict key_taken : ControlError
  operation_error : StoreError → ControlError
  event_error : LogError → ControlError

pub record ControlRequest : Type 0 where
  pub token : String
  pub idempotency_key : String
  pub operation_id : String
  pub action : String
  pub expected_revision : ℤ
  pub reason : String

pub record Stores : Type 0 where
  pub operations : Table
  pub events : EventLog
  pub commands : Dict ControlCommand

-- `RuntimeCommandStore.put`
unfoldable pub put_command :
    String → ControlCommand → Dict ControlCommand → Result ControlError (Dict ControlCommand)
put_command key command commands = elim (lookup key commands) [
  | some _ ↦ err key_taken
  | none ↦ ok (put key command commands)
]

-- `authorize`; `hmac.compare_digest` takes texts of ASCII only.
unfoldable pub authorize : String → String → Result ControlError (Unit {0})
authorize secret token = do
  raise_if (is_blank token) unauthorized
  raise_if (any_char (leb 128) token || any_char (leb 128) secret) not_ascii
  raise_if (not (str_eq token secret)) unauthorized

-- The tests in front of the stores
unfoldable pub check_request : String → ControlRequest → Result ControlError (Unit {0})
unfolding authorize elem
check_request secret q = do
  authorize secret q.token
  raise_if (not (elem q.action ("start" ∷ "stop" ∷ "retry" ∷ "recover" ∷ []))) unsupported_action
  raise_if (is_blank (strip q.idempotency_key)) blank_key
  raise_if (ltb_ℤ q.expected_revision (pos 0)) negative_revision

-- `request_payload`
unfoldable pub request_payload : ControlRequest → Fields
request_payload q = field "operation_id" (str q.operation_id) (
    field "action" (str q.action) (
      field "expected_revision" (int q.expected_revision)
        (field "reason" (str (strip q.reason)) end)))

-- The status that an action asks for
unfoldable pub target_status : String → String
target_status action = if str_eq action "stop" then "failed" else "claimed"

-- The keyword arguments of the transition
unfoldable pub control_updates : String → OperationState → Updates
control_updates action state = record no_updates {
  phase = some (str (text_append "runtime_control." action));
  failure_signature = if str_eq action "stop" then some (str "operator.stop_requested") else none;
  metadata = some (obj (to_fields (put "control_action" action state.metadata)));
}

-- `get` and then `transition`
unfoldable pub move_operation :
    String → ControlRequest → Table → Result StoreError (Table × OperationState)
unfolding target_status control_updates
move_operation now q table = do
  state ← get now q.operation_id table
  transition_row now q.operation_id (target_status q.action) q.expected_revision
      (control_updates q.action state) table

-- `s[:n]`
unfoldable pub take_text : ℕ → String → String
take_text zero s = ""
take_text (suc n) String.[] = ""
take_text (suc n) (String.◌∷◌ c s) = String.◌∷◌ c (take_text n s)

unfoldable pub command_id_of : String → String
unfolding take_text
command_id_of hash = text_append "cmd-" (take_text 24 hash)

-- The arguments of `DurableEvent`
unfoldable pub control_event : String → ControlRequest → String → OperationState → DurableEvent
control_event now q command_id next = record {
  event_id = text_append "event-" command_id;
  event_type = text_append "runtime.control." q.action;
  source = "runtime_control";
  operation_id = q.operation_id;
  task_id = next.task_id;
  run_id = next.run_id;
  correlation_id = command_id;
  causation_id = "";
  payload = field "command_id" (str command_id) (
      field "action" (str q.action) (
        field "reason" (str (strip q.reason)) (
          field "from_revision" (int q.expected_revision) (
            field "to_revision" (int next.state_revision)
              (field "status" (str (status_text next.status)) end)))));
  evidence_refs =
      text_append "runtime://command/" command_id
      ∷ text_append "runtime://operation/" q.operation_id
      ∷ [];
  occurred_at = now;
  schema_version = pos 1;
  payload_sha256 = "";
  sequence = none;
}

unfoldable pub control_result : ControlRequest → String → OperationState → ControlResult
control_result q command_id next = record {
  command_id = command_id;
  operation_id = q.operation_id;
  action = q.action;
  status = status_text next.status;
  state_revision = next.state_revision;
}

unfoldable pub control_command : ControlRequest → String → OperationState → ControlCommand
unfolding command_id_of control_result
control_command q hash next = record {
  command_id = command_id_of hash;
  operation_id = q.operation_id;
  action = q.action;
  expected_revision = q.expected_revision;
  payload_sha256 = hash;
  result = control_result q (command_id_of hash) next;
}

-- What is returned for a key that was used
unfoldable pub replayed : String → ControlCommand → Result ControlError ControlResult
replayed hash existing =
    if not (str_eq existing.payload_sha256 hash)
    then err idempotency_conflict
    else ok existing.result

module _ (dumps : Fields → String) (sha256 : String → String) (hash_of : Fields → String) where
  -- The command store is written last.
  unfoldable pub store_command :
      ControlRequest → String → OperationState → Stores → Stores × Result ControlError ControlResult
  unfolding put_command control_command
  store_command q hash next s =
      elim (put_command q.idempotency_key (control_command q hash next) s.commands) [
        | err e ↦ (s, err e)
        | ok commands ↦
            (record s { commands = commands }, ok (control_result q (command_id_of hash) next))
      ]

  -- The event of the operation that has moved, and the command after it
  unfoldable pub record_event :
      String
      → ControlRequest
      → String
      → OperationState
      → Stores
      → Stores × Result ControlError ControlResult
  unfolding control_event store_command
  record_event now q hash next s =
      elim (make_event dumps sha256 (control_event now q (command_id_of hash) next)) [
        | err e ↦ (s, err (event_error (invalid_event e)))
        | ok event ↦
            let (log, appended) = append dumps sha256 event s.events in
            let written = record s { events = log } in
            elim appended [
              | err e ↦ (written, err (event_error e))
              | ok _ ↦ store_command q hash next written
            ]
      ]

  -- The part of `execute` behind the look for an earlier command
  unfoldable pub run_command :
      String → ControlRequest → String → Stores → Stores × Result ControlError ControlResult
  unfolding move_operation record_event
  run_command now q hash s = elim (move_operation now q s.operations) [
    | err e ↦ (s, err (operation_error e))
    | ok (operations, next) ↦ record_event now q hash next (record s { operations = operations })
  ]

  -- `execute`
  unfoldable pub execute :
      String → String → ControlRequest → Stores → Stores × Result ControlError ControlResult
  unfolding check_request request_payload run_command replayed
  execute secret now q s = elim (check_request secret q) [
    | err e ↦ (s, err e)
    | ok _ ↦
        let hash = hash_of (request_payload q) in
        elim (lookup q.idempotency_key s.commands) [
          | some existing ↦ (s, replayed hash existing)
          | none ↦ run_command now q hash s
        ]
  ]
