-- ===== src/Control/Tests.antt =====
-- Tests of src/pasi/core/runtime_controls.py at one operation. The text of a payload is "{}", a text is
-- its own hash, and the hash of every request is "h".
use pasi_engineering_workspa.Prelude.{
  pos, ◌+ℤ◌, arith, ◌≡◌, ◌⊎◌, refl, String, ok, err, none, some, [], ◌∷◌,
}
use pasi_engineering_workspa.Text.{strip, any_char, elem}
use pasi_engineering_workspa.Text.Bounded.{check_text}
use pasi_engineering_workspa.Dict.{lookup, put}
use pasi_engineering_workspa.Sort.{sort}
use pasi_engineering_workspa.Json.{Fields, str, int, null, obj, end}
use pasi_engineering_workspa.Operation.Text.{bounded_string, bounded_text, is_control}
use pasi_engineering_workspa.Operation.Checks.{
  queued, checked_status, checked_schema, checked_metadata, checked_count, checked_pr_number,
  checked_digest,
}
use pasi_engineering_workspa.Operation.Metadata.{normalize_metadata}
use pasi_engineering_workspa.Operation.State.{
  OperationState, Payload, post_init, to_dict, from_mapping, mapping_payload,
}
use pasi_engineering_workspa.Operation.State.Valid.{post_init-IsValid}
use pasi_engineering_workspa.Operation.Transition.{
  allowed, can_transition_to, next_payload, next_count, is_recovery, transition,
}
use pasi_engineering_workspa.Operation.Store.{
  Table, dumped, row_of, create, get, load, update, transition_row,
}
use pasi_engineering_workspa.Operation.Store.Sorted.{sort_metadata}
use pasi_engineering_workspa.Operation.Store.Records.{IsSound}
use pasi_engineering_workspa.Operation.Store.Sound.{create-IsSound}
use pasi_engineering_workspa.Event.{
  check_names, check_sequence, check_refs, payload_digest, make_event, utf8_length,
}
use pasi_engineering_workspa.Event.Store.{duplicate_event, find_event, append, load_event}
use pasi_engineering_workspa.Event.Store.Laws.{Numbered}
use pasi_engineering_workspa.Control.{
  ControlError, ControlRequest, ControlResult, Stores, put_command, check_request, request_payload,
  command_id_of, control_event, replayed, move_operation, execute, event_error,
}
use pasi_engineering_workspa.Control.Idempotent.{none_yet, call, execute_repeats}
use pasi_engineering_workspa.Control.Effects.{
  AreSound, IsExecuted, IsInterrupted, execute-IsExecuted, execute_raises, Calls-AreSound,
}

abbrev dumps : Fields → String
dumps payload = "{}"

abbrev same_text : String → String
same_text s = s

abbrev hash_of : Fields → String
hash_of payload = "h"

abbrev payload : Payload
payload = record {
  operation_id = str "op-1";
  operation_type = str "engineering";
  status = str "queued";
  schema_version = int (pos 2);
  state_revision = int (pos 4);
  run_id = str "run-7";
  task_id = str "task-2";
  provider = str "";
  phase = str "";
  attempt = int (pos 1);
  prompt_digest = str "";
  response_digest = str "";
  verification_status = str "";
  commit_sha = str "";
  pr_number = null;
  failure_signature = str "";
  recovery_count = int (pos 0);
  metadata = obj end;
  created_at = str "t0";
  updated_at = str "t1";
}

abbrev state : OperationState
state = record {
  operation_id = "op-1";
  operation_type = "engineering";
  status = queued;
  schema_version = pos 2;
  state_revision = pos 4;
  run_id = "run-7";
  task_id = "task-2";
  provider = "";
  phase = "";
  attempt = pos 1;
  prompt_digest = "";
  response_digest = "";
  verification_status = "";
  commit_sha = "";
  pr_number = none;
  failure_signature = "";
  recovery_count = pos 0;
  metadata = [];
  created_at = "t0";
  updated_at = "t1";
}

accepted_state : post_init payload ≡ ok state
unfolding post_init bounded_string bounded_text strip any_char is_control checked_status
    checked_schema checked_metadata normalize_metadata checked_count checked_pr_number
    checked_digest put
accepted_state = refl

abbrev one_row : Table
one_row = ("op-1", row_of state) ∷ []

no_row : IsSound []
unfolding lookup
no_row = record { at_key = λ id row h. cc h }

created : create state [] ≡ ok (one_row, state)
unfolding create lookup put
created = refl

abbrev before : Stores
before = record {
  operations = one_row;
  events = record { last_sequence = 0; rows = [] };
  commands = [];
}

before-AreSound : AreSound dumps same_text hash_of before
unfolding Numbered
before-AreSound = record {
  operations = create-IsSound state [] (post_init-IsValid payload accepted_state) no_row created;
  events = record { valid = tt; ordered = omega arith };
}

abbrev start : ControlRequest
start = record {
  token = "secret";
  idempotency_key = "key";
  operation_id = "op-1";
  action = "start";
  expected_revision = pos 4;
  reason = " now ";
}

abbrev after : Stores
after = (execute dumps same_text hash_of "secret" "t2" start before).0

abbrev answer : ControlResult
answer = record {
  command_id = "cmd-h";
  operation_id = "op-1";
  action = "start";
  status = "claimed";
  state_revision = pos 5;
}

starts : execute dumps same_text hash_of "secret" "t2" start before ≡ (after, ok answer)
unfolding execute check_request request_payload elem any_char strip lookup put replayed put_command
    command_id_of control_event move_operation make_event check_names check_sequence check_refs
    payload_digest utf8_length check_text append find_event load_event transition_row get row_of
    from_mapping dumped post_init bounded_string pasi_engineering_workspa.Json.get to_dict
    bounded_text is_control checked_status checked_schema checked_metadata normalize_metadata
    checked_count checked_digest checked_pr_number mapping_payload load update allowed
    can_transition_to is_recovery next_count next_payload transition ◌+ℤ◌ sort sort_metadata
starts = refl

execute-IsExecuted_example : IsExecuted dumps same_text hash_of "t2" start before after answer
unfolding lookup
execute-IsExecuted_example =
    execute-IsExecuted dumps same_text hash_of "secret" "t2" start before refl starts

unauthorized :
    execute dumps same_text hash_of "other" "t2" start before
    ≡ (before, err ControlError.unauthorized)
unfolding execute check_request any_char
unauthorized = refl

-- Another client tries to stop the operation at the old revision, and then repeats the start.
abbrev stop : ControlRequest
stop = record start { action = "stop"; idempotency_key = "key2" }

execute_repeats_example :
    execute dumps same_text hash_of "secret" "t9" start
      (execute dumps same_text hash_of "secret" "t3" stop after).0
    ≡ ((execute dumps same_text hash_of "secret" "t3" stop after).0, ok answer)
execute_repeats_example =
    execute_repeats dumps same_text hash_of "secret" "t2" "t9" start before answer
      (execute dumps same_text hash_of "secret" "t3" stop after).0 (λ i. (starts i).1)
      (call "t3" stop none_yet refl)

Calls-AreSound_example :
    AreSound dumps same_text hash_of (execute dumps same_text hash_of "secret" "t3" stop after).0
Calls-AreSound_example =
    Calls-AreSound dumps same_text hash_of (call "t3" stop (call "t2" start none_yet refl) refl)
      before-AreSound

-- The event of an earlier command with the same hash is there.
abbrev leftover : Stores
leftover = record before {
  events = record {
    last_sequence = 1;
    rows = record (control_event "t1" start "cmd-h" state) { sequence = some (pos 1) } ∷ [];
  };
}

interrupts :
    execute dumps same_text hash_of "secret" "t2" start leftover
    ≡ (record leftover { operations = after.operations }, err (event_error duplicate_event))
unfolding execute check_request request_payload elem any_char strip lookup put replayed put_command
    command_id_of control_event move_operation make_event check_names check_sequence check_refs
    payload_digest utf8_length check_text append find_event load_event transition_row get row_of
    from_mapping dumped post_init bounded_string pasi_engineering_workspa.Json.get to_dict
    bounded_text is_control checked_status checked_schema checked_metadata normalize_metadata
    checked_count checked_digest checked_pr_number mapping_payload load update allowed
    can_transition_to is_recovery next_count next_payload transition ◌+ℤ◌ sort sort_metadata
interrupts = refl

abbrev interrupted_stores : Stores
interrupted_stores = record leftover { operations = after.operations }

-- A call that comes between, of another client under another key
abbrev then_called : Stores
then_called =
    (execute dumps same_text hash_of "secret" "t3" (record start { idempotency_key = "key-2" })
      interrupted_stores).0

execute_raises_example :
    (interrupted_stores ≡ leftover)
    ⊎ IsInterrupted dumps same_text hash_of "secret" "t2" "t4" start leftover interrupted_stores
        then_called
execute_raises_example =
    execute_raises dumps same_text hash_of "secret" "t2" "t4" start leftover interrupts
      (call "t3" (record start { idempotency_key = "key-2" }) none_yet refl)
