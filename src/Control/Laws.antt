-- ===== src/Control/Laws.antt =====
-- What a call of `execute` leaves behind.
use pasi_engineering_workspa.Prelude.{
  ◌≡◌, refl, true, String, str_eq, Result, ok, err, none, some, Option-cases, Result-cases, ◌⊎◌,
  inl, inr, Bool-cases,
}
use pasi_engineering_workspa.Dict.{lookup, put}
use pasi_engineering_workspa.Json.{Fields}
use pasi_engineering_workspa.Operation.State.{OperationState}
use pasi_engineering_workspa.Operation.Store.{Table}
use pasi_engineering_workspa.Event.{DurableEvent, make_event}
use pasi_engineering_workspa.Event.Store.{EventLog, invalid_event, append}
use pasi_engineering_workspa.Control.{
  ControlError, ControlRequest, ControlResult, ControlCommand, Stores, put_command, check_request,
  request_payload, move_operation, command_id_of, control_event, control_result, control_command,
  replayed, store_command, record_event, run_command, execute, operation_error, event_error,
  idempotency_conflict,
}

module _ (dumps : Fields → String) (sha256 : String → String) (hash_of : Fields → String) where
  store_command_new :
      (q : ControlRequest) (hash : String) (next : OperationState) (s : Stores)
      → lookup q.idempotency_key s.commands ≡ none
      → store_command dumps sha256 hash_of q hash next s ≡ (
        record s { commands = put q.idempotency_key (control_command q hash next) s.commands },
        ok (control_result q (command_id_of hash) next),
      )
  unfolding store_command put_command
  store_command_new q hash next s h = rw (store_command, put_command, h) refl

  -- The log is as it was, or an event that the constructor returned was given to `append`.
  pub data Logged (log after : EventLog) : Type 0 where
    not_logged : after ≡ log → Logged log after
    logged :
        (e event : DurableEvent)
        → make_event dumps sha256 e ≡ ok event
        → after ≡ (append dumps sha256 event log).0
        → Logged log after

  -- The event and the command of an operation that has moved: both are written, or the command is not.
  pub IsRecorded :
      String
      → ControlRequest
      → String
      → OperationState
      → Stores
      → Stores × Result ControlError ControlResult
      → Type 0
  IsRecorded now q hash next s done =
      ((e : ControlError) × (log : EventLog) × Logged s.events log
        × (done ≡ (record s { events = log }, err e)))
      ⊎ ((event : DurableEvent) × (make_event dumps sha256
              (control_event now q (command_id_of hash) next)
            ≡ ok event)
          × (row : DurableEvent) × ((append dumps sha256 event s.events).1 ≡ ok row)
          × (done ≡ (
            record s {
              events = (append dumps sha256 event s.events).0;
              commands = put q.idempotency_key (control_command q hash next) s.commands;
            },
            ok (control_result q (command_id_of hash) next),
          )))

  record_event-IsRecorded :
      (now : String) (q : ControlRequest) (hash : String) (next : OperationState) (s : Stores)
      → lookup q.idempotency_key s.commands ≡ none
      → IsRecorded now q hash next s (record_event dumps sha256 hash_of now q hash next s)
  unfolding record_event IsRecorded
  record_event-IsRecorded now q hash next s h =
      let made = make_event dumps sha256 (control_event now q (command_id_of hash) next) in
      elim (Result-cases made) [
        | inl (e, k) ↦
            inl
              (event_error (invalid_event e), s.events, not_logged refl, rw (record_event, k) refl)
        | inr (event, k) ↦ elim (Result-cases (append dumps sha256 event s.events).1) [
          | inl (e, a) ↦ inl (
            event_error e,
            (append dumps sha256 event s.events).0,
            logged _ event k refl,
            rw (record_event, k, a) refl,
          )
          | inr (row, a) ↦
              inr (event, k, row, a, rw (record_event, k, a) (store_command_new q hash next _ h))
        ]
      ]

  -- Every call of `execute` ends in one of four ways: it is refused before anything is written, it
  -- returns what an earlier command returned, it is interrupted after the operation has moved, or it
  -- moves the operation and writes one event and one command.
  pub data Outcome (secret now : String) (q : ControlRequest) (s : Stores)
      (done : Stores × Result ControlError ControlResult) : Type 0 where
    refused : (e : ControlError) → done ≡ (s, err e) → Outcome secret now q s done
    repeated :
        (existing : ControlCommand)
        → check_request secret q ≡ ok tt
        → lookup q.idempotency_key s.commands ≡ some existing
        → str_eq existing.payload_sha256 (hash_of (request_payload q)) ≡ true
        → done ≡ (s, ok existing.result)
        → Outcome secret now q s done
    interrupted :
        (e : ControlError) (operations : Table) (next : OperationState) (log : EventLog)
        → check_request secret q ≡ ok tt
        → lookup q.idempotency_key s.commands ≡ none
        → move_operation now q s.operations ≡ ok (operations, next)
        → Logged s.events log
        → done ≡ (record s { operations = operations; events = log }, err e)
        → Outcome secret now q s done
    executed :
        (operations : Table) (next : OperationState) (event row : DurableEvent)
        → check_request secret q ≡ ok tt
        → lookup q.idempotency_key s.commands ≡ none
        → move_operation now q s.operations ≡ ok (operations, next)
        → make_event dumps sha256
            (control_event now q (command_id_of (hash_of (request_payload q))) next)
          ≡ ok event
        → (append dumps sha256 event s.events).1 ≡ ok row
        → done ≡ (
          record {
            operations = operations;
            events = (append dumps sha256 event s.events).0;
            commands =
                put q.idempotency_key
                  (control_command q (hash_of (request_payload q)) next)
                  s.commands;
          },
          ok (control_result q (command_id_of (hash_of (request_payload q))) next),
        )
        → Outcome secret now q s done

  pub execute-Outcome :
      (secret now : String) (q : ControlRequest) (s : Stores)
      → Outcome secret now q s (execute dumps sha256 hash_of secret now q s)
  unfolding execute run_command replayed IsRecorded
  execute-Outcome secret now q s =
      let hash = hash_of (request_payload q) in
      elim (Result-cases (check_request secret q)) [
        | inl (e, c) ↦ refused e (rw (execute, c) refl)
        | inr (u, c) ↦ elim (Option-cases (lookup q.idempotency_key s.commands)) [
          | inr (existing, k) ↦ elim (Bool-cases (str_eq existing.payload_sha256 hash)) [
            | inl same ↦ repeated existing c k same (rw (execute, c, k, replayed, same) refl)
            | inr other ↦ refused idempotency_conflict (rw (execute, c, k, replayed, other) refl)
          ]
          | inl k ↦ elim (Result-cases (move_operation now q s.operations)) [
            | inl (e, m) ↦ refused (operation_error e) (rw (execute, c, k, run_command, m) refl)
            | inr ((operations, next), m) ↦
                elim (record_event-IsRecorded now q hash next (record s { operations = operations })
                  k) [
                    | inl (e, log, l, w) ↦
                        interrupted e operations next log c k m l
                          (rw (execute, c, k, run_command, m) w)
                    | inr (event, made, row, appended, w) ↦
                        executed operations next event row c k m made appended
                          (rw (execute, c, k, run_command, m) w)
                  ]
          ]
        ]
      ]
