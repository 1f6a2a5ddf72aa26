-- ===== src/Control/Effects.antt =====
-- What an accepted command does, what an interrupted one leaves, and what stays true of the stores.
use pasi_engineering_workspa.Prelude.{
  ◌≡◌, refl, sym, ap, subst, ◌∙◌, String, Result, ok, err, none, some, ◌⊎◌, inl, inr, Option-cases,
  [], ◌∷◌, ◌++◌, ok-injective,
}
use pasi_engineering_workspa.Dict.{lookup, put}
use pasi_engineering_workspa.Json.{Fields}
use pasi_engineering_workspa.Operation.Text.{revision_conflict}
use pasi_engineering_workspa.Operation.State.{OperationState}
use pasi_engineering_workspa.Operation.Store.{state_error}
use pasi_engineering_workspa.Operation.Store.Records.{IsSound}
use pasi_engineering_workspa.Event.{DurableEvent}
use pasi_engineering_workspa.Event.Laws.{make_event_made, make_event-IsMade}
use pasi_engineering_workspa.Event.Store.{EventLog, append}
use pasi_engineering_workspa.Event.Store.Laws.{
  IsLog, append-IsLog, numbered, rows-append, append-eq-ok,
}
use pasi_engineering_workspa.Control.{
  ControlError, ControlRequest, ControlResult, Stores, request_payload, control_command,
  control_result, command_id_of, control_event, ControlCommand, check_request, run_command, execute,
  operation_error,
}
use pasi_engineering_workspa.Control.Moved.{IsMoved, move_operation-IsMoved}
use pasi_engineering_workspa.Control.Stale.{
  IsPast, Calls-IsPast, move_operation-IsPast, IsMoved-IsPast,
}
use pasi_engineering_workspa.Control.Laws.{
  Outcome, refused, repeated, interrupted, executed, execute-Outcome, Logged, not_logged, logged,
}
use pasi_engineering_workspa.Control.Idempotent.{Calls, none_yet, call}

module _ (dumps : Fields → String) (sha256 : String → String) (hash_of : Fields → String) where
  -- What an accepted command of a new key did to the three stores.
  pub record IsExecuted (now : String) (q : ControlRequest) (s t : Stores) (r : ControlResult)
      : Type 0 where
    pub next : OperationState
    pub event : DurableEvent
    pub moved : IsMoved now q s.operations t.operations next
    pub of_operation : event.operation_id ≡ q.operation_id
    pub correlated : event.correlation_id ≡ r.command_id
    pub rows : t.events.rows ≡ s.events.rows ++ (numbered event s.events ∷ [])
    pub commands :
        t.commands
        ≡ put q.idempotency_key (control_command q (hash_of (request_payload q)) next) s.commands
    pub result : r ≡ control_result q (command_id_of (hash_of (request_payload q))) next

  -- A command that is accepted under a new key has moved its operation from the revision that the
  -- caller expects to the status that the action asks for, left every other operation as it was,
  -- appended exactly one event, which names the operation and the command, and stored the command
  -- under its key.
  pub execute-IsExecuted :
      (secret now : String) (q : ControlRequest) (s : Stores) {t : Stores} {r : ControlResult}
      → lookup q.idempotency_key s.commands ≡ none
      → execute dumps sha256 hash_of secret now q s ≡ (t, ok r)
      → IsExecuted now q s t r
  unfolding control_event control_result
  execute-IsExecuted secret now q s {t} {r} fresh h =
      elim (execute-Outcome dumps sha256 hash_of secret now q s) [
        | refused e same ↦ absurd (cc (sym (ap (λ d. d.1) same) ∙ ap (λ d. d.1) h))
        | interrupted e ops next log c k m l same ↦
            absurd (cc (sym (ap (λ d. d.1) same) ∙ ap (λ d. d.1) h))
        | repeated c checked there hash same ↦ absurd (cc (sym fresh ∙ there))
        | executed ops next event row checked k m made appended same ↦
            let hash = hash_of (request_payload q) in
            let after : Stores = record {
              operations = ops;
              events = (append dumps sha256 event s.events).0;
              commands = put q.idempotency_key (control_command q hash next) s.commands;
            } in
            let answer = control_result q (command_id_of hash) next in
            let ends = sym same ∙ h in
            let base : IsExecuted now q s after answer = record {
              next = next;
              event = event;
              moved = move_operation-IsMoved now q s.operations m;
              of_operation = ap (λ e. e.operation_id) (make_event-IsMade dumps sha256 _ made).same;
              correlated = ap (λ e. e.correlation_id) (make_event-IsMade dumps sha256 _ made).same;
              rows =
                  rows-append dumps sha256 event s.events
                    (append-eq-ok dumps sha256 event s.events appended);
              commands = refl;
              result = refl;
            } in
            subst (λ a. IsExecuted now q s t a) (ok-injective (ap (λ d. d.1) ends))
              (subst (λ d. IsExecuted now q s d answer) (ap (λ d. d.0) ends) base)
      ]

  -- The operation has moved and the key is as free as before. Then the same call, made again in the
  -- stores `u`, conflicts, unless the key was taken by then.
  abbrev pub IsInterrupted :
      String → String → String → ControlRequest → Stores → Stores → Stores → Type 0
  IsInterrupted secret now later q s t u =
      (t.commands ≡ s.commands)
      × (lookup q.idempotency_key t.commands ≡ none)
      × ((next : OperationState) × IsMoved now q s.operations t.operations next)
      × ((execute dumps sha256 hash_of secret later q u
            ≡ (u, err (operation_error (state_error revision_conflict))))
          ⊎ ((c : ControlCommand) × (lookup q.idempotency_key u.commands ≡ some c)))

  execute_past :
      (secret later : String) (q : ControlRequest) (u : Stores)
      → check_request secret q ≡ ok tt
      → IsPast q.operation_id q.expected_revision u.operations
      → (execute dumps sha256 hash_of secret later q u
          ≡ (u, err (operation_error (state_error revision_conflict))))
        ⊎ ((c : ControlCommand) × (lookup q.idempotency_key u.commands ≡ some c))
  unfolding execute run_command
  execute_past secret later q u checked past =
      elim (Option-cases (lookup q.idempotency_key u.commands)) [
        | inr taken ↦ inr taken
        | inl k ↦ inl (
            rw (execute, checked, k, run_command, move_operation-IsPast later q u.operations past)
              refl)
      ]

  -- A call that raises has written nothing; or it has moved the operation and stored no command under
  -- its key. In that case the same call, whenever it is made again and whatever calls of `execute` came
  -- between, is refused with a revision conflict and changes nothing, unless a command stands under
  -- the key by then.
  pub execute_raises :
      (secret now later : String) (q : ControlRequest) (s : Stores) {t u : Stores}
      {e : ControlError}
      → execute dumps sha256 hash_of secret now q s ≡ (t, err e)
      → Calls dumps sha256 hash_of secret t u
      → (t ≡ s) ⊎ IsInterrupted secret now later q s t u
  execute_raises secret now later q s {t} {u} {e} h calls =
      elim (execute-Outcome dumps sha256 hash_of secret now q s) [
        | refused e' same ↦ inl (sym (ap (λ d. d.0) (sym same ∙ h)))
        | repeated c checked there hash same ↦ inl (sym (ap (λ d. d.0) (sym same ∙ h)))
        | executed ops next event row checked k m made appended same ↦
            absurd (cc (sym (ap (λ d. d.1) same) ∙ ap (λ d. d.1) h))
        | interrupted e' ops next log checked k m l same ↦
            let moved = move_operation-IsMoved now q s.operations m in
            let t_is =
              ap (λ (d : Stores × Result ControlError ControlResult). d.0) (sym same ∙ h) in
            let past =
              subst (λ (x : Stores). IsPast q.operation_id q.expected_revision x.operations) t_is
                (IsMoved-IsPast now q s.operations moved) in
            inr (
              sym (ap (λ (x : Stores). x.commands) t_is),
              ap (λ (x : Stores). lookup q.idempotency_key x.commands) (sym t_is) ∙ k,
              (
                next,
                subst (λ (x : Stores). IsMoved now q s.operations x.operations next) t_is moved,
              ),
              execute_past secret later q u checked
                  (Calls-IsPast dumps sha256 hash_of q.operation_id q.expected_revision calls past),
            )
      ]

  -- The stores hold sound operations and a well-formed log.
  pub record AreSound (s : Stores) : Type 0 where
    pub operations : IsSound s.operations
    pub events : IsLog dumps sha256 s.events

  Logged-IsLog :
      {log after : EventLog}
      → Logged dumps sha256 hash_of log after
      → IsLog dumps sha256 log
      → IsLog dumps sha256 after
  Logged-IsLog (not_logged same) l = subst (IsLog dumps sha256) (sym same) l
  Logged-IsLog {log} (logged e event made same) l =
      subst (IsLog dumps sha256) (sym same)
        (append-IsLog dumps sha256 event log (make_event_made dumps sha256 e made) l)

  Outcome-AreSound :
      {secret now : String} {q : ControlRequest} {s : Stores}
      {done : Stores × Result ControlError ControlResult}
      → Outcome dumps sha256 hash_of secret now q s done
      → AreSound s
      → AreSound done.0
  Outcome-AreSound (refused e same) h = subst (λ d. AreSound d.0) (sym same) h
  Outcome-AreSound (repeated c checked there hash same) h = subst (λ d. AreSound d.0) (sym same) h
  Outcome-AreSound {secret} {now} {q} {s} (interrupted e ops next log c k m l same) h =
      subst (λ d. AreSound d.0) (sym same)
        (record {
          operations = (move_operation-IsMoved now q s.operations m).sound h.operations;
          events = Logged-IsLog l h.events;
        })
  Outcome-AreSound {secret} {now} {q} {s}
        (executed ops next event row checked k m made appended same) h =
      subst (λ d. AreSound d.0) (sym same)
        (record {
          operations = (move_operation-IsMoved now q s.operations m).sound h.operations;
          events =
              append-IsLog dumps sha256 event s.events (make_event_made dumps sha256 _ made)
                h.events;
        })

  -- Whatever is called, and however it ends, the stores stay sound.
  pub Calls-AreSound :
      {secret : String} {s t : Stores}
      → Calls dumps sha256 hash_of secret s t
      → AreSound s
      → AreSound t
  Calls-AreSound none_yet h = h
  Calls-AreSound {secret} (call {t} now q calls same) h = subst AreSound (sym same) (
      Outcome-AreSound (execute-Outcome dumps sha256 hash_of secret now q t)
        (Calls-AreSound calls h))
