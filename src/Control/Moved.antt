-- ===== src/Control/Moved.antt =====
-- What `get` and `transition` of the operation store do for a command of src/pasi/core/runtime_controls.py.
use pasi_engineering_workspa.Prelude.{
  ◌≡◌, sym, subst, ◌∙◌, String, str_eq, ok, err, some, >>=-eq-ok, ok-injective, if◌then◌else◌,
}
use pasi_engineering_workspa.Operation.Text.{revision_conflict}
use pasi_engineering_workspa.Operation.State.{OperationState}
use pasi_engineering_workspa.Operation.Transition.{Updates, transition}
use pasi_engineering_workspa.Operation.Store.{Table, state_error, get, transition_row}
use pasi_engineering_workspa.Operation.Store.Records.{stored, IsSound, transition_row-IsUpdate}
use pasi_engineering_workspa.Operation.Store.Sound.{get-transition_row, transition_row-IsSound}
use pasi_engineering_workspa.Operation.Store.Locking.{transition_row_once}
use pasi_engineering_workspa.Control.{
  ControlRequest, move_operation, target_status, control_updates,
}

-- The operation is read at the revision that the caller expects, and moved from there.
pub record IsMoved (now : String) (q : ControlRequest) (table after : Table) (next : OperationState)
    : Type 0 where
  pub current : OperationState
  pub read : get now q.operation_id table ≡ ok current
  pub fresh : current.state_revision ≡ q.expected_revision
  pub accepted :
      transition now current
        (target_status q.action)
        (some q.expected_revision)
        (control_updates q.action current)
      ≡ ok next
  pub found :
      (later j : String)
      → get later j after
        ≡ (if str_eq q.operation_id j then ok (stored next) else get later j table)
  pub once :
      (later status : String) (u : Updates)
      → transition_row later q.operation_id status q.expected_revision u after
        ≡ err (state_error revision_conflict)
  pub sound : IsSound table → IsSound after

pub move_operation-IsMoved :
    (now : String) (q : ControlRequest) (table : Table) {after : Table} {next : OperationState}
    → move_operation now q table ≡ ok (after, next)
    → IsMoved now q table after next
unfolding move_operation
move_operation-IsMoved now q table {after} {next} h =
    let (read_first, read, h₁) = >>=-eq-ok (get now q.operation_id table) _ h in
    let u = control_updates q.action read_first in
    let status = target_status q.action in
    let d = transition_row-IsUpdate now q.operation_id status q.expected_revision u table h₁ in
    let same : d.current ≡ read_first = ok-injective (sym d.read ∙ read) in
    record {
      current = d.current;
      read = d.read;
      fresh = d.fresh;
      accepted =
          subst
            (λ c.
              transition now d.current status (some q.expected_revision)
                (control_updates q.action c)
              ≡ ok next)
            (sym same) d.accepted;
      found = λ later j.
          get-transition_row now later q.operation_id status q.expected_revision u table j h₁;
      once = λ later status' u'.
          transition_row_once now later q.operation_id status status' q.expected_revision u u' table
            h₁;
      sound =
          λ s. transition_row-IsSound now q.operation_id status q.expected_revision u table s h₁;
    }
