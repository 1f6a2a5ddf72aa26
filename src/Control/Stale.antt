-- ===== src/Control/Stale.antt =====
-- A revision that an operation has left is never that of the operation again, whatever `execute` of
-- src/pasi/core/runtime_controls.py does.
use pasi_engineering_workspa.Prelude.{
  ℤ, pos, ◌+ℤ◌, +ℤ_parts, pos_part, neg_part, ltb_ℤ, ◌≡◌, ◌≢◌, sym, ap, subst, ◌∙◌, inl, inr, true,
  String, str_eq, eq_refl, eq_iff, Result, ok, err, ok-injective, Bool-cases, arith,
}
use pasi_engineering_workspa.Json.{Fields}
use pasi_engineering_workspa.Operation.Text.{revision_conflict}
use pasi_engineering_workspa.Operation.State.{OperationState}
use pasi_engineering_workspa.Operation.Transition.Laws.{transition-IsStep}
use pasi_engineering_workspa.Operation.Store.{Table, state_error, get}
use pasi_engineering_workspa.Operation.Store.Records.{stored}
use pasi_engineering_workspa.Operation.Store.Locking.{transition_row_stale}
use pasi_engineering_workspa.Control.{
  ControlError, ControlRequest, ControlResult, Stores, move_operation, target_status,
  control_updates,
}
use pasi_engineering_workspa.Control.Laws.{
  Outcome, refused, repeated, interrupted, executed, execute-Outcome,
}
use pasi_engineering_workspa.Control.Idempotent.{Calls, none_yet, call}
use pasi_engineering_workspa.Control.Moved.{IsMoved, move_operation-IsMoved}

-- The operation can be read at any time, and its revision is above the given one.
pub record IsPast (id : String) (revision : ℤ) (table : Table) : Type 0 where
  pub state : OperationState
  pub read : (later : String) → get later id table ≡ ok state
  pub above : ltb_ℤ revision state.state_revision ≡ true

above_next : (a b : ℤ) → b ≡ a +ℤ pos 1 → ltb_ℤ a b ≡ true
above_next a b h = ground (arith, +ℤ_parts a (pos 1), ap pos_part h, ap neg_part h)

above_trans : (a b c : ℤ) → ltb_ℤ a b ≡ true → ltb_ℤ b c ≡ true → ltb_ℤ a c ≡ true
above_trans a b c h k = ground arith

not_itself : (a : ℤ) → ltb_ℤ a a ≢ true
not_itself a h = ground arith

-- The state that a move leaves
moved_above :
    (now : String) (q : ControlRequest) (table : Table) {after : Table} {next : OperationState}
    (m : IsMoved now q table after next)
    → ltb_ℤ m.current.state_revision next.state_revision ≡ true
moved_above now q table {next = next} m =
    above_next m.current.state_revision next.state_revision
      (transition-IsStep now m.current _ _ _ m.accepted).revision

moved_read :
    (now : String) (q : ControlRequest) (table : Table) {after : Table} {next : OperationState}
    (m : IsMoved now q table after next) (id later : String)
    → str_eq q.operation_id id ≡ true
    → get later id after ≡ ok (stored next)
moved_read now q table m id later same = rw same at (m.found later id)

pub IsMoved-IsPast :
    (now : String) (q : ControlRequest) (table : Table) {after : Table} {next : OperationState}
    → IsMoved now q table after next
    → IsPast q.operation_id q.expected_revision after
IsMoved-IsPast now q table {next = next} m = record {
  state = stored next;
  read = λ later. moved_read now q table m q.operation_id later (eq_refl q.operation_id);
  above = subst (λ r. ltb_ℤ r next.state_revision ≡ true) m.fresh (moved_above now q table m);
}

IsPast-IsMoved :
    (id : String) (revision : ℤ) (now : String) (q : ControlRequest) (table : Table) {after : Table}
    {next : OperationState}
    → IsMoved now q table after next
    → IsPast id revision table
    → IsPast id revision after
IsPast-IsMoved id revision now q table {next = next} m past =
    elim (Bool-cases (str_eq q.operation_id id)) [
      | inl same ↦
          let name = (eq_iff q.operation_id id).0 same in
          let current_is : past.state ≡ m.current =
            ok-injective (sym (past.read now) ∙ ap (λ i. get now i table) (sym name) ∙ m.read) in
          record {
            state = stored next;
            read = λ later. moved_read now q table m id later same;
            above =
                above_trans revision m.current.state_revision next.state_revision
                  (subst (λ (c : OperationState). ltb_ℤ revision c.state_revision ≡ true) current_is
                    past.above)
                  (moved_above now q table m);
          }
      | inr other ↦ record {
        state = past.state;
        read = λ later. (rw other at (m.found later id)) ∙ past.read later;
        above = past.above;
      }
    ]

-- At a revision that was left the operation cannot be moved.
pub move_operation-IsPast :
    (later : String) (q : ControlRequest) (table : Table)
    → IsPast q.operation_id q.expected_revision table
    → move_operation later q table ≡ err (state_error revision_conflict)
unfolding move_operation
move_operation-IsPast later q table past =
    rw (move_operation, past.read later)
      (transition_row_stale later q.operation_id (target_status q.action) q.expected_revision
        (control_updates q.action past.state) table past.state (past.read later)
        (λ e.
          not_itself q.expected_revision
            (subst (λ r. ltb_ℤ q.expected_revision r ≡ true) e past.above)))

module _ (dumps : Fields → String) (sha256 : String → String) (hash_of : Fields → String)
    (id : String) (revision : ℤ) where
  Outcome-IsPast :
      {secret now : String} {q : ControlRequest} {s : Stores}
      {done : Stores × Result ControlError ControlResult}
      → Outcome dumps sha256 hash_of secret now q s done
      → IsPast id revision s.operations
      → IsPast id revision done.0.operations
  Outcome-IsPast {secret} {now} {q} {s} {done} o past =
      let P =
        λ (d : Stores × Result ControlError ControlResult). IsPast id revision d.0.operations in
      elim o [
        | refused e same ↦ subst P (sym same) past
        | repeated c checked there hash same ↦ subst P (sym same) past
        | interrupted e ops next log c k m l same ↦ subst P (sym same) (
            IsPast-IsMoved id revision now q s.operations
              (move_operation-IsMoved now q s.operations m) past)
        | executed ops next event row checked k m made appended same ↦ subst P (sym same) (
            IsPast-IsMoved id revision now q s.operations
              (move_operation-IsMoved now q s.operations m) past)
      ]

  pub Calls-IsPast :
      {secret : String} {s t : Stores}
      → Calls dumps sha256 hash_of secret s t
      → IsPast id revision s.operations
      → IsPast id revision t.operations
  Calls-IsPast none_yet past = past
  Calls-IsPast {secret} (call {t} now q calls same) past =
      subst (λ (u : Stores). IsPast id revision u.operations) (sym same)
        (Outcome-IsPast (execute-Outcome dumps sha256 hash_of secret now q t)
          (Calls-IsPast calls past))
