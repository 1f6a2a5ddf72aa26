-- ===== src/Operation/Store/Locking.antt =====
-- Optimistic concurrency: a revision is used once.
use pasi_engineering_workspa.Prelude.{
  ℤ, pos, ◌+ℤ◌, eqb_ℤ_iff, ◌≡◌, ◌≢◌, sym, ◌∙◌, ap, String, +ℤ_parts, pos_part, neg_part, ok, err,
  some, arith, eq_refl,
}
use pasi_engineering_workspa.Operation.State.{OperationState}
use pasi_engineering_workspa.Operation.Text.{revision_conflict}
use pasi_engineering_workspa.Operation.Transition.{Updates}
use pasi_engineering_workspa.Operation.Transition.Laws.{transition-IsStep}
use pasi_engineering_workspa.Operation.Store.{state_error, Table, get, transition_row}
use pasi_engineering_workspa.Operation.Store.Records.{stored, transition_row-IsUpdate}
use pasi_engineering_workspa.Operation.Store.Sound.{get-transition_row}

-- A `get` whose state has another revision makes the transition fail.
pub transition_row_stale :
    (now id status : String) (expected : ℤ) (u : Updates) (table : Table) (current : OperationState)
    → get now id table ≡ ok current
    → current.state_revision ≢ expected
    → transition_row now id status expected u table ≡ err (state_error revision_conflict)
unfolding transition_row
transition_row_stale now id status expected u table current read other =
    rw read (ground (arith, eqb_ℤ_iff current.state_revision expected))

+ℤ-one_ne : (a : ℤ) → a +ℤ pos 1 ≢ a
+ℤ-one_ne a h = omega (arith, +ℤ_parts a (pos 1), ap pos_part h, ap neg_part h)

-- Two clients read the same revision of an operation. If the transition of one is
-- accepted, that of the other, whatever it asks for, is refused with a revision conflict.
pub transition_row_once :
    (now now' id status status' : String) (expected : ℤ) (u u' : Updates) (table : Table)
    {after : Table} {next : OperationState}
    → transition_row now id status expected u table ≡ ok (after, next)
    → transition_row now' id status' expected u' after ≡ err (state_error revision_conflict)
transition_row_once now now' id status status' expected u u' table {after} {next} h =
    let d = transition_row-IsUpdate now id status expected u table h in
    let st = transition-IsStep now d.current status (some expected) u d.accepted in
    let read = get-transition_row now now' id status expected u table id h in
    transition_row_stale now' id status' expected u' after (stored next) (rw (eq_refl id) at read)
      λ e. +ℤ-one_ne expected (sym (st.revision ∙ ap (λ a. a +ℤ pos 1) d.fresh) ∙ e)
