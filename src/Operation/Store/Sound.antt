-- ===== src/Operation/Store/Sound.antt =====
-- The table stays sound, and reads return what was written.
use pasi_engineering_workspa.Prelude.{
  ℤ, ◌≡◌, refl, sym, ◌∙◌, String, str_eq, ok, none, some, arith, ok-injective, Bool-cases, inl, inr,
  if◌then◌else◌, subst,
}
use pasi_engineering_workspa.Dict.{lookup, put, lookup-put_same, lookup-put_other}
use pasi_engineering_workspa.Operation.State.{OperationState}
use pasi_engineering_workspa.Operation.State.Valid.{IsValid}
use pasi_engineering_workspa.Operation.Transition.{Updates}
use pasi_engineering_workspa.Operation.Transition.Laws.{transition-IsStep, operation_id-transition}
use pasi_engineering_workspa.Operation.Store.{
  Row, Table, dumped, row_of, create, get, transition_row,
}
use pasi_engineering_workspa.Operation.Store.Records.{
  stored, stored-IsValid, IsRecord, IsSound, put-IsSound, get-payload, rewritten, IsUpdate,
  transition_row-IsUpdate,
}

create-eq-ok :
    (s : OperationState) (table : Table) {after : Table} {s' : OperationState}
    → create s table ≡ ok (after, s')
    → (lookup s.operation_id table ≡ none)
      × (after ≡ put s.operation_id (row_of s) table)
      × (s' ≡ s)
unfolding create
create-eq-ok s table h = ground arith

row_of-IsRecord : (s : OperationState) → IsValid s → IsRecord s.operation_id (row_of s)
unfolding row_of
row_of-IsRecord s v = record { state = s; valid = v; named = refl; revision = refl; payload = refl }

-- A valid state that is created in a sound table, in which every row holds a valid state under its
-- own id and revision, leaves it sound.
pub create-IsSound :
    (s : OperationState) (table : Table) {after : Table} {s' : OperationState}
    → IsValid s
    → IsSound table
    → create s table ≡ ok (after, s')
    → IsSound after
create-IsSound s table v sound h =
    subst IsSound (sym (create-eq-ok s table h).1)
      (put-IsSound s.operation_id (row_of s) table (row_of-IsRecord s v) sound)

-- In a sound table the state that a transition reads is valid, and bears the name of its row.
current-IsValid :
    (now id : String) (table : Table) (current : OperationState) (row : Row)
    → IsSound table
    → lookup id table ≡ some row
    → get now id table ≡ ok current
    → IsValid current × (current.operation_id ≡ id)
current-IsValid now id table current row sound found read =
    let r = sound.at_key id row found in
    let same =
      ok-injective (sym (get-payload now id table row r.state found r.payload r.valid) ∙ read) in
    subst (λ (s : OperationState). IsValid s × (s.operation_id ≡ id)) same
      (stored-IsValid r.state r.valid, r.named)

-- The row that an accepted transition writes is sound again.
rewritten-IsRecord :
    (now id status : String) (expected : ℤ) (u : Updates) (table after : Table)
    (next : OperationState) (d : IsUpdate now id status expected u table after next)
    → IsSound table
    → IsRecord id (rewritten next d.write.row)
rewritten-IsRecord now id status expected u table after next d sound =
    let (v, named) =
      current-IsValid now id table d.current d.write.row sound d.write.found d.read in
    record {
      state = next;
      valid = (transition-IsStep now d.current status (some expected) u d.accepted).valid;
      named = operation_id-transition now d.current status (some expected) u v d.accepted ∙ named;
      revision = refl;
      payload = refl;
    }

-- A transition that is accepted in a sound table, in which every row holds a valid state under its
-- own id and revision, leaves it sound.
pub transition_row-IsSound :
    (now id status : String) (expected : ℤ) (u : Updates) (table : Table) {after : Table}
    {next : OperationState}
    → IsSound table
    → transition_row now id status expected u table ≡ ok (after, next)
    → IsSound after
transition_row-IsSound now id status expected u table {after} {next} sound h =
    let d = transition_row-IsUpdate now id status expected u table h in
    subst IsSound (sym d.write.written) (
      put-IsSound id (rewritten next d.write.row) table
        (rewritten-IsRecord now id status expected u table after next d sound) sound)

-- A read after a row was put: of that row, or as before.
get-put :
    (now id : String) (row : Row) (s : OperationState) (table : Table) (j : String)
    → row.payload_json ≡ some (dumped s)
    → IsValid s
    → get now j (put id row table) ≡ (if str_eq id j then ok (stored s) else get now j table)
unfolding get
get-put now id row s table j payload v = elim (Bool-cases (str_eq id j)) [
  | inl same ↦ rw same (get-payload now j _ row s (lookup-put_same id j row table same) payload v)
  | inr apart ↦ rw (apart, lookup-put_other id j row table apart, get)
]

-- After a `create` of a valid state, `get` returns what was stored, with the metadata in the order
-- of its keys; under every other name it returns what it did before.
pub get-create :
    (now : String) (s : OperationState) (table : Table) (j : String) {after : Table}
    {s' : OperationState}
    → IsValid s
    → create s table ≡ ok (after, s')
    → get now j after ≡ (if str_eq s.operation_id j then ok (stored s) else get now j table)
get-create now s table j v h =
    let (_, written, _) = create-eq-ok s table h in
    rw written (get-put now s.operation_id (row_of s) s table j (unfold row_of in refl) v)

-- After an accepted transition, `get` returns the state that the transition returned; under every
-- other name it returns what it did before.
pub get-transition_row :
    (now now' id status : String) (expected : ℤ) (u : Updates) (table : Table) (j : String)
    {after : Table} {next : OperationState}
    → transition_row now id status expected u table ≡ ok (after, next)
    → get now' j after ≡ (if str_eq id j then ok (stored next) else get now' j table)
get-transition_row now now' id status expected u table j {after} {next} h =
    let d = transition_row-IsUpdate now id status expected u table h in
    rw d.write.written (
      get-put now' id (rewritten next d.write.row) next table j refl
        (transition-IsStep now d.current status (some expected) u d.accepted).valid)
