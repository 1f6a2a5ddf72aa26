-- ===== src/Operation/Store/Records.antt =====
-- What the store gives back, and the invariant of its table.
use pasi_engineering_workspa.Prelude.{
  ℤ, eqb_ℤ, eqb_ℤ_iff, ◌≡◌, sym, ◌∙◌, ap, not, String, str_eq, Result, ok, err, map_err, some,
  arith, >>=-eq-ok, raise_if->>=-eq-ok, ok-injective, Option-cases, Bool-cases, inl, inr, eq_iff,
  subst,
}
use pasi_engineering_workspa.Dict.{lookup, put, lookup-put_same, lookup-put_other}
use pasi_engineering_workspa.Operation.State.{OperationState}
use pasi_engineering_workspa.Operation.State.Valid.{IsValid}
use pasi_engineering_workspa.Operation.State.RoundTrip.{from_mapping-IsValid}
use pasi_engineering_workspa.Operation.Transition.{Updates, transition}
use pasi_engineering_workspa.Operation.Store.Sorted.{
  sort_metadata, sort_metadata-IsMetadata, length-sort_metadata,
}
use pasi_engineering_workspa.Operation.Store.{
  state_error, Row, Table, dumped, load, get, update, transition_row,
}

-- A state as it is read back: its metadata stands in the order of the keys.
abbrev pub stored : OperationState → OperationState
stored s = record s { metadata = sort_metadata s.metadata }

pub stored-IsValid : (s : OperationState) → IsValid s → IsValid (stored s)
stored-IsValid s v = record {
  operation_id = v.operation_id;
  operation_type = v.operation_type;
  schema_version = v.schema_version;
  metadata = sort_metadata-IsMetadata s.metadata v.metadata;
  metadata_size = rw (length-sort_metadata s.metadata) v.metadata_size;
  state_revision = v.state_revision;
  run_id = v.run_id;
  task_id = v.task_id;
  provider = v.provider;
  phase = v.phase;
  attempt = v.attempt;
  recovery_count = v.recovery_count;
  recoveries = v.recoveries;
  pr_number = v.pr_number;
  prompt_digest = v.prompt_digest;
  response_digest = v.response_digest;
  verification_status = v.verification_status;
  commit_sha = v.commit_sha;
  failure_signature = v.failure_signature;
  created_at = v.created_at;
  updated_at = v.updated_at;
}

pub load-dumped :
    (now : String) (s : OperationState) → IsValid s → load now (some (dumped s)) ≡ ok (stored s)
unfolding load dumped
load-dumped now s v = rw (from_mapping-IsValid now (stored s) (stored-IsValid s v))

-- A row holds a valid state under its own identity and revision.
pub record IsRecord (id : String) (row : Row) : Type 0 where
  pub state : OperationState
  pub valid : IsValid state
  pub named : state.operation_id ≡ id
  pub revision : row.state_revision ≡ state.state_revision
  pub payload : row.payload_json ≡ some (dumped state)

pub record IsSound (table : Table) : Type 0 where
  pub at_key : (id : String) (row : Row) → lookup id table ≡ some row → IsRecord id row

pub put-IsSound :
    (id : String) (row : Row) (table : Table)
    → IsRecord id row
    → IsSound table
    → IsSound (put id row table)
put-IsSound id row table r sound = record {
  at_key = λ j other found. elim (Bool-cases (str_eq id j)) [
    | inl same ↦
        subst (λ k. IsRecord k other) ((eq_iff id j).0 same)
          (subst (IsRecord id) (cc (lookup-put_same id j row table same)) r)
    | inr apart ↦ sound.at_key j other (sym (lookup-put_other id j row table apart) ∙ found)
  ];
}

pub get_found :
    (now id : String) (table : Table) (row : Row)
    → lookup id table ≡ some row
    → get now id table ≡ load now row.payload_json
unfolding get
get_found now id table row found = rw (found, get)

pub get-payload :
    (now id : String) (table : Table) (row : Row) (s : OperationState)
    → lookup id table ≡ some row
    → row.payload_json ≡ some (dumped s)
    → IsValid s
    → get now id table ≡ ok (stored s)
get-payload now id table row s found payload v =
    get_found now id table row found ∙ ap (load now) payload ∙ load-dumped now s v

abbrev pub rewritten : OperationState → Row → Row
rewritten next row = record row {
  state_revision = next.state_revision;
  payload_json = some (dumped next);
  updated_at = next.updated_at;
}

-- An `UPDATE` that met its row.
pub record IsWritten (id : String) (expected : ℤ) (next : OperationState) (table after : Table)
    : Type 0 where
  pub row : Row
  pub found : lookup id table ≡ some row
  pub held : row.state_revision ≡ expected
  pub written : after ≡ put id (rewritten next row) table

update-IsWritten :
    (id : String) (expected : ℤ) (next : OperationState) (table : Table) {after : Table}
    → update id expected next table ≡ ok after
    → IsWritten id expected next table after
unfolding update
update-IsWritten id expected next table {after} h = elim (Option-cases (lookup id table)) [
  | inl missing ↦ cc (rw (missing, update) at h)
  | inr (row, found) ↦
      let h' = rw (found, update) at h in
      elim (Bool-cases (eqb_ℤ row.state_revision expected)) [
        | inl held ↦ record {
          row = row;
          found = found;
          held = (eqb_ℤ_iff row.state_revision expected).0 held;
          written = sym (ok-injective (rw held at h'));
        }
        | inr other ↦ cc (rw other at h')
      ]
]

-- The steps of a transition that was accepted.
pub record IsUpdate (now id status : String) (expected : ℤ) (u : Updates) (table after : Table)
    (next : OperationState) : Type 0 where
  pub current : OperationState
  pub read : get now id table ≡ ok current
  pub fresh : current.state_revision ≡ expected
  pub accepted : transition now current status (some expected) u ≡ ok next
  pub write : IsWritten id expected next table after

map_err-eq-ok :
    {E F A : Type 0} (f : E → F) (r : Result E A) {a : A} → map_err f r ≡ ok a → r ≡ ok a
map_err-eq-ok f (ok a) h = cc
map_err-eq-ok f (err e) h = cc

pub transition_row-IsUpdate :
    (now id status : String) (expected : ℤ) (u : Updates) (table : Table) {after : Table}
    {next : OperationState}
    → transition_row now id status expected u table ≡ ok (after, next)
    → IsUpdate now id status expected u table after next
unfolding transition_row
transition_row-IsUpdate now id status expected u table {after} {next} h =
    let (current, read, h₁) = >>=-eq-ok (get now id table) _ h in
    let (fresh, h₂) = raise_if->>=-eq-ok (not (eqb_ℤ current.state_revision expected)) _ _ h₁ in
    let (next', accepted, h₃) =
      >>=-eq-ok (map_err state_error (transition now current status (some expected) u)) _ h₂ in
    let (after', write, h₄) = >>=-eq-ok (update id expected next' table) _ h₃ in
    let same = ok-injective h₄ in
    record {
      current = current;
      read = read;
      fresh = (eqb_ℤ_iff current.state_revision expected).0 (ground arith);
      accepted =
          map_err-eq-ok state_error _ accepted ∙ ap (λ (p : Table × OperationState). ok p.1) same;
      write = update-IsWritten id expected next table (
          subst (λ n. update id expected n table ≡ ok after)
            (ap (λ (p : Table × OperationState). p.1) same)
            (write ∙ ap (λ (p : Table × OperationState). ok p.0) same));
    }
