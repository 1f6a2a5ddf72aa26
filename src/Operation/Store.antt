-- ===== src/Operation/Store.antt =====
-- src/pasi/core/operation_store.py over SQLite. A table is a dictionary from its primary key to the
-- other columns; the transaction of a call that raises is rolled back, so that an error comes
-- without a table. `payload_json` holds what `json.loads` makes of the text, if it is JSON.
pub mod Sorted
pub mod Records
pub mod Sound
pub mod Locking
use pasi_engineering_workspa.Prelude.{
  ℕ, zero, suc, ℤ, pos, eqb_ℤ, ltb_ℤ, ◌≡◌, Bool, true, false, not, ◌&&◌, ◌||◌, String, str_eq,
  Result, ok, err, raise_if, ◌>>=◌, ◌>>◌, Option, none, some, List, [], ◌∷◌, if◌then◌else◌, map_err,
  map, keep, take, ltb,
}
use pasi_engineering_workspa.Dict.{Dict, lookup, put}
use pasi_engineering_workspa.Sort.{sort}
use pasi_engineering_workspa.Text.Order.{leb_text}
use pasi_engineering_workspa.Json.{Value, obj}
use pasi_engineering_workspa.Operation.Text.{OperationError, invalid_state, revision_conflict}
use pasi_engineering_workspa.Operation.Checks.{Status, status_text}
use pasi_engineering_workspa.Operation.State.{OperationState, to_dict, from_mapping}
use pasi_engineering_workspa.Operation.Transition.{Updates, transition}
use Sorted.{sort_metadata}

pub data StoreError : Type 0 where
  state_error : OperationError → StoreError
  not_found duplicate not_json bad_limit : StoreError

-- The columns beside `operation_id`.
pub record Row : Type 0 where
  pub state_revision : ℤ
  pub payload_json : Option Value
  pub created_at : String
  pub updated_at : String

abbrev pub Table : Type 0
Table = Dict Row

-- `json.dumps(state.to_dict(), sort_keys=True)`. The keys of the metadata are sorted; the order of
-- the fields themselves is not kept, since they are only read by their names.
unfoldable pub dumped : OperationState → Value
unfolding sort_metadata
dumped s = obj (to_dict (record s { metadata = sort_metadata s.metadata }))

unfoldable pub row_of : OperationState → Row
row_of s = record {
  state_revision = s.state_revision;
  payload_json = some (dumped s);
  created_at = s.created_at;
  updated_at = s.updated_at;
}

-- `INSERT`, with its `IntegrityError` at a key that is there.
unfoldable pub create : OperationState → Table → Result StoreError (Table × OperationState)
create s table = elim (lookup s.operation_id table) [
  | some _ ↦ err duplicate
  | none ↦ ok (put s.operation_id (row_of s) table, s)
]

unfoldable pub load : String → Option Value → Result StoreError OperationState
load now none = err not_json
load now (some v) = map_err state_error (from_mapping now v)

unfoldable pub get : String → String → Table → Result StoreError OperationState
unfolding load
get now id table = elim (lookup id table) [
  | none ↦ err not_found
  | some row ↦ load now row.payload_json
]

-- The `UPDATE`, which is bound to the revision that was read; its `rowcount` decides.
unfoldable pub update : String → ℤ → OperationState → Table → Result StoreError Table
update id expected next table = elim (lookup id table) [
  | none ↦ err (state_error revision_conflict)
  | some row ↦
      if eqb_ℤ row.state_revision expected
      then ok (
          put id
            (record row {
              state_revision = next.state_revision;
              payload_json = some (dumped next);
              updated_at = next.updated_at;
            })
            table)
      else err (state_error revision_conflict)
]

-- `transition`: read, compare, step, write. `now` is the clock of the call.
unfoldable pub transition_row :
    String → String → String → ℤ → Updates → Table → Result StoreError (Table × OperationState)
transition_row now id status expected u table = do
  current ← get now id table
  raise_if (not (eqb_ℤ current.state_revision expected)) (state_error revision_conflict)
  next ← map_err state_error (transition now current status (some expected) u)
  table' ← update id expected next table
  ok (table', next)

-- `ORDER BY updated_at DESC, operation_id ASC`
abbrev pub row_before : String × Row → String × Row → Bool
row_before a b =
    if str_eq a.1.updated_at b.1.updated_at
    then leb_text a.0 b.0
    else leb_text b.1.updated_at a.1.updated_at

load_all : String → List (String × Row) → Result StoreError (List OperationState)
unfolding load
load_all now [] = ok []
load_all now ((id, row) ∷ rows) = do
  s ← load now row.payload_json
  rest ← load_all now rows
  ok (s ∷ rest)

-- The keyword filters of `list`; `none` is Python's `None`.
pub record Filters : Type 0 where
  pub status : Option String
  pub task_id : Option String
  pub run_id : Option String
  pub provider : Option String
  pub failure_signature : Option String

abbrev pub fits : Option String → String → Bool
fits none v = true
fits (some w) v = str_eq v w

unfoldable pub passes : Filters → OperationState → Bool
passes f s =
    fits f.status (status_text s.status)
    && fits f.task_id s.task_id
    && fits f.run_id s.run_id
    && fits f.provider s.provider
    && fits f.failure_signature s.failure_signature

-- `list`: the rows are cut to `limit` before they are filtered.
unfoldable pub list : String → Filters → ℕ → Table → Result StoreError (List OperationState)
unfolding load_all passes
list now f limit table = do
  raise_if (ltb limit 1 || ltb 10000 limit) bad_limit
  states ← load_all now (take limit (sort row_before table))
  ok (keep (passes f) states)
