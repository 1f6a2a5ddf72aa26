-- ===== src/Ledger.antt =====
-- `OperationLedgerEntry` of src/pasi/core/ledger.py and `SQLiteOperationLedger` of
-- src/pasi/core/ledger_store.py. A row holds the entry itself; SQLite does not enforce the foreign key,
-- whose pragma is off. The clock is read where an entry has no time.
pub mod Lineage
pub mod Registered
mod Tests
use pasi_engineering_workspa.Prelude.{
  ℕ, zero, suc, ℤ, pos, ltb_ℤ, leb_ℤ, eqb_ℤ, ltb, Bool, true, false, not, ◌&&◌, ◌||◌, String,
  str_eq, Result, ok, err, raise_if, map_err, ◌>>=◌, ◌>>◌, Option, none, some, List, [], ◌∷◌, map,
  keep, take, length, if◌then◌else◌,
}
use pasi_engineering_workspa.Text.{is_blank, elem}
use pasi_engineering_workspa.Text.Bounded.{TextFault, check_text}
use pasi_engineering_workspa.Text.Order.{leb_text}
use pasi_engineering_workspa.Dict.{Dict, lookup, put}
use pasi_engineering_workspa.Sort.{sort}
use pasi_engineering_workspa.Operation.Store.{fits}

pub record LedgerEntry : Type 0 where
  pub operation_id : String
  pub task_id : String
  pub run_id : String
  pub parent_operation_id : String
  pub provider : String
  pub branch : String
  pub pr_number : Option ℤ
  pub outcome : String
  pub created_at : String
  pub updated_at : String

-- `InvalidLedgerEntry`, `DuplicateLedgerEntry`, `LedgerEntryNotFound`, the messages of
-- `LineageConflict`, and the `ValueError` of `list`
pub data LedgerError : Type 0 where
  bad_ledger_text : (name : String) → TextFault → LedgerError
  bad_pr duplicate_entry entry_not_found bad_ledger_limit : LedgerError
  no_parent other_task other_run lineage_cycle : LedgerError

-- `_bounded`
unfoldable pub ledger_text : String → ℕ → Bool → String → Result LedgerError String
ledger_text name limit allow_empty value =
    map_err (bad_ledger_text name) (check_text limit allow_empty value)

unfoldable pub check_pr : Option ℤ → Result LedgerError (Unit {0})
check_pr none = ok tt
check_pr (some n) = raise_if (leb_ℤ n (pos 0)) bad_pr

-- The checks of `__post_init__`
unfoldable pub check_entry : LedgerEntry → Result LedgerError (Unit {0})
unfolding ledger_text check_pr
check_entry e = do
  ledger_text "operation_id" 256 false e.operation_id
  ledger_text "task_id" 256 false e.task_id
  ledger_text "run_id" 256 false e.run_id
  ledger_text "parent_operation_id" 256 true e.parent_operation_id
  ledger_text "provider" 128 true e.provider
  ledger_text "branch" 256 true e.branch
  ledger_text "outcome" 128 true e.outcome
  check_pr e.pr_number

-- `s or default`
abbrev pub or_text : String → String → String
or_text s default = if is_blank s then default else s

-- The times of `__post_init__`
unfoldable pub timed : String → LedgerEntry → LedgerEntry
timed now e = record e {
  created_at = or_text e.created_at now;
  updated_at = or_text e.updated_at (or_text e.created_at now);
}

-- The constructor with its `__post_init__`
unfoldable pub make_entry : String → LedgerEntry → Result LedgerError LedgerEntry
unfolding check_entry timed
make_entry now e = check_entry e >> ok (timed now e)

abbrev pub Ledger : Type 0
Ledger = Dict LedgerEntry

-- What `register` asks of the parent
unfoldable pub check_parent : LedgerEntry → Ledger → Result LedgerError (Unit {0})
check_parent e table =
    if is_blank e.parent_operation_id then ok tt else elim (lookup e.parent_operation_id table) [
      | none ↦ err no_parent
      | some parent ↦ do
        raise_if (not (str_eq parent.task_id e.task_id)) other_task
        raise_if (not (str_eq parent.run_id e.run_id)) other_run
    ]

unfoldable pub register : LedgerEntry → Ledger → Result LedgerError (Ledger × LedgerEntry)
unfolding check_parent
register e table = do
  check_parent e table
  elim (lookup e.operation_id table) [
    | some _ ↦ err duplicate_entry
    | none ↦ ok (put e.operation_id e table, e)
  ]

-- `get`
unfoldable pub get_entry : String → String → Ledger → Result LedgerError LedgerEntry
unfolding make_entry
get_entry now id table = elim (lookup id table) [
  | none ↦ err entry_not_found
  | some row ↦ make_entry now row
]

unfoldable pub load_entries :
    String → List (String × LedgerEntry) → Result LedgerError (List LedgerEntry)
unfolding make_entry
load_entries now [] = ok []
load_entries now ((id, row) ∷ rows) = do
  e ← make_entry now row
  rest ← load_entries now rows
  ok (e ∷ rest)

-- `ORDER BY created_at ASC, operation_id ASC`
abbrev pub oldest_first : String × LedgerEntry → String × LedgerEntry → Bool
oldest_first a b =
    if str_eq a.1.created_at b.1.created_at
    then leb_text a.0 b.0
    else leb_text a.1.created_at b.1.created_at

-- `ORDER BY created_at DESC, operation_id ASC`
abbrev pub newest_first : String × LedgerEntry → String × LedgerEntry → Bool
newest_first a b =
    if str_eq a.1.created_at b.1.created_at
    then leb_text a.0 b.0
    else leb_text b.1.created_at a.1.created_at

abbrev pub rows_where : (LedgerEntry → Bool) → Ledger → List (String × LedgerEntry)
rows_where p table = keep (λ (e : String × LedgerEntry). p e.1) table

unfoldable pub list_task : String → String → Ledger → Result LedgerError (List LedgerEntry)
unfolding load_entries
list_task now id table =
    load_entries now (sort oldest_first (rows_where (λ e. str_eq e.task_id id) table))

unfoldable pub list_run : String → String → Ledger → Result LedgerError (List LedgerEntry)
unfolding load_entries
list_run now id table =
    load_entries now (sort oldest_first (rows_where (λ e. str_eq e.run_id id) table))

-- `children`
unfoldable pub children_of_entry : String → String → Ledger → Result LedgerError (List LedgerEntry)
unfolding load_entries
children_of_entry now id table =
    load_entries now (sort oldest_first (rows_where (λ e. str_eq e.parent_operation_id id) table))

-- The keyword filters of `list`; `none` is Python's `None`.
pub record LedgerFilters : Type 0 where
  pub task_id : Option String
  pub run_id : Option String
  pub provider : Option String
  pub branch : Option String
  pub pr_number : Option ℤ
  pub outcome : Option String

-- `pr_number = ?`, which no NULL meets
unfoldable pub fits_number : Option ℤ → Option ℤ → Bool
fits_number none n = true
fits_number (some w) none = false
fits_number (some w) (some n) = eqb_ℤ n w

unfoldable pub wanted_entry : LedgerFilters → LedgerEntry → Bool
unfolding fits_number
wanted_entry f e =
    fits f.task_id e.task_id
    && fits f.run_id e.run_id
    && fits f.provider e.provider
    && fits f.branch e.branch
    && fits_number f.pr_number e.pr_number
    && fits f.outcome e.outcome

unfoldable pub list_entries :
    String → LedgerFilters → ℕ → Ledger → Result LedgerError (List LedgerEntry)
unfolding load_entries wanted_entry
list_entries now f limit table = do
  raise_if (ltb limit 1 || ltb 10000 limit) bad_ledger_limit
  load_entries now (take limit (sort newest_first (rows_where (wanted_entry f) table)))

-- The loop of `lineage` on fuel; `none` means that the fuel ran out. The source appends to the chain and
-- reverses it at the end.
unfoldable pub climb :
    String
    → ℕ
    → Ledger
    → LedgerEntry
    → List String
    → List LedgerEntry
    → Option (Result LedgerError (List LedgerEntry))
unfolding get_entry elem
climb now zero table current seen chain = none
climb now (suc fuel) table current seen chain = elim (is_blank current.parent_operation_id) [
  | true ↦ some (ok chain)
  | false ↦ elim (elem current.parent_operation_id seen) [
    | true ↦ some (err lineage_cycle)
    | false ↦ elim (get_entry now current.parent_operation_id table) [
      | err e ↦ some (err e)
      | ok parent ↦
          climb now fuel table parent (current.parent_operation_id ∷ seen) (parent ∷ chain)
    ]
  ]
]

-- `lineage`
unfoldable pub lineage : String → String → Ledger → Option (Result LedgerError (List LedgerEntry))
unfolding climb
lineage now id table = elim (get_entry now id table) [
  | err e ↦ some (err e)
  | ok current ↦ climb now (length table) table current (id ∷ []) (current ∷ [])
]
