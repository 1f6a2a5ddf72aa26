-- ===== src/Memory.antt =====
-- `MemoryRecord` of src/pasi/core/memory.py and `SQLiteMemoryStore` of src/pasi/core/memory_store.py. A
-- table is a dictionary from the primary key to the record of the row, whose references JSON gives back;
-- SQLite's bound on the revision is not modelled. A confidence is a finite float, and stands here as the
-- whole multiple of 2 ^ -1074 that it is; one that is not finite is refused like one out of range. The
-- clock is read where a record has no time.
pub mod Compaction
pub mod Learning
pub mod Retrieval
pub mod Tests
pub mod Writes
use Prim.Native.Nat.{◌^◌}
use pasi_engineering_workspa.Prelude.{
  ℤ, pos, ltb_ℤ, eqb_ℤ, ◌+ℤ◌, Bool, true, false, not, ◌&&◌, ◌||◌, String, str_eq, Result, ok, err,
  raise_if, ◌>>=◌, ◌>>◌, Option, none, some, List, [], ◌∷◌, any, keep, is_empty, if◌then◌else◌,
}
use pasi_engineering_workspa.Text.{strip, is_blank}
use pasi_engineering_workspa.Text.Order.{leb_text}
use pasi_engineering_workspa.Dict.{Dict, lookup, put}
use pasi_engineering_workspa.Sort.{sort}
use pasi_engineering_workspa.Operation.Store.{fits}

pub data MemoryStatus : Type 0 where
  active archived : MemoryStatus

pub record MemoryRecord : Type 0 where
  pub memory_id : String
  pub scope : String
  pub kind : String
  pub content : String
  pub provenance_refs : List String
  pub source_operation_id : String
  pub confidence : ℤ
  pub status : MemoryStatus
  pub revision : ℤ
  pub created_at : String
  pub updated_at : String

-- The messages of `MemoryError`, `MemoryNotFound`, `DuplicateMemory`, and the messages of
-- `StaleMemoryRevision`
pub data MemoryError : Type 0 where
  no_memory_id no_scope no_kind no_content no_refs blank_ref : MemoryError
  bad_confidence bad_revision : MemoryError
  memory_not_found duplicate_memory not_one_step memory_moved unexpected_revision : MemoryError

-- The float 1.0
abbrev pub one_float : ℤ
one_float = pos (2 ^ 1074)

-- The checks of `__post_init__`
unfoldable pub check_memory : MemoryRecord → Result MemoryError (Unit {0})
check_memory m = do
  raise_if (is_blank (strip m.memory_id)) no_memory_id
  raise_if (is_blank (strip m.scope)) no_scope
  raise_if (is_blank (strip m.kind)) no_kind
  raise_if (is_blank (strip m.content)) no_content
  raise_if (is_empty m.provenance_refs) no_refs
  raise_if (any (λ ref. is_blank (strip ref)) m.provenance_refs) blank_ref
  raise_if (ltb_ℤ m.confidence (pos 0) || ltb_ℤ one_float m.confidence) bad_confidence
  raise_if (ltb_ℤ m.revision (pos 0)) bad_revision

-- `s or default`
abbrev pub or_time : String → String → String
or_time s default = if is_blank s then default else s

-- The times of `__post_init__`
abbrev pub stamped : String → MemoryRecord → MemoryRecord
stamped now m = record m {
  created_at = or_time m.created_at now;
  updated_at = or_time m.updated_at (or_time m.created_at now);
}

-- The constructor with its `__post_init__`
unfoldable pub make_memory : String → MemoryRecord → Result MemoryError MemoryRecord
unfolding check_memory
make_memory now m = check_memory m >> ok (stamped now m)

abbrev pub MemoryTable : Type 0
MemoryTable = Dict MemoryRecord

-- `create`
unfoldable pub create_memory :
    MemoryRecord → MemoryTable → Result MemoryError (MemoryTable × MemoryRecord)
create_memory m table = elim (lookup m.memory_id table) [
  | some _ ↦ err duplicate_memory
  | none ↦ ok (put m.memory_id m table, m)
]

-- `_row_to_memory`
unfoldable pub row_to_memory : String → String → MemoryRecord → Result MemoryError MemoryRecord
unfolding make_memory
row_to_memory now id row = make_memory now (record row { memory_id = id })

-- `get`
unfoldable pub get_memory : String → String → MemoryTable → Result MemoryError MemoryRecord
unfolding row_to_memory
get_memory now id table = elim (lookup id table) [
  | none ↦ err memory_not_found
  | some row ↦ row_to_memory now id row
]

-- `update`, which leaves the time of creation as it is.
unfoldable pub update_memory :
    MemoryRecord → ℤ → MemoryTable → Result MemoryError (MemoryTable × MemoryRecord)
update_memory m expected table = do
  raise_if (not (eqb_ℤ m.revision (expected +ℤ pos 1))) not_one_step
  elim (lookup m.memory_id table) [
    | none ↦ err memory_moved
    | some row ↦
        if eqb_ℤ row.revision expected
        then ok (put m.memory_id (record m { created_at = row.created_at }) table, m)
        else err memory_moved
  ]

-- The record that `archive` builds
abbrev pub archived_copy : MemoryRecord → MemoryRecord
archived_copy current = record current { status = archived; revision = current.revision +ℤ pos 1 }

-- `archive`
unfoldable pub archive_memory :
    String → String → ℤ → MemoryTable → Result MemoryError (MemoryTable × MemoryRecord)
unfolding get_memory make_memory update_memory
archive_memory now id expected table = do
  current ← get_memory now id table
  raise_if (not (eqb_ℤ current.revision expected)) unexpected_revision
  old ← make_memory now (archived_copy current)
  update_memory old expected table

-- `ORDER BY updated_at DESC, memory_id ASC`
abbrev pub latest_first : String × MemoryRecord → String × MemoryRecord → Bool
latest_first a b =
    if str_eq a.1.updated_at b.1.updated_at
    then leb_text a.0 b.0
    else leb_text b.1.updated_at a.1.updated_at

unfoldable pub load_memories :
    String → List (String × MemoryRecord) → Result MemoryError (List MemoryRecord)
unfolding row_to_memory
load_memories now [] = ok []
load_memories now ((id, row) ∷ rows) = do
  m ← row_to_memory now id row
  rest ← load_memories now rows
  ok (m ∷ rest)

abbrev pub is_active_memory : MemoryStatus → Bool
is_active_memory MemoryStatus.active = true
is_active_memory MemoryStatus.archived = false

-- The `WHERE` of `list`
unfoldable pub in_scope : String → Option String → Bool → MemoryRecord → Bool
in_scope scope kind include_archived m =
    str_eq m.scope scope && fits kind m.kind && (include_archived || is_active_memory m.status)

-- `list`
unfoldable pub list_memories :
    String → String → Option String → Bool → MemoryTable → Result MemoryError (List MemoryRecord)
unfolding load_memories in_scope
list_memories now scope kind include_archived table = load_memories now (
    sort latest_first
      (keep (λ (e : String × MemoryRecord). in_scope scope kind include_archived e.1) table))
