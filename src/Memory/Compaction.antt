-- ===== src/Memory/Compaction.antt =====
-- `MemoryCompactor` of src/pasi/core/memory_compaction.py. `str.casefold` is an argument; a run of what
-- `\s` matches is a run of what `isspace` tells. An error of `apply` carries the table as the
-- transactions before it left it.
pub mod Applied
pub mod Groups
pub mod Lossless
pub mod Plans
use Prim.Native.Char.{Char, code}
use Prim.Native.String.{◌++◌ as text_append}
use pasi_engineering_workspa.Prelude.{
  ℤ, pos, ltb_ℤ, eqb_ℤ, ◌+ℤ◌, Bool, true, false, not, ◌&&◌, ◌||◌, String, str_eq, Result, ok, err,
  raise_if, map_err, ◌>>=◌, ◌>>◌, Option, none, some, List, [], ◌∷◌, ◌++◌, map, ltb, length, keep,
  is_empty, if◌then◌else◌,
}
use pasi_engineering_workspa.Text.{strip, is_space, elem}
use pasi_engineering_workspa.Text.Order.{leb_text}
use pasi_engineering_workspa.Sort.{sort}
use pasi_engineering_workspa.Memory.{
  MemoryRecord, MemoryError, MemoryTable, is_active_memory, make_memory, get_memory, update_memory,
  archive_memory,
}

pub record CompactionGroup : Type 0 where
  pub scope : String
  pub kind : String
  pub canonical_id : String
  pub redundant_ids : List String
  pub merged_provenance_refs : List String

-- The messages of `CompactionError`, and what the store raises
pub data CompactionError : Type 0 where
  no_provenance canonical_moved redundant_moved redundant_differs : CompactionError
  memory_error : MemoryError → CompactionError

-- `re.sub(r"\s+", " ", s)`; the first argument tells whether a space was put last.
unfoldable pub collapse : Bool → String → String
collapse spaced String.[] = String.[]
collapse spaced (String.◌∷◌ c s) = elim (is_space (code c)) [
  | false ↦ String.◌∷◌ c (collapse false s)
  | true ↦ elim spaced [ true ↦ collapse true s | false ↦ text_append " " (collapse true s) ]
]

-- `(record.scope, record.kind, normalized)`
abbrev pub GroupKey : Type 0
GroupKey = String × String × String

abbrev pub same_key : GroupKey → GroupKey → Bool
same_key (s, k, n) (t, l, m) = str_eq s t && str_eq k l && str_eq n m

abbrev pub Groups : Type 0
Groups = List (GroupKey × List MemoryRecord)

-- `groups.setdefault(key, []).append(record)`
unfoldable pub add_member : GroupKey → MemoryRecord → Groups → Groups
add_member key m [] = (key, m ∷ []) ∷ []
add_member key m ((k, members) ∷ groups) =
    let rest = add_member key m groups in
    if same_key k key then (k, members ++ m ∷ []) ∷ groups else (k, members) ∷ rest

-- The order of the keys, as tuples
abbrev pub group_before : GroupKey × List MemoryRecord → GroupKey × List MemoryRecord → Bool
group_before ((s, k, n), _) ((t, l, m), _) =
    if not (str_eq s t)
    then leb_text s t
    else if not (str_eq k l)
    then leb_text k l
    else leb_text n m

-- The order of `(-float(record.confidence), record.memory_id)`
abbrev pub confident_first : MemoryRecord → MemoryRecord → Bool
confident_first a b =
    if eqb_ℤ a.confidence b.confidence
    then leb_text a.memory_id b.memory_id
    else ltb_ℤ b.confidence a.confidence

-- The set of the texts, as a list
unfoldable pub set_of : List String → List String
unfolding elem
set_of [] = []
set_of (x ∷ xs) = if elem x xs then set_of xs else x ∷ set_of xs

unfoldable pub all_refs : List MemoryRecord → List String
all_refs [] = []
all_refs (m ∷ members) = m.provenance_refs ++ all_refs members

-- The plan of a group of two members or more, whose order is never empty
unfoldable pub plan_ordered :
    String → String → List MemoryRecord → List MemoryRecord → Result CompactionError CompactionGroup
unfolding set_of all_refs
plan_ordered scope kind members [] = err no_provenance
plan_ordered scope kind members (canonical ∷ others) =
    let refs = sort leb_text (set_of (all_refs members)) in
    raise_if (is_empty refs) no_provenance
    >> ok (record {
      scope = scope;
      kind = kind;
      canonical_id = canonical.memory_id;
      redundant_ids = sort leb_text (map (λ (m : MemoryRecord). m.memory_id) others);
      merged_provenance_refs = refs;
    })

-- The loop over the sorted groups
unfoldable pub plan_groups : Groups → Result CompactionError (List CompactionGroup)
unfolding plan_ordered
plan_groups [] = ok []
plan_groups (((scope, kind, n), members) ∷ groups) = elim (ltb (length members) 2) [
  | true ↦ plan_groups groups
  | false ↦ do
    g ← plan_ordered scope kind members (sort confident_first members)
    rest ← plan_groups groups
    ok (g ∷ rest)
]

module _ (casefold : String → String) where
  -- `_normalize`
  unfoldable pub normalize : String → String
  unfolding collapse
  normalize content = casefold (collapse false (strip content))

  abbrev pub key_of : MemoryRecord → GroupKey
  key_of m = (m.scope, m.kind, normalize m.content)

  -- The loop over the records
  unfoldable pub group_records : List MemoryRecord → Groups → Groups
  unfolding normalize add_member
  group_records [] groups = groups
  group_records (m ∷ records) groups =
      group_records records
        (if is_active_memory m.status then add_member (key_of m) m groups else groups)

  -- `plan`
  unfoldable pub plan : List MemoryRecord → Result CompactionError (List CompactionGroup)
  unfolding group_records plan_groups
  plan records = plan_groups (sort group_before (group_records records []))

  -- The tests of `apply` on one redundant record
  unfoldable pub check_redundant :
      String
      → CompactionGroup
      → MemoryRecord
      → MemoryTable
      → String
      → Result CompactionError (Unit {0})
  unfolding normalize get_memory
  check_redundant now g canonical table id = do
    redundant ← map_err memory_error (get_memory now id table)
    raise_if (not (str_eq redundant.scope g.scope && str_eq redundant.kind g.kind)) redundant_moved
    raise_if (not (str_eq (normalize redundant.content) (normalize canonical.content)))
        redundant_differs

  unfoldable pub check_redundants :
      String
      → CompactionGroup
      → MemoryRecord
      → MemoryTable
      → List String
      → Result CompactionError (Unit {0})
  unfolding check_redundant
  check_redundants now g canonical table [] = ok tt
  check_redundants now g canonical table (id ∷ ids) = do
    check_redundant now g canonical table id
    check_redundants now g canonical table ids

  -- The tests in front of the writes
  unfoldable pub checked_canonical :
      String → CompactionGroup → MemoryTable → Result CompactionError MemoryRecord
  unfolding check_redundants get_memory
  checked_canonical now g table = do
    canonical ← map_err memory_error (get_memory now g.canonical_id table)
    raise_if (not (str_eq canonical.scope g.scope && str_eq canonical.kind g.kind)) canonical_moved
    check_redundants now g canonical table g.redundant_ids
    ok canonical

-- `max(value, 0.0)`
abbrev pub max_zero : ℤ → ℤ
max_zero c = if ltb_ℤ c (pos 0) then pos 0 else c

-- The record that takes the references of the group
unfoldable pub merged : CompactionGroup → MemoryRecord → MemoryRecord
merged g canonical = record canonical {
  provenance_refs = g.merged_provenance_refs;
  confidence = max_zero canonical.confidence;
  revision = canonical.revision +ℤ pos 1;
}

-- The first write of `apply`
unfoldable pub write_merged :
    String
    → CompactionGroup
    → MemoryRecord
    → MemoryTable
    → Result MemoryError (MemoryTable × MemoryRecord)
unfolding merged make_memory update_memory
write_merged now g canonical table = do
  updated ← make_memory now (merged g canonical)
  update_memory updated canonical.revision table

-- One round of the last loop
unfoldable pub archive_current :
    String → String → MemoryTable → Result MemoryError (MemoryTable × MemoryRecord)
unfolding get_memory archive_memory
archive_current now id table = do
  redundant ← get_memory now id table
  archive_memory now id redundant.revision table

-- The last loop
unfoldable pub archive_all :
    String → List String → MemoryTable → MemoryTable × Result MemoryError (Unit {0})
unfolding archive_current
archive_all now [] table = (table, ok tt)
archive_all now (id ∷ ids) table = elim (archive_current now id table) [
  | err raised ↦ (table, err raised)
  | ok (next, _) ↦ archive_all now ids next
]

module _ (casefold : String → String) where
  -- `apply`
  unfoldable pub apply_group :
      String → CompactionGroup → MemoryTable → MemoryTable × Result CompactionError MemoryRecord
  unfolding checked_canonical write_merged archive_all
  apply_group now g table = elim (checked_canonical casefold now g table) [
    | err raised ↦ (table, err raised)
    | ok canonical ↦ elim (write_merged now g canonical table) [
      | err raised ↦ (table, err (memory_error raised))
      | ok (written, updated) ↦
          let archived = archive_all now g.redundant_ids written in
          (archived.0, map_err memory_error archived.1 >> ok updated)
    ]
  ]
