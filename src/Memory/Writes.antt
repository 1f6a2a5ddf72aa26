-- ===== src/Memory/Writes.antt =====
-- What the writes of src/pasi/core/memory_store.py do to the rows of the table.
use pasi_engineering_workspa.Prelude.{
  ℤ, pos, ◌+ℤ◌, eqb_ℤ, ◌≡◌, refl, sym, ap, ◌∙◌, inl, inr, true, false, not, String, str_eq, eq_iff,
  ok, >>=-eq-ok, raise_if->>=-eq-ok, ok-injective, some, Option-cases, Bool-cases, List, arith,
}
use pasi_engineering_workspa.Dict.{lookup, put, lookup-put_same, lookup-put_other}
use pasi_engineering_workspa.Memory.{
  MemoryRecord, MemoryStatus, MemoryTable, check_memory, make_memory, stamped, archived_copy,
  row_to_memory, get_memory, update_memory, archive_memory,
}

some-injective : {a b : MemoryRecord} → some a ≡ some b → a ≡ b
some-injective h = cc

pub make_memory-eq-ok :
    (now : String) (m : MemoryRecord) {made : MemoryRecord}
    → make_memory now m ≡ ok made
    → made ≡ stamped now m
unfolding make_memory
make_memory-eq-ok now m h =
    let (u, checked, h₁) = >>=-eq-ok (check_memory m) _ h in sym (ok-injective h₁)

pub get_memory-eq-ok :
    (now id : String) (table : MemoryTable) {m : MemoryRecord}
    → get_memory now id table ≡ ok m
    → (row : MemoryRecord) × (lookup id table ≡ some row)
      × (m ≡ stamped now (record row { memory_id = id }))
unfolding get_memory row_to_memory
get_memory-eq-ok now id table h = elim (Option-cases (lookup id table)) [
  | inl gone ↦ absurd (cc (rw (get_memory, gone) at h))
  | inr (row, found) ↦ (
    row,
    found,
    make_memory-eq-ok now (record row { memory_id = id }) (rw (get_memory, found) at h),
  )
]

-- What a write keeps of a row
pub record Keeps (row new : MemoryRecord) : Type 0 where
  pub scope : new.scope ≡ row.scope
  pub kind : new.kind ≡ row.kind
  pub content : new.content ≡ row.content
  pub source : new.source_operation_id ≡ row.source_operation_id
  pub created : new.created_at ≡ row.created_at

-- One row is replaced, and the revision rises by one; `refs` and `status` tell what the new row says.
pub record IsWrite (id : String) (refs : MemoryRecord → List String)
    (status : MemoryRecord → MemoryStatus) (table next : MemoryTable) : Type 0 where
  pub row : MemoryRecord
  pub new : MemoryRecord
  pub there : lookup id table ≡ some row
  pub next_is : next ≡ put id new table
  pub same : Keeps row new
  pub new_refs : new.provenance_refs ≡ refs row
  pub new_status : new.status ≡ status row
  pub one_step : new.revision ≡ row.revision +ℤ pos 1

update_memory-eq-ok :
    (m : MemoryRecord) (expected : ℤ) (table : MemoryTable) {written : MemoryTable × MemoryRecord}
    (row : MemoryRecord)
    → lookup m.memory_id table ≡ some row
    → update_memory m expected table ≡ ok written
    → written.0 ≡ put m.memory_id (record m { created_at = row.created_at }) table
unfolding update_memory
update_memory-eq-ok m expected table row found h =
    let (step, h₁) = raise_if->>=-eq-ok (not (eqb_ℤ m.revision (expected +ℤ pos 1))) _ _ h in
    elim (Bool-cases (eqb_ℤ row.revision expected)) [
      | inl e ↦
          ap (λ (w : MemoryTable × MemoryRecord). w.0) (sym (ok-injective (rw (found, e) at h₁)))
      | inr e ↦ absurd (cc (rw (found, e) at h₁))
    ]

-- The record that `update` is given stands for the row, but for the references, the status and the
-- revision.
pub update-IsWrite :
    (id : String) (m : MemoryRecord) (expected : ℤ) (refs : MemoryRecord → List String)
    (status : MemoryRecord → MemoryStatus) (table : MemoryTable)
    {written : MemoryTable × MemoryRecord} (row : MemoryRecord)
    → lookup id table ≡ some row
    → m.memory_id ≡ id
    → Keeps row (record m { created_at = row.created_at })
    → m.provenance_refs ≡ refs row
    → m.status ≡ status row
    → m.revision ≡ row.revision +ℤ pos 1
    → update_memory m expected table ≡ ok written
    → IsWrite id refs status table written.0
update-IsWrite id m expected refs status table row found named same new_refs new_status step h =
    record {
      row = row;
      new = record m { created_at = row.created_at };
      there = found;
      next_is =
          update_memory-eq-ok m expected table row (ap (λ key. lookup key table) named ∙ found) h
          ∙ ap (λ key. put key (record m { created_at = row.created_at }) table) named;
      same = same;
      new_refs = new_refs;
      new_status = new_status;
      one_step = step;
    }

pub archive_memory-IsWrite :
    (now id : String) (expected : ℤ) (table : MemoryTable) {written : MemoryTable × MemoryRecord}
    → archive_memory now id expected table ≡ ok written
    → IsWrite id (λ row. row.provenance_refs) (λ row. MemoryStatus.archived) table written.0
unfolding archive_memory
archive_memory-IsWrite now id expected table h =
    let (current, got, h₁) = >>=-eq-ok (get_memory now id table) _ h in
    let (row, found, current_is) = get_memory-eq-ok now id table got in
    let (same, h₂) = raise_if->>=-eq-ok (not (eqb_ℤ current.revision expected)) _ _ h₁ in
    let (old, made, h₃) =
      >>=-eq-ok (make_memory now (archived_copy current)) (λ m. update_memory m expected table)
        h₂ in
    let old_is = make_memory-eq-ok now (archived_copy current) made in
    let full : old ≡ stamped now (archived_copy (stamped now (record row { memory_id = id }))) =
      old_is ∙ ap (λ (c : MemoryRecord). stamped now (archived_copy c)) current_is in
    update-IsWrite id old expected _ _ table row found (ap (λ (m : MemoryRecord). m.memory_id) full)
      (record {
        scope = ap (λ (m : MemoryRecord). m.scope) full;
        kind = ap (λ (m : MemoryRecord). m.kind) full;
        content = ap (λ (m : MemoryRecord). m.content) full;
        source = ap (λ (m : MemoryRecord). m.source_operation_id) full;
        created = refl;
      })
      (ap (λ (m : MemoryRecord). m.provenance_refs) full) (ap (λ (m : MemoryRecord). m.status) full)
      (ap (λ (m : MemoryRecord). m.revision) full) h₃

-- After a write the rows are the new one and the others.
pub IsWrite-lookup :
    {id : String} {refs : MemoryRecord → List String} {status : MemoryRecord → MemoryStatus}
    {table next : MemoryTable} (w : IsWrite id refs status table next) (j : String)
    → str_eq id j ≡ true
    → lookup j next ≡ some w.new
IsWrite-lookup {id} {table = table} w j same =
    ap (lookup j) w.next_is ∙ lookup-put_same id j w.new table same

pub IsWrite-row :
    {id : String} {refs : MemoryRecord → List String} {status : MemoryRecord → MemoryStatus}
    {table next : MemoryTable} (w : IsWrite id refs status table next) (j : String)
    {row : MemoryRecord}
    → str_eq id j ≡ true
    → lookup j table ≡ some row
    → w.row ≡ row
IsWrite-row {id} {table = table} w j same found =
    let name : id ≡ j = ground (arith, eq_iff id j) in
    some-injective (sym w.there ∙ ap (λ k. lookup k table) name ∙ found)

pub IsWrite-lookup_other :
    {id : String} {refs : MemoryRecord → List String} {status : MemoryRecord → MemoryStatus}
    {table next : MemoryTable} (w : IsWrite id refs status table next) (j : String)
    → str_eq id j ≡ false
    → lookup j next ≡ lookup j table
IsWrite-lookup_other {id} {table = table} w j other =
    ap (lookup j) w.next_is ∙ lookup-put_other id j w.new table other
