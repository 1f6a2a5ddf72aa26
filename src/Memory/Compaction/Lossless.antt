-- ===== src/Memory/Compaction/Lossless.antt =====
-- What `apply` of src/pasi/core/memory_compaction.py does to the memory, on every way out of it.
use pasi_engineering_workspa.Prelude.{
  ◌≡◌, refl, ap, subst, ◌∙◌, ◌⊎◌, inl, inr, not, ◌&&◌, String, str_eq, eq_iff, ok, Result-cases,
  map_err, >>=-eq-ok, map_err-eq-ok, raise_if->>=-eq-ok, some, Bool-cases, List, [], ◌∷◌, arith,
}
use pasi_engineering_workspa.Dict.{lookup}
use pasi_engineering_workspa.Memory.{
  MemoryRecord, MemoryStatus, MemoryTable, stamped, make_memory, get_memory, update_memory,
  archive_memory,
}
use pasi_engineering_workspa.Memory.Writes.{
  Keeps, IsWrite, IsWrite-lookup, IsWrite-row, IsWrite-lookup_other, make_memory-eq-ok,
  get_memory-eq-ok, update-IsWrite, archive_memory-IsWrite,
}
use pasi_engineering_workspa.Memory.Compaction.{
  CompactionGroup, memory_error, merged, write_merged, archive_current, archive_all,
  checked_canonical, check_redundants, apply_group,
}

pub archive_current-IsWrite :
    (now id : String) (table : MemoryTable) {written : MemoryTable × MemoryRecord}
    → archive_current now id table ≡ ok written
    → IsWrite id (λ row. row.provenance_refs) (λ row. MemoryStatus.archived) table written.0
unfolding archive_current
archive_current-IsWrite now id table h =
    let (redundant, got, h₁) =
      >>=-eq-ok (get_memory now id table) (λ m. archive_memory now id m.revision table) h in
    archive_memory-IsWrite now id redundant.revision table h₁

pub checked_canonical-found :
    (casefold : String → String) (now : String) (g : CompactionGroup) (table : MemoryTable)
    {canonical : MemoryRecord}
    → checked_canonical casefold now g table ≡ ok canonical
    → get_memory now g.canonical_id table ≡ ok canonical
unfolding checked_canonical
checked_canonical-found casefold now g table h =
    let (c, got, h₁) = >>=-eq-ok (map_err memory_error (get_memory now g.canonical_id table)) _ h in
    let (there, h₂) =
      raise_if->>=-eq-ok (not (str_eq c.scope g.scope && str_eq c.kind g.kind)) _ _ h₁ in
    let (u, checked, h₃) =
      >>=-eq-ok (check_redundants casefold now g c table g.redundant_ids) (λ u. ok c) h₂ in
    map_err-eq-ok memory_error (get_memory now g.canonical_id table) (got ∙ h₃)

pub write_merged-IsWrite :
    (now : String) (g : CompactionGroup) (table : MemoryTable) {canonical : MemoryRecord}
    {written : MemoryTable × MemoryRecord}
    → get_memory now g.canonical_id table ≡ ok canonical
    → write_merged now g canonical table ≡ ok written
    → IsWrite g.canonical_id (λ row. g.merged_provenance_refs) (λ row. row.status) table written.0
unfolding write_merged merged
write_merged-IsWrite now g table {canonical} got h =
    let (row, found, canonical_is) = get_memory-eq-ok now g.canonical_id table got in
    let (m, made, h₁) =
      >>=-eq-ok (make_memory now (merged g canonical))
        (λ m. update_memory m canonical.revision table) h in
    let full : m
        ≡ stamped now (merged g (stamped now (record row { memory_id = g.canonical_id }))) =
      make_memory-eq-ok now (merged g canonical) made
      ∙ ap (λ (c : MemoryRecord). stamped now (merged g c)) canonical_is in
    update-IsWrite g.canonical_id m canonical.revision _ _ table row found
      (ap (λ (m : MemoryRecord). m.memory_id) full)
      (record {
        scope = ap (λ (m : MemoryRecord). m.scope) full;
        kind = ap (λ (m : MemoryRecord). m.kind) full;
        content = ap (λ (m : MemoryRecord). m.content) full;
        source = ap (λ (m : MemoryRecord). m.source_operation_id) full;
        created = refl;
      })
      (ap (λ (m : MemoryRecord). m.provenance_refs) full) (ap (λ (m : MemoryRecord). m.status) full)
      (ap (λ (m : MemoryRecord). m.revision) full) h₁

same_row : (row : MemoryRecord) → Keeps row row
same_row row = record { scope = refl; kind = refl; content = refl; source = refl; created = refl }

Keeps-Keeps : (a b c : MemoryRecord) → Keeps a b → Keeps b c → Keeps a c
Keeps-Keeps a b c h k = record {
  scope = k.scope ∙ h.scope;
  kind = k.kind ∙ h.kind;
  content = k.content ∙ h.content;
  source = k.source ∙ h.source;
  created = k.created ∙ h.created;
}

-- What becomes of a row while others, or it, are archived
pub record IsLater (row new : MemoryRecord) : Type 0 where
  pub same : Keeps row new
  pub refs : new.provenance_refs ≡ row.provenance_refs
  pub status : (new.status ≡ row.status) ⊎ (new.status ≡ MemoryStatus.archived)

IsLater-IsLater : (a b c : MemoryRecord) → IsLater a b → IsLater b c → IsLater a c
IsLater-IsLater a b c h k = record {
  same = Keeps-Keeps a b c h.same k.same;
  refs = k.refs ∙ h.refs;
  status = elim k.status [
    | inr gone ↦ inr gone
    | inl kept ↦ elim h.status [ inl e ↦ inl (kept ∙ e) | inr e ↦ inr (kept ∙ e) ]
  ];
}

archive-IsLater :
    (id j : String) {table next : MemoryTable} {row : MemoryRecord}
    → IsWrite id (λ row. row.provenance_refs) (λ row. MemoryStatus.archived) table next
    → lookup j table ≡ some row
    → (new : MemoryRecord) × (lookup j next ≡ some new) × IsLater row new
archive-IsLater id j {row = row} w found = elim (Bool-cases (str_eq id j)) [
  | inl e ↦ (
    w.new,
    IsWrite-lookup w j e,
    subst (λ r. IsLater r w.new) (IsWrite-row w j e found)
        (record { same = w.same; refs = w.new_refs; status = inr w.new_status }),
  )
  | inr e ↦ (
    row,
    IsWrite-lookup_other w j e ∙ found,
    record { same = same_row row; refs = refl; status = inl refl },
  )
]

pub archive_all-IsLater :
    (now : String) (ids : List String) (table : MemoryTable) (j : String) {row : MemoryRecord}
    → lookup j table ≡ some row
    → (new : MemoryRecord) × (lookup j (archive_all now ids table).0 ≡ some new) × IsLater row new
unfolding archive_all
archive_all-IsLater now [] table j {row} found =
    (row, found, record { same = same_row row; refs = refl; status = inl refl })
archive_all-IsLater now (id ∷ ids) table j {row} found =
    elim (Result-cases (archive_current now id table)) [
      | inl (raised, e) ↦
          rw (archive_all, e)
            (row, found, record { same = same_row row; refs = refl; status = inl refl })
      | inr (written, e) ↦
          let (new, found₁, later) =
            archive-IsLater id j (archive_current-IsWrite now id table e) found in
          let (last, found₂, later₂) = archive_all-IsLater now ids written.0 j found₁ in
          rw (archive_all, e) (last, found₂, IsLater-IsLater row new last later later₂)
    ]

-- What is left of a row, whatever `apply` did
pub record IsPreserved (g : CompactionGroup) (id : String) (row new : MemoryRecord) : Type 0 where
  pub same : Keeps row new
  pub refs :
      (new.provenance_refs ≡ row.provenance_refs)
      ⊎ ((id ≡ g.canonical_id) × (new.provenance_refs ≡ g.merged_provenance_refs))

untouched : (g : CompactionGroup) (id : String) (row : MemoryRecord) → IsPreserved g id row row
untouched g id row = record { same = same_row row; refs = inl refl }

merge-IsPreserved :
    (g : CompactionGroup) (j : String) {status : MemoryRecord → MemoryStatus}
    {table next : MemoryTable} {row : MemoryRecord}
    → IsWrite g.canonical_id (λ row. g.merged_provenance_refs) status table next
    → lookup j table ≡ some row
    → (new : MemoryRecord) × (lookup j next ≡ some new) × IsPreserved g j row new
merge-IsPreserved g j {row = row} w found = elim (Bool-cases (str_eq g.canonical_id j)) [
  | inl e ↦
      let name : j ≡ g.canonical_id = ground (arith, eq_iff g.canonical_id j) in
      (
        w.new,
        IsWrite-lookup w j e,
        subst (λ r. IsPreserved g j r w.new) (IsWrite-row w j e found)
            (record { same = w.same; refs = inr (name, w.new_refs) }),
      )
  | inr e ↦ (row, IsWrite-lookup_other w j e ∙ found, untouched g j row)
]

IsLater-IsPreserved :
    (g : CompactionGroup) (j : String) (a b c : MemoryRecord)
    → IsPreserved g j a b
    → IsLater b c
    → IsPreserved g j a c
IsLater-IsPreserved g j a b c h k = record {
  same = Keeps-Keeps a b c h.same k.same;
  refs = elim h.refs [ inl e ↦ inl (k.refs ∙ e) | inr (name, e) ↦ inr (name, k.refs ∙ e) ];
}

module _ (casefold : String → String) (now : String) (g : CompactionGroup)
    (table : MemoryTable) where
  -- Whether `apply` succeeds or raises, and wherever it stops, no row is lost: each keeps its scope,
  -- kind, content, source and time of creation. It keeps its references too, unless it is that of the
  -- canonical record, which then has those of the group, whatever it had before.
  pub apply_group-IsPreserved :
      (id : String) (row : MemoryRecord)
      → lookup id table ≡ some row
      → (new : MemoryRecord) × (lookup id (apply_group casefold now g table).0 ≡ some new)
        × IsPreserved g id row new
  unfolding apply_group
  apply_group-IsPreserved id row found =
      elim (Result-cases (checked_canonical casefold now g table)) [
        | inl (raised, e) ↦ rw (apply_group, e) (row, found, untouched g id row)
        | inr (canonical, e) ↦ elim (Result-cases (write_merged now g canonical table)) [
          | inl (raised, f) ↦ rw (apply_group, e, f) (row, found, untouched g id row)
          | inr (written, f) ↦
              let got = checked_canonical-found casefold now g table e in
              let (new, found₁, kept) =
                merge-IsPreserved g id (write_merged-IsWrite now g table got f) found in
              let (last, found₂, later) =
                archive_all-IsLater now g.redundant_ids written.0 id found₁ in
              rw (apply_group, e, f)
                (last, found₂, IsLater-IsPreserved g id row new last kept later)
        ]
      ]
