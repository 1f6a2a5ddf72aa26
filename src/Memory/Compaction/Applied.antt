-- ===== src/Memory/Compaction/Applied.antt =====
-- What a successful `apply` of src/pasi/core/memory_compaction.py has written.
use pasi_engineering_workspa.Prelude.{
  ◌≡◌, refl, sym, ap, subst, ◌∙◌, inl, inr, String, Result, ok, Result-cases, map_err,
  map_err-eq-ok, >>=-eq-ok, some, List, [], ◌∷◌, All,
}
use pasi_engineering_workspa.Dict.{lookup}
use pasi_engineering_workspa.Prelude.{eq_refl}
use pasi_engineering_workspa.Memory.{MemoryRecord, MemoryStatus, MemoryError, MemoryTable}
use pasi_engineering_workspa.Memory.Writes.{IsWrite-lookup}
use pasi_engineering_workspa.Memory.Compaction.{
  CompactionGroup, memory_error, write_merged, archive_current, archive_all, checked_canonical,
  apply_group,
}
use pasi_engineering_workspa.Memory.Compaction.Lossless.{
  archive_current-IsWrite, write_merged-IsWrite, checked_canonical-found, archive_all-IsLater,
}

-- The row of the name is archived.
abbrev pub IsArchived : MemoryTable → String → Type 0
IsArchived table id =
    (row : MemoryRecord) × (lookup id table ≡ some row) × (row.status ≡ MemoryStatus.archived)

archive_all-next :
    (now id : String) (ids : List String) (table : MemoryTable)
    {written : MemoryTable × MemoryRecord}
    → archive_current now id table ≡ ok written
    → archive_all now (id ∷ ids) table ≡ archive_all now ids written.0
unfolding archive_all
archive_all-next now id ids table e = rw (archive_all, e) refl

archive_all-IsArchived :
    (now : String) (ids : List String) (table : MemoryTable)
    → (archive_all now ids table).1 ≡ ok tt
    → All (IsArchived (archive_all now ids table).0) ids
unfolding archive_all
archive_all-IsArchived now [] table h = tt
archive_all-IsArchived now (id ∷ ids) table h = elim (Result-cases (archive_current now id table)) [
  | inl (raised, e) ↦ absurd (cc (rw (archive_all, e) at h))
  | inr (written, e) ↦
      let w = archive_current-IsWrite now id table e in
      let (last, found, later) =
        archive_all-IsLater now ids written.0 id (IsWrite-lookup w id (eq_refl id)) in
      let gone : last.status ≡ MemoryStatus.archived = elim later.status [
        | inl kept ↦ kept ∙ w.new_status
        | inr new ↦ new
      ] in
      let step = archive_all-next now id ids table e in
      subst (λ (r : MemoryTable × Result MemoryError (Unit {0})). All (IsArchived r.0) (id ∷ ids))
        (sym step)
        (
          (last, found, gone),
          archive_all-IsArchived now ids written.0
              (sym (ap (λ (r : MemoryTable × Result MemoryError (Unit {0})). r.1) step) ∙ h),
        )
]

-- What a successful `apply` leaves
pub record IsCompacted (g : CompactionGroup) (table : MemoryTable) : Type 0 where
  pub canonical : MemoryRecord
  pub there : lookup g.canonical_id table ≡ some canonical
  pub refs : canonical.provenance_refs ≡ g.merged_provenance_refs
  pub redundant : All (IsArchived table) g.redundant_ids

module _ (casefold : String → String) (now : String) (g : CompactionGroup)
    (table : MemoryTable) where
  -- After a successful `apply` the canonical record has the references of the group, and every redundant
  -- one is archived.
  pub apply_group-IsCompacted :
      {updated : MemoryRecord}
      → (apply_group casefold now g table).1 ≡ ok updated
      → IsCompacted g (apply_group casefold now g table).0
  unfolding apply_group
  apply_group-IsCompacted h = elim (Result-cases (checked_canonical casefold now g table)) [
    | inl (raised, e) ↦ absurd (cc (rw (apply_group, e) at h))
    | inr (canonical, e) ↦ elim (Result-cases (write_merged now g canonical table)) [
      | inl (raised, f) ↦ absurd (cc (rw (apply_group, e, f) at h))
      | inr (written, f) ↦
          let got = checked_canonical-found casefold now g table e in
          let w = write_merged-IsWrite now g table got f in
          let (last, found, later) =
            archive_all-IsLater now g.redundant_ids written.0 g.canonical_id
              (IsWrite-lookup w g.canonical_id (eq_refl g.canonical_id)) in
          let (u, archived, h₁) =
            >>=-eq-ok (map_err memory_error (archive_all now g.redundant_ids written.0).1) _
              (rw (apply_group, e, f) at h) in
          rw (apply_group, e, f)
            (record {
              canonical = last;
              there = found;
              refs = later.refs ∙ w.new_refs;
              redundant =
                  archive_all-IsArchived now g.redundant_ids written.0
                    (map_err-eq-ok memory_error _ archived);
            })
    ]
  ]
