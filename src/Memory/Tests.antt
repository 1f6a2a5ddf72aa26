-- ===== src/Memory/Tests.antt =====
-- Tests of src/pasi/core/memory.py, memory_store.py and memory_compaction.py at small inputs.
use pasi_engineering_workspa.Prelude.{
  ℤ, pos, ◌+ℤ◌, ◌≡◌, refl, ap, ◌+◌, String, Result, ok, err, some, List, [], ◌∷◌, any, All,
}
use Prim.Native.Nat.{◌^◌}
use pasi_engineering_workspa.Text.{strip, elem}
use pasi_engineering_workspa.Dict.{lookup, put}
use pasi_engineering_workspa.Sort.{sort}
use pasi_engineering_workspa.Memory.{
  MemoryRecord, MemoryStatus, MemoryError, MemoryTable, check_memory, make_memory, row_to_memory,
  get_memory, update_memory, archive_memory,
}
use pasi_engineering_workspa.Memory.Compaction.{
  CompactionGroup, CompactionError, normalize, add_member, group_records, plan_ordered, plan_groups,
  plan, set_of, all_refs, check_redundant, check_redundants, checked_canonical, merged,
  write_merged, archive_current, archive_all, apply_group, collapse,
}
use pasi_engineering_workspa.Memory.Compaction.Lossless.{IsPreserved, apply_group-IsPreserved}
use pasi_engineering_workspa.Memory.Compaction.Applied.{IsCompacted, apply_group-IsCompacted}
use pasi_engineering_workspa.Memory.Compaction.Plans.{IsPlanned, plan-IsPlanned}

abbrev note : String → String → List String → ℤ → MemoryRecord
note id content refs confidence = record {
  memory_id = id;
  scope = "repo";
  kind = "fact";
  content = content;
  provenance_refs = refs;
  source_operation_id = "";
  confidence = confidence;
  status = MemoryStatus.active;
  revision = pos 0;
  created_at = "t1";
  updated_at = "t1";
}

abbrev one : MemoryRecord
one = note "a" "use  tabs" ("r1" ∷ []) (pos 1)

abbrev two : MemoryRecord
two = note "b" " use tabs" ("r2" ∷ "r1" ∷ []) (pos 2)

abbrev three : MemoryRecord
three = note "c" "use spaces" ("r3" ∷ []) (pos 2)

abbrev memory : MemoryTable
memory = ("a", one) ∷ ("b", two) ∷ ("c", three) ∷ []

abbrev same_text : String → String
same_text s = s

made : make_memory "t9" one ≡ ok one
unfolding make_memory check_memory strip any
made = refl

too_sure :
    make_memory "t9" (note "a" "x" ("r" ∷ []) (pos (2 ^ 1074 + 1))) ≡ err MemoryError.bad_confidence
unfolding make_memory check_memory strip any
too_sure = refl

stale : update_memory one (pos 3) memory ≡ err MemoryError.not_one_step
unfolding update_memory ◌+ℤ◌
stale = refl

abbrev tabs : CompactionGroup
tabs = record {
  scope = "repo";
  kind = "fact";
  canonical_id = "b";
  redundant_ids = "a" ∷ [];
  merged_provenance_refs = "r1" ∷ "r2" ∷ [];
}

planned : plan same_text (one ∷ two ∷ three ∷ []) ≡ ok (tabs ∷ [])
unfolding plan normalize group_records plan_groups plan_ordered add_member set_of all_refs collapse
    strip elem sort
planned = refl

applied : apply_group same_text "t9" tabs memory ≡ (
  ("a", record one { status = MemoryStatus.archived; revision = pos 1 })
      ∷ ("b", record two { provenance_refs = "r1" ∷ "r2" ∷ []; revision = pos 1 })
      ∷ ("c", three)
      ∷ [],
  ok (record two { provenance_refs = "r1" ∷ "r2" ∷ []; revision = pos 1 }),
)
unfolding apply_group checked_canonical check_redundants check_redundant get_memory row_to_memory
    make_memory check_memory normalize collapse write_merged merged update_memory archive_all
    archive_current archive_memory strip any lookup put ◌+ℤ◌
applied = refl

there : lookup "b" memory ≡ some two
unfolding lookup
there = refl

plan-IsPlanned_example : All (IsPlanned same_text (one ∷ two ∷ three ∷ [])) (tabs ∷ [])
plan-IsPlanned_example = plan-IsPlanned same_text (one ∷ two ∷ three ∷ []) planned

apply_group-IsPreserved_example :
    (new : MemoryRecord) × (lookup "b" (apply_group same_text "t9" tabs memory).0 ≡ some new)
    × IsPreserved tabs "b" two new
apply_group-IsPreserved_example = apply_group-IsPreserved same_text "t9" tabs memory "b" two there

apply_group-IsCompacted_example : IsCompacted tabs (apply_group same_text "t9" tabs memory).0
apply_group-IsCompacted_example =
    apply_group-IsCompacted same_text "t9" tabs memory
      (ap (λ (r : MemoryTable × Result CompactionError MemoryRecord). r.1) applied)
