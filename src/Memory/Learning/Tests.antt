-- ===== src/Memory/Learning/Tests.antt =====
-- Tests of src/pasi/core/cross_run_learning.py at a small input.
use pasi_engineering_workspa.Prelude.{ℤ, pos, ◌≡◌, refl, String, ok, err, List, [], ◌∷◌, ◌++◌, any}
use pasi_engineering_workspa.Text.{strip, elem}
use pasi_engineering_workspa.Dict.{lookup, put}
use pasi_engineering_workspa.Sort.{sort}
use pasi_engineering_workspa.Control.{take_text}
use pasi_engineering_workspa.Memory.{
  MemoryRecord, MemoryStatus, MemoryTable, check_memory, make_memory, create_memory, get_memory,
  row_to_memory,
}
use pasi_engineering_workspa.Memory.Compaction.{set_of, all_refs}
use pasi_engineering_workspa.Memory.Learning.{
  LearningProposal, LearningError, check_proposal, get_all, check_source, check_sources, least,
  join_by, learning_id, promoted, create_or_find, promote,
}
use pasi_engineering_workspa.Memory.Learning.Laws.{IsPromoted, promote-IsPromoted}

abbrev source : String → String → ℤ → MemoryRecord
source id operation confidence = record {
  memory_id = id;
  scope = "run";
  kind = "fact";
  content = "use tabs";
  provenance_refs = id ∷ "r" ∷ [];
  source_operation_id = operation;
  confidence = confidence;
  status = MemoryStatus.active;
  revision = pos 0;
  created_at = "t1";
  updated_at = "t1";
}

abbrev memory : MemoryTable
memory = ("a", source "a" "op2" (pos 3)) ∷ ("b", source "b" "op1" (pos 2)) ∷ []

abbrev proposal : LearningProposal
proposal = record {
  source_memory_ids = "a" ∷ "b" ∷ [];
  target_scope = "repo";
  reusable_kind = "rule";
  content = "use tabs";
  minimum_confidence = pos 2;
}

abbrev digest : String → String
digest text = text

abbrev learned : MemoryRecord
learned = record {
  memory_id = "learn-repo|rule|use tabs|a|b";
  scope = "repo";
  kind = "rule";
  content = "use tabs";
  provenance_refs = "a" ∷ "b" ∷ "r" ∷ [];
  source_operation_id = "op1,op2";
  confidence = pos 2;
  status = MemoryStatus.active;
  revision = pos 0;
  created_at = "t9";
  updated_at = "t9";
}

learned_once :
    promote digest "t9" proposal memory ≡ ok (memory ++ (learned.memory_id, learned) ∷ [], learned)
unfolding promote check_proposal get_all get_memory row_to_memory make_memory check_memory
    check_sources check_source promoted learning_id join_by take_text least create_or_find
    create_memory set_of all_refs strip elem any sort lookup put
learned_once = refl

too_weak :
    promote digest "t9" (record proposal { minimum_confidence = pos 3 }) memory
    ≡ err LearningError.below_threshold
unfolding promote check_proposal get_all get_memory row_to_memory make_memory check_memory
    check_sources check_source strip any lookup
too_weak = refl

promote-IsPromoted_example :
    (sources : List MemoryRecord) × (get_all "t9" memory ("a" ∷ "b" ∷ []) ≡ ok sources)
    × IsPromoted proposal sources memory (memory ++ (learned.memory_id, learned) ∷ []) learned
promote-IsPromoted_example = promote-IsPromoted digest "t9" proposal memory learned_once
