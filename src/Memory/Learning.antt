-- ===== src/Memory/Learning.antt =====
-- `CrossRunLearning` of src/pasi/core/cross_run_learning.py. SHA-256 is an argument.
pub mod Laws
mod Tests
use Prim.Native.String.{◌++◌ as text_append}
use pasi_engineering_workspa.Prelude.{
  ℤ, pos, ltb_ℤ, Bool, true, false, not, ◌&&◌, ◌||◌, String, str_eq, Result, ok, err, raise_if,
  map_err, ◌>>=◌, ◌>>◌, some, none, List, [], ◌∷◌, map, is_empty, if◌then◌else◌,
}
use pasi_engineering_workspa.Text.{strip, is_blank}
use pasi_engineering_workspa.Text.Order.{leb_text}
use pasi_engineering_workspa.Dict.{lookup}
use pasi_engineering_workspa.Sort.{sort}
use pasi_engineering_workspa.Control.{take_text}
use pasi_engineering_workspa.Memory.{
  MemoryRecord, MemoryStatus, MemoryError, MemoryTable, is_active_memory, one_float, make_memory,
  get_memory, create_memory,
}
use pasi_engineering_workspa.Memory.Compaction.{set_of, all_refs}

pub record LearningProposal : Type 0 where
  pub source_memory_ids : List String
  pub target_scope : String
  pub reusable_kind : String
  pub content : String
  pub minimum_confidence : ℤ

-- The messages of `LearningPromotionError`, and the other errors of the memory
pub data LearningError : Type 0 where
  no_sources no_target no_promoted_content bad_minimum : LearningError
  not_active without_provenance without_operation below_threshold : LearningError
  id_collision : LearningError
  store_error : MemoryError → LearningError

unfoldable pub check_proposal : LearningProposal → Result LearningError (Unit {0})
check_proposal p = do
  raise_if (is_empty p.source_memory_ids) no_sources
  raise_if (is_blank (strip p.target_scope)) no_target
  raise_if (is_blank (strip p.content)) no_promoted_content
  raise_if (ltb_ℤ p.minimum_confidence (pos 0) || ltb_ℤ one_float p.minimum_confidence) bad_minimum

unfoldable pub get_all : String → MemoryTable → List String → Result MemoryError (List MemoryRecord)
unfolding get_memory
get_all now table [] = ok []
get_all now table (id ∷ ids) = do
  m ← get_memory now id table
  rest ← get_all now table ids
  ok (m ∷ rest)

unfoldable pub check_source : ℤ → MemoryRecord → Result LearningError (Unit {0})
check_source minimum m = do
  raise_if (not (is_active_memory m.status)) not_active
  raise_if (is_empty m.provenance_refs) without_provenance
  raise_if (is_blank m.source_operation_id) without_operation
  raise_if (ltb_ℤ m.confidence minimum) below_threshold

-- The loop over the sources
unfoldable pub check_sources : ℤ → List MemoryRecord → Result LearningError (Unit {0})
unfolding check_source
check_sources minimum [] = ok tt
check_sources minimum (m ∷ sources) = check_source minimum m >> check_sources minimum sources

-- `min` of the confidences, of a first one and the others
unfoldable pub least : ℤ → List MemoryRecord → ℤ
least c [] = c
least c (m ∷ sources) = least (if ltb_ℤ m.confidence c then m.confidence else c) sources

-- `separator.join(texts)`
unfoldable pub join_by : String → List String → String
join_by separator [] = ""
join_by separator (x ∷ []) = x
join_by separator (x ∷ y ∷ xs) = text_append x (text_append separator (join_by separator (y ∷ xs)))

-- `==` of two tuples of texts
unfoldable pub eq_texts : List String → List String → Bool
eq_texts [] [] = true
eq_texts (x ∷ xs) (y ∷ ys) = str_eq x y && eq_texts xs ys
eq_texts _ _ = false

-- What an existing record of the name must be
unfoldable pub same_learning : MemoryRecord → MemoryRecord → Bool
unfolding eq_texts
same_learning existing new =
    str_eq existing.scope new.scope
    && str_eq existing.content new.content
    && eq_texts existing.provenance_refs new.provenance_refs

-- `create`, and where the name is taken, the record that has it
unfoldable pub create_or_find :
    String → MemoryRecord → MemoryTable → Result LearningError (MemoryTable × MemoryRecord)
unfolding create_memory get_memory same_learning
create_or_find now new table = elim (create_memory new table) [
  | ok created ↦ ok created
  | err raised ↦ do
    existing ← map_err store_error (get_memory now new.memory_id table)
    raise_if (not (same_learning existing new)) id_collision
    ok (table, existing)
]

-- The confidence of the sources, which are there when it is asked for
abbrev pub least_of : List MemoryRecord → ℤ
least_of [] = pos 0
least_of (m ∷ sources) = least m.confidence sources

module _ (sha256 : String → String) where
  unfoldable pub learning_id : LearningProposal → String
  unfolding join_by take_text
  learning_id p = text_append "learn-" (
      take_text 32 (
        sha256 (
          join_by "|" (
            strip p.target_scope ∷ strip p.reusable_kind ∷ strip p.content ∷ p.source_memory_ids))))

  -- The arguments of the constructor
  unfoldable pub promoted : LearningProposal → List MemoryRecord → ℤ → MemoryRecord
  unfolding learning_id set_of all_refs join_by
  promoted p sources confidence = record {
    memory_id = learning_id p;
    scope = p.target_scope;
    kind = p.reusable_kind;
    content = p.content;
    provenance_refs = sort leb_text (set_of (all_refs sources));
    source_operation_id =
        join_by ","
          (sort leb_text (set_of (map (λ (m : MemoryRecord). m.source_operation_id) sources)));
    confidence = confidence;
    status = MemoryStatus.active;
    revision = pos 0;
    created_at = "";
    updated_at = "";
  }

  -- `promote`
  unfoldable pub promote :
      String → LearningProposal → MemoryTable → Result LearningError (MemoryTable × MemoryRecord)
  unfolding check_proposal get_all check_sources promoted make_memory create_or_find
  promote now p table = do
    check_proposal p
    sources ← map_err store_error (get_all now table p.source_memory_ids)
    check_sources p.minimum_confidence sources
    new ← map_err store_error (make_memory now (promoted p sources (least_of sources)))
    create_or_find now new table
