-- ===== src/Roadmap/Model.antt =====
-- The records of roadmap.py, the checks of the constructors of a phase and of a task, and equality
-- of tasks.
use Prim.Native.String.{count}
use mathlib.Core.Bool.{decide}
use pasi_engineering_workspa.Prelude.{
  ℕ, ℤ, pos, ltb_ℤ, leb_ℤ, ◌≡◌, Bool, true, false, not, ◌||◌, ◌&&◌, String, str_eq, Result, ok,
  raise_if, ◌>>◌, ltb, Option, none, some, List, is_empty, eq_iff, Bool-cases, inl, inr, ℕ_discrete,
}
use pasi_engineering_workspa.Text.{strip, is_blank}

pub data PhaseStatus : Type 0 where
  planned active paused completed archived : PhaseStatus

pub data TaskStatus : Type 0 where
  planned active blocked completed archived : TaskStatus

pub record RoadmapTask : Type 0 where
  pub id : String
  pub title : String
  pub phase_id : String
  pub depends_on : List String
  pub acceptance_requirements : List String
  pub evidence_requirements : List String
  pub parent_task_id : String
  pub source_issue_number : Option ℤ
  pub source_url : String
  pub source_title : String
  pub status : TaskStatus
  pub revision : ℤ

pub record RoadmapPhase : Type 0 where
  pub id : String
  pub title : String
  pub depends_on : List String
  pub status : PhaseStatus
  pub revision : ℤ

-- What a `RoadmapError` is about.
pub data Fault : Type 0 where
  empty_text long_text negative_revision : Fault
  no_acceptance no_evidence own_parent : Fault
  source_number source_metadata source_without_number source_title_missing : Fault
  schema_version duplicate_phase duplicate_task : Fault
  missing_phase missing_task missing_parent cycle digest_mismatch : Fault
  no_tasks ids_not_new other_parent other_phase weaker_acceptance weaker_evidence : Fault

-- The exceptions of roadmap.py, and the `KeyError` of a lookup.
pub data RoadmapError : Type 0 where
  structure : Fault → RoadmapError
  lifecycle stale_revision key_error : RoadmapError

-- _PHASE_TRANSITIONS
unfoldable pub phase_edge : PhaseStatus → PhaseStatus → Bool
phase_edge PhaseStatus.planned PhaseStatus.active = true
phase_edge PhaseStatus.planned PhaseStatus.archived = true
phase_edge PhaseStatus.active PhaseStatus.paused = true
phase_edge PhaseStatus.active PhaseStatus.completed = true
phase_edge PhaseStatus.paused PhaseStatus.active = true
phase_edge PhaseStatus.paused PhaseStatus.archived = true
phase_edge PhaseStatus.completed PhaseStatus.archived = true
phase_edge _ _ = false

-- _TASK_TRANSITIONS
unfoldable pub task_edge : TaskStatus → TaskStatus → Bool
task_edge TaskStatus.planned TaskStatus.active = true
task_edge TaskStatus.planned TaskStatus.blocked = true
task_edge TaskStatus.planned TaskStatus.archived = true
task_edge TaskStatus.active TaskStatus.completed = true
task_edge TaskStatus.active TaskStatus.blocked = true
task_edge TaskStatus.active TaskStatus.archived = true
task_edge TaskStatus.blocked TaskStatus.planned = true
task_edge TaskStatus.blocked TaskStatus.archived = true
task_edge TaskStatus.completed TaskStatus.archived = true
task_edge _ _ = false

-- `_nonempty`
unfoldable pub nonempty : ℕ → String → Result RoadmapError String
nonempty limit value = do
  raise_if (is_blank (strip value)) (structure Fault.empty_text)
  raise_if (ltb limit (count (strip value))) (structure Fault.long_text)
  ok (strip value)

-- The source of a task: a positive issue number with both texts, or none of the three.
unfoldable pub check_source : RoadmapTask → Result RoadmapError (Unit {0})
check_source t = elim t.source_issue_number [
  | some n ↦ do
    raise_if (leb_ℤ n (pos 0)) (structure Fault.source_number)
    raise_if (is_blank (strip t.source_url) || is_blank (strip t.source_title))
        (structure Fault.source_metadata)
  | none ↦
      raise_if (not (is_blank (strip t.source_url)) || not (is_blank (strip t.source_title)))
        (structure Fault.source_without_number)
]

-- `RoadmapTask.__post_init__`; the second, equal test of the source can no longer fail.
unfoldable pub check_task : RoadmapTask → Result RoadmapError (Unit {0})
unfolding nonempty check_source
check_task t = do
  nonempty 256 t.id
  nonempty 512 t.title
  nonempty 256 t.phase_id
  raise_if (ltb_ℤ t.revision (pos 0)) (structure Fault.negative_revision)
  raise_if (is_empty t.acceptance_requirements) (structure Fault.no_acceptance)
  raise_if (is_empty t.evidence_requirements) (structure Fault.no_evidence)
  raise_if (not (is_blank t.parent_task_id) && str_eq t.parent_task_id t.id)
      (structure Fault.own_parent)
  check_source t
  raise_if (not (is_blank t.source_url) && is_blank t.source_title)
      (structure Fault.source_title_missing)

-- `RoadmapPhase.__post_init__`
unfoldable pub check_phase : RoadmapPhase → Result RoadmapError (Unit {0})
unfolding nonempty
check_phase p = do
  nonempty 256 p.id
  nonempty 512 p.title
  raise_if (ltb_ℤ p.revision (pos 0)) (structure Fault.negative_revision)

unfoldable pub String-discrete : Discrete String
unfolding Bool-cases
String-discrete s t = elim (Bool-cases (str_eq s t)) [
  | inl e ↦ yes ((eq_iff s t).0 e)
  | inr e ↦ no (λ p. unequal p e)
]
  where
    unequal : s ≡ t → str_eq s t ≡ false → ⊥
    unequal p e = cc ((eq_iff s t).1 p)

unfoldable pub RoadmapTask-discrete : Discrete RoadmapTask
unfolding String-discrete ℕ_discrete
RoadmapTask-discrete = hlevel (String-discrete, ℕ_discrete)

-- Equality of two tasks as dataclasses: of all their fields.
unfoldable pub task_eq : RoadmapTask → RoadmapTask → Bool
unfolding RoadmapTask-discrete decide
task_eq s t = decide (RoadmapTask-discrete s t)
