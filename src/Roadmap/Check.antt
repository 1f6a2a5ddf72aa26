-- ===== src/Roadmap/Check.antt =====
-- `Roadmap.__post_init__`: the references and the dependencies of a roadmap. The digest of the
-- canonical JSON text is an argument.
pub mod Sound
pub mod Build
use pasi_engineering_workspa.Prelude.{
  ℕ, ℤ, pos, ltb_ℤ, eqb_ℤ, ◌≡◌, Bool, true, false, not, ◌||◌, ◌&&◌, String, str_eq, Result, ok, err,
  raise_if, ◌>>=◌, ◌>>◌, Option, none, some, List, [], ◌∷◌, map, if◌then◌else◌,
}
use pasi_engineering_workspa.Text.{is_blank, elem, subset, has_duplicates}
use pasi_engineering_workspa.Roadmap.Model.{
  RoadmapTask, RoadmapPhase, Fault, RoadmapError, structure, key_error, nonempty,
}
use pasi_engineering_workspa.Roadmap.Graph.{
  Graph, SearchError, cycle_at, missing, no_fuel, assert_acyclic,
}

-- What the digest is taken of.
pub record Contents : Type 0 where
  pub roadmap_id : String
  pub version : ℤ
  pub revision : ℤ
  pub phases : List RoadmapPhase
  pub tasks : List RoadmapTask

pub record Roadmap : Type 0 where
  pub contents : Contents
  pub open contents use *
  pub canonical_sha256 : String

abbrev pub Digest : Type 0
Digest = Contents → String

abbrev pub phase_ids : List RoadmapPhase → List String
phase_ids phases = map (λ p. p.id) phases

abbrev pub task_ids : List RoadmapTask → List String
task_ids tasks = map (λ t. t.id) tasks

unfoldable pub check_phase_refs : List String → List RoadmapPhase → Result RoadmapError (Unit {0})
check_phase_refs ids [] = ok tt
check_phase_refs ids (p ∷ phases) = do
  raise_if (not (subset p.depends_on ids)) (structure Fault.missing_phase)
  check_phase_refs ids phases

unfoldable pub check_task_refs :
    List String → List String → List RoadmapTask → Result RoadmapError (Unit {0})
check_task_refs phase_set task_set [] = ok tt
check_task_refs phase_set task_set (t ∷ tasks) = do
  raise_if (not (is_blank t.parent_task_id) && not (elem t.parent_task_id task_set))
      (structure Fault.missing_parent)
  raise_if (not (elem t.phase_id phase_set)) (structure Fault.missing_phase)
  raise_if (not (subset t.depends_on task_set)) (structure Fault.missing_task)
  check_task_refs phase_set task_set tasks

abbrev pub phase_graph : List RoadmapPhase → Graph
phase_graph phases = map (λ p. (p.id, p.depends_on)) phases

abbrev pub task_graph : List RoadmapTask → Graph
task_graph tasks = map (λ t. (t.id, t.depends_on)) tasks

-- The exception that leaves `_assert_acyclic`.
unfoldable pub check_acyclic : Graph → Result RoadmapError (Unit {0})
check_acyclic graph = elim (assert_acyclic graph) [
  | ok _ ↦ ok tt
  | err (cycle_at _) ↦ err (structure Fault.cycle)
  | err (missing _) ↦ err key_error
  | err no_fuel ↦ err key_error
]

-- Versions 2 and 3 are read as 4.
unfoldable pub checked_version : ℤ → Result RoadmapError ℤ
checked_version v =
    if eqb_ℤ v (pos 2) || eqb_ℤ v (pos 3) || eqb_ℤ v (pos 4)
    then ok (pos 4)
    else err (structure Fault.schema_version)

-- `Roadmap(…)`, with the digest that the caller claims; an empty text claims nothing.
unfoldable pub build : Digest → Contents → String → Result RoadmapError Roadmap
unfolding nonempty
build digest given claimed = do
  nonempty 256 given.roadmap_id
  version ← checked_version given.version
  let c : Contents = record given { version = version }
  raise_if (ltb_ℤ c.revision (pos 0)) (structure Fault.negative_revision)
  raise_if (has_duplicates (phase_ids c.phases)) (structure Fault.duplicate_phase)
  raise_if (has_duplicates (task_ids c.tasks)) (structure Fault.duplicate_task)
  check_phase_refs (phase_ids c.phases) c.phases
  check_task_refs (phase_ids c.phases) (task_ids c.tasks) c.tasks
  check_acyclic (phase_graph c.phases)
  check_acyclic (task_graph c.tasks)
  raise_if (not (is_blank claimed) && not (str_eq claimed (digest c)))
      (structure Fault.digest_mismatch)
  ok (record { contents = c; canonical_sha256 = digest c })
