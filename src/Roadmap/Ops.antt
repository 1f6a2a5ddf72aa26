-- ===== src/Roadmap/Ops.antt =====
-- The methods of `Roadmap`: queries, lifecycle transitions and growth. Each mutation builds a new
-- roadmap, whose constructor checks it as a whole.
pub mod Ready
pub mod Step
pub mod Lifecycle
pub mod Honest
pub mod Grow
pub mod History
use pasi_engineering_workspa.Prelude.{
  ℕ, ℤ, pos, ◌+ℤ◌, eqb_ℤ, ◌≡◌, Bool, true, false, not, ◌||◌, ◌&&◌, String, str_eq, Result, ok, err,
  raise_if, ◌>>=◌, ◌>>◌, Option, none, some, List, [], ◌∷◌, ◌++◌, map, if◌then◌else◌, all, any,
  keep, is_empty,
}
use pasi_engineering_workspa.Text.{is_blank, elem, subset, has_duplicates}
use pasi_engineering_workspa.Text.Order.{leb_text}
use pasi_engineering_workspa.Sort.{sort}
use pasi_engineering_workspa.Roadmap.Model.{
  PhaseStatus, TaskStatus, RoadmapTask, RoadmapPhase, Fault, RoadmapError, structure, lifecycle,
  stale_revision, key_error, phase_edge, task_edge, check_task, check_phase, task_eq,
}
use pasi_engineering_workspa.Roadmap.Check.{
  Contents, Roadmap, Digest, phase_ids, task_ids, check_acyclic, task_graph, check_task_refs, build,
}

abbrev pub is_planned : TaskStatus → Bool
is_planned TaskStatus.planned = true
is_planned _ = false

abbrev pub is_active : TaskStatus → Bool
is_active TaskStatus.active = true
is_active _ = false

abbrev pub is_blocked : TaskStatus → Bool
is_blocked TaskStatus.blocked = true
is_blocked _ = false

abbrev pub is_completed : TaskStatus → Bool
is_completed TaskStatus.completed = true
is_completed _ = false

abbrev pub phase_active : PhaseStatus → Bool
phase_active PhaseStatus.active = true
phase_active _ = false

abbrev pub phase_completed : PhaseStatus → Bool
phase_completed PhaseStatus.completed = true
phase_completed _ = false

-- `phase` and `task`: the first with the id, or a `KeyError`.
unfoldable pub find_phase : String → List RoadmapPhase → Result RoadmapError RoadmapPhase
find_phase id [] = err key_error
find_phase id (p ∷ phases) = if str_eq p.id id then ok p else find_phase id phases

unfoldable pub find_task : String → List RoadmapTask → Result RoadmapError RoadmapTask
find_task id [] = err key_error
find_task id (t ∷ tasks) = if str_eq t.id id then ok t else find_task id tasks

-- The sets `completed` and `active_phases` of the queries.
unfoldable pub completed_ids : List RoadmapTask → List String
completed_ids tasks = task_ids (keep (λ t. is_completed t.status) tasks)

unfoldable pub active_phase_ids : List RoadmapPhase → List String
active_phase_ids phases = phase_ids (keep (λ p. phase_active p.status) phases)

-- The phase is active and every dependency is completed.
unfoldable pub unlocked : Roadmap → RoadmapTask → Bool
unfolding completed_ids active_phase_ids
unlocked r t =
    elem t.phase_id (active_phase_ids r.phases)
    && all (λ d. elem d (completed_ids r.tasks)) t.depends_on

abbrev pub task_before : RoadmapTask → RoadmapTask → Bool
task_before a b = leb_text a.id b.id

unfoldable pub ready_tasks : Roadmap → List RoadmapTask
ready_tasks r = sort task_before (keep (λ t. is_planned t.status && unlocked r t) r.tasks)

unfoldable pub blocked_tasks : Roadmap → List RoadmapTask
blocked_tasks r =
    sort task_before
      (keep (λ t. (is_planned t.status || is_blocked t.status) && not (unlocked r t)) r.tasks)

unfoldable pub children_of : String → Roadmap → List RoadmapTask
children_of parent r = sort task_before (keep (λ t. str_eq t.parent_task_id parent) r.tasks)

-- `x in xs`, by equality of all fields
unfoldable pub elem_task : RoadmapTask → List RoadmapTask → Bool
elem_task t ts = any (task_eq t) ts

unfoldable pub replace_task : String → RoadmapTask → List RoadmapTask → List RoadmapTask
replace_task id new tasks = map (λ t. if str_eq t.id id then new else t) tasks

unfoldable pub replace_phase : String → RoadmapPhase → List RoadmapPhase → List RoadmapPhase
replace_phase id new phases = map (λ p. if str_eq p.id id then new else p) phases

abbrev pub moved_task : RoadmapTask → TaskStatus → RoadmapTask
moved_task t status = record t { status = status; revision = t.revision +ℤ pos 1 }

abbrev pub moved_phase : RoadmapPhase → PhaseStatus → RoadmapPhase
moved_phase p status = record p { status = status; revision = p.revision +ℤ pos 1 }

-- `for dependency in phase.depends_on: …`
unfoldable pub check_phases_done : Roadmap → List String → Result RoadmapError (Unit {0})
unfolding find_phase
check_phases_done r [] = ok tt
check_phases_done r (d ∷ ds) = do
  p ← find_phase d r.phases
  raise_if (not (phase_completed p.status)) lifecycle
  check_phases_done r ds

unfoldable pub check_children :
    RoadmapTask → String → List RoadmapTask → Result RoadmapError (Unit {0})
check_children parent id [] = ok tt
check_children parent id (c ∷ children) = do
  raise_if (not (str_eq c.parent_task_id id)) (structure Fault.other_parent)
  raise_if (not (str_eq c.phase_id parent.phase_id)) (structure Fault.other_phase)
  raise_if (not (subset parent.acceptance_requirements c.acceptance_requirements))
      (structure Fault.weaker_acceptance)
  raise_if (not (subset parent.evidence_requirements c.evidence_requirements))
      (structure Fault.weaker_evidence)
  check_children parent id children

module _ (digest : Digest) (r : Roadmap) where
  unfoldable pub transition_phase : String → PhaseStatus → ℤ → Result RoadmapError Roadmap
  unfolding find_phase check_phases_done replace_phase
  transition_phase id status expected = do
    phase ← find_phase id r.phases
    raise_if (not (eqb_ℤ phase.revision expected)) stale_revision
    raise_if (not (phase_edge phase.status status)) lifecycle
    check_phases_done r (if phase_active status then phase.depends_on else [])
    check_phase (moved_phase phase status)
    build digest
        (record {
          roadmap_id = r.roadmap_id;
          version = r.version;
          revision = r.revision +ℤ pos 1;
          phases = replace_phase id (moved_phase phase status) r.phases;
          tasks = r.tasks;
        })
        ""

  unfoldable pub transition_task :
      String → TaskStatus → ℤ → List String → Result RoadmapError Roadmap
  unfolding find_task elem_task ready_tasks replace_task
  transition_task id status expected evidence_refs = do
    task ← find_task id r.tasks
    raise_if (not (eqb_ℤ task.revision expected)) stale_revision
    raise_if (not (task_edge task.status status)) lifecycle
    raise_if (is_active status && not (elem_task task (ready_tasks r))) lifecycle
    raise_if (is_completed status && not (elem_task task (keep (λ t. is_active t.status) r.tasks)))
        lifecycle
    raise_if (is_completed status && is_empty evidence_refs) lifecycle
    check_task (moved_task task status)
    build digest
        (record {
          roadmap_id = r.roadmap_id;
          version = r.version;
          revision = r.revision +ℤ pos 1;
          phases = r.phases;
          tasks = replace_task id (moved_task task status) r.tasks;
        })
        ""

  -- The roadmap with more tasks at the end, at the current schema version.
  abbrev grown : List RoadmapTask → Contents
  grown tasks = record {
    roadmap_id = r.roadmap_id;
    version = pos 4;
    revision = r.revision +ℤ pos 1;
    phases = r.phases;
    tasks = r.tasks ++ tasks;
  }

  -- `len(new_ids) != len(tasks) or existing_ids & new_ids`
  abbrev ids_not_new : List RoadmapTask → Bool
  ids_not_new tasks =
      has_duplicates (task_ids tasks) || any (λ i. elem i (task_ids r.tasks)) (task_ids tasks)

  unfoldable pub add_child_tasks : String → List RoadmapTask → Result RoadmapError Roadmap
  unfolding find_task check_children
  add_child_tasks id children = do
    parent ← find_task id r.tasks
    raise_if (is_empty children) (structure Fault.no_tasks)
    raise_if (ids_not_new children) (structure Fault.ids_not_new)
    check_children parent id children
    build digest (grown children) ""

  -- `add_tasks`; the loop over the new tasks first asks for the phase, then for the parent.
  unfoldable pub check_new_refs : List String → List RoadmapTask → Result RoadmapError (Unit {0})
  check_new_refs ids [] = ok tt
  check_new_refs ids (t ∷ tasks) = do
    raise_if (not (elem t.phase_id (phase_ids r.phases))) (structure Fault.missing_phase)
    raise_if (not (is_blank t.parent_task_id) && not (elem t.parent_task_id ids))
        (structure Fault.missing_parent)
    raise_if (not (subset t.depends_on ids)) (structure Fault.missing_task)
    check_new_refs ids tasks

  unfoldable pub add_tasks : List RoadmapTask → Result RoadmapError Roadmap
  unfolding check_new_refs
  add_tasks tasks = do
    raise_if (is_empty tasks) (structure Fault.no_tasks)
    raise_if (ids_not_new tasks) (structure Fault.ids_not_new)
    check_new_refs (task_ids r.tasks ++ task_ids tasks) tasks
    check_acyclic (task_graph (r.tasks ++ tasks))
    build digest (grown tasks) ""

  unfoldable pub with_version : Option ℤ → Result RoadmapError Roadmap
  with_version revision =
      build digest
        (record r.contents { revision = elim revision [ none ↦ r.revision | some n ↦ n ] }) ""
