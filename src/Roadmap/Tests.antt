-- ===== src/Roadmap/Tests.antt =====
-- Tests of src/pasi/core/roadmap.py at a small roadmap.
use mathlib.Core.Bool.{decide}
use pasi_engineering_workspa.Prelude.{
  ℤ, pos, ◌+ℤ◌, ◌≡◌, refl, true, inr, String, ok, none, List, [], ◌∷◌, any, all, keep, Bool-cases,
  ℕ_discrete,
}
use pasi_engineering_workspa.Dict.{lookup}
use pasi_engineering_workspa.Sort.{sort}
use pasi_engineering_workspa.Text.{strip, elem, subset, has_duplicates}
use pasi_engineering_workspa.Roadmap.Model.{
  PhaseStatus, TaskStatus, RoadmapTask, RoadmapPhase, nonempty, check_source, RoadmapTask-discrete,
  String-discrete, check_task, check_phase, phase_edge, task_edge, task_eq,
}
use pasi_engineering_workspa.Roadmap.Graph.{Graph, visit, visit_each, assert_acyclic}
use pasi_engineering_workspa.Roadmap.Check.{
  Contents, Roadmap, Digest, check_phase_refs, check_task_refs, check_acyclic, checked_version,
  build,
}
use pasi_engineering_workspa.Roadmap.Check.Sound.{IsWellFormed}
use pasi_engineering_workspa.Roadmap.Check.Build.{build-IsBuilt, build_accepts}
use pasi_engineering_workspa.Roadmap.Ops.{
  unlocked, ready_tasks, completed_ids, active_phase_ids, elem_task, find_task, find_phase,
  moved_task, moved_phase, replace_task, replace_phase, check_phases_done, check_children,
  transition_task, transition_phase, add_child_tasks,
}
use pasi_engineering_workspa.Roadmap.Ops.Lifecycle.{IsHonest, settled_ids}
use pasi_engineering_workspa.Roadmap.Ops.History.{start, step, move_task, IsSafe, History-IsSafe}

abbrev task : String → String → List String → TaskStatus → RoadmapTask
task id parent deps status = record {
  id = id;
  title = "work";
  phase_id = "p";
  depends_on = deps;
  acceptance_requirements = "tests" ∷ [];
  evidence_requirements = "log" ∷ [];
  parent_task_id = parent;
  source_issue_number = none;
  source_url = "";
  source_title = "";
  status = status;
  revision = pos 3;
}

abbrev phase : String → List String → PhaseStatus → RoadmapPhase
phase id deps status = record {
  id = id;
  title = "phase";
  depends_on = deps;
  status = status;
  revision = pos 1;
}

abbrev first : RoadmapTask
first = task "a" "" [] TaskStatus.completed

abbrev second : RoadmapTask
second = task "b" "" ("a" ∷ []) TaskStatus.planned

abbrev contents : PhaseStatus → List RoadmapTask → ℤ → Contents
contents status tasks revision = record {
  roadmap_id = "r";
  version = pos 4;
  revision = revision;
  phases = phase "o" [] PhaseStatus.completed ∷ phase "p" ("o" ∷ []) status ∷ [];
  tasks = tasks;
}

abbrev digest : Digest
digest c = c.roadmap_id

abbrev roadmap : PhaseStatus → List RoadmapTask → ℤ → Roadmap
roadmap status tasks revision = record {
  contents = contents status tasks revision;
  canonical_sha256 = "r";
}

abbrev before : Roadmap
before = roadmap PhaseStatus.active (first ∷ second ∷ []) (pos 7)

abbrev after : Roadmap
after =
    roadmap PhaseStatus.active (first ∷ moved_task second TaskStatus.active ∷ []) (pos 7 +ℤ pos 1)

built : build digest before.contents "" ≡ ok before
unfolding build check_phase_refs check_task_refs check_acyclic assert_acyclic checked_version strip
    elem has_duplicates subset
built = refl

before-IsWellFormed : IsWellFormed before.contents
before-IsWellFormed = (build-IsBuilt digest before.contents "" built).well_formed

build_accepts_example : build digest before.contents "r" ≡ ok before
unfolding strip
build_accepts_example =
    build_accepts digest before.contents "r" refl refl before-IsWellFormed (inr refl)

activated : transition_task digest before "b" TaskStatus.active (pos 3) [] ≡ ok after
unfolding transition_task task_edge any sort keep unlocked elem all task_eq check_task strip ◌+ℤ◌
    build checked_version has_duplicates check_phase_refs subset check_task_refs decide ℕ_discrete
    lookup Bool-cases check_acyclic assert_acyclic visit visit_each RoadmapTask-discrete
    String-discrete check_source nonempty active_phase_ids completed_ids elem_task find_task
    ready_tasks replace_task
activated = refl

before-IsHonest : IsHonest before.tasks
unfolding settled_ids keep elem
before-IsHonest = (λ s d m. absurd (cc m), (λ s d m. absurd (cc s), tt))

History-IsSafe_example : IsSafe after × (pos 8 ≡ pos 7 +ℤ pos 1)
unfolding ◌+ℤ◌
History-IsSafe_example =
    History-IsSafe {r = before} {s = after}
      (record { well_formed = before-IsWellFormed; honest = before-IsHonest })
      (step start (move_task "b" TaskStatus.active (pos 3) [] activated))

second_listed : elem_task second before.tasks ≡ true
unfolding elem_task any task_eq decide RoadmapTask-discrete String-discrete ℕ_discrete Bool-cases
second_listed = refl

abbrev paused_phase : Roadmap
paused_phase = roadmap PhaseStatus.paused (first ∷ []) (pos 7)

abbrev resumed : Roadmap
resumed = record {
  contents = record {
    roadmap_id = "r";
    version = pos 4;
    revision = pos 7 +ℤ pos 1;
    phases =
        phase "o" [] PhaseStatus.completed
        ∷ moved_phase (phase "p" ("o" ∷ []) PhaseStatus.paused) PhaseStatus.active
        ∷ [];
    tasks = first ∷ [];
  };
  canonical_sha256 = "r";
}

resumes : transition_phase digest paused_phase "p" PhaseStatus.active (pos 1) ≡ ok resumed
unfolding transition_phase phase_edge check_phases_done check_phase find_phase replace_phase strip
    ◌+ℤ◌ build checked_version has_duplicates check_phase_refs subset check_task_refs lookup
    check_acyclic assert_acyclic visit visit_each nonempty elem
resumes = refl

abbrev child : RoadmapTask
child = task "c" "b" [] TaskStatus.planned

abbrev grown : Roadmap
grown = roadmap PhaseStatus.active (first ∷ second ∷ child ∷ []) (pos 7 +ℤ pos 1)

grows : add_child_tasks digest before "b" (child ∷ []) ≡ ok grown
unfolding add_child_tasks find_task check_children any strip ◌+ℤ◌ build checked_version
    has_duplicates check_phase_refs subset check_task_refs lookup check_acyclic assert_acyclic visit
    visit_each nonempty elem
grows = refl

abbrev ring : Graph
ring = ("x", "y" ∷ []) ∷ ("y", "x" ∷ []) ∷ []
