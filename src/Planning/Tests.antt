-- ===== src/Planning/Tests.antt =====
-- Tests of src/pasi/core/dependency_graph.py, src/pasi/core/task_selection.py and
-- src/pasi/core/scheduling.py at a small roadmap.
use pasi_engineering_workspa.Prelude.{
  ◌-ℤ◌, ◌≤ℤ◌, ◌||◌, arith, pos, ◌≡◌, refl, true, String, none, some, List, [], ◌∷◌, all, keep,
}
use pasi_engineering_workspa.Text.{elem}
use pasi_engineering_workspa.Text.Elem.{ne_of_test}
use pasi_engineering_workspa.Dict.{Dict, lookup, put}
use pasi_engineering_workspa.Sort.{sort}
use pasi_engineering_workspa.Roadmap.Model.{PhaseStatus, TaskStatus, RoadmapTask}
use pasi_engineering_workspa.Roadmap.Check.{Roadmap, task_ids}
use pasi_engineering_workspa.Roadmap.Ops.{ready_tasks, unlocked, completed_ids, active_phase_ids}
use pasi_engineering_workspa.Planning.Dependency.{GraphContents, build_graph}
use pasi_engineering_workspa.Planning.Dependency.Laws.{eligible-ready_tasks}
use pasi_engineering_workspa.Planning.Dependency.{dedup}
use pasi_engineering_workspa.Planning.Schedule.{
  Resources, ScheduleDecision, candidates_of, pack, schedule,
}
use pasi_engineering_workspa.Planning.Schedule.Laws.{total, schedule-bounded}
use pasi_engineering_workspa.Planning.Schedule.Cover.{keys, names, schedule-covered}
use pasi_engineering_workspa.Planning.Selection.{
  EvidenceStatus, EvidenceSnapshot, Score, score_of, rank, rank_before, exclude, exclude_all,
  select,
}
use pasi_engineering_workspa.Planning.Selection.Laws.{Supports, select-Supports}
use pasi_engineering_workspa.Planning.Selection.Complete.{Supports-select}

abbrev task : String → List String → TaskStatus → RoadmapTask
task id deps status = record {
  id = id;
  title = "work";
  phase_id = "p";
  depends_on = deps;
  acceptance_requirements = "tests" ∷ [];
  evidence_requirements = "log" ∷ [];
  parent_task_id = "";
  source_issue_number = none;
  source_url = "";
  source_title = "";
  status = status;
  revision = pos 0;
}

abbrev roadmap : Roadmap
roadmap = record {
  contents = record {
    roadmap_id = "r";
    version = pos 4;
    revision = pos 7;
    phases =
        record {
          id = "p";
          title = "phase";
          depends_on = [];
          status = PhaseStatus.active;
          revision = pos 0;
        }
        ∷ [];
    tasks =
        task "c" ("a" ∷ []) TaskStatus.planned
        ∷ task "a" [] TaskStatus.completed
        ∷ task "b" [] TaskStatus.planned
        ∷ [];
  };
  canonical_sha256 = "";
}

abbrev proof : EvidenceSnapshot
proof = record {
  task_id = "a";
  roadmap_revision = pos 7;
  status = EvidenceStatus.verified;
  refs = "log" ∷ [];
  recorded_at = "t0";
}

abbrev evidence : Dict EvidenceSnapshot
evidence = ("a", proof) ∷ []

abbrev scores : Dict Score
scores = ("c", some (pos 5)) ∷ []

abbrev digest : GraphContents → String
digest c = c.roadmap_id

eligible-ready_tasks_example :
    (build_graph digest roadmap).eligible_task_ids ≡ task_ids (ready_tasks roadmap)
eligible-ready_tasks_example = eligible-ready_tasks digest roadmap

c_selected : (select roadmap evidence scores).selected_task_id ≡ some "c"
unfolding select ready_tasks unlocked completed_ids active_phase_ids sort keep all elem lookup
    score_of rank exclude exclude_all
c_selected = refl

select-Supports_example :
    (elem "c" (task_ids (ready_tasks roadmap)) ≡ true)
    × Supports roadmap evidence scores "c"
    × (all (rank_before scores "c") (select roadmap evidence scores).eligible_task_ids ≡ true)
select-Supports_example = select-Supports roadmap evidence scores "c" c_selected

b_ready : elem "b" (task_ids (ready_tasks roadmap)) ≡ true
unfolding ready_tasks unlocked completed_ids active_phase_ids sort keep all elem
b_ready = refl

b_supported : Supports roadmap evidence scores "b"
unfolding score_of lookup
b_supported = (
  λ e. absurd (ne_of_test "c" "b" refl e),
  (λ e. absurd (ne_of_test "a" "b" refl e), (λ e. (tt, (pos 0, refl)), tt)),
)

Supports-select_example :
    (elem "b" (select roadmap evidence scores).eligible_task_ids ≡ true)
    × ((best : String) × ((select roadmap evidence scores).selected_task_id ≡ some best))
Supports-select_example = Supports-select roadmap evidence scores "b" b_ready b_supported

abbrev small : Resources
small = record { cpu_millicores = pos 2; memory_mb = pos 5; time_seconds = pos 1 }

abbrev estimates : Dict Resources
estimates = ("b", small) ∷ ("c", record small { cpu_millicores = pos 3 }) ∷ []

abbrev capacity : Resources
capacity = record { cpu_millicores = pos 4; memory_mb = pos 20; time_seconds = pos 20 }

abbrev plan : ScheduleDecision
plan = schedule ◌-ℤ◌ roadmap estimates capacity scores

-- The task with the higher priority is taken, and the other no longer fits.
c_taken : names plan.scheduled ≡ "c" ∷ []
unfolding schedule ready_tasks unlocked completed_ids active_phase_ids sort keep all elem lookup put
    score_of candidates_of pack dedup ◌-ℤ◌
c_taken = refl

schedule-bounded_example :
    (total (λ e. e.cpu_millicores) plan.scheduled ≤ℤ capacity.cpu_millicores)
    × (total (λ e. e.memory_mb) plan.scheduled ≤ℤ capacity.memory_mb)
schedule-bounded_example =
    schedule-bounded ◌-ℤ◌ roadmap estimates capacity scores (omega arith) (omega arith)

schedule-covered_example :
    (elem "b" (keys plan.excluded) || elem "b" (names plan.scheduled))
    ≡ elem "b" (task_ids (ready_tasks roadmap))
schedule-covered_example = schedule-covered ◌-ℤ◌ roadmap estimates capacity scores "b"
