-- ===== src/Roadmap/Children/Tests.antt =====
-- Tests of src/pasi/core/child_tasks.py at a roadmap of one task.
use pasi_engineering_workspa.Prelude.{
  ℤ, pos, ltb_ℤ, ◌+ℤ◌, ◌≡◌, refl, false, String, ok, err, Option, none, some, List, [], ◌∷◌, All,
  any, length,
}
use pasi_engineering_workspa.Text.{strip, elem, subset, has_duplicates}
use pasi_engineering_workspa.Json.{Value, obj, arr, str, field, end, item, last, get}
use pasi_engineering_workspa.Roadmap.Model.{
  PhaseStatus, TaskStatus, RoadmapTask, check_task, nonempty, check_source,
}
use pasi_engineering_workspa.Roadmap.Graph.{assert_acyclic}
use pasi_engineering_workspa.Roadmap.Check.{
  Roadmap, Digest, check_phase_refs, check_task_refs, check_acyclic, checked_version, build,
}
use pasi_engineering_workspa.Roadmap.Ops.{find_task, check_children, add_child_tasks}
use pasi_engineering_workspa.Roadmap.Ops.Lifecycle.{IsHonest}
use pasi_engineering_workspa.Roadmap.Ops.Grow.{IsGrowth}
use pasi_engineering_workspa.Roadmap.Children.{
  ChildError, starts_with, count_items, required_text, stripped_texts, depends_texts,
  requirement_texts, parse_candidate, child_task, next_child, new_children, check_scope,
  children_array, generate,
}
use pasi_engineering_workspa.Roadmap.Children.Laws.{IsGenerated, generate_lem}

abbrev task : String → String → String → TaskStatus → RoadmapTask
task id title parent status = record {
  id = id;
  title = title;
  phase_id = "p";
  depends_on = [];
  acceptance_requirements = "tests" ∷ [];
  evidence_requirements = "log" ∷ [];
  parent_task_id = parent;
  source_issue_number = none;
  source_url = "";
  source_title = "";
  status = status;
  revision = pos 0;
}

abbrev parent : RoadmapTask
parent = task "a" "work" "" TaskStatus.active

abbrev part : RoadmapTask
part = task "a.1" "part" "a" TaskStatus.planned

abbrev roadmap : List RoadmapTask → ℤ → Roadmap
roadmap tasks revision = record {
  contents = record {
    roadmap_id = "r";
    version = pos 4;
    revision = revision;
    phases =
        record {
          id = "p";
          title = "phase";
          depends_on = [];
          status = PhaseStatus.active;
          revision = pos 1;
        }
        ∷ [];
    tasks = tasks;
  };
  canonical_sha256 = "r";
}

abbrev before : Roadmap
before = roadmap (parent ∷ []) (pos 7)

abbrev digest : Digest
digest c = c.roadmap_id

abbrev text_of : Value → String
text_of (str s) = s
text_of _ = "value"

abbrev answer : String → Option Value
answer id = some (
    obj (
      field "children"
        (arr (item (obj (field "id" (str id) (field "title" (str " part ") end))) last)) end))

generates : generate text_of digest (pos 5) before "a" (answer "a.1") ≡ ok (part ∷ [])
unfolding generate children_array count_items new_children next_child parse_candidate required_text
    depends_texts requirement_texts stripped_texts child_task starts_with check_scope get strip elem
    subset any find_task check_task nonempty check_source add_child_tasks check_children build
    check_phase_refs check_task_refs check_acyclic assert_acyclic checked_version has_duplicates
    ◌+ℤ◌
generates = refl

outside :
    generate text_of digest (pos 5) before "a" (answer "b.1") ≡ err ChildError.outside_namespace
unfolding generate children_array count_items new_children next_child parse_candidate required_text
    depends_texts requirement_texts stripped_texts child_task starts_with get strip elem any
    find_task
outside = refl

generate_lem_example :
    (found : RoadmapTask) × (after : Roadmap) × (find_task "a" before.tasks ≡ ok found)
    × (add_child_tasks digest before found.id (part ∷ []) ≡ ok after)
    × (ltb_ℤ (pos 5) (pos (length (part ∷ []))) ≡ false)
    × All (IsGenerated found) (part ∷ [])
    × IsGrowth before (part ∷ []) after
    × (IsHonest before.tasks → IsHonest after.tasks)
generate_lem_example = generate_lem text_of digest (pos 5) before "a" (answer "a.1") generates
