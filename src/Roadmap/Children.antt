-- ===== src/Roadmap/Children.antt =====
-- `BoundedChildTaskGenerator` of src/pasi/core/child_tasks.py. What `json.loads` makes of the answer
-- of the model is an argument, `none` where it raises, and so is `str` of a JSON value.
pub mod Laws
mod Tests
use Prim.Native.String
use Prim.Native.String.{◌++◌ as text_append}
use Prim.Native.Char.{code}
use pasi_engineering_workspa.Prelude.{
  ℕ, ℤ, pos, ltb_ℤ, leb_ℤ, ◌+◌, ◌==◌, Bool, true, false, not, ◌||◌, ◌&&◌, String, Result, ok, err,
  raise_if, map_err, ◌>>=◌, ◌>>◌, Option, none, some, List, [], ◌∷◌, ◌++◌, map, any, is_empty,
  if◌then◌else◌,
}
use pasi_engineering_workspa.Text.{strip, is_blank, elem, subset}
use pasi_engineering_workspa.Json.{Value, Fields, Items, obj, arr, str, item, last, get}
use pasi_engineering_workspa.Roadmap.Model.{TaskStatus, RoadmapTask, RoadmapError, check_task}
use pasi_engineering_workspa.Roadmap.Check.{Roadmap, Digest, task_ids}
use pasi_engineering_workspa.Roadmap.Ops.{find_task, add_child_tasks}

pub record ChildTaskCandidate : Type 0 where
  pub id : String
  pub title : String
  pub depends_on : List String
  pub acceptance_requirements : List String
  pub evidence_requirements : List String

-- The messages of `ChildTaskGenerationError`, and what the roadmap raises outside the `try`.
pub data ChildError : Type 0 where
  bad_limit not_json no_children_array no_children too_many : ChildError
  not_an_object no_id no_title bad_depends bad_acceptance bad_evidence empty_value : ChildError
  collides outside_namespace out_of_scope : ChildError
  refused raised : RoadmapError → ChildError

-- `__init__`
unfoldable pub check_limit : ℤ → Result ChildError (Unit {0})
check_limit max_children =
    raise_if (leb_ℤ max_children (pos 0) || ltb_ℤ (pos 5) max_children) bad_limit

-- `s.startswith(prefix)`
unfoldable pub starts_with : String → String → Bool
starts_with String.[] s = true
starts_with (String.◌∷◌ c prefix) String.[] = false
starts_with (String.◌∷◌ c prefix) (String.◌∷◌ d s) = (code c == code d) && starts_with prefix s

-- `len`
unfoldable pub count_items : Items → ℕ
count_items last = 0
count_items (item v items) = count_items items + 1

-- `not isinstance(value, str) or not value.strip()`
unfoldable pub required_text : ChildError → Option Value → Result ChildError String
required_text why (some (str s)) = if is_blank (strip s) then err why else ok (strip s)
required_text why _ = err why

-- The arguments of `RoadmapTask`, with the defaults of the others
unfoldable pub child_task : RoadmapTask → ChildTaskCandidate → RoadmapTask
child_task parent c = record {
  id = c.id;
  title = c.title;
  phase_id = parent.phase_id;
  depends_on = c.depends_on;
  acceptance_requirements = c.acceptance_requirements;
  evidence_requirements = c.evidence_requirements;
  parent_task_id = parent.id;
  source_issue_number = none;
  source_url = "";
  source_title = "";
  status = TaskStatus.planned;
  revision = pos 0;
}

unfoldable pub check_scope : List String → List RoadmapTask → Result ChildError (Unit {0})
check_scope valid [] = ok tt
check_scope valid (c ∷ children) = do
  raise_if (not (subset c.depends_on valid)) out_of_scope
  check_scope valid children

unfoldable pub children_array : Option Value → Result ChildError Items
children_array none = err not_json
children_array (some (obj payload)) = elim (get "children" payload) [
  | some (arr items) ↦ ok items
  | _ ↦ err no_children_array
]
children_array (some _) = err no_children_array

module _ (text_of : Value → String) where
  -- `tuple(str(item).strip() for item in items)`
  unfoldable pub stripped_texts : Items → List String
  stripped_texts last = []
  stripped_texts (item v items) = strip (text_of v) ∷ stripped_texts items

  unfoldable pub depends_texts : Option Value → Result ChildError (List String)
  unfolding stripped_texts
  depends_texts none = ok []
  depends_texts (some (arr items)) = ok (stripped_texts items)
  depends_texts (some _) = err bad_depends

  -- A list that is not empty, by default the parent's
  unfoldable pub requirement_texts :
      ChildError → List String → Option Value → Result ChildError (List String)
  unfolding stripped_texts
  requirement_texts why default none = if is_empty default then err why else ok (map strip default)
  requirement_texts why default (some (arr last)) = err why
  requirement_texts why default (some (arr (item v items))) = ok (stripped_texts (item v items))
  requirement_texts why default (some _) = err why

  -- `_parse_candidate`
  unfoldable pub parse_candidate : Fields → RoadmapTask → Result ChildError ChildTaskCandidate
  unfolding required_text depends_texts requirement_texts
  parse_candidate raw parent = do
    id ← required_text no_id (get "id" raw)
    title ← required_text no_title (get "title" raw)
    depends ← depends_texts (get "depends_on" raw)
    acceptance ←
        requirement_texts bad_acceptance parent.acceptance_requirements
          (get "acceptance_requirements" raw)
    evidence ←
        requirement_texts bad_evidence parent.evidence_requirements
          (get "evidence_requirements" raw)
    raise_if (any is_blank (depends ++ acceptance ++ evidence)) empty_value
    ok (record {
      id = id;
      title = title;
      depends_on = depends;
      acceptance_requirements = acceptance;
      evidence_requirements = evidence;
    })

  -- One round of the loop over the candidates
  unfoldable pub next_child :
      RoadmapTask → List String → List String → Value → Result ChildError RoadmapTask
  unfolding parse_candidate child_task starts_with
  next_child parent existing generated (obj raw) = do
    c ← parse_candidate raw parent
    raise_if (elem c.id existing || elem c.id generated) collides
    raise_if (not (starts_with (text_append parent.id ".") c.id)) outside_namespace
    map_err raised (check_task (child_task parent c))
    ok (child_task parent c)
  next_child parent existing generated _ = err not_an_object

  unfoldable pub new_children :
      RoadmapTask → List String → List String → Items → Result ChildError (List RoadmapTask)
  unfolding next_child
  new_children parent existing generated last = ok []
  new_children parent existing generated (item raw items) = do
    child ← next_child parent existing generated raw
    children ← new_children parent existing (child.id ∷ generated) items
    ok (child ∷ children)

  -- `generate`
  unfoldable pub generate :
      Digest → ℤ → Roadmap → String → Option Value → Result ChildError (List RoadmapTask)
  unfolding children_array count_items new_children check_scope
  generate digest max_children r parent_task_id answer = do
    parent ← map_err raised (find_task parent_task_id r.tasks)
    candidates ← children_array answer
    raise_if (count_items candidates == 0) no_children
    raise_if (ltb_ℤ max_children (pos (count_items candidates))) too_many
    children ← new_children parent (task_ids r.tasks) [] candidates
    check_scope (task_ids r.tasks ++ task_ids children) children
    map_err refused (add_child_tasks digest r parent.id children)
    ok children
