-- ===== src/Planning/Dependency.antt =====
-- `DependencyGraph` of src/pasi/core/dependency_graph.py. The digest of its contents is an argument.
pub mod Laws
use Prim.Native.String.{◌++◌ as text_append}
use pasi_engineering_workspa.Prelude.{
  ℤ, eqb_ℤ, Bool, true, false, not, ◌||◌, ◌&&◌, String, str_eq, Result, ok, err, raise_if, Option,
  none, some, List, [], ◌∷◌, ◌++◌, map, keep, all, is_empty, if◌then◌else◌,
}
use pasi_engineering_workspa.Text.{elem}
use pasi_engineering_workspa.Text.Order.{leb_text}
use pasi_engineering_workspa.Dict.{Dict, lookup, lookup_or, put}
use pasi_engineering_workspa.Sort.{sort}
use pasi_engineering_workspa.Roadmap.Model.{RoadmapTask, RoadmapPhase}
use pasi_engineering_workspa.Roadmap.Check.{Roadmap}
use pasi_engineering_workspa.Roadmap.Ops.{is_planned, task_before, completed_ids, active_phase_ids}

-- The payload of the digest.
pub record GraphContents : Type 0 where
  pub roadmap_id : String
  pub roadmap_revision : ℤ
  pub prerequisites : Dict (List String)
  pub dependents : Dict (List String)
  pub eligible_task_ids : List String
  pub blocked_reasons : Dict String

pub record DependencyGraph : Type 0 where
  pub contents : GraphContents
  pub open contents use *
  pub canonical_sha256 : String

-- `sorted(items())`, on a dictionary
abbrev pub by_key {ℓ} : {V : Type ℓ} → String × V → String × V → Bool
by_key a b = leb_text a.0 b.0

-- `{task.id: tuple(sorted(task.depends_on)) for task in …}`, behind the entries that are there
unfoldable pub prerequisites_of : Dict (List String) → List RoadmapTask → Dict (List String)
prerequisites_of made [] = made
prerequisites_of made (t ∷ tasks) =
    prerequisites_of (put t.id (sort leb_text t.depends_on) made) tasks

-- `{task.id: [] for task in …}`
unfoldable pub no_dependents : Dict (List String) → List RoadmapTask → Dict (List String)
no_dependents made [] = made
no_dependents made (t ∷ tasks) = no_dependents (put t.id [] made) tasks

-- `reverse.setdefault(dependency, []).append(task.id)` for each dependency
unfoldable pub add_dependent : String → List String → Dict (List String) → Dict (List String)
add_dependent id [] reverse = reverse
add_dependent id (d ∷ ds) reverse =
    add_dependent id ds (put d (lookup_or d [] reverse ++ (id ∷ [])) reverse)

unfoldable pub add_dependents : List RoadmapTask → Dict (List String) → Dict (List String)
unfolding add_dependent
add_dependents [] reverse = reverse
add_dependents (t ∷ tasks) reverse = add_dependents tasks (add_dependent t.id t.depends_on reverse)

-- `reverse`, after the loop over the tasks
unfoldable pub reverse_of : List RoadmapTask → Dict (List String)
unfolding no_dependents add_dependents
reverse_of tasks = add_dependents tasks (no_dependents [] tasks)

-- `set(xs)`, as a list without repetition
unfoldable pub dedup : List String → List String
dedup [] = []
dedup (x ∷ xs) = let rest = dedup xs in if elem x xs then rest else x ∷ rest

-- `",".join(texts)`
abbrev pub join : List String → String
join [] = ""
join (x ∷ []) = x
join (x ∷ y ∷ xs) = text_append x (text_append "," (join (y ∷ xs)))

-- `sorted(set(task.depends_on) - completed)`
unfoldable pub missing_of : List String → RoadmapTask → List String
unfolding dedup
missing_of completed t = sort leb_text (dedup (keep (λ d. not (elem d completed)) t.depends_on))

-- Why a planned task is blocked, or `none` where it is eligible.
unfoldable pub blocked_reason : List String → List String → RoadmapTask → Option String
unfolding missing_of
blocked_reason active completed t =
    if not (elem t.phase_id active)
    then some "phase_not_active"
    else if is_empty (missing_of completed t)
    then none
    else some (text_append "waiting_on:" (join (missing_of completed t)))

-- The loop over the tasks, given the test of a planned task: the eligible ids and the reasons.
unfoldable pub scan :
    (RoadmapTask → Option String)
    → List RoadmapTask
    → List String × Dict String
    → List String × Dict String
scan reason_of [] made = made
scan reason_of (t ∷ tasks) (eligible, blocked) = scan reason_of tasks (
    if not (is_planned t.status) then (eligible, blocked) else elim (reason_of t) [
      | some reason ↦ (eligible, put t.id reason blocked)
      | none ↦ (eligible ++ (t.id ∷ []), blocked)
    ])

-- `build`
unfoldable pub build_graph : (GraphContents → String) → Roadmap → DependencyGraph
unfolding prerequisites_of reverse_of scan blocked_reason
build_graph digest r =
    let reason_of = blocked_reason (active_phase_ids r.phases) (completed_ids r.tasks) in
    let found = scan reason_of r.tasks ([], []) in
    let c : GraphContents = record {
      roadmap_id = r.roadmap_id;
      roadmap_revision = r.revision;
      prerequisites = prerequisites_of [] (sort task_before r.tasks);
      dependents =
          map (λ (e : String × List String). (e.0, sort leb_text e.1))
            (sort by_key (reverse_of r.tasks));
      eligible_task_ids = sort leb_text found.0;
      blocked_reasons = sort by_key found.1;
    } in
    record { contents = c; canonical_sha256 = digest c }

-- `assert_fresh`, which raises where this is false
abbrev pub is_fresh : DependencyGraph → Roadmap → Bool
is_fresh g r = str_eq r.roadmap_id g.roadmap_id && eqb_ℤ r.revision g.roadmap_revision
