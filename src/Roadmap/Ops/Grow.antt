-- ===== src/Roadmap/Ops/Grow.antt =====
-- Adding tasks: what is required of children, and what stays as it was.
use pasi_engineering_workspa.Prelude.{
  pos, ◌+ℤ◌, ◌≡◌, sym, ap, subst, true, false, not, ◌||◌, String, str_eq, eq_iff, ok, >>=-eq-ok,
  raise_if->>=-eq-ok, List, [], ◌∷◌, ◌++◌, All, All-append, any, keep, is_empty, arith,
}
use pasi_engineering_workspa.Sort.{All-map}
use pasi_engineering_workspa.Text.{elem, subset, has_duplicates}
use pasi_engineering_workspa.Roadmap.Model.{RoadmapTask}
use pasi_engineering_workspa.Roadmap.Check.{
  Contents, Roadmap, Digest, task_ids, check_acyclic, task_graph,
}
use pasi_engineering_workspa.Roadmap.Check.Sound.{IsWellFormed, not-not}
use pasi_engineering_workspa.Roadmap.Check.Build.{build-IsBuilt}
use pasi_engineering_workspa.Roadmap.Ops.{
  find_task, check_children, check_new_refs, add_child_tasks, add_tasks,
}
use pasi_engineering_workspa.Roadmap.Ops.Lifecycle.{is_started, settled_ids, HasSettled, IsHonest}

-- A child of `parent`: it belongs to the parent and its phase, and demands at least what the parent
-- demands.
pub record IsChild (parent : RoadmapTask) (id : String) (c : RoadmapTask) : Type 0 where
  pub parent_task : c.parent_task_id ≡ id
  pub phase : c.phase_id ≡ parent.phase_id
  pub acceptance : subset parent.acceptance_requirements c.acceptance_requirements ≡ true
  pub evidence : subset parent.evidence_requirements c.evidence_requirements ≡ true

check_children_lem :
    (parent : RoadmapTask) (id : String) (children : List RoadmapTask)
    → check_children parent id children ≡ ok tt
    → All (IsChild parent id) children
unfolding check_children
check_children_lem parent id [] h = tt
check_children_lem parent id (c ∷ children) h =
    let (a, h₁) = raise_if->>=-eq-ok (not (str_eq c.parent_task_id id)) _ _ h in
    let (b, h₂) = raise_if->>=-eq-ok (not (str_eq c.phase_id parent.phase_id)) _ _ h₁ in
    let (d, h₃) =
      raise_if->>=-eq-ok (not (subset parent.acceptance_requirements c.acceptance_requirements)) _ _
        h₂ in
    let (e, h₄) =
      raise_if->>=-eq-ok (not (subset parent.evidence_requirements c.evidence_requirements)) _ _
        h₃ in
    (
      record {
        parent_task = (eq_iff c.parent_task_id id).0 (not-not _ a);
        phase = (eq_iff c.phase_id parent.phase_id).0 (not-not _ b);
        acceptance = not-not _ d;
        evidence = not-not _ e;
      },
      check_children_lem parent id children h₄,
    )

-- A roadmap that grew: the old tasks and the phases are unchanged, and the new tasks stand behind.
pub record IsGrowth (r : Roadmap) (new : List RoadmapTask) (after : Roadmap) : Type 0 where
  pub some_new : is_empty new ≡ false
  pub tasks : after.tasks ≡ r.tasks ++ new
  pub phases : after.phases ≡ r.phases
  pub revision : after.revision ≡ r.revision +ℤ pos 1
  pub well_formed : IsWellFormed after.contents

-- Children are accepted only under a task of the roadmap, in its phase, and with all that it
-- demands; the roadmap grows by them and is well formed again.
pub add_child_tasks_lem :
    (digest : Digest) (r : Roadmap) (id : String) (children : List RoadmapTask) {after : Roadmap}
    → add_child_tasks digest r id children ≡ ok after
    → ((parent : RoadmapTask) × (find_task id r.tasks ≡ ok parent)
        × All (IsChild parent id) children)
      × IsGrowth r children after
unfolding add_child_tasks
add_child_tasks_lem digest r id children h =
    let (parent, found, h₁) = >>=-eq-ok (find_task id r.tasks) _ h in
    let (some_new, h₂) = raise_if->>=-eq-ok (is_empty children) _ _ h₁ in
    let (fresh, h₃) =
      raise_if->>=-eq-ok
        (has_duplicates (task_ids children)
          || any (λ i. elem i (task_ids r.tasks)) (task_ids children))
        _ _ h₂ in
    let (_, checked, h₄) = >>=-eq-ok (check_children parent id children) _ h₃ in
    let b = build-IsBuilt digest _ "" h₄ in
    (
      (parent, found, check_children_lem parent id children checked),
      record {
        some_new = some_new;
        tasks = ap (λ (c : Contents). c.tasks) b.contents;
        phases = ap (λ (c : Contents). c.phases) b.contents;
        revision = ap (λ (c : Contents). c.revision) b.contents;
        well_formed = b.well_formed;
      },
    )

pub add_tasks-IsGrowth :
    (digest : Digest) (r : Roadmap) (new : List RoadmapTask) {after : Roadmap}
    → add_tasks digest r new ≡ ok after
    → IsGrowth r new after
unfolding add_tasks
add_tasks-IsGrowth digest r new h =
    let (some_new, h₂) = raise_if->>=-eq-ok (is_empty new) _ _ h in
    let (fresh, h₃) =
      raise_if->>=-eq-ok
        (has_duplicates (task_ids new) || any (λ i. elem i (task_ids r.tasks)) (task_ids new)) _ _
        h₂ in
    let (_, refs, h₄) =
      >>=-eq-ok (check_new_refs digest r (task_ids r.tasks ++ task_ids new) new) _ h₃ in
    let (_, acyclic, h₅) = >>=-eq-ok (check_acyclic (task_graph (r.tasks ++ new))) _ h₄ in
    let b = build-IsBuilt digest _ "" h₅ in
    record {
      some_new = some_new;
      tasks = ap (λ (c : Contents). c.tasks) b.contents;
      phases = ap (λ (c : Contents). c.phases) b.contents;
      revision = ap (λ (c : Contents). c.revision) b.contents;
      well_formed = b.well_formed;
    }

settled_ids-append :
    (d : String) (tasks new : List RoadmapTask)
    → elem d (settled_ids tasks) ≡ true
    → elem d (settled_ids (tasks ++ new)) ≡ true
unfolding settled_ids keep elem
settled_ids-append d [] new m = cc
settled_ids-append d (t ∷ tasks) new m = ground (arith, settled_ids-append d tasks new)

-- Growth by tasks that are not started keeps the invariant of the lifecycle.
pub IsGrowth-IsHonest :
    {r after : Roadmap} {new : List RoadmapTask}
    → IsGrowth r new after
    → All (λ t. is_started t.status ≡ false) new
    → IsHonest r.tasks
    → IsHonest after.tasks
IsGrowth-IsHonest {r} {after} {new} g planned honest = subst IsHonest (sym g.tasks) (
    All-append (HasSettled (r.tasks ++ new)) r.tasks new
      (All-map r.tasks (λ t old s d m. settled_ids-append d r.tasks new (old s d m)) honest)
      (All-map new (λ t no_start s d m. cc) planned))
