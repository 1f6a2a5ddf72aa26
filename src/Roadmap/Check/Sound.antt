-- ===== src/Roadmap/Check/Sound.antt =====
-- What the checks of a roadmap guarantee, and that they accept whatever has these properties.
use pasi_engineering_workspa.Prelude.{
  pos, ◌≤ℤ◌, ◌≡◌, refl, ap, Bool, true, false, not, ◌&&◌, String, ok, err, some, List, [], ◌∷◌,
  arith, All, ◌⊎◌, inl, inr, raise_if->>=-eq-ok,
}
use pasi_engineering_workspa.Text.{is_blank, elem, subset, has_duplicates}
use pasi_engineering_workspa.Dict.{lookup}
use pasi_engineering_workspa.Roadmap.Model.{RoadmapTask, RoadmapPhase, Fault, structure}
use pasi_engineering_workspa.Roadmap.Graph.{Graph, nodes}
use pasi_engineering_workspa.Roadmap.Graph.Order.{Walk, IsAcyclic}
use pasi_engineering_workspa.Roadmap.Graph.Fuel.{IsClosed, assert_acyclic_decides}
use pasi_engineering_workspa.Roadmap.Check.{
  Contents, phase_ids, task_ids, check_phase_refs, check_task_refs, phase_graph, task_graph,
  check_acyclic,
}

-- The references of one task.
abbrev pub TaskRefs : List String → List String → RoadmapTask → Type 0
TaskRefs phase_set task_set t =
    ((not (is_blank t.parent_task_id) && not (elem t.parent_task_id task_set)) ≡ false)
    × (elem t.phase_id phase_set ≡ true)
    × (subset t.depends_on task_set ≡ true)

abbrev pub PhaseRefs : List String → RoadmapPhase → Type 0
PhaseRefs ids p = subset p.depends_on ids ≡ true

pub record IsWellFormed (c : Contents) : Type 0 where
  pub version : c.version ≡ pos 4
  pub revision : pos 0 ≤ℤ c.revision
  pub distinct_phases : has_duplicates (phase_ids c.phases) ≡ false
  pub distinct_tasks : has_duplicates (task_ids c.tasks) ≡ false
  pub phase_refs : All (PhaseRefs (phase_ids c.phases)) c.phases
  pub task_refs : All (TaskRefs (phase_ids c.phases) (task_ids c.tasks)) c.tasks
  pub acyclic_phases : IsAcyclic (phase_graph c.phases)
  pub acyclic_tasks : IsAcyclic (task_graph c.tasks)

pub not-not : (b : Bool) → not b ≡ false → b ≡ true
not-not true h = refl
not-not false h = cc

pub PhaseRefs-iff :
    (ids : List String) (phases : List RoadmapPhase)
    → (check_phase_refs ids phases ≡ ok tt → All (PhaseRefs ids) phases)
      × (All (PhaseRefs ids) phases → check_phase_refs ids phases ≡ ok tt)
unfolding check_phase_refs
PhaseRefs-iff ids [] = (λ h. tt, λ h. refl)
PhaseRefs-iff ids (p ∷ phases) =
    let (to, from) = PhaseRefs-iff ids phases in
    (
      λ h.
          let (s, h₁) = raise_if->>=-eq-ok (not (subset p.depends_on ids)) _ _ h in
          (not-not (subset p.depends_on ids) s, to h₁),
      λ (s, h). rw s (from h),
    )

pub TaskRefs-iff :
    (phase_set task_set : List String) (tasks : List RoadmapTask)
    → (check_task_refs phase_set task_set tasks ≡ ok tt → All (TaskRefs phase_set task_set) tasks)
      × (All (TaskRefs phase_set task_set) tasks → check_task_refs phase_set task_set tasks ≡ ok tt)
unfolding check_task_refs
TaskRefs-iff ps ts [] = (λ h. tt, λ h. refl)
TaskRefs-iff ps ts (t ∷ tasks) =
    let (to, from) = TaskRefs-iff ps ts tasks in
    (
      λ h.
          let (a, h₁) =
            raise_if->>=-eq-ok (not (is_blank t.parent_task_id) && not (elem t.parent_task_id ts)) _
              _ h in
          let (b, h₂) = raise_if->>=-eq-ok (not (elem t.phase_id ps)) _ _ h₁ in
          let (c, h₃) = raise_if->>=-eq-ok (not (subset t.depends_on ts)) _ _ h₂ in
          ((a, not-not _ b, not-not _ c), to h₃),
      λ ((a, b, c), h). rw (a, b, c) (from h),
    )

nodes-phase_graph : (phases : List RoadmapPhase) → nodes (phase_graph phases) ≡ phase_ids phases
nodes-phase_graph [] = refl
nodes-phase_graph (p ∷ phases) = ap (λ l. p.id ∷ l) (nodes-phase_graph phases)

pub nodes-task_graph : (tasks : List RoadmapTask) → nodes (task_graph tasks) ≡ task_ids tasks
nodes-task_graph [] = refl
nodes-task_graph (t ∷ tasks) = ap (λ l. t.id ∷ l) (nodes-task_graph tasks)

lookup-phase_graph :
    (ids : List String) (phases : List RoadmapPhase) (a : String) (deps : List String)
    → All (PhaseRefs ids) phases
    → lookup a (phase_graph phases) ≡ some deps
    → subset deps ids ≡ true
unfolding lookup
lookup-phase_graph ids [] a deps r h = cc
lookup-phase_graph ids (p ∷ phases) a deps (s, r) h =
    ground (arith, lookup-phase_graph ids phases a deps r)

lookup-task_graph :
    (ps ids : List String) (tasks : List RoadmapTask) (a : String) (deps : List String)
    → All (TaskRefs ps ids) tasks
    → lookup a (task_graph tasks) ≡ some deps
    → subset deps ids ≡ true
unfolding lookup
lookup-task_graph ps ids [] a deps r h = cc
lookup-task_graph ps ids (t ∷ tasks) a deps (s, r) h =
    ground (arith, lookup-task_graph ps ids tasks a deps r)

pub task_graph-IsClosed :
    (ps : List String) (tasks : List RoadmapTask)
    → All (TaskRefs ps (task_ids tasks)) tasks
    → IsClosed (task_graph tasks)
task_graph-IsClosed ps tasks r a deps h =
    rw (nodes-task_graph tasks) (lookup-task_graph ps (task_ids tasks) tasks a deps r h)

pub phase_graph-IsClosed :
    (phases : List RoadmapPhase)
    → All (PhaseRefs (phase_ids phases)) phases
    → IsClosed (phase_graph phases)
phase_graph-IsClosed phases r a deps h =
    rw (nodes-phase_graph phases) (lookup-phase_graph (phase_ids phases) phases a deps r h)

-- On a closed graph the check passes exactly where there is no cycle, and otherwise fails
-- with the roadmap's own error.
pub check_acyclic_lem :
    (g : Graph)
    → IsClosed g
    → ((check_acyclic g ≡ ok tt) × IsAcyclic g)
      ⊎ ((check_acyclic g ≡ err (structure Fault.cycle)) × ((x : String) × Walk g x x))
unfolding check_acyclic
check_acyclic_lem g closed = elim (assert_acyclic_decides g closed) [
  | inl (order, h, t, acyclic) ↦ inl (rw (h, check_acyclic), acyclic)
  | inr (x, h, w) ↦ inr (rw (h, check_acyclic), (x, w))
]
