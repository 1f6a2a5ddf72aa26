-- ===== src/Roadmap/Ops/Step.antt =====
-- What an accepted lifecycle transition of a task or a phase needed, and what it changed.
use pasi_engineering_workspa.Prelude.{
  ℤ, pos, ◌+ℤ◌, eqb_ℤ, eqb_ℤ_iff, ◌≡◌, ◌≢◌, ap, true, false, not, ◌&&◌, inl, inr, String, ok, err,
  >>=-eq-ok, raise_if->>=-eq-ok, List, [], ◌∷◌, keep, is_empty, arith, if◌then◌else◌,
}
use pasi_engineering_workspa.Text.{elem}
use pasi_engineering_workspa.Roadmap.Model.{
  PhaseStatus, TaskStatus, RoadmapTask, RoadmapPhase, stale_revision, phase_edge, task_edge,
  check_task, check_phase,
}
use pasi_engineering_workspa.Roadmap.Check.{Contents, Roadmap, Digest}
use pasi_engineering_workspa.Roadmap.Check.Sound.{IsWellFormed, not-not}
use pasi_engineering_workspa.Text.Elem.{not-elem_nil, elem_cons}
use pasi_engineering_workspa.Roadmap.Check.Build.{build-IsBuilt}
use pasi_engineering_workspa.Roadmap.Ops.{
  is_active, is_completed, phase_active, phase_completed, find_task, find_phase, unlocked,
  ready_tasks, elem_task, moved_task, moved_phase, replace_task, replace_phase, check_phases_done,
  transition_task, transition_phase,
}
use pasi_engineering_workspa.Roadmap.Ops.Ready.{elem_task-ready_tasks}

-- An accepted transition of the task `id` of `r` to `status`, which led to `after`.
pub record IsTaskStep (digest : Digest) (r : Roadmap) (id : String) (status : TaskStatus)
    (expected : ℤ) (evidence : List String) (after : Roadmap) : Type 0 where
  pub task : RoadmapTask
  pub found : find_task id r.tasks ≡ ok task
  pub fresh : task.revision ≡ expected
  pub edge : task_edge task.status status ≡ true
  pub starts : (is_active status && not (unlocked r task)) ≡ false
  pub proves : (is_completed status && is_empty evidence) ≡ false
  pub checked : check_task (moved_task task status) ≡ ok tt
  pub tasks : after.tasks ≡ replace_task id (moved_task task status) r.tasks
  pub phases : after.phases ≡ r.phases
  pub revision : after.revision ≡ r.revision +ℤ pos 1
  pub named : after.roadmap_id ≡ r.roadmap_id
  pub well_formed : IsWellFormed after.contents
  pub hashed : after.canonical_sha256 ≡ digest after.contents

ready_unlocked :
    (r : Roadmap) (task : RoadmapTask) (status : TaskStatus)
    → (is_active status && not (elem_task task (ready_tasks r))) ≡ false
    → (is_active status && not (unlocked r task)) ≡ false
ready_unlocked r task status h = ground (arith, elem_task-ready_tasks r task)

-- A task is moved only at its current revision and along the table of transitions; it becomes active
-- only in an active phase with all dependencies completed, and completed only with evidence. Nothing
-- but the task, and the revision of the roadmap, changes, and the roadmap is well formed again.
pub transition_task-IsTaskStep :
    (digest : Digest) (r : Roadmap) (id : String) (status : TaskStatus) (expected : ℤ)
    (evidence : List String) {after : Roadmap}
    → transition_task digest r id status expected evidence ≡ ok after
    → IsTaskStep digest r id status expected evidence after
unfolding transition_task
transition_task-IsTaskStep digest r id status expected evidence {after} h =
    let (task, found, h₁) = >>=-eq-ok (find_task id r.tasks) _ h in
    let (fresh, h₂) = raise_if->>=-eq-ok (not (eqb_ℤ task.revision expected)) _ _ h₁ in
    let (edge, h₃) = raise_if->>=-eq-ok (not (task_edge task.status status)) _ _ h₂ in
    let (ready, h₄) =
      raise_if->>=-eq-ok (is_active status && not (elem_task task (ready_tasks r))) _ _ h₃ in
    let (active, h₅) =
      raise_if->>=-eq-ok
        (is_completed status && not (elem_task task (keep (λ t. is_active t.status) r.tasks))) _ _
        h₄ in
    let (evident, h₆) = raise_if->>=-eq-ok (is_completed status && is_empty evidence) _ _ h₅ in
    let (_, checked, h₇) = >>=-eq-ok (check_task (moved_task task status)) _ h₆ in
    let b = build-IsBuilt digest _ "" h₇ in
    record {
      task = task;
      found = found;
      fresh = (eqb_ℤ_iff task.revision expected).0 (not-not _ fresh);
      edge = not-not _ edge;
      starts = ready_unlocked r task status ready;
      proves = evident;
      checked = checked;
      tasks = ap (λ (c : Contents). c.tasks) b.contents;
      phases = ap (λ (c : Contents). c.phases) b.contents;
      revision = ap (λ (c : Contents). c.revision) b.contents;
      named = ap (λ (c : Contents). c.roadmap_id) b.contents;
      well_formed = b.well_formed;
      hashed = b.hashed;
    }

-- An accepted transition of the phase `id`.
pub record IsPhaseStep (digest : Digest) (r : Roadmap) (id : String) (status : PhaseStatus)
    (expected : ℤ) (after : Roadmap) : Type 0 where
  pub phase : RoadmapPhase
  pub found : find_phase id r.phases ≡ ok phase
  pub fresh : phase.revision ≡ expected
  pub edge : phase_edge phase.status status ≡ true
  pub starts :
      phase_active status ≡ true
      → (d : String) → elem d phase.depends_on ≡ true
      → (p : RoadmapPhase) × (find_phase d r.phases ≡ ok p) × (phase_completed p.status ≡ true)
  pub phases : after.phases ≡ replace_phase id (moved_phase phase status) r.phases
  pub tasks : after.tasks ≡ r.tasks
  pub revision : after.revision ≡ r.revision +ℤ pos 1
  pub named : after.roadmap_id ≡ r.roadmap_id
  pub well_formed : IsWellFormed after.contents

check_phases_done_lem :
    (r : Roadmap) (ds : List String)
    → check_phases_done r ds ≡ ok tt
    → (d : String) → elem d ds ≡ true
    → (p : RoadmapPhase) × (find_phase d r.phases ≡ ok p) × (phase_completed p.status ≡ true)
unfolding check_phases_done
check_phases_done_lem r [] h d m = absurd (not-elem_nil d m)
check_phases_done_lem r (e ∷ ds) h d m =
    let (p, found, h₁) = >>=-eq-ok (find_phase e r.phases) _ h in
    let (done, h₂) = raise_if->>=-eq-ok (not (phase_completed p.status)) _ _ h₁ in
    elim (elem_cons d e ds m) [
      | inl here ↦ (p, rw here found, not-not _ done)
      | inr later ↦ check_phases_done_lem r ds h₂ d later
    ]

-- A phase is moved only at its current revision and along the table; it becomes active only when
-- every phase that it depends on is completed.
pub transition_phase-IsPhaseStep :
    (digest : Digest) (r : Roadmap) (id : String) (status : PhaseStatus) (expected : ℤ)
    {after : Roadmap}
    → transition_phase digest r id status expected ≡ ok after
    → IsPhaseStep digest r id status expected after
unfolding transition_phase
transition_phase-IsPhaseStep digest r id status expected {after} h =
    let (phase, found, h₁) = >>=-eq-ok (find_phase id r.phases) _ h in
    let (fresh, h₂) = raise_if->>=-eq-ok (not (eqb_ℤ phase.revision expected)) _ _ h₁ in
    let (edge, h₃) = raise_if->>=-eq-ok (not (phase_edge phase.status status)) _ _ h₂ in
    let deps = if phase_active status then phase.depends_on else [] in
    let (_, done, h₄) = >>=-eq-ok (check_phases_done r deps) _ h₃ in
    let (_, checked, h₅) = >>=-eq-ok (check_phase (moved_phase phase status)) _ h₄ in
    let b = build-IsBuilt digest _ "" h₅ in
    record {
      phase = phase;
      found = found;
      fresh = (eqb_ℤ_iff phase.revision expected).0 (not-not _ fresh);
      edge = not-not _ edge;
      starts = λ a d m. check_phases_done_lem r deps done d (rw a m);
      phases = ap (λ (c : Contents). c.phases) b.contents;
      tasks = ap (λ (c : Contents). c.tasks) b.contents;
      revision = ap (λ (c : Contents). c.revision) b.contents;
      named = ap (λ (c : Contents). c.roadmap_id) b.contents;
      well_formed = b.well_formed;
    }

-- A caller with another revision of the task is told so, whatever else is wrong with the request.
pub transition_task_stale :
    (digest : Digest) (r : Roadmap) (id : String) (status : TaskStatus) (expected : ℤ)
    (evidence : List String) (task : RoadmapTask)
    → find_task id r.tasks ≡ ok task
    → task.revision ≢ expected
    → transition_task digest r id status expected evidence ≡ err stale_revision
unfolding transition_task
transition_task_stale digest r id status expected evidence task found other =
    rw found (ground (arith, eqb_ℤ_iff task.revision expected))
