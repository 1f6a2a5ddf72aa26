-- ===== src/Roadmap/Ops/History.antt =====
-- Histories of a roadmap: chains of accepted mutations.
use pasi_engineering_workspa.Prelude.{
  ℕ, zero, suc, ℤ, pos, ◌+ℤ◌, +ℤ-zero, +ℤ-suc, ◌≡◌, sym, ◌∙◌, ap, String, ok, List, All, false,
}
use pasi_engineering_workspa.Roadmap.Model.{PhaseStatus, TaskStatus, RoadmapTask}
use pasi_engineering_workspa.Roadmap.Check.{Roadmap, Digest}
use pasi_engineering_workspa.Roadmap.Check.Sound.{IsWellFormed}
use pasi_engineering_workspa.Roadmap.Ops.{
  transition_task, transition_phase, add_child_tasks, add_tasks,
}
use pasi_engineering_workspa.Roadmap.Ops.Step.{
  transition_task-IsTaskStep, transition_phase-IsPhaseStep,
}
use pasi_engineering_workspa.Roadmap.Ops.Lifecycle.{is_started, IsHonest}
use pasi_engineering_workspa.Roadmap.Ops.Honest.{
  transition_task-IsHonest, transition_phase-IsHonest,
}
use pasi_engineering_workspa.Roadmap.Ops.Grow.{
  IsGrowth-IsHonest, add_child_tasks_lem, add_tasks-IsGrowth,
}

-- One mutation that was accepted. New tasks are not started.
pub data Mutation (digest : Digest) (r : Roadmap) : Roadmap → Type 0 where
  move_task :
      {after : Roadmap} (id : String) (status : TaskStatus) (expected : ℤ) (evidence : List String)
      → transition_task digest r id status expected evidence ≡ ok after
      → Mutation digest r after
  move_phase :
      {after : Roadmap} (id : String) (status : PhaseStatus) (expected : ℤ)
      → transition_phase digest r id status expected ≡ ok after
      → Mutation digest r after
  add_children :
      {after : Roadmap} (id : String) (children : List RoadmapTask)
      → All (λ t. is_started t.status ≡ false) children
      → add_child_tasks digest r id children ≡ ok after
      → Mutation digest r after
  add_more :
      {after : Roadmap} (new : List RoadmapTask)
      → All (λ t. is_started t.status ≡ false) new
      → add_tasks digest r new ≡ ok after
      → Mutation digest r after

pub data History (digest : Digest) (r : Roadmap) : ℕ → Roadmap → Type 0 where
  start : History digest r zero r
  step :
      {n : ℕ} {s t : Roadmap}
      → History digest r n s
      → Mutation digest s t
      → History digest r (suc n) t

pub record IsSafe (r : Roadmap) : Type 0 where
  pub well_formed : IsWellFormed r.contents
  pub honest : IsHonest r.tasks

Mutation-IsSafe : {digest : Digest} {r s : Roadmap} → Mutation digest r s → IsSafe r → IsSafe s
Mutation-IsSafe {digest} {r} (move_task id status expected evidence h) safe = record {
  well_formed = (transition_task-IsTaskStep digest r id status expected evidence h).well_formed;
  honest =
      transition_task-IsHonest digest r id status expected evidence safe.well_formed safe.honest h;
}
Mutation-IsSafe {digest} {r} (move_phase id status expected h) safe = record {
  well_formed = (transition_phase-IsPhaseStep digest r id status expected h).well_formed;
  honest = transition_phase-IsHonest digest r id status expected safe.honest h;
}
Mutation-IsSafe {digest} {r} (add_children id children planned h) safe =
    let g = (add_child_tasks_lem digest r id children h).1 in
    record { well_formed = g.well_formed; honest = IsGrowth-IsHonest g planned safe.honest }
Mutation-IsSafe {digest} {r} (add_more new planned h) safe =
    let g = add_tasks-IsGrowth digest r new h in
    record { well_formed = g.well_formed; honest = IsGrowth-IsHonest g planned safe.honest }

Mutation-revision :
    {digest : Digest} {r s : Roadmap} → Mutation digest r s → s.revision ≡ r.revision +ℤ pos 1
Mutation-revision {digest} {r} (move_task id status expected evidence h) =
    (transition_task-IsTaskStep digest r id status expected evidence h).revision
Mutation-revision {digest} {r} (move_phase id status expected h) =
    (transition_phase-IsPhaseStep digest r id status expected h).revision
Mutation-revision {digest} {r} (add_children id children planned h) =
    (add_child_tasks_lem digest r id children h).1.revision
Mutation-revision {digest} {r} (add_more new planned h) =
    (add_tasks-IsGrowth digest r new h).revision

-- From a safe roadmap every chain of `n` accepted mutations, whose new tasks are not started, leads
-- to a roadmap that is well formed, in which every active or completed task has only dependencies
-- that are completed or archived, and whose revision has risen by exactly `n`.
pub History-IsSafe :
    {digest : Digest} {r s : Roadmap} {n : ℕ}
    → IsSafe r
    → History digest r n s
    → IsSafe s × (s.revision ≡ r.revision +ℤ pos n)
History-IsSafe {r = r} safe start = (safe, sym (+ℤ-zero r.revision))
History-IsSafe {r = r} safe (step {n} h m) =
    let (safe', e) = History-IsSafe safe h in
    (Mutation-IsSafe m safe', Mutation-revision m ∙ ap (λ v. v +ℤ pos 1) e ∙ +ℤ-suc r.revision n)
