-- ===== src/Roadmap/Ops/Honest.antt =====
-- Every mutation keeps the invariant of the lifecycle.
use pasi_engineering_workspa.Prelude.{
  ℤ, ◌≡◌, sym, subst, Bool, true, false, not, ◌&&◌, ◌⊎◌, inl, inr, String, str_eq, eq_iff, ok, List,
  [], ◌∷◌, All, all, keep, arith, Bool-cases,
}
use pasi_engineering_workspa.Sort.{All-map}
use pasi_engineering_workspa.Text.{elem}
use pasi_engineering_workspa.Roadmap.Model.{PhaseStatus, TaskStatus, RoadmapTask, task_edge}
use pasi_engineering_workspa.Roadmap.Check.{Roadmap, Digest}
use pasi_engineering_workspa.Roadmap.Check.Sound.{IsWellFormed}
use pasi_engineering_workspa.Roadmap.Ops.{
  is_active, unlocked, completed_ids, moved_task, replace_task, transition_task, transition_phase,
}
use pasi_engineering_workspa.Roadmap.Ops.Step.{
  transition_task-IsTaskStep, transition_phase-IsPhaseStep,
}
use pasi_engineering_workspa.Roadmap.Ops.Lifecycle.{
  is_started, is_settled, settled_ids, HasSettled, IsHonest, find_task-All, find_task-id,
  found_unique, settled_ids-replace_task,
}

replace_task-All :
    (P : RoadmapTask → Type 0) (id : String) (new : RoadmapTask) (tasks : List RoadmapTask)
    → P new
    → All P tasks
    → All P (replace_task id new tasks)
unfolding replace_task
replace_task-All P id new [] n h = tt
replace_task-All P id new (t ∷ tasks) n (p, h) = elim (Bool-cases (str_eq t.id id)) [
  | inl here ↦ rw here (n, replace_task-All P id new tasks n h)
  | inr further ↦ rw further (p, replace_task-All P id new tasks n h)
]

elem-all :
    (p : String → Bool) (d : String) (ds : List String)
    → all p ds ≡ true
    → elem d ds ≡ true
    → p d ≡ true
unfolding all elem
elem-all p d [] h m = cc
elem-all p d (e ∷ ds) h m = ground (arith, eq_iff d e, elem-all p d ds)

-- A completed task is settled.
completed-settled :
    (d : String) (tasks : List RoadmapTask)
    → elem d (completed_ids tasks) ≡ true
    → elem d (settled_ids tasks) ≡ true
unfolding completed_ids settled_ids keep elem
completed-settled d [] m = m
completed-settled d (t ∷ tasks) m = ground (arith, completed-settled d tasks)

unlocked-settled :
    (r : Roadmap) (t : RoadmapTask) (d : String)
    → unlocked r t ≡ true
    → elem d t.depends_on ≡ true
    → elem d (settled_ids r.tasks) ≡ true
unfolding unlocked
unlocked-settled r t d u m =
    completed-settled d r.tasks
      (elem-all (λ e. elem e (completed_ids r.tasks)) d t.depends_on (ground arith) m)

edge-settled : (a b : TaskStatus) → task_edge a b ≡ true → is_settled a ≡ true → is_settled b ≡ true
unfolding task_edge
edge-settled a b e s = ground arith

edge-started :
    (a b : TaskStatus)
    → task_edge a b ≡ true
    → is_started b ≡ true
    → (is_active b ≡ true) ⊎ (is_started a ≡ true)
unfolding task_edge
edge-started a b e s = ground arith

started_unlocked :
    (unlocks : Bool) {starts : Bool}
    → starts ≡ true
    → (starts && not unlocks) ≡ false
    → unlocks ≡ true
started_unlocked unlocks a h = ground arith

-- An accepted transition of a task of a well-formed roadmap keeps the invariant.
pub transition_task-IsHonest :
    (digest : Digest) (r : Roadmap) (id : String) (status : TaskStatus) (expected : ℤ)
    (evidence : List String) {after : Roadmap}
    → IsWellFormed r.contents
    → IsHonest r.tasks
    → transition_task digest r id status expected evidence ≡ ok after
    → IsHonest after.tasks
transition_task-IsHonest digest r id status expected evidence w honest h =
    let st = transition_task-IsTaskStep digest r id status expected evidence h in
    let new = moved_task st.task status in
    let keeps : (d : String)
        → elem d (settled_ids r.tasks) ≡ true
        → elem d (settled_ids (replace_task id new r.tasks)) ≡ true =
      λ d m.
        settled_ids-replace_task id d new r.tasks (find_task-id id r.tasks st.found)
          (All-map r.tasks
            (λ t same e s.
              edge-settled st.task.status status st.edge
                (subst (λ (u : RoadmapTask). is_settled u.status ≡ true) (same e) s))
            (found_unique id r.tasks w.distinct_tasks st.found))
          m in
    let started : HasSettled (replace_task id new r.tasks) new = λ s d m.
      keeps d (elim (edge-started st.task.status status st.edge s) [
        | inl active ↦
            unlocked-settled r st.task d (started_unlocked (unlocked r st.task) active st.starts) m
        | inr before ↦ find_task-All (HasSettled r.tasks) id r.tasks st.found honest before d m
      ]) in
    subst IsHonest (sym st.tasks) (
      replace_task-All (HasSettled (replace_task id new r.tasks)) id new r.tasks started
        (All-map r.tasks (λ t old s d m. keeps d (old s d m)) honest))

-- A transition of a phase leaves the tasks alone.
pub transition_phase-IsHonest :
    (digest : Digest) (r : Roadmap) (id : String) (status : PhaseStatus) (expected : ℤ)
    {after : Roadmap}
    → IsHonest r.tasks
    → transition_phase digest r id status expected ≡ ok after
    → IsHonest after.tasks
transition_phase-IsHonest digest r id status expected honest h =
    subst IsHonest (sym (transition_phase-IsPhaseStep digest r id status expected h).tasks) honest
