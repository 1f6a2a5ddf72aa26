-- ===== src/Roadmap/Ops/Lifecycle.antt =====
-- An invariant of the lifecycle: a task that is active or completed has only dependencies that were
-- completed, and that at most have been archived since.
use pasi_engineering_workspa.Prelude.{
  ◌≡◌, sym, subst, Bool, true, false, inl, inr, String, str_eq, eq_iff, ok, List, [], ◌∷◌, All,
  keep, arith, Bool-cases,
}
use pasi_engineering_workspa.Text.{elem, has_duplicates}
use pasi_engineering_workspa.Roadmap.Model.{TaskStatus, RoadmapTask}
use pasi_engineering_workspa.Roadmap.Check.{task_ids}
use pasi_engineering_workspa.Roadmap.Ops.{find_task, replace_task}

abbrev pub is_started : TaskStatus → Bool
is_started TaskStatus.active = true
is_started TaskStatus.completed = true
is_started _ = false

abbrev pub is_settled : TaskStatus → Bool
is_settled TaskStatus.completed = true
is_settled TaskStatus.archived = true
is_settled _ = false

unfoldable pub settled_ids : List RoadmapTask → List String
settled_ids tasks = task_ids (keep (λ t. is_settled t.status) tasks)

abbrev pub HasSettled : List RoadmapTask → RoadmapTask → Type 0
HasSettled tasks t =
    is_started t.status ≡ true
    → (d : String) → elem d t.depends_on ≡ true
    → elem d (settled_ids tasks) ≡ true

abbrev pub IsHonest : List RoadmapTask → Type 0
IsHonest tasks = All (HasSettled tasks) tasks

pub find_task-All :
    (P : RoadmapTask → Type 0) (id : String) (tasks : List RoadmapTask) {task : RoadmapTask}
    → find_task id tasks ≡ ok task
    → All P tasks
    → P task
unfolding find_task
find_task-All P id [] h a = absurd (cc)
find_task-All P id (t ∷ tasks) {task} h (p, ps) = elim (Bool-cases (str_eq t.id id)) [
  | inl here ↦ subst P {x = t} {y = task} (cc (rw here at h)) p
  | inr further ↦ find_task-All P id tasks (rw further at h) ps
]

pub find_task-id :
    (id : String) (tasks : List RoadmapTask) {task : RoadmapTask}
    → find_task id tasks ≡ ok task
    → task.id ≡ id
unfolding find_task
find_task-id id [] h = absurd (cc)
find_task-id id (t ∷ tasks) {task} h = elim (Bool-cases (str_eq t.id id)) [
  | inl here ↦
      subst (λ (s : RoadmapTask). s.id ≡ id) {x = t} {y = task} (cc (rw here at h))
        ((eq_iff t.id id).0 here)
  | inr further ↦ find_task-id id tasks (rw further at h)
]

-- Where the ids are distinct, no other task has the id of the task that is found.
absent_id :
    (id : String) (tasks : List RoadmapTask) (P : RoadmapTask → Type 0)
    → elem id (task_ids tasks) ≡ false
    → All (λ t. t.id ≡ id → P t) tasks
unfolding elem
absent_id id [] P h = tt
absent_id id (t ∷ tasks) P h = (λ e. absurd (cc (ground_ne e)), absent_id id tasks P (ground arith))
  where
    ground_ne : t.id ≡ id → str_eq id t.id ≡ true
    ground_ne e = (eq_iff id t.id).1 (sym e)

pub found_unique :
    (id : String) (tasks : List RoadmapTask) {task : RoadmapTask}
    → has_duplicates (task_ids tasks) ≡ false
    → find_task id tasks ≡ ok task
    → All (λ t. t.id ≡ id → t ≡ task) tasks
unfolding find_task has_duplicates
found_unique id [] d h = tt
found_unique id (t ∷ tasks) {task} d h = elim (Bool-cases (str_eq t.id id)) [
  | inl here ↦ (
    λ e. cc (rw here at h),
    absent_id id tasks (λ s. s ≡ task)
        (subst (λ i. elem i (task_ids tasks) ≡ false) ((eq_iff t.id id).0 here) (ground arith)),
  )
  | inr further ↦ (
    λ e. absurd (cc ((eq_iff t.id id).1 e)),
    found_unique id tasks (ground arith) (rw further at h),
  )
]

-- A task that is replaced by one that is settled if it was keeps every settled id.
pub settled_ids-replace_task :
    (id d : String) (new : RoadmapTask) (tasks : List RoadmapTask)
    → new.id ≡ id
    → All (λ t. t.id ≡ id → is_settled t.status ≡ true → is_settled new.status ≡ true) tasks
    → elem d (settled_ids tasks) ≡ true
    → elem d (settled_ids (replace_task id new tasks)) ≡ true
unfolding settled_ids replace_task keep elem
settled_ids-replace_task id d new [] e a m = m
settled_ids-replace_task id d new (t ∷ tasks) e (f, a) m =
    ground (arith, eq_iff t.id id, f, settled_ids-replace_task id d new tasks e a)
