-- ===== src/Roadmap/Ops/Ready.antt =====
-- Which tasks the queries return.
use mathlib.Core.Bool.{decide}
use pasi_engineering_workspa.Prelude.{
  ◌≡◌, refl, sym, ◌∙◌, ap, Bool, true, not, ◌||◌, ◌&&◌, List, [], ◌∷◌, any, keep, arith,
}
use pasi_engineering_workspa.Sort.{sort, any-sort}
use pasi_engineering_workspa.Roadmap.Model.{RoadmapTask, RoadmapTask-discrete, task_eq}
use pasi_engineering_workspa.Roadmap.Check.{Roadmap}
use pasi_engineering_workspa.Roadmap.Ops.{
  is_planned, is_blocked, unlocked, task_before, ready_tasks, blocked_tasks, elem_task,
}

decide_sound {ℓ} : {A : Type ℓ} (d : Dec A) → decide d ≡ true → A
unfolding decide
decide_sound (yes a) h = a
decide_sound (no n) h = cc

decide_complete {ℓ} : {A : Type ℓ} (d : Dec A) → A → decide d ≡ true
unfolding decide
decide_complete (yes a) h = refl
decide_complete (no n) h = absurd (n h)

pub task_eq_iff : (s t : RoadmapTask) → (task_eq s t ≡ true → s ≡ t) × (s ≡ t → task_eq s t ≡ true)
task_eq_iff s t = (
  λ h. decide_sound (RoadmapTask-discrete s t) (unfold task_eq in h),
  λ e. unfold task_eq in decide_complete (RoadmapTask-discrete s t) e,
)

-- A test that only meets items on which `p` has one value.
any-keep :
    (q p : RoadmapTask → Bool) (v : Bool) (ts : List RoadmapTask)
    → ((s : RoadmapTask) → q s ≡ true → p s ≡ v)
    → any q (keep p ts) ≡ (any q ts && v)
unfolding any keep
any-keep q p v [] h = refl
any-keep q p v (s ∷ ts) h = ground (arith, h s, any-keep q p v ts h)

-- A task stands in a filtered list if it stands in the list and passes.
pub elem_task-keep :
    (p : RoadmapTask → Bool) (t : RoadmapTask) (ts : List RoadmapTask)
    → elem_task t (keep p ts) ≡ (elem_task t ts && p t)
unfolding elem_task
elem_task-keep p t ts = any-keep (task_eq t) p (p t) ts (λ s e. ap p (sym ((task_eq_iff t s).0 e)))

elem_task-sort :
    (t : RoadmapTask) (ts : List RoadmapTask) → elem_task t (sort task_before ts) ≡ elem_task t ts
unfolding elem_task
elem_task-sort t ts = any-sort task_before (task_eq t) ts

-- A task is ready exactly where it is a planned task of the roadmap whose phase is active and whose
-- dependencies are all completed.
pub elem_task-ready_tasks :
    (r : Roadmap) (t : RoadmapTask)
    → elem_task t (ready_tasks r) ≡ (elem_task t r.tasks && (is_planned t.status && unlocked r t))
unfolding ready_tasks
elem_task-ready_tasks r t = elem_task-sort t _ ∙ elem_task-keep _ t r.tasks

pub elem_task-blocked_tasks :
    (r : Roadmap) (t : RoadmapTask)
    → elem_task t (blocked_tasks r) ≡ (
        elem_task t r.tasks && ((is_planned t.status || is_blocked t.status) && not (unlocked r t)))
unfolding blocked_tasks
elem_task-blocked_tasks r t = elem_task-sort t _ ∙ elem_task-keep _ t r.tasks

-- A planned task of the roadmap is either ready or blocked, and never both.
pub ready_or_blocked :
    (r : Roadmap) (t : RoadmapTask)
    → elem_task t r.tasks ≡ true
    → is_planned t.status ≡ true
    → elem_task t (blocked_tasks r) ≡ not (elem_task t (ready_tasks r))
ready_or_blocked r t m p = rw (elem_task-blocked_tasks r t, elem_task-ready_tasks r t, m, p) refl
