-- ===== src/Planning/Schedule.antt =====
-- `CostAwareScheduler` of src/pasi/core/scheduling.py. A finite float is a whole multiple of
-- 2 ^ -1074 and stands here as that number; the difference of two floats is rounded, and is a
-- parameter.
pub mod Laws
pub mod Cover
use pasi_engineering_workspa.Prelude.{
  ℤ, pos, eqb_ℤ, ltb_ℤ, ◌-ℤ◌, Bool, true, false, not, ◌||◌, ◌&&◌, String, str_eq, Option, none,
  some, List, [], ◌∷◌, ◌++◌, if◌then◌else◌,
}
use pasi_engineering_workspa.Text.Order.{leb_text}
use pasi_engineering_workspa.Dict.{Dict, lookup, put}
use pasi_engineering_workspa.Sort.{sort}
use pasi_engineering_workspa.Roadmap.Check.{Roadmap, task_ids}
use pasi_engineering_workspa.Roadmap.Ops.{ready_tasks}
use pasi_engineering_workspa.Planning.Dependency.{by_key, dedup}
use pasi_engineering_workspa.Planning.Selection.{Score, score_of}

-- `ResourceEstimate` and `SchedulerCapacity` have the same fields and the same checks.
pub record Resources : Type 0 where
  pub cpu_millicores : ℤ
  pub memory_mb : ℤ
  pub time_seconds : ℤ

-- `__post_init__`, which raises where this is false; a time that is not finite is no number here.
abbrev pub is_positive : Resources → Bool
is_positive e =
    ltb_ℤ (pos 0) e.cpu_millicores && ltb_ℤ (pos 0) e.memory_mb && ltb_ℤ (pos 0) e.time_seconds

pub record ScheduledTask : Type 0 where
  pub task_id : String
  pub estimate : Resources
  pub advisory_priority : ℤ

pub record ScheduleDecision : Type 0 where
  pub roadmap_id : String
  pub roadmap_revision : ℤ
  pub capacity : Resources
  pub scheduled : List ScheduledTask
  pub excluded : Dict String

-- The loop over the ready ids: the exclusions and the candidates.
unfoldable pub candidates_of :
    Dict Resources
    → Dict Score
    → List String
    → Dict String × List ScheduledTask
    → Dict String × List ScheduledTask
candidates_of estimates priorities [] made = made
candidates_of estimates priorities (id ∷ ids) (excluded, candidates) =
    candidates_of estimates priorities ids (elim (lookup id estimates) [
      | none ↦ (put id "missing resource estimate" excluded, candidates)
      | some estimate ↦ elim (score_of priorities id) [
        | none ↦ (put id "invalid advisory priority" excluded, candidates)
        | some priority ↦ (
          excluded,
          candidates
              ++ (record { task_id = id; estimate = estimate; advisory_priority = priority } ∷ []),
        )
      ]
    ])

-- The key `(-priority, time_seconds, id)`
abbrev pub candidate_before : ScheduledTask → ScheduledTask → Bool
candidate_before a b =
    ltb_ℤ b.advisory_priority a.advisory_priority
    || (eqb_ℤ a.advisory_priority b.advisory_priority
        && (ltb_ℤ a.estimate.time_seconds b.estimate.time_seconds
            || (eqb_ℤ a.estimate.time_seconds b.estimate.time_seconds
                && leb_text a.task_id b.task_id)))

-- The estimate is above what remains.
abbrev pub exceeds : Resources → Resources → Bool
exceeds e left =
    ltb_ℤ left.cpu_millicores e.cpu_millicores
    || ltb_ℤ left.memory_mb e.memory_mb
    || ltb_ℤ left.time_seconds e.time_seconds

module _ (minus : ℤ → ℤ → ℤ) where
  -- What remains after a task was taken.
  abbrev pub remaining : Resources → Resources → Resources
  remaining left e = record {
    cpu_millicores = left.cpu_millicores -ℤ e.cpu_millicores;
    memory_mb = left.memory_mb -ℤ e.memory_mb;
    time_seconds = minus left.time_seconds e.time_seconds;
  }

  -- The loop over the candidates: the exclusions, and the tasks that are taken.
  unfoldable pub pack :
      Resources → List ScheduledTask → Dict String → Dict String × List ScheduledTask
  pack left [] excluded = (excluded, [])
  pack left (c ∷ cs) excluded = elim (exceeds c.estimate left) [
    | true ↦ pack left cs (put c.task_id "capacity exceeded" excluded)
    | false ↦ let rest = pack (remaining left c.estimate) cs excluded in (rest.0, c ∷ rest.1)
  ]

  -- `schedule`; the time of the decision is left out.
  unfoldable pub schedule : Roadmap → Dict Resources → Resources → Dict Score → ScheduleDecision
  unfolding candidates_of pack
  schedule r estimates capacity priorities =
      let ready = sort leb_text (dedup (task_ids (ready_tasks r))) in
      let found = candidates_of estimates priorities ready ([], []) in
      let packed = pack capacity (sort candidate_before found.1) found.0 in
      record {
        roadmap_id = r.roadmap_id;
        roadmap_revision = r.revision;
        capacity = capacity;
        scheduled = packed.1;
        excluded = sort by_key packed.0;
      }

-- `assert_fresh`, which raises where this is false
abbrev pub is_current_for : ScheduleDecision → Roadmap → Bool
is_current_for d r = str_eq d.roadmap_id r.roadmap_id && eqb_ℤ d.roadmap_revision r.revision
