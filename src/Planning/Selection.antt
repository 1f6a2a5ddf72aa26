-- ===== src/Planning/Selection.antt =====
-- `EvidenceAwareTaskSelector` of src/pasi/core/task_selection.py. A finite float is a whole multiple
-- of 2 ^ -1074, and stands here as that number; the order of floats is that of these numbers. A score
-- that is no number, or not finite, is `none`.
pub mod Laws
pub mod Complete
use Prim.Native.String.{◌++◌ as text_append}
use pasi_engineering_workspa.Prelude.{
  ℤ, pos, eqb_ℤ, ltb_ℤ, Bool, true, false, not, ◌||◌, ◌&&◌, String, str_eq, Result, ok, err,
  raise_if, ◌>>=◌, ◌>>◌, Option, none, some, List, [], ◌∷◌, map, keep, is_empty, if◌then◌else◌,
}
use pasi_engineering_workspa.Text.{elem}
use pasi_engineering_workspa.Text.Order.{leb_text}
use pasi_engineering_workspa.Dict.{Dict, lookup, put}
use pasi_engineering_workspa.Sort.{sort}
use pasi_engineering_workspa.Roadmap.Model.{RoadmapTask}
use pasi_engineering_workspa.Roadmap.Check.{Roadmap, task_ids}
use pasi_engineering_workspa.Roadmap.Ops.{ready_tasks}
use pasi_engineering_workspa.Planning.Dependency.{by_key}

-- The statuses that `EvidenceSnapshot` admits.
pub data EvidenceStatus : Type 0 where
  verified missing stale contradictory failed : EvidenceStatus

pub record EvidenceSnapshot : Type 0 where
  pub task_id : String
  pub roadmap_revision : ℤ
  pub status : EvidenceStatus
  pub refs : List String
  pub recorded_at : String

abbrev pub is_verified : EvidenceStatus → Bool
is_verified EvidenceStatus.verified = true
is_verified _ = false

-- `is_current`
abbrev pub is_current : EvidenceSnapshot → Bool
is_current e = is_verified e.status && not (is_empty e.refs)

abbrev pub Score : Type 0
Score = Option ℤ

module _ (revision : ℤ) (evidence : Dict EvidenceSnapshot) where
  -- The tests on the evidence of one dependency
  unfoldable pub problem_with : String → Option String
  problem_with d = elim (lookup d evidence) [
    | none ↦ some (text_append "missing evidence for dependency " d)
    | some e ↦
        if not (str_eq e.task_id d)
        then some "evidence task identity mismatch"
        else if not (eqb_ℤ e.roadmap_revision revision)
        then some (text_append "stale evidence for dependency " d)
        else if not (is_current e)
        then some (text_append "non-verified evidence for dependency " d)
        else none
  ]

  -- The loop over the dependencies, which stops at the first problem.
  unfoldable pub first_problem : List String → Option String
  unfolding problem_with
  first_problem [] = none
  first_problem (d ∷ ds) = elim (problem_with d) [
    | some reason ↦ some reason
    | none ↦ first_problem ds
  ]

-- `scores.get(id, 0.0)`
unfoldable pub score_of : Dict Score → String → Score
score_of scores id = elim (lookup id scores) [ none ↦ some (pos 0) | some s ↦ s ]

-- One round of the loop over the tasks, for a task that is ready.
unfoldable pub exclude :
    ℤ → Dict EvidenceSnapshot → Dict Score → RoadmapTask → Dict String → Dict String
unfolding first_problem
exclude revision evidence scores t excluded = elim (first_problem revision evidence t.depends_on) [
  | some reason ↦ put t.id reason excluded
  | none ↦ elim (lookup t.id excluded) [
    | some _ ↦ excluded
    | none ↦ elim (score_of scores t.id) [
      | none ↦ put t.id "invalid advisory score" excluded
      | some _ ↦ excluded
    ]
  ]
]

unfoldable pub exclude_all :
    ℤ
    → Dict EvidenceSnapshot
    → Dict Score
    → List String
    → List RoadmapTask
    → Dict String
    → Dict String
unfolding exclude
exclude_all revision evidence scores ready [] excluded = excluded
exclude_all revision evidence scores ready (t ∷ tasks) excluded =
    exclude_all revision evidence scores ready tasks
      (if elem t.id ready then exclude revision evidence scores t excluded else excluded)

abbrev pub is_absent : Option String → Bool
is_absent none = true
is_absent (some _) = false

-- Every eligible id has a finite score; another would rank as 0.
unfoldable pub rank : Dict Score → String → ℤ
unfolding score_of
rank scores id = elim (score_of scores id) [ none ↦ pos 0 | some n ↦ n ]

-- The key `(-score, id)` of the ranking
abbrev pub rank_before : Dict Score → String → String → Bool
rank_before scores a b =
    ltb_ℤ (rank scores b) (rank scores a) || (eqb_ℤ (rank scores a) (rank scores b) && leb_text a b)

pub record SelectionDecision : Type 0 where
  pub roadmap_id : String
  pub roadmap_revision : ℤ
  pub selected_task_id : Option String
  pub eligible_task_ids : List String
  pub excluded_reasons : Dict String

abbrev pub head : List String → Option String
head [] = none
head (x ∷ xs) = some x

-- `select`; the copy of the valid scores and the time are left out of the decision.
unfoldable pub select : Roadmap → Dict EvidenceSnapshot → Dict Score → SelectionDecision
unfolding exclude_all
select r evidence scores =
    let ready = task_ids (ready_tasks r) in
    let excluded = exclude_all r.revision evidence scores ready r.tasks [] in
    let eligible = sort leb_text (keep (λ id. is_absent (lookup id excluded)) ready) in
    record {
      roadmap_id = r.roadmap_id;
      roadmap_revision = r.revision;
      selected_task_id = head (sort (rank_before scores) eligible);
      eligible_task_ids = eligible;
      excluded_reasons = sort by_key excluded;
    }
