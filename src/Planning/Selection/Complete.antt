-- ===== src/Planning/Selection/Complete.antt =====
-- Whatever may be selected is eligible.
use pasi_engineering_workspa.Prelude.{
  ℤ, eqb_ℤ_iff, ◌≡◌, refl, sym, ap, ◌∙◌, subst, true, String, str_eq, eq_iff, none, some, List, [],
  ◌∷◌, keep, All, arith, Bool-cases, Option-cases, ◌⊎◌, inl, inr,
}
use pasi_engineering_workspa.Text.{elem}
use pasi_engineering_workspa.Text.Order.{leb_text}
use pasi_engineering_workspa.Text.Elem.{elem-sort, not-elem_nil}
use pasi_engineering_workspa.Dict.{Dict, lookup, put, lookup-put_other}
use pasi_engineering_workspa.Sort.{sort}
use pasi_engineering_workspa.Roadmap.Model.{RoadmapTask}
use pasi_engineering_workspa.Roadmap.Check.{Roadmap, task_ids}
use pasi_engineering_workspa.Roadmap.Ops.{ready_tasks}
use pasi_engineering_workspa.Planning.Selection.Laws.{IsProved, Supports, elem-keep}
use pasi_engineering_workspa.Planning.Selection.{
  EvidenceSnapshot, Score, problem_with, first_problem, score_of, exclude, exclude_all, is_absent,
  rank_before, head, select,
}

IsProved-problem_with :
    (revision : ℤ) (evidence : Dict EvidenceSnapshot) (d : String)
    → IsProved revision evidence d
    → problem_with revision evidence d ≡ none
unfolding problem_with
IsProved-problem_with revision evidence d p =
    rw (problem_with, p.found)
      (ground (
        arith,
        (eq_iff p.snapshot.task_id d).1 p.task,
        (eqb_ℤ_iff p.snapshot.roadmap_revision revision).1 p.revised,
        p.current,
      ))

All-first_problem :
    (revision : ℤ) (evidence : Dict EvidenceSnapshot) (ds : List String)
    → All (IsProved revision evidence) ds
    → first_problem revision evidence ds ≡ none
unfolding first_problem
All-first_problem revision evidence [] a = refl
All-first_problem revision evidence (d ∷ ds) (p, a) =
    rw (first_problem, IsProved-problem_with revision evidence d p)
      (All-first_problem revision evidence ds a)

-- A round leaves the exclusions alone or adds the task's own.
exclude_shape :
    (revision : ℤ) (evidence : Dict EvidenceSnapshot) (scores : Dict Score) (t : RoadmapTask)
    (excluded : Dict String)
    → (exclude revision evidence scores t excluded ≡ excluded)
      ⊎ ((reason : String) × (exclude revision evidence scores t excluded
            ≡ put t.id reason excluded))
unfolding exclude
exclude_shape revision evidence scores t excluded =
    elim (Option-cases (first_problem revision evidence t.depends_on)) [
      | inr (reason, e) ↦ inr (reason, rw (exclude, e) refl)
      | inl fine ↦ elim (Option-cases (lookup t.id excluded)) [
        | inr (reason, e) ↦ inl (rw (exclude, fine, e) refl)
        | inl e ↦ elim (Option-cases (score_of scores t.id)) [
          | inl bad ↦ inr ("invalid advisory score", rw (exclude, fine, e, bad) refl)
          | inr (n, scored) ↦ inl (rw (exclude, fine, e, scored) refl)
        ]
      ]
    ]

-- What a task of the id asks for.
abbrev Wants : ℤ → Dict EvidenceSnapshot → Dict Score → String → RoadmapTask → Type 0
Wants revision evidence scores id t =
    t.id ≡ id
    → All (IsProved revision evidence) t.depends_on × ((n : ℤ) × (score_of scores id ≡ some n))

exclude-absent :
    (revision : ℤ) (evidence : Dict EvidenceSnapshot) (scores : Dict Score) (id : String)
    (t : RoadmapTask) (excluded : Dict String)
    → Wants revision evidence scores id t
    → lookup id excluded ≡ none
    → lookup id (exclude revision evidence scores t excluded) ≡ none
unfolding exclude
exclude-absent revision evidence scores id t excluded wants h = elim (Bool-cases (str_eq t.id id)) [
  | inl same ↦
      let e = (eq_iff t.id id).0 same in
      let (proved, (n, scored)) = wants e in
      rw
        (
          exclude,
          All-first_problem revision evidence t.depends_on proved,
          subst (λ k. lookup k excluded ≡ none) (sym e) h,
          subst (λ k. score_of scores k ≡ some n) (sym e) scored,
        )
        h
  | inr other ↦ elim (exclude_shape revision evidence scores t excluded) [
    | inl e ↦ ap (lookup id) e ∙ h
    | inr (reason, e) ↦ ap (lookup id) e ∙ lookup-put_other t.id id reason excluded other ∙ h
  ]
]

exclude_all-absent :
    (revision : ℤ) (evidence : Dict EvidenceSnapshot) (scores : Dict Score) (ready : List String)
    (id : String) (tasks : List RoadmapTask) (excluded : Dict String)
    → All (Wants revision evidence scores id) tasks
    → lookup id excluded ≡ none
    → lookup id (exclude_all revision evidence scores ready tasks excluded) ≡ none
unfolding exclude_all
exclude_all-absent revision evidence scores ready id [] excluded w h = h
exclude_all-absent revision evidence scores ready id (t ∷ tasks) excluded (wants, w) h =
    exclude_all-absent revision evidence scores ready id tasks _ w
      (elim (Bool-cases (elem t.id ready)) [
        | inl e ↦ rw e (exclude-absent revision evidence scores id t excluded wants h)
        | inr e ↦ rw e h
      ])

-- A ready task whose id has a finite score, and whose dependencies all have current evidence, is
-- eligible; and where a task is eligible, one is selected.
pub Supports-select :
    (r : Roadmap) (evidence : Dict EvidenceSnapshot) (scores : Dict Score) (id : String)
    → elem id (task_ids (ready_tasks r)) ≡ true
    → Supports r evidence scores id
    → (elem id (select r evidence scores).eligible_task_ids ≡ true)
      × ((best : String) × ((select r evidence scores).selected_task_id ≡ some best))
unfolding select lookup
Supports-select r evidence scores id m s =
    let ready = task_ids (ready_tasks r) in
    let excluded = exclude_all r.revision evidence scores ready r.tasks [] in
    let kept = keep (λ i. is_absent (lookup i excluded)) ready in
    let absent : lookup id excluded ≡ none =
      exclude_all-absent r.revision evidence scores ready id r.tasks [] s refl in
    let eligible : elem id (sort leb_text kept) ≡ true =
      elem-sort leb_text id kept
      ∙ elem-keep (λ i. is_absent (lookup i excluded)) id ready
      ∙ rw (m, absent) refl in
    (
      eligible,
      some_head (sort (rank_before scores) (sort leb_text kept))
          (elem-sort (rank_before scores) id (sort leb_text kept) ∙ eligible),
    )
  where
    some_head : (ids : List String) → elem id ids ≡ true → (best : String) × (head ids ≡ some best)
    some_head [] h = absurd (not-elem_nil id h)
    some_head (x ∷ xs) h = (x, refl)
