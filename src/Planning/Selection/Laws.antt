-- ===== src/Planning/Selection/Laws.antt =====
-- Which tasks are selected.
use pasi_engineering_workspa.Prelude.{
  ℤ, eqb_ℤ_iff, ◌≡◌, refl, sym, ap, ◌∙◌, subst, Bool, true, false, ◌&&◌, String, str_eq, eq_iff,
  Option, none, some, List, [], ◌∷◌, keep, all, All, all_of_All, arith, Bool-cases, Option-cases,
  &&_true, inl, inr,
}
use pasi_engineering_workspa.Text.{elem}
use pasi_engineering_workspa.Text.Order.{leb_text, leb_text_total, leb_text_trans}
use pasi_engineering_workspa.Text.Elem.{elem-sort, elem_head}
use pasi_engineering_workspa.Dict.{Dict, lookup, put, lookup-put}
use pasi_engineering_workspa.Sort.{All-map, sort, sort-IsOrdered, IsOrdered, all-sort}
use pasi_engineering_workspa.Roadmap.Model.{RoadmapTask}
use pasi_engineering_workspa.Roadmap.Check.{Roadmap, task_ids}
use pasi_engineering_workspa.Roadmap.Ops.{ready_tasks}
use pasi_engineering_workspa.Planning.Selection.{
  EvidenceSnapshot, is_current, Score, problem_with, first_problem, score_of, exclude, exclude_all,
  is_absent, rank_before, head, select,
}

-- The evidence of a dependency that stands in the way of nothing.
pub record IsProved (revision : ℤ) (evidence : Dict EvidenceSnapshot) (d : String) : Type 0 where
  pub snapshot : EvidenceSnapshot
  pub found : lookup d evidence ≡ some snapshot
  pub task : snapshot.task_id ≡ d
  pub revised : snapshot.roadmap_revision ≡ revision
  pub current : is_current snapshot ≡ true

problem_with-IsProved :
    (revision : ℤ) (evidence : Dict EvidenceSnapshot) (d : String)
    → problem_with revision evidence d ≡ none
    → IsProved revision evidence d
unfolding problem_with
problem_with-IsProved revision evidence d h = elim (Option-cases (lookup d evidence)) [
  | inl lost ↦ absurd (cc (rw (problem_with, lost) at h))
  | inr (e, found) ↦
      let h₁ = rw (problem_with, found) at h in
      record {
        snapshot = e;
        found = found;
        task = ground (arith, eq_iff e.task_id d);
        revised = ground (arith, eqb_ℤ_iff e.roadmap_revision revision);
        current = ground arith;
      }
]

first_problem-All :
    (revision : ℤ) (evidence : Dict EvidenceSnapshot) (ds : List String)
    → first_problem revision evidence ds ≡ none
    → All (IsProved revision evidence) ds
unfolding first_problem
first_problem-All revision evidence [] h = tt
first_problem-All revision evidence (d ∷ ds) h =
    elim (Option-cases (problem_with revision evidence d)) [
      | inl clear ↦ (
        problem_with-IsProved revision evidence d clear,
        first_problem-All revision evidence ds (rw (first_problem, clear) at h),
      )
      | inr (reason, e) ↦ absurd (cc (rw (first_problem, e) at h))
    ]

-- What an id that is not excluded says of a ready task that bears it.
abbrev Clear : ℤ → Dict EvidenceSnapshot → Dict Score → String → RoadmapTask → Type 0
Clear revision evidence scores id t =
    t.id ≡ id
    → (first_problem revision evidence t.depends_on ≡ none)
      × ((n : ℤ) × (score_of scores id ≡ some n))

exclude-Clear :
    (revision : ℤ) (evidence : Dict EvidenceSnapshot) (scores : Dict Score) (id : String)
    (t : RoadmapTask) (excluded : Dict String)
    → lookup id (exclude revision evidence scores t excluded) ≡ none
    → (lookup id excluded ≡ none) × Clear revision evidence scores id t
unfolding exclude
exclude-Clear revision evidence scores id t excluded h =
    elim (Option-cases (first_problem revision evidence t.depends_on)) [
      | inr (reason, e) ↦ absent_put reason (rw (exclude, e) at h)
      | inl fine ↦
          let h₁ = rw (exclude, fine) at h in
          elim (Option-cases (lookup t.id excluded)) [
            | inr (reason, e) ↦
                let h₂ = rw e at h₁ in
                (h₂, λ same. absurd (cc (e, subst (λ k. lookup k excluded ≡ none) (sym same) h₂)))
            | inl e ↦
                let h₂ = rw e at h₁ in
                elim (Option-cases (score_of scores t.id)) [
                  | inl bad ↦ absent_put "invalid advisory score" (rw bad at h₂)
                  | inr (n, scored) ↦ (
                    rw scored at h₂,
                    λ same. (fine, (n, subst (λ k. score_of scores k ≡ some n) same scored)),
                  )
                ]
          ]
    ]
  where
    absent_put :
        (reason : String)
        → lookup id (put t.id reason excluded) ≡ none
        → (lookup id excluded ≡ none) × Clear revision evidence scores id t
    absent_put reason k = (
      ground (arith, lookup-put t.id id reason excluded),
      λ e. absurd (ground (arith, lookup-put t.id id reason excluded, (eq_iff t.id id).1 e)),
    )

exclude_all-Clear :
    (revision : ℤ) (evidence : Dict EvidenceSnapshot) (scores : Dict Score) (ready : List String)
    (id : String) (tasks : List RoadmapTask) (excluded : Dict String)
    → elem id ready ≡ true
    → lookup id (exclude_all revision evidence scores ready tasks excluded) ≡ none
    → (lookup id excluded ≡ none) × All (Clear revision evidence scores id) tasks
unfolding exclude_all
exclude_all-Clear revision evidence scores ready id [] excluded m h = (h, tt)
exclude_all-Clear revision evidence scores ready id (t ∷ tasks) excluded m h =
    let (before, rest) = exclude_all-Clear revision evidence scores ready id tasks _ m h in
    elim (Bool-cases (elem t.id ready)) [
      | inl r ↦
          let (old, clear) =
            exclude-Clear revision evidence scores id t excluded (rw r at before) in
          (old, (clear, rest))
      | inr other ↦ (
        rw other at before,
        (λ same. absurd (cc (other, subst (λ k. elem k ready ≡ true) (sym same) m)), rest),
      )
    ]

rank_before_total :
    (scores : Dict Score) (a b : String)
    → rank_before scores a b ≡ false
    → rank_before scores b a ≡ true
rank_before_total scores a b h = ground (arith, leb_text_total a b)

rank_before_trans :
    (scores : Dict Score) (a b c : String)
    → rank_before scores a b ≡ true
    → rank_before scores b c ≡ true
    → rank_before scores a c ≡ true
rank_before_trans scores a b c h k = ground (arith, leb_text_trans a b c)

rank_before_refl : (scores : Dict Score) (a : String) → rank_before scores a a ≡ true
rank_before_refl scores a = ground (arith, rank_before_total scores a a)

-- The head of a sorted list is a member of it, and no member is before it.
head-sort :
    (scores : Dict Score) (ids : List String) (id : String)
    → head (sort (rank_before scores) ids) ≡ some id
    → (elem id ids ≡ true) × (all (rank_before scores id) ids ≡ true)
head-sort scores ids id h =
    go (sort (rank_before scores) ids)
      (sort-IsOrdered (rank_before scores) (rank_before_total scores) (rank_before_trans scores)
        ids)
      (elem-sort (rank_before scores) id ids)
      (all-sort (rank_before scores) (rank_before scores id) ids) h
  where
    go :
        (sorted : List String)
        → IsOrdered (rank_before scores) sorted
        → elem id sorted ≡ elem id ids
        → all (rank_before scores id) sorted ≡ all (rank_before scores id) ids
        → head sorted ≡ some id
        → (elem id ids ≡ true) × (all (rank_before scores id) ids ≡ true)
    go [] o m a e = absurd (cc)
    go (x ∷ xs) (first, o) m a e =
        let same : x ≡ id = cc in
        (
          sym m ∙ subst (λ k. elem k (x ∷ xs) ≡ true) same (elem_head x xs),
          sym a
              ∙ subst (λ k. all (rank_before scores k) (x ∷ xs) ≡ true) same
                  (all_of_All (rank_before scores x) (x ∷ xs) (rank_before_refl scores x, first)),
        )

pub elem-keep :
    (p : String → Bool) (id : String) (xs : List String)
    → elem id (keep p xs) ≡ (elem id xs && p id)
unfolding keep elem
elem-keep p id [] = refl
elem-keep p id (x ∷ xs) =
    let same : str_eq id x ≡ true → p x ≡ p id = λ e. ap p (sym ((eq_iff id x).0 e)) in
    ground (arith, same, elem-keep p id xs)

-- Every task of this id has a finite score, and current evidence for all of its dependencies.
abbrev pub Supports : Roadmap → Dict EvidenceSnapshot → Dict Score → String → Type 0
Supports r evidence scores id =
    All
      (λ t.
        t.id ≡ id
        → All (IsProved r.revision evidence) t.depends_on
          × ((n : ℤ) × (score_of scores id ≡ some n)))
      r.tasks

absent_none : (o : Option String) → is_absent o ≡ true → o ≡ none
absent_none o h = ground arith

-- An eligible id is that of a ready task, and has what it needs.
eligible-Supports :
    (r : Roadmap) (evidence : Dict EvidenceSnapshot) (scores : Dict Score) (id : String)
    → elem id (select r evidence scores).eligible_task_ids ≡ true
    → (elem id (task_ids (ready_tasks r)) ≡ true) × Supports r evidence scores id
unfolding select
eligible-Supports r evidence scores id h =
    let ready = task_ids (ready_tasks r) in
    let excluded = exclude_all r.revision evidence scores ready r.tasks [] in
    let both =
      sym (elem-keep (λ i. is_absent (lookup i excluded)) id ready)
      ∙ sym (elem-sort leb_text id (keep (λ i. is_absent (lookup i excluded)) ready))
      ∙ h in
    let (m, a) = &&_true (elem id ready) (is_absent (lookup id excluded)) both in
    let (_, clear) =
      exclude_all-Clear r.revision evidence scores ready id r.tasks [] m (absent_none _ a) in
    (
      m,
      All-map r.tasks
          (λ t c same.
            let (fine, scored) = c same in
            (first_problem-All r.revision evidence t.depends_on fine, scored))
          clear,
    )

-- The selected task is ready, every task of its id has a finite score and, for each dependency,
-- verified evidence with references at the current revision of the roadmap; and no eligible task has
-- a higher score, or the same score and a lower id.
pub select-Supports :
    (r : Roadmap) (evidence : Dict EvidenceSnapshot) (scores : Dict Score) (id : String)
    → (select r evidence scores).selected_task_id ≡ some id
    → (elem id (task_ids (ready_tasks r)) ≡ true)
      × Supports r evidence scores id
      × (all (rank_before scores id) (select r evidence scores).eligible_task_ids ≡ true)
unfolding select
select-Supports r evidence scores id h =
    let (m, best) = head-sort scores (select r evidence scores).eligible_task_ids id h in
    let (ready, supported) = eligible-Supports r evidence scores id m in (ready, supported, best)
