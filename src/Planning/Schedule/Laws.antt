-- ===== src/Planning/Schedule/Laws.antt =====
-- What a schedule holds.
use pasi_engineering_workspa.Prelude.{
  ℤ, pos, ◌+ℤ◌, ◌-ℤ◌, ◌≤ℤ◌, int_laws, ◌≡◌, refl, sym, ap, ◌∙◌, subst, true, false, ◌||◌, String,
  str_eq, eq_iff, some, List, [], ◌∷◌, All, All-append, arith, Bool-cases, Option-cases, inl, inr,
}
use pasi_engineering_workspa.Text.{elem}
use pasi_engineering_workspa.Text.Order.{leb_text}
use pasi_engineering_workspa.Text.Elem.{elem-sort, elem_head, elem_tail}
use pasi_engineering_workspa.Dict.{Dict, lookup, put}
use pasi_engineering_workspa.Sort.{sort, sort-All}
use pasi_engineering_workspa.Roadmap.Check.{Roadmap, task_ids}
use pasi_engineering_workspa.Roadmap.Ops.{ready_tasks}
use pasi_engineering_workspa.Planning.Dependency.{dedup}
use pasi_engineering_workspa.Planning.Selection.{Score, score_of}
use pasi_engineering_workspa.Planning.Schedule.{
  Resources, ScheduledTask, candidates_of, candidate_before, exceeds, remaining, pack, schedule,
}

abbrev pub total : (Resources → ℤ) → List ScheduledTask → ℤ
total what [] = pos 0
total what (c ∷ cs) = what c.estimate +ℤ total what cs

take_one : (left e rest : ℤ) → e ≤ℤ left → rest ≤ℤ (left -ℤ e) → (e +ℤ rest) ≤ℤ left
take_one left e rest h k = omega (int_laws, h, k)

left_over : (left e : ℤ) → e ≤ℤ left → pos 0 ≤ℤ (left -ℤ e)
left_over left e h = omega (int_laws, h)

fits :
    (left e : Resources)
    → exceeds e left ≡ false
    → (e.cpu_millicores ≤ℤ left.cpu_millicores) × (e.memory_mb ≤ℤ left.memory_mb)
fits left e h = (ground arith, ground arith)

pack-bounded :
    (minus : ℤ → ℤ → ℤ) (left : Resources) (cs : List ScheduledTask) (excluded : Dict String)
    → pos 0 ≤ℤ left.cpu_millicores
    → pos 0 ≤ℤ left.memory_mb
    → (total (λ e. e.cpu_millicores) (pack minus left cs excluded).1 ≤ℤ left.cpu_millicores)
      × (total (λ e. e.memory_mb) (pack minus left cs excluded).1 ≤ℤ left.memory_mb)
unfolding pack
pack-bounded minus left [] excluded c m = (c, m)
pack-bounded minus left (t ∷ cs) excluded c m = elim (Bool-cases (exceeds t.estimate left)) [
  | inl above ↦
      rw (pack, above) (pack-bounded minus left cs (put t.task_id "capacity exceeded" excluded) c m)
  | inr below ↦
      let (cpu, memory) = fits left t.estimate below in
      let (h, k) =
        pack-bounded minus (remaining minus left t.estimate) cs excluded
          (left_over left.cpu_millicores t.estimate.cpu_millicores cpu)
          (left_over left.memory_mb t.estimate.memory_mb memory) in
      rw (pack, below)
        (
          take_one left.cpu_millicores t.estimate.cpu_millicores _ cpu h,
          take_one left.memory_mb t.estimate.memory_mb _ memory k,
        )
]

-- The tasks of a schedule together stay within a capacity that is not negative, in processors and in
-- memory.
pub schedule-bounded :
    (minus : ℤ → ℤ → ℤ) (r : Roadmap) (estimates : Dict Resources) (capacity : Resources)
    (priorities : Dict Score)
    → pos 0 ≤ℤ capacity.cpu_millicores
    → pos 0 ≤ℤ capacity.memory_mb
    → (total (λ e. e.cpu_millicores) (schedule minus r estimates capacity priorities).scheduled
        ≤ℤ capacity.cpu_millicores)
      × (total (λ e. e.memory_mb) (schedule minus r estimates capacity priorities).scheduled
          ≤ℤ capacity.memory_mb)
unfolding schedule
schedule-bounded minus r estimates capacity priorities c m = pack-bounded minus capacity _ _ c m

-- A task that may be scheduled.
pub record IsCandidate (estimates : Dict Resources) (priorities : Dict Score) (ready : List String)
    (c : ScheduledTask) : Type 0 where
  pub is_ready : elem c.task_id ready ≡ true
  pub estimated : lookup c.task_id estimates ≡ some c.estimate
  pub rated : score_of priorities c.task_id ≡ some c.advisory_priority

elem_again :
    (x y : String) (ys : List String) → elem y ys ≡ true → elem x ys ≡ (str_eq x y || elem x ys)
elem_again x y ys h =
    let same : str_eq x y ≡ true → elem x ys ≡ true =
      λ s. subst (λ k. elem k ys ≡ true) (sym ((eq_iff x y).0 s)) h in
    ground (arith, same)

pub elem-dedup : (x : String) (xs : List String) → elem x (dedup xs) ≡ elem x xs
unfolding dedup elem
elem-dedup x [] = refl
elem-dedup x (y ∷ ys) = elim (Bool-cases (elem y ys)) [
  | inl old ↦ rw old (elem-dedup x ys ∙ elem_again x y ys old)
  | inr new ↦ rw new (ap (λ b. str_eq x y || b) (elem-dedup x ys))
]

candidates_of-All :
    (estimates : Dict Resources) (priorities : Dict Score) (ready ids : List String)
    (excluded : Dict String) (candidates : List ScheduledTask)
    → ((x : String) → elem x ids ≡ true → elem x ready ≡ true)
    → All (IsCandidate estimates priorities ready) candidates
    → All
        (IsCandidate estimates priorities ready)
        (candidates_of estimates priorities ids (excluded, candidates)).1
unfolding candidates_of
candidates_of-All estimates priorities ready [] excluded candidates s a = a
candidates_of-All estimates priorities ready (id ∷ ids) excluded candidates s a =
    let later : (x : String) → elem x ids ≡ true → elem x ready ≡ true =
      λ x m. s x (elem_tail x id ids m) in
    elim (Option-cases (lookup id estimates)) [
      | inl lost ↦
          rw (candidates_of, lost)
            (candidates_of-All estimates priorities ready ids
              (put id "missing resource estimate" excluded) candidates later a)
      | inr (estimate, found) ↦ elim (Option-cases (score_of priorities id)) [
        | inl bad ↦
            rw (candidates_of, found, bad)
              (candidates_of-All estimates priorities ready ids
                (put id "invalid advisory priority" excluded) candidates later a)
        | inr (priority, rated) ↦
            rw (candidates_of, found, rated)
              (candidates_of-All estimates priorities ready ids excluded _ later (
                All-append (IsCandidate estimates priorities ready) candidates _ a (
                  record { is_ready = s id (elem_head id ids); estimated = found; rated = rated },
                  tt,
                )))
      ]
    ]

pack-All :
    (P : ScheduledTask → Type 0) (minus : ℤ → ℤ → ℤ) (left : Resources) (cs : List ScheduledTask)
    (excluded : Dict String)
    → All P cs
    → All P (pack minus left cs excluded).1
unfolding pack
pack-All P minus left [] excluded a = tt
pack-All P minus left (c ∷ cs) excluded (p, a) = elim (Bool-cases (exceeds c.estimate left)) [
  | inl above ↦
      rw (pack, above) (pack-All P minus left cs (put c.task_id "capacity exceeded" excluded) a)
  | inr below ↦
      rw (pack, below) (p, pack-All P minus (remaining minus left c.estimate) cs excluded a)
]

-- Every task of a schedule is ready, and bears its own estimate and its own finite priority.
pub schedule-IsCandidate :
    (minus : ℤ → ℤ → ℤ) (r : Roadmap) (estimates : Dict Resources) (capacity : Resources)
    (priorities : Dict Score)
    → All
        (IsCandidate estimates priorities (task_ids (ready_tasks r)))
        (schedule minus r estimates capacity priorities).scheduled
unfolding schedule
schedule-IsCandidate minus r estimates capacity priorities =
    let ids = task_ids (ready_tasks r) in
    let P = IsCandidate estimates priorities ids in
    pack-All P minus capacity _ _ (
      sort-All candidate_before P _ (
        candidates_of-All estimates priorities ids (sort leb_text (dedup ids)) [] []
          (λ x m. sym (elem-dedup x ids) ∙ sym (elem-sort leb_text x (dedup ids)) ∙ m) tt))
