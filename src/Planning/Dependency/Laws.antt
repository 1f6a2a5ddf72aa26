-- ===== src/Planning/Dependency/Laws.antt =====
-- The dependency graph against the roadmap that it was built from.
use pasi_engineering_workspa.Prelude.{
  ◌≡◌, refl, sym, ap, ◌∙◌, subst, Bool, true, false, not, ◌||◌, ◌&&◌, String, str_eq, eq_iff,
  eq_refl, Option, none, some, List, [], ◌∷◌, ◌++◌, keep, all, any, is_empty, arith, Bool-cases,
  Option-cases, inl, inr,
}
use mathlib.Core.List.{append_assoc, append-nil}
use pasi_engineering_workspa.Text.{elem}
use pasi_engineering_workspa.Text.Elem.{elem-append}
use pasi_engineering_workspa.Text.Order.{leb_text}
use pasi_engineering_workspa.Dict.{Dict, lookup, lookup_or, put, lookup_or-put}
use pasi_engineering_workspa.Sort.{sort, insert, map-sort}
use pasi_engineering_workspa.Roadmap.Model.{RoadmapTask}
use pasi_engineering_workspa.Roadmap.Check.{Roadmap, task_ids}
use pasi_engineering_workspa.Roadmap.Ops.{
  is_planned, unlocked, ready_tasks, completed_ids, active_phase_ids,
}
use pasi_engineering_workspa.Planning.Dependency.{
  GraphContents, add_dependent, add_dependents, no_dependents, reverse_of, dedup, missing_of,
  blocked_reason, scan, build_graph,
}

pub is_empty-sort : (xs : List String) → is_empty (sort leb_text xs) ≡ is_empty xs
unfolding sort insert
is_empty-sort [] = refl
is_empty-sort (x ∷ xs) = is_empty-insert (sort leb_text xs)
  where
    is_empty-insert : (ys : List String) → is_empty (insert leb_text x ys) ≡ false
    is_empty-insert [] = refl
    is_empty-insert (y ∷ ys) = ground arith

pub is_empty-dedup : (xs : List String) → is_empty (dedup xs) ≡ is_empty xs
unfolding dedup elem
is_empty-dedup [] = refl
is_empty-dedup (x ∷ []) = refl
is_empty-dedup (x ∷ y ∷ xs) = ground (arith, is_empty-dedup (y ∷ xs))

pub is_empty-keep-not :
    (p : String → Bool) (xs : List String) → is_empty (keep (λ x. not (p x)) xs) ≡ all p xs
unfolding keep all
is_empty-keep-not p [] = refl
is_empty-keep-not p (x ∷ xs) = ground (arith, is_empty-keep-not p xs)

is_none : Option String → Bool
is_none none = true
is_none (some _) = false

is_none-blocked_reason :
    (active completed : List String) (t : RoadmapTask)
    → is_none (blocked_reason active completed t)
      ≡ (elem t.phase_id active && all (λ d. elem d completed) t.depends_on)
unfolding blocked_reason missing_of is_none
is_none-blocked_reason active completed t = ground (
  arith,
  is_empty-sort (dedup (keep (λ d. not (elem d completed)) t.depends_on)),
  is_empty-dedup (keep (λ d. not (elem d completed)) t.depends_on),
  is_empty-keep-not (λ d. elem d completed) t.depends_on,
)

-- The eligible ids are those of the planned tasks without a reason, in their order.
scan-eligible :
    (reason_of : RoadmapTask → Option String) (tasks : List RoadmapTask) (eligible : List String)
    (blocked : Dict String)
    → (scan reason_of tasks (eligible, blocked)).0
      ≡ eligible ++ task_ids (keep (λ t. is_planned t.status && is_none (reason_of t)) tasks)
unfolding scan keep is_none
scan-eligible reason_of [] eligible blocked = sym (append-nil eligible)
scan-eligible reason_of (t ∷ tasks) eligible blocked = elim (Bool-cases (is_planned t.status)) [
  | inr other ↦ rw (scan, other) (scan-eligible reason_of tasks eligible blocked)
  | inl planned ↦ elim (Option-cases (reason_of t)) [
    | inr (reason, e) ↦
        rw (scan, planned, e) (scan-eligible reason_of tasks eligible (put t.id reason blocked))
    | inl e ↦
        rw (scan, planned, e)
          (scan-eligible reason_of tasks (eligible ++ (t.id ∷ [])) blocked
            ∙ append_assoc eligible (t.id ∷ []) _)
  ]
]

keep-cong :
    (p q : RoadmapTask → Bool) (tasks : List RoadmapTask)
    → ((t : RoadmapTask) → p t ≡ q t)
    → keep p tasks ≡ keep q tasks
unfolding keep
keep-cong p q [] h = refl
keep-cong p q (t ∷ tasks) h = ground (arith, h t, keep-cong p q tasks h)

-- The eligible tasks of the graph are exactly the ready tasks of the roadmap, in the same order.
pub eligible-ready_tasks :
    (digest : GraphContents → String) (r : Roadmap)
    → (build_graph digest r).eligible_task_ids ≡ task_ids (ready_tasks r)
unfolding build_graph ready_tasks
eligible-ready_tasks digest r =
    let reason_of = blocked_reason (active_phase_ids r.phases) (completed_ids r.tasks) in
    ap (sort leb_text) (
      scan-eligible reason_of r.tasks [] []
      ∙ ap task_ids (
          keep-cong _ (λ t. is_planned t.status && unlocked r t) r.tasks
            λ t.
              ap (λ b. is_planned t.status && b)
                (is_none-blocked_reason (active_phase_ids r.phases) (completed_ids r.tasks) t
                  ∙ unfold unlocked in refl)))
    ∙ sym (map-sort (λ t. t.id) leb_text _)

elem_single :
    (y i : String) (l : List String)
    → (elem y l || elem y (i ∷ [])) ≡ (elem y l || (str_eq y i && true))
unfolding elem
elem_single y i l = ground arith

one_more :
    (id e d x : String) (reverse : Dict (List String))
    → elem x (lookup_or d [] (put e (lookup_or e [] reverse ++ (id ∷ [])) reverse))
      ≡ (elem x (lookup_or d [] reverse) || (str_eq x id && str_eq d e))
one_more id e d x reverse =
    let listed = lookup_or e [] reverse in
    ap (elem x) (lookup_or-put e d (listed ++ (id ∷ [])) [] reverse)
    ∙ (elim (Bool-cases (str_eq e d)) [
      | inl same ↦ rw same (
          subst
            (λ k.
              elem x (listed ++ (id ∷ []))
              ≡ (elem x (lookup_or k [] reverse) || (str_eq x id && str_eq k e)))
            ((eq_iff e d).0 same)
            (elem-append x listed (id ∷ [])
              ∙ elem_single x id listed
              ∙ ap (λ b. elem x listed || (str_eq x id && b)) (sym (eq_refl e))))
      | inr other ↦ rw other (ground (arith, eq_iff e d, eq_iff d e, other))
    ])

regroup : (p a s b c : Bool) → p ≡ (a || (s && b)) → (p || (s && c)) ≡ (a || (s && (b || c)))
regroup p a s b c h = ground arith

add_dependent-elem :
    (id : String) (ds : List String) (reverse : Dict (List String)) (d x : String)
    → elem x (lookup_or d [] (add_dependent id ds reverse))
      ≡ (elem x (lookup_or d [] reverse) || (str_eq x id && elem d ds))
unfolding add_dependent elem
add_dependent-elem id [] reverse d x = ground arith
add_dependent-elem id (e ∷ ds) reverse d x =
    add_dependent-elem id ds (put e (lookup_or e [] reverse ++ (id ∷ [])) reverse) d x
    ∙ regroup _ _ (str_eq x id) (str_eq d e) (elem d ds) (one_more id e d x reverse)

or_assoc : (a b c : Bool) → ((a || b) || c) ≡ (a || (b || c))
or_assoc a b c = ground arith

add_dependents-elem :
    (tasks : List RoadmapTask) (reverse : Dict (List String)) (d x : String)
    → elem x (lookup_or d [] (add_dependents tasks reverse))
      ≡ (elem x (lookup_or d [] reverse) || any (λ t. str_eq x t.id && elem d t.depends_on) tasks)
unfolding add_dependents any
add_dependents-elem [] reverse d x = ground arith
add_dependents-elem (t ∷ tasks) reverse d x =
    add_dependents-elem tasks (add_dependent t.id t.depends_on reverse) d x
    ∙ ap (λ b. b || any (λ u. str_eq x u.id && elem d u.depends_on) tasks)
        (add_dependent-elem t.id t.depends_on reverse d x)
    ∙ or_assoc (elem x (lookup_or d [] reverse)) (str_eq x t.id && elem d t.depends_on)
        (any (λ u. str_eq x u.id && elem d u.depends_on) tasks)

no_dependents-elem :
    (tasks : List RoadmapTask) (made : Dict (List String)) (d x : String)
    → elem x (lookup_or d [] made) ≡ false
    → elem x (lookup_or d [] (no_dependents made tasks)) ≡ false
unfolding no_dependents elem
no_dependents-elem [] made d x h = h
no_dependents-elem (t ∷ tasks) made d x h = no_dependents-elem tasks (put t.id [] made) d x (
    ap (elem x) (lookup_or-put t.id d [] [] made)
    ∙ (elim (Bool-cases (str_eq t.id d)) [ inl e ↦ rw e refl | inr e ↦ rw e h ]))

-- A task is listed among the dependents of `d` exactly where it depends on `d`.
pub elem-reverse_of :
    (tasks : List RoadmapTask) (d x : String)
    → elem x (lookup_or d [] (reverse_of tasks))
      ≡ any (λ t. str_eq x t.id && elem d t.depends_on) tasks
unfolding reverse_of lookup elem
elem-reverse_of tasks d x =
    rw
      (add_dependents-elem tasks (no_dependents [] tasks) d x, no_dependents-elem tasks [] d x refl)
      refl
