-- ===== src/Planning/Schedule/Cover.antt =====
-- No ready task is lost: a schedule holds it or says why it does not.
use pasi_engineering_workspa.Prelude.{
  ℤ, ◌≡◌, refl, sym, ap, ◌∙◌, Bool, ◌||◌, String, str_eq, eq_iff, List, [], ◌∷◌, ◌++◌, map, any,
  arith, Bool-cases, Option-cases, inl, inr,
}
use pasi_engineering_workspa.Text.{elem}
use pasi_engineering_workspa.Text.Order.{leb_text}
use pasi_engineering_workspa.Text.Elem.{elem-sort}
use pasi_engineering_workspa.Dict.{Dict, lookup, put}
use pasi_engineering_workspa.Sort.{sort, any-sort, map-sort}
use pasi_engineering_workspa.Roadmap.Check.{Roadmap, task_ids}
use pasi_engineering_workspa.Roadmap.Ops.{ready_tasks}
use pasi_engineering_workspa.Planning.Dependency.{dedup}
use pasi_engineering_workspa.Planning.Selection.{Score, score_of}
use pasi_engineering_workspa.Planning.Schedule.{
  Resources, ScheduledTask, candidates_of, candidate_before, exceeds, remaining, pack, schedule,
}
use pasi_engineering_workspa.Planning.Schedule.Laws.{elem-dedup}

abbrev pub keys : Dict String → List String
keys d = map (λ (e : String × String). e.0) d

abbrev pub names : List ScheduledTask → List String
names cs = map (λ c. c.task_id) cs

elem-keys-put :
    (id k v : String) (d : Dict String)
    → elem id (keys (put k v d)) ≡ (str_eq id k || elem id (keys d))
unfolding put elem
elem-keys-put id k v [] = refl
elem-keys-put id k v ((i, w) ∷ d) = ground (arith, eq_iff i k, elem-keys-put id k v d)

elem-names :
    (id : String) (cs : List ScheduledTask) → elem id (names cs) ≡ any (λ c. str_eq id c.task_id) cs
unfolding elem any
elem-names id [] = refl
elem-names id (c ∷ cs) = ap (λ b. str_eq id c.task_id || b) (elem-names id cs)

-- The id is excluded or a candidate.
abbrev covered : String → Dict String × List ScheduledTask → Bool
covered id made = elem id (keys made.0) || elem id (names made.1)

names-append : (cs ds : List ScheduledTask) → names (cs ++ ds) ≡ names cs ++ names ds
names-append [] ds = refl
names-append (c ∷ cs) ds = ap (λ l. c.task_id ∷ l) (names-append cs ds)

shuffle : (e s c : Bool) → (e || (s || c)) ≡ ((s || e) || c)
shuffle e s c = ground arith

covered-put :
    (id k v : String) (excluded : Dict String) (cs : List ScheduledTask)
    → covered id (put k v excluded, cs) ≡ (str_eq id k || covered id (excluded, cs))
covered-put id k v excluded cs =
    ap (λ b. b || elem id (names cs)) (elem-keys-put id k v excluded)
    ∙ sym (shuffle_left (str_eq id k) (elem id (keys excluded)) (elem id (names cs)))
  where
    shuffle_left : (a b c : Bool) → (a || (b || c)) ≡ ((a || b) || c)
    shuffle_left a b c = ground arith

covered-cons :
    (id : String) (excluded : Dict String) (c : ScheduledTask) (cs : List ScheduledTask)
    → covered id (excluded, c ∷ cs) ≡ (str_eq id c.task_id || covered id (excluded, cs))
unfolding elem
covered-cons id excluded c cs = ground arith

elem-end : (id i : String) (l : List String) → elem id (l ++ (i ∷ [])) ≡ (str_eq id i || elem id l)
unfolding elem
elem-end id i [] = refl
elem-end id i (x ∷ l) = ground (arith, elem-end id i l)

covered-end :
    (id : String) (excluded : Dict String) (c : ScheduledTask) (cs : List ScheduledTask)
    → covered id (excluded, cs ++ (c ∷ [])) ≡ (str_eq id c.task_id || covered id (excluded, cs))
covered-end id excluded c cs =
    ap (λ l. elem id (keys excluded) || elem id l) (names-append cs (c ∷ []))
    ∙ ap (λ b. elem id (keys excluded) || b) (elem-end id c.task_id (names cs))
    ∙ swap (elem id (keys excluded)) (str_eq id c.task_id) (elem id (names cs))
  where
    swap : (a b c : Bool) → (a || (b || c)) ≡ (b || (a || c))
    swap a b c = ground arith

candidates_of-covered :
    (id : String) (estimates : Dict Resources) (priorities : Dict Score) (ids : List String)
    (excluded : Dict String) (cs : List ScheduledTask)
    → covered id (candidates_of estimates priorities ids (excluded, cs))
      ≡ (elem id ids || covered id (excluded, cs))
unfolding candidates_of elem
candidates_of-covered id estimates priorities [] excluded cs = refl
candidates_of-covered id estimates priorities (i ∷ ids) excluded cs =
    step _ (elim (Option-cases (lookup i estimates)) [
      | inl lost ↦
          rw (candidates_of, lost)
            (candidates_of-covered id estimates priorities ids _ cs
              ∙ ap (λ b. elem id ids || b)
                  (covered-put id i "missing resource estimate" excluded cs))
      | inr (estimate, found) ↦ elim (Option-cases (score_of priorities i)) [
        | inl bad ↦
            rw (candidates_of, found, bad)
              (candidates_of-covered id estimates priorities ids _ cs
                ∙ ap (λ b. elem id ids || b)
                    (covered-put id i "invalid advisory priority" excluded cs))
        | inr (priority, rated) ↦
            rw (candidates_of, found, rated)
              (candidates_of-covered id estimates priorities ids excluded _
                ∙ ap (λ b. elem id ids || b)
                    (covered-end id excluded
                      (record { task_id = i; estimate = estimate; advisory_priority = priority })
                      cs))
      ]
    ])
  where
    step :
        (b : Bool)
        → b ≡ (elem id ids || (str_eq id i || covered id (excluded, cs)))
        → b ≡ ((str_eq id i || elem id ids) || covered id (excluded, cs))
    step b h = h ∙ shuffle (elem id ids) (str_eq id i) (covered id (excluded, cs))

pack-covered :
    (id : String) (minus : ℤ → ℤ → ℤ) (left : Resources) (cs : List ScheduledTask)
    (excluded : Dict String)
    → covered id (pack minus left cs excluded) ≡ covered id (excluded, cs)
unfolding pack
pack-covered id minus left [] excluded = refl
pack-covered id minus left (c ∷ cs) excluded = elim (Bool-cases (exceeds c.estimate left)) [
  | inl above ↦
      rw (pack, above)
        (pack-covered id minus left cs (put c.task_id "capacity exceeded" excluded)
          ∙ covered-put id c.task_id "capacity exceeded" excluded cs
          ∙ sym (covered-cons id excluded c cs))
  | inr below ↦
      let rest = pack minus (remaining minus left c.estimate) cs excluded in
      rw (pack, below)
        (covered-cons id rest.0 c rest.1
          ∙ ap (λ b. str_eq id c.task_id || b)
              (pack-covered id minus (remaining minus left c.estimate) cs excluded)
          ∙ sym (covered-cons id excluded c cs))
]

or_nothing : (id : String) (b : Bool) → (b || covered id ([], [])) ≡ b
unfolding elem
or_nothing id b = ground arith

-- A schedule holds or excludes exactly the ready tasks: an id stands among the scheduled tasks or
-- among the exclusions where it is that of a ready task, and nowhere else.
pub schedule-covered :
    (minus : ℤ → ℤ → ℤ) (r : Roadmap) (estimates : Dict Resources) (capacity : Resources)
    (priorities : Dict Score) (id : String)
    → (elem id (keys (schedule minus r estimates capacity priorities).excluded)
        || elem id (names (schedule minus r estimates capacity priorities).scheduled))
      ≡ elem id (task_ids (ready_tasks r))
unfolding schedule
schedule-covered minus r estimates capacity priorities id =
    let ids = task_ids (ready_tasks r) in
    let ready = sort leb_text (dedup ids) in
    let found = candidates_of estimates priorities ready ([], []) in
    let packed = pack minus capacity (sort candidate_before found.1) found.0 in
    ap (λ b. b || elem id (names packed.1))
      (ap (elem id) (map-sort (λ (e : String × String). e.0) leb_text packed.0)
        ∙ elem-sort leb_text id (keys packed.0))
    ∙ pack-covered id minus capacity (sort candidate_before found.1) found.0
    ∙ ap (λ b. elem id (keys found.0) || b)
        (elem-names id (sort candidate_before found.1)
          ∙ any-sort candidate_before (λ c. str_eq id c.task_id) found.1
          ∙ sym (elem-names id found.1))
    ∙ candidates_of-covered id estimates priorities ready [] []
    ∙ or_nothing id (elem id ready)
    ∙ elem-sort leb_text id (dedup ids)
    ∙ elem-dedup id ids
