-- ===== src/Roadmap/Children/Laws.antt =====
-- What is generated is accepted by the roadmap.
use Prim.Native.String.{◌++◌ as text_append}
use pasi_engineering_workspa.Prelude.{
  ℕ, ℤ, pos, ltb_ℤ, ◌+◌, ◌≡◌, refl, ap, ◌∙◌, sym, subst, Bool, true, false, not, String, ok,
  >>=-eq-ok, raise_if->>=-eq-ok, map_err, map_err-eq-ok, ok-injective, Option, List, [], ◌∷◌, ◌++◌,
  length, All, arith, ◌==◌, suc,
}
use pasi_engineering_workspa.Sort.{All-map}
use pasi_engineering_workspa.Json.{Value, Items, obj, arr, str, int, float, bool, null, item, last}
use pasi_engineering_workspa.Roadmap.Model.{RoadmapTask, check_task}
use pasi_engineering_workspa.Roadmap.Check.{Roadmap, Digest, task_ids}
use pasi_engineering_workspa.Roadmap.Ops.{find_task, add_child_tasks}
use pasi_engineering_workspa.Roadmap.Ops.Lifecycle.{is_started, IsHonest}
use pasi_engineering_workspa.Roadmap.Ops.Grow.{IsGrowth, add_child_tasks_lem, IsGrowth-IsHonest}
use pasi_engineering_workspa.Roadmap.Children.{
  ChildError, starts_with, count_items, parse_candidate, child_task, next_child, new_children,
  check_scope, children_array, generate,
}

-- The child is in the namespace of its parent and is not started.
pub record IsGenerated (parent c : RoadmapTask) : Type 0 where
  pub namespace : starts_with (text_append parent.id ".") c.id ≡ true
  pub not_started : is_started c.status ≡ false

not-false : (b : Bool) → not b ≡ false → b ≡ true
not-false true h = refl
not-false false h = cc

module _ (text_of : Value → String) where
  next_child-IsGenerated :
      (parent : RoadmapTask) (existing generated : List String) (raw : Value) {c : RoadmapTask}
      → next_child text_of parent existing generated raw ≡ ok c
      → IsGenerated parent c
  unfolding next_child child_task
  next_child-IsGenerated parent existing generated (obj raw) h =
      let (candidate, _, h₁) = >>=-eq-ok (parse_candidate text_of raw parent) _ h in
      let (_, h₂) = raise_if->>=-eq-ok _ _ _ h₁ in
      let (inside, h₃) =
        raise_if->>=-eq-ok (not (starts_with (text_append parent.id ".") candidate.id)) _ _ h₂ in
      let (_, _, h₄) =
        >>=-eq-ok (map_err ChildError.raised (check_task (child_task parent candidate))) _ h₃ in
      subst (IsGenerated parent) (ok-injective h₄)
        (record { namespace = not-false _ inside; not_started = refl })
  next_child-IsGenerated parent existing generated (arr x) h = absurd (cc)
  next_child-IsGenerated parent existing generated (str x) h = absurd (cc)
  next_child-IsGenerated parent existing generated (int x) h = absurd (cc)
  next_child-IsGenerated parent existing generated (float x) h = absurd (cc)
  next_child-IsGenerated parent existing generated (bool x) h = absurd (cc)
  next_child-IsGenerated parent existing generated null h = absurd (cc)

  new_children-All :
      (parent : RoadmapTask) (existing generated : List String) (items : Items)
      {children : List RoadmapTask}
      → new_children text_of parent existing generated items ≡ ok children
      → All (IsGenerated parent) children × (length children ≡ count_items items)
  unfolding new_children count_items
  new_children-All parent existing generated last {children} h =
      subst (λ cs. All (IsGenerated parent) cs × (length cs ≡ 0)) (ok-injective h) (tt, refl)
  new_children-All parent existing generated (item raw items) {children} h =
      let (c, here, h₁) = >>=-eq-ok (next_child text_of parent existing generated raw) _ h in
      let (cs, later, h₂) =
        >>=-eq-ok (new_children text_of parent existing (c.id ∷ generated) items) _ h₁ in
      let (all_later, counted) = new_children-All parent existing (c.id ∷ generated) items later in
      subst (λ ds. All (IsGenerated parent) ds × (length ds ≡ count_items items + 1))
        (ok-injective h₂)
        (
          (next_child-IsGenerated parent existing generated raw here, all_later),
          one_more (length cs) (count_items items) counted,
        )
    where
      one_more : (n m : ℕ) → n ≡ m → suc n ≡ m + 1
      one_more n m e = omega arith

  -- Whatever the model answers, the tasks that the generator returns are at most as many as its limit,
  -- lie in the namespace of the parent that was asked for, and are not started; the roadmap accepts
  -- them as children of this parent, and with them is well formed, and honest where it was.
  pub generate_lem :
      (digest : Digest) (max_children : ℤ) (r : Roadmap) (id : String) (answer : Option Value)
      {children : List RoadmapTask}
      → generate text_of digest max_children r id answer ≡ ok children
      → (parent : RoadmapTask) × (after : Roadmap) × (find_task id r.tasks ≡ ok parent)
        × (add_child_tasks digest r parent.id children ≡ ok after)
        × (ltb_ℤ max_children (pos (length children)) ≡ false)
        × All (IsGenerated parent) children
        × IsGrowth r children after
        × (IsHonest r.tasks → IsHonest after.tasks)
  unfolding generate
  generate_lem digest max_children r id answer {children} h =
      let (parent, found, h₁) = >>=-eq-ok (map_err ChildError.raised (find_task id r.tasks)) _ h in
      let (items, _, h₂) = >>=-eq-ok (children_array answer) _ h₁ in
      let (_, h₃) = raise_if->>=-eq-ok (count_items items == 0) _ _ h₂ in
      let (few, h₄) = raise_if->>=-eq-ok (ltb_ℤ max_children (pos (count_items items))) _ _ h₃ in
      let (cs, generated, h₅) =
        >>=-eq-ok (new_children text_of parent (task_ids r.tasks) [] items) _ h₄ in
      let (_, _, h₆) = >>=-eq-ok (check_scope (task_ids r.tasks ++ task_ids cs) cs) _ h₅ in
      let (after, added, h₇) =
        >>=-eq-ok (map_err ChildError.refused (add_child_tasks digest r parent.id cs)) _ h₆ in
      let same : cs ≡ children = ok-injective h₇ in
      let (each, counted) = new_children-All parent (task_ids r.tasks) [] items generated in
      let accepted : add_child_tasks digest r parent.id children ≡ ok after =
        ap (add_child_tasks digest r parent.id) (sym same)
        ∙ map_err-eq-ok ChildError.refused (add_child_tasks digest r parent.id cs) added in
      let growth = (add_child_tasks_lem digest r parent.id children accepted).1 in
      let all_generated : All (IsGenerated parent) children =
        subst (All (IsGenerated parent)) same each in
      (
        parent,
        after,
        map_err-eq-ok ChildError.raised (find_task id r.tasks) found,
        accepted,
        ap (λ n. ltb_ℤ max_children (pos n)) (ap length (sym same) ∙ counted) ∙ few,
        all_generated,
        growth,
        λ honest.
            IsGrowth-IsHonest growth (All-map children (λ c g. g.not_started) all_generated) honest,
      )
