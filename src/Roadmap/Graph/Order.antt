-- ===== src/Roadmap/Graph/Order.antt =====
-- A search that succeeds has put every node behind its dependencies, and then there is no cycle.
use pasi_engineering_workspa.Prelude.{
  ℕ, zero, suc, ◌≡◌, ◌∙◌, ap, true, inl, inr, String, ok, some, List, [], ◌∷◌, length, >>=-eq-ok,
  ok-injective, Bool-cases, Option-cases, subst,
}
use pasi_engineering_workspa.Text.{elem, subset}
use pasi_engineering_workspa.Text.Elem.{
  elem_head, elem_tail, elem_cons, not-elem_nil, elem-subset, subset_nil, subset_cons,
}
use pasi_engineering_workspa.Dict.{lookup}
use pasi_engineering_workspa.Roadmap.Graph.{Graph, Visit, visit_each, visit, nodes, assert_acyclic}

pub record Edge (g : Graph) (a b : String) : Type 0 where
  pub deps : List String
  pub found : lookup a g ≡ some deps
  pub member : elem b deps ≡ true

Edge-member :
    (g : Graph) {a b : String} {deps : List String}
    → Edge g a b
    → lookup a g ≡ some deps
    → elem b deps ≡ true
Edge-member g {a} {b} {deps} e found =
    subst (λ (l : List String). elem b l ≡ true) {x = e.deps} {y = deps} (cc (e.found, found))
      e.member

-- One edge or more.
pub data Walk (g : Graph) : String → String → Type 0 where
  one : {a b : String} → Edge g a b → Walk g a b
  more : {a b c : String} → Edge g a b → Walk g b c → Walk g a c

-- Each node's dependencies stand further on in the list.
abbrev pub IsTopological : Graph → List String → Type 0
IsTopological g [] = Unit
IsTopological g (n ∷ rest) =
    ((deps : List String) × (lookup n g ≡ some deps) × (subset deps rest ≡ true))
    × IsTopological g rest

abbrev pub IsAcyclic : Graph → Type 0
IsAcyclic g = (a : String) → ¬ Walk g a a

-- What a visit that returns makes of the visited nodes.
pub record IsGrown (g : Graph) (before after : List String) : Type 0 where
  pub topological : IsTopological g after
  pub kept : (x : String) → elem x before ≡ true → elem x after ≡ true

IsGrown-trans : {g : Graph} {a b c : List String} → IsGrown g a b → IsGrown g b c → IsGrown g a c
IsGrown-trans p q = record { topological = q.topological; kept = λ x m. q.kept x (p.kept x m) }

abbrev Sound : Graph → Visit → Type 0
Sound g v =
    (visited : List String) (node : String) (after : List String)
    → IsTopological g visited
    → v visited node ≡ ok after
    → IsGrown g visited after × (elem node after ≡ true)

visit_each-Sound :
    (g : Graph) (v : Visit) (sound : Sound g v) (visited ds after : List String)
    → IsTopological g visited
    → visit_each v visited ds ≡ ok after
    → IsGrown g visited after × (subset ds after ≡ true)
unfolding visit_each
visit_each-Sound g v sound visited [] after t h = (
  subst (IsGrown g visited) (ok-injective h) (record { topological = t; kept = λ x m. m }),
  subset_nil after,
)
visit_each-Sound g v sound visited (d ∷ ds) after t h =
    let (middle, first, rest) = >>=-eq-ok (v visited d) _ h in
    let (grown, member) = sound visited d middle t first in
    let (grown', members) = visit_each-Sound g v sound middle ds after grown.topological rest in
    (IsGrown-trans grown grown', subset_cons d ds after (grown'.kept d member) members)

-- The new node is put in front of its dependencies.
placed :
    (g : Graph) (visited middle : List String) (node : String) (deps : List String)
    → lookup node g ≡ some deps
    → IsGrown g visited middle
    → subset deps middle ≡ true
    → IsGrown g visited (node ∷ middle) × (elem node (node ∷ middle) ≡ true)
placed g visited middle node deps found grown s = (
  record {
    topological = ((deps, found, s), grown.topological);
    kept = λ x m. elem_tail x node middle (grown.kept x m);
  },
  elem_head node middle,
)

visit-Sound : (g : Graph) (depth : ℕ) (visiting : List String) → Sound g (visit depth g visiting)
unfolding visit
visit-Sound g zero visiting visited node after t h = cc
visit-Sound g (suc depth) visiting visited node after t h = elim (Bool-cases (elem node visiting)) [
  | inl open_ ↦ cc (rw (open_, visit) at h)
  | inr new ↦
      let h₁ = rw (new, visit) at h in
      elim (Bool-cases (elem node visited)) [
        | inl old ↦
            let same = ok-injective (rw old at h₁) in
            subst (λ l. IsGrown g visited l × (elem node l ≡ true)) same
              (record { topological = t; kept = λ x m. m }, old)
        | inr fresh ↦
            let h₂ = rw fresh at h₁ in
            elim (Option-cases (lookup node g)) [
              | inl lost ↦ cc (rw lost at h₂)
              | inr (deps, found) ↦
                  let (middle, each, end) =
                    >>=-eq-ok (visit_each (visit depth g (node ∷ visiting)) visited deps) _
                      (rw found at h₂) in
                  let (grown, s) =
                    visit_each-Sound g _ (visit-Sound g depth (node ∷ visiting)) visited deps middle
                      t each in
                  subst (λ l. IsGrown g visited l × (elem node l ≡ true)) (ok-injective end)
                    (placed g visited middle node deps found grown s)
            ]
      ]
]

-- A search that returns has listed every node of the graph behind what it depends on.
pub assert_acyclic_sound :
    (g : Graph) (order : List String)
    → assert_acyclic g ≡ ok order
    → IsTopological g order × (subset (nodes g) order ≡ true)
unfolding assert_acyclic
assert_acyclic_sound g order h =
    let (grown, all_) =
      visit_each-Sound g _ (visit-Sound g (suc (length (nodes g))) []) [] (nodes g) order tt h in
    (grown.topological, all_)

-- What a placed node depends on is placed.
topological_closed :
    (g : Graph) (order : List String) {a b : String}
    → IsTopological g order
    → Edge g a b
    → elem a order ≡ true
    → elem b order ≡ true
topological_closed g [] t e m = absurd (not-elem_nil _ m)
topological_closed g (n ∷ rest) {a} {b} ((deps, found, s), t) e m =
    elem_tail b n rest (elim (elem_cons a n rest m) [
      | inl here ↦ elem-subset b deps rest s (Edge-member g e (ap (λ x. lookup x g) here ∙ found))
      | inr later ↦ topological_closed g rest t e later
    ])

topological_reach :
    (g : Graph) (order : List String) {a b : String}
    → IsTopological g order
    → Walk g a b
    → elem a order ≡ true
    → elem b order ≡ true
topological_reach g order t (one e) m = topological_closed g order t e m
topological_reach g order t (more e w) m =
    topological_reach g order t w (topological_closed g order t e m)

-- The first step from the front node leads into the rest, which a walk cannot leave.
first_step :
    (g : Graph) (n : String) (rest : List String) (deps : List String) {b : String}
    → lookup n g ≡ some deps
    → subset deps rest ≡ true
    → IsTopological g rest
    → Walk g n b
    → elem b rest ≡ true
first_step g n rest deps {b} found s t (one e) = elem-subset b deps rest s (Edge-member g e found)
first_step g n rest deps found s t (more {b = c} e w) =
    topological_reach g rest t w (elem-subset c deps rest s (Edge-member g e found))

-- No walk leads from a placed node back to itself.
pub topological_acyclic :
    (g : Graph) (order : List String) (a : String)
    → IsTopological g order
    → elem a order ≡ true
    → ¬ Walk g a a
topological_acyclic g [] a t m w = not-elem_nil a m
topological_acyclic g (n ∷ rest) a ((deps, found, s), t) m w = elim (Bool-cases (elem a rest)) [
  | inl later ↦ topological_acyclic g rest a t later w
  | inr absent ↦ elim (elem_cons a n rest m) [
    | inl here ↦
        let found' = ap (λ x. lookup x g) here ∙ found in cc (first_step g a rest deps found' s t w)
    | inr later ↦ topological_acyclic g rest a t later w
  ]
]
