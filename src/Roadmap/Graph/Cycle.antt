-- ===== src/Roadmap/Graph/Cycle.antt =====
-- A cycle that the search reports is there.
use pasi_engineering_workspa.Prelude.{
  ℕ, zero, suc, ◌≡◌, sym, true, inl, inr, String, err, some, List, [], ◌∷◌, length, >>=-eq-err,
  Bool-cases, Option-cases, subst,
}
use pasi_engineering_workspa.Text.{elem}
use pasi_engineering_workspa.Text.Elem.{elem_head, elem_tail, elem_cons, not-elem_nil}
use pasi_engineering_workspa.Dict.{lookup}
use pasi_engineering_workspa.Roadmap.Graph.{
  Graph, cycle_at, Visit, visit_each, visit, nodes, assert_acyclic,
}
use pasi_engineering_workspa.Roadmap.Graph.Order.{Edge, Walk, one, more}

Walk-snoc : {g : Graph} {a b c : String} → Walk g a b → Edge g b c → Walk g a c
Walk-snoc (one e) f = more e (one f)
Walk-snoc (more e w) f = more e (Walk-snoc w f)

-- Each open call leads to the node that is visited.
abbrev Leads : Graph → List String → String → Type 0
Leads g visiting node = (y : String) → elem y visiting ≡ true → Walk g y node

abbrev Truthful : Graph → List String → Visit → Type 0
Truthful g visiting v =
    (visited : List String) (node x : String)
    → Leads g visiting node
    → v visited node ≡ err (cycle_at x)
    → Walk g x x

visit_each-Truthful :
    (g : Graph) (visiting : List String) (v : Visit) (truthful : Truthful g visiting v)
    (visited ds : List String) (x : String)
    → ((d : String) → elem d ds ≡ true → Leads g visiting d)
    → visit_each v visited ds ≡ err (cycle_at x)
    → Walk g x x
unfolding visit_each
visit_each-Truthful g visiting v truthful visited [] x leads h = cc
visit_each-Truthful g visiting v truthful visited (d ∷ ds) x leads h =
    elim (>>=-eq-err (v visited d) _ h) [
      | inl now ↦ truthful visited d x (leads d (elem_head d ds)) now
      | inr (visited', _, later) ↦
          visit_each-Truthful g visiting v truthful visited' ds x
            (λ z m. leads z (elem_tail z d ds m)) later
    ]

Leads-cons :
    (g : Graph) (visiting deps : List String) (node : String)
    → lookup node g ≡ some deps
    → Leads g visiting node
    → (d : String) → elem d deps ≡ true
    → Leads g (node ∷ visiting) d
Leads-cons g visiting deps node found leads d m y open_ =
    let edge : Edge g node d = record { deps = deps; found = found; member = m } in
    elim (elem_cons y node visiting open_) [
      | inl here ↦ subst (λ z. Walk g z d) (sym here) (one edge)
      | inr further ↦ Walk-snoc (leads y further) edge
    ]

visit-Truthful :
    (g : Graph) (depth : ℕ) (visiting : List String) → Truthful g visiting (visit depth g visiting)
unfolding visit
visit-Truthful g zero visiting visited node x leads h = cc
visit-Truthful g (suc depth) visiting visited node x leads h =
    elim (Bool-cases (elem node visiting)) [
      | inl open_ ↦
          let same : node ≡ x = cc (rw (open_, visit) at h) in
          subst (λ z. Walk g z z) same (leads node open_)
      | inr new ↦
          let h₁ = rw (new, visit) at h in
          elim (Bool-cases (elem node visited)) [
            | inl old ↦ cc (rw old at h₁)
            | inr fresh ↦
                let h₂ = rw fresh at h₁ in
                elim (Option-cases (lookup node g)) [
                  | inl lost ↦ cc (rw lost at h₂)
                  | inr (deps, found) ↦
                      elim (>>=-eq-err (visit_each (visit depth g (node ∷ visiting)) visited deps) _
                        (rw found at h₂)) [
                          | inl inside ↦
                              visit_each-Truthful g (node ∷ visiting) _
                                (visit-Truthful g depth (node ∷ visiting)) visited deps x
                                (Leads-cons g visiting deps node found leads) inside
                          | inr (_, _, never) ↦ cc
                        ]
                ]
          ]
    ]

-- A node that is reported is on a cycle.
pub assert_acyclic_truthful :
    (g : Graph) (x : String) → assert_acyclic g ≡ err (cycle_at x) → Walk g x x
unfolding assert_acyclic
assert_acyclic_truthful g x h =
    visit_each-Truthful g [] _ (visit-Truthful g (suc (length (nodes g))) []) [] (nodes g) x
      (λ d m y open_. absurd (not-elem_nil y open_)) h
