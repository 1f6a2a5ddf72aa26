-- ===== src/Roadmap/Graph/Fuel.antt =====
-- The search ends: the depth suffices, and in a closed graph every node is found, so that the only
-- error is a cycle.
use pasi_engineering_workspa.Prelude.{
  ℕ, zero, suc, ◌+◌, ◌≤◌, ◌≡◌, ◌≢◌, refl, true, false, ◌⊎◌, inl, inr, String, Result, ok, err, none,
  some, List, [], ◌∷◌, length, arith, >>=-eq-err, Bool-cases, Option-cases, subst, eq_iff,
}
use pasi_engineering_workspa.Text.{elem, subset, has_duplicates}
use pasi_engineering_workspa.Text.Elem.{
  elem_head, elem_tail, elem-subset, subset_of_elem, subset_cons, subset_nil, has_duplicates_cons,
  length-le_of_subset,
}
use pasi_engineering_workspa.Dict.{lookup}
use pasi_engineering_workspa.Roadmap.Graph.{
  Graph, SearchError, cycle_at, missing, no_fuel, Visit, visit_each, visit, nodes, assert_acyclic,
}
use pasi_engineering_workspa.Roadmap.Graph.Order.{
  IsAcyclic, Walk, one, more, IsTopological, assert_acyclic_sound, topological_acyclic,
}
use pasi_engineering_workspa.Roadmap.Graph.Cycle.{assert_acyclic_truthful}

-- Every dependency is a node.
abbrev pub IsClosed : Graph → Type 0
IsClosed g =
    (a : String) (deps : List String) → lookup a g ≡ some deps → subset deps (nodes g) ≡ true

lookup_node :
    (g : Graph) (a : String) (deps : List String) → lookup a g ≡ some deps → elem a (nodes g) ≡ true
unfolding lookup elem
lookup_node [] a deps h = cc
lookup_node ((k, v) ∷ g) a deps h = ground (arith, eq_iff k a, eq_iff a k, lookup_node g a deps)

-- A walk begins at a node.
pub Walk-node : (g : Graph) {a b : String} → Walk g a b → elem a (nodes g) ≡ true
Walk-node g {a} (one e) = lookup_node g a e.deps e.found
Walk-node g {a} (more e w) = lookup_node g a e.deps e.found

node_lookup : (g : Graph) (a : String) → elem a (nodes g) ≡ true → lookup a g ≢ none
unfolding lookup elem
node_lookup [] a m = cc
node_lookup ((k, v) ∷ g) a m = ground (arith, eq_iff k a, eq_iff a k, node_lookup g a)

-- The errors of a search that is to end properly.
abbrev IsCycle : SearchError → Type 0
IsCycle (cycle_at x) = Unit
IsCycle _ = ⊥

abbrev Ends : Graph → Visit → Type 0
Ends g v =
    (visited : List String) (node : String) (e : SearchError)
    → elem node (nodes g) ≡ true
    → v visited node ≡ err e
    → IsCycle e

visit_each-Ends :
    (g : Graph) (v : Visit) (ends : Ends g v) (visited ds : List String) (e : SearchError)
    → subset ds (nodes g) ≡ true
    → visit_each v visited ds ≡ err e
    → IsCycle e
unfolding visit_each
visit_each-Ends g v ends visited [] e s h = absurd (cc)
visit_each-Ends g v ends visited (d ∷ ds) e s h = elim (>>=-eq-err (v visited d) _ h) [
  | inl now ↦ ends visited d e (elem-subset d (d ∷ ds) (nodes g) s (elem_head d ds)) now
  | inr (visited', _, later) ↦
      visit_each-Ends g v ends visited' ds e
        (subset_of_elem ds (nodes g)
          (λ z m. elem-subset z (d ∷ ds) (nodes g) s (elem_tail z d ds m)))
        later
]

-- The open calls are different nodes, and the depth that is left makes up for the others.
record IsOpen (g : Graph) (depth : ℕ) (visiting : List String) : Type 0 where
  distinct : has_duplicates visiting ≡ false
  known : subset visiting (nodes g) ≡ true
  room : suc (length (nodes g)) ≤ length visiting + depth

IsOpen-cons :
    (g : Graph) (depth : ℕ) (visiting : List String) (node : String)
    → IsOpen g (suc depth) visiting
    → elem node visiting ≡ false
    → elem node (nodes g) ≡ true
    → IsOpen g depth (node ∷ visiting)
IsOpen-cons g depth visiting node o new m = record {
  distinct = has_duplicates_cons node visiting new o.distinct;
  known = subset_cons node visiting (nodes g) m o.known;
  room = omega (arith, o.room);
}

visit-Ends :
    (g : Graph) (closed : IsClosed g) (depth : ℕ) (visiting : List String)
    → IsOpen g depth visiting
    → Ends g (visit depth g visiting)
unfolding visit
visit-Ends g closed zero visiting o visited node e m h =
    absurd (omega (arith, o.room, length-le_of_subset visiting (nodes g) o.distinct o.known))
visit-Ends g closed (suc depth) visiting o visited node e m h =
    elim (Bool-cases (elem node visiting)) [
      | inl open_ ↦ subst IsCycle {x = cycle_at node} (cc (rw (open_, visit) at h)) tt
      | inr new ↦
          let h₁ = rw (new, visit) at h in
          elim (Bool-cases (elem node visited)) [
            | inl old ↦ absurd (cc (rw old at h₁))
            | inr fresh ↦
                let h₂ = rw fresh at h₁ in
                elim (Option-cases (lookup node g)) [
                  | inl lost ↦ absurd (node_lookup g node m lost)
                  | inr (deps, found) ↦
                      elim (>>=-eq-err (visit_each (visit depth g (node ∷ visiting)) visited deps) _
                        (rw found at h₂)) [
                          | inl inside ↦
                              visit_each-Ends g _
                                (visit-Ends g closed depth (node ∷ visiting)
                                  (IsOpen-cons g depth visiting node o new m))
                                visited deps e (closed node deps found) inside
                          | inr (_, _, never) ↦ absurd (cc)
                        ]
                ]
          ]
    ]

assert_acyclic_ends :
    (g : Graph) (e : SearchError) → IsClosed g → assert_acyclic g ≡ err e → IsCycle e
unfolding assert_acyclic has_duplicates
assert_acyclic_ends g e closed h =
    visit_each-Ends g _
      (visit-Ends g closed (suc (length (nodes g))) []
        (record { distinct = refl; known = subset_nil (nodes g); room = omega arith }))
      [] (nodes g) e (subset_of_elem (nodes g) (nodes g) (λ x m. m)) h

pub assert_acyclic_decides :
    (g : Graph)
    → IsClosed g
    → ((order : List String) × (assert_acyclic g ≡ ok order) × IsTopological g order × IsAcyclic g)
      ⊎ ((x : String) × (assert_acyclic g ≡ err (cycle_at x)) × Walk g x x)
assert_acyclic_decides g closed = go (assert_acyclic g) refl
  where
    go :
        (r : Result SearchError (List String))
        → assert_acyclic g ≡ r
        → ((order : List String) × (assert_acyclic g ≡ ok order)
            × IsTopological g order
            × IsAcyclic g)
          ⊎ ((x : String) × (assert_acyclic g ≡ err (cycle_at x)) × Walk g x x)
    go (ok order) p =
        let (t, all_) = assert_acyclic_sound g order p in
        inl (
          order,
          p,
          t,
          λ a w.
              topological_acyclic g order a t (elem-subset a (nodes g) order all_ (Walk-node g w))
                w,
        )
    go (err (cycle_at x)) p = inr (x, p, assert_acyclic_truthful g x p)
    go (err (missing x)) p = absurd (assert_acyclic_ends g (missing x) closed p)
    go (err no_fuel) p = absurd (assert_acyclic_ends g no_fuel closed p)
