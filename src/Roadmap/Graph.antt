-- ===== src/Roadmap/Graph.antt =====
-- `_assert_acyclic`: a depth-first search. A graph is the dictionary from a node to its
-- dependencies.
pub mod Order
pub mod Cycle
pub mod Fuel
use pasi_engineering_workspa.Prelude.{
  ℕ, zero, suc, Bool, true, false, String, Result, ok, err, ◌>>=◌, Option, none, some, List, [],
  ◌∷◌, map, length,
}
use pasi_engineering_workspa.Text.{elem}
use pasi_engineering_workspa.Dict.{Dict, lookup}

abbrev pub Graph : Type 0
Graph = Dict (List String)

-- `cycle_at node` is the `RoadmapError`, `missing node` the `KeyError` of `graph[node]`.
pub data SearchError : Type 0 where
  cycle_at missing : String → SearchError
  no_fuel : SearchError

abbrev pub Visit : Type 0
Visit = List String → String → Result SearchError (List String)

-- `for dependency in …: visit(dependency)`, with the set of visited nodes handed on.
unfoldable pub visit_each : Visit → List String → List String → Result SearchError (List String)
visit_each v visited [] = ok visited
visit_each v visited (d ∷ ds) = do visited' ← v visited d; visit_each v visited' ds

-- `visit`. The nodes in `visiting` are those of the calls that have not returned: a call adds its
-- node, and removes it before it returns, so that the caller's set is an argument. The first number
-- bounds the depth of the calls.
unfoldable pub visit : ℕ → Graph → List String → Visit
unfolding elem lookup visit_each
visit zero graph visiting visited node = err no_fuel
visit (suc depth) graph visiting visited node = elim (elem node visiting) [
  | true ↦ err (cycle_at node)
  | false ↦ elim (elem node visited) [
    | true ↦ ok visited
    | false ↦ elim (lookup node graph) [
      | none ↦ err (missing node)
      | some deps ↦ visit_each (visit depth graph (node ∷ visiting)) visited deps >>= λ visited'.
          ok (node ∷ visited')
    ]
  ]
]

abbrev pub nodes : Graph → List String
nodes graph = map (λ e. e.0) graph

-- `for node in graph: visit(node)`. A path of open calls never repeats a node, so that its depth
-- is at most the number of nodes; one more call then finds no new node.
unfoldable pub assert_acyclic : Graph → Result SearchError (List String)
unfolding visit visit_each
assert_acyclic graph = visit_each (visit (suc (length (nodes graph))) graph []) [] (nodes graph)
