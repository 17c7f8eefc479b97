-- ===== src/UseCases/Graphs.antt =====
-- Use case 4, the graph of payments: src/group_by/group_by_fns/uc4_compute_graph.py with
-- src/common/comms/messages/graph.py, and `_capped_update` of
-- src/aggregate/aggregate_fns/uc4_degree.py. A node of the graph (a bank with an account) is a
-- number that is only compared; `hash` is an argument.
pub mod Degree
use distribuidos_tp_money_la.Prelude.{
  ℕ, ◌%◌, Option, none, some, List, [], ◌∷◌, leb, length, if◌then◌else◌, ◌==◌, nat_eq,
}
use distribuidos_tp_money_la.Collections.Dict.{Dict, get, put, get_default}
use distribuidos_tp_money_la.Collections.PySet.{add}

-- `Graph.nodes`: the predecessors and the successors of a node
abbrev pub Graph : Type 0
Graph = Dict ℕ (List ℕ × List ℕ)

-- a transaction as an edge
pub record Edge : Type 0 where
  pub origin : ℕ
  pub destination : ℕ

unfoldable pub add_origin : ℕ → ℕ → Graph → Graph
unfolding get_default put add
add_origin b a graph = let sets = get_default b ([], []) graph in put b (add a sets.0, sets.1) graph

unfoldable pub add_destination : ℕ → ℕ → Graph → Graph
unfolding get_default put add
add_destination a b graph =
    let sets = get_default a ([], []) graph in put a (sets.0, add b sets.1) graph

-- the first loop of `group_by`
unfoldable pub graph_of : Graph → List Edge → Graph
unfolding add_origin add_destination
graph_of graph [] = graph
graph_of graph (t ∷ edges) =
    graph_of (add_destination t.origin t.destination (add_origin t.destination t.origin graph))
      edges

-- the second loop; the nodes of a graph are distinct, so each is new in its shard
unfoldable pub graph_by_affinity : (ℕ → ℕ) → Dict ℕ Graph → Graph → Dict ℕ Graph
unfolding get_default put
graph_by_affinity hash affinities [] = affinities
graph_by_affinity hash affinities ((b, sets) ∷ graph) =
    let shard = hash b % 50 in
    graph_by_affinity hash (put shard (put b sets (get_default shard [] affinities)) affinities)
      graph

-- the loop of `_capped_update`, with MIN_DEGREE = 5
unfoldable pub capped_add : List ℕ → List ℕ → List ℕ
unfolding add
capped_add bucket [] = bucket
capped_add bucket (neighbor ∷ neighbors) =
    let next = capped_add (add neighbor bucket) neighbors in
    if leb 5 (length bucket) then bucket else next

unfoldable pub capped_update : ℕ → List ℕ → Dict ℕ (List ℕ) → Dict ℕ (List ℕ)
unfolding capped_add get_default put
capped_update node neighbors store =
    put node (capped_add (get_default node [] store) neighbors) store
