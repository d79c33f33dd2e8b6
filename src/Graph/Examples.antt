-- ===== src/Graph/Examples.antt =====
-- Runs of c_monitor/graph.c on list containers, and its theorems at a small graph:
-- 10 → 20, 10 → 30, 20 → 10. The node 30 has no edge out of it, and 10 lies on a cycle.
use fuzz_monitor.Base.{ℕ, ◌≡◌, refl, ◌⊎◌, ◌↔◌, List, [], ◌∷◌, ◌++◌, some, length, foldl, arith}
use fuzz_monitor.Collections.{CcStat, cc_err_alloc, IsCollections, HasMemory}
use fuzz_monitor.Collections.Lists.{list_collections, list_IsCollections, list_HasMemory}
use fuzz_monitor.Graph.{
  Ptr, Graph, cc_graph_both_exist, node_index, has_target, graph_add, add_target, add_node, add_row,
  adjacency, graph_foreach, graph_edges, graph_nodes,
}
use fuzz_monitor.Graph.Rows.{Row, Represents}
use fuzz_monitor.Graph.Add.{Adds, graph_add-insert_edge}
use fuzz_monitor.Graph.Edges.{HasEdge, IsWellFormed, Says, graph_add-HasEdge}
use fuzz_monitor.Graph.Traverse.{graph_foreach-foldl, graph_nodes-graph_edges}

abbrev pub at : ℕ → ℕ → Ptr
at addr value = record { addr = addr; value = value }

abbrev pub rows : List Row
rows =
    record { node = at 1 10; targets = at 2 20 ∷ at 4 30 ∷ [] }
    ∷ record { node = at 5 20; targets = at 6 10 ∷ [] }
    ∷ []

abbrev pub sample : Graph (list_collections 9)
sample = record {
  nodes = at 1 10 ∷ at 5 20 ∷ [];
  edges = 0 ∷ 1 ∷ [];
  lists = (at 2 20 ∷ at 4 30 ∷ []) ∷ (at 6 10 ∷ []) ∷ [];
  n_nodes = 5;
}

abbrev pub laws : IsCollections (list_collections 9)
laws = list_IsCollections 9

pub memory : HasMemory (list_collections 9) 3
memory = list_HasMemory 9 3 (omega arith)

pub sample-Represents : Represents (list_collections 9) sample rows
sample-Represents = record { nodes_eq = refl; edges_eq = refl; lists_eq = refl; count_eq = refl }

rows-IsWellFormed : IsWellFormed rows
rows-IsWellFormed = ground arith

old_edge :
    graph_add (list_collections 9) 3 sample (at 7 10) (at 8 30) ≡ some (cc_graph_both_exist, sample)
unfolding graph_add add_target adjacency node_index has_target
old_edge = refl

no_memory :
    graph_add (list_collections 9) 9 sample (at 7 30) (at 8 30) ≡ some (cc_err_alloc, sample)
unfolding graph_add add_node add_row adjacency node_index has_target
no_memory = refl

graph_add-insert_edge_example :
    Adds
      (list_collections 9)
      laws
      3
      rows
      (at 7 20)
      (at 8 30)
      (graph_add (list_collections 9) 3 sample (at 7 20) (at 8 30))
graph_add-insert_edge_example =
    graph_add-insert_edge (list_collections 9) laws 3 sample rows (at 7 20) (at 8 30)
      sample-Represents

graph_add-HasEdge_example :
    (s : CcStat) × (g' : Graph (list_collections 9)) × (rows' : List Row) × (graph_add
        (list_collections 9)
        3
        sample
        (at 7 20)
        (at 8 30)
      ≡ some (s, g'))
    × Represents (list_collections 9) g' rows'
    × IsWellFormed rows'
    × ((u v : ℕ) → HasEdge rows' u v ↔ (HasEdge rows u v ⊎ (u ≡ 20) × (v ≡ 30)))
    × Says s rows 20 30
graph_add-HasEdge_example =
    graph_add-HasEdge (list_collections 9) laws 3 sample rows (at 7 20) (at 8 30) memory
      sample-Represents rows-IsWellFormed

abbrev collect : List ℕ → Ptr → List Ptr → List ℕ
collect acc node targets = acc ++ node.value ∷ length targets ∷ []

graph_foreach-foldl_example :
    graph_foreach (list_collections 9) sample collect []
    ≡ some (foldl (λ s r. collect s r.node r.targets) [] rows)
graph_foreach-foldl_example =
    graph_foreach-foldl (list_collections 9) laws sample collect rows [] sample-Represents

-- The graph has the three vertices 10, 20 and 30, and `graph_nodes` returns 5.
graph_nodes-graph_edges_example :
    (graph_edges (list_collections 9) sample ≡ some 3)
    × (graph_nodes (list_collections 9) sample ≡ 5)
graph_nodes-graph_edges_example =
    graph_nodes-graph_edges (list_collections 9) laws sample rows sample-Represents
