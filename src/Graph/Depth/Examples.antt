-- ===== src/Graph/Depth/Examples.antt =====
-- Runs of the search of c_monitor/graph.c, and its theorems at the graph of Graph/Examples.antt.
use fuzz_monitor.Base.{ℕ, ◌<◌, ◌≤◌, ◌≡◌, refl, ◌⊎◌, arith}
use fuzz_monitor.Collections.Lists.{list_collections}
use fuzz_monitor.Graph.{adjacency, graph_find_node_index, node_index}
use fuzz_monitor.Graph.Examples.{rows, sample, laws, memory, sample-Represents}
use fuzz_monitor.Graph.Depth.{
  done, aborted, graph_depth, graph_depth_conn, search, loop, round, scan, offer, deepen,
}
use fuzz_monitor.Graph.Depth.Nearest.{IsDepth}
use fuzz_monitor.Graph.Depth.Refine.{arcs_of}
use fuzz_monitor.Graph.Depth.Correct.{graph_depth-IsDepth, graph_depth_conn-IsDepth}

-- 10 → 20 → 10 leads back to the start, at depth 2, and one more edge leads out of it.
depth_of_cycle : graph_depth (list_collections 9) 3 sample 0 ≡ done 3
unfolding graph_depth search loop round scan offer deepen adjacency graph_find_node_index node_index
depth_of_cycle = refl

-- The assertion on the start allows the index that is one too great, and the next one fails.
depth_out_of_range : graph_depth (list_collections 9) 3 sample 2 ≡ aborted
unfolding graph_depth search loop round scan offer deepen adjacency graph_find_node_index node_index
depth_out_of_range = refl

graph_depth-IsDepth_example :
    (d : ℕ) × (graph_depth (list_collections 9) 3 sample 1 ≡ done d) × IsDepth (arcs_of rows) 1 d
graph_depth-IsDepth_example =
    graph_depth-IsDepth (list_collections 9) laws 3 memory sample rows sample-Represents 1
      (omega arith)

graph_depth_conn-IsDepth_example :
    (m : ℕ) × (graph_depth_conn (list_collections 9) 3 sample ≡ done m)
    × ((j : ℕ) → j < 2 → (d : ℕ) × IsDepth (arcs_of rows) j d × (d ≤ m))
    × ((m ≡ 0) ⊎ ((j : ℕ) × (j < 2) × IsDepth (arcs_of rows) j m))
graph_depth_conn-IsDepth_example =
    graph_depth_conn-IsDepth (list_collections 9) laws 3 memory sample rows sample-Represents
