-- ===== src/Graph/Depth.antt =====
-- `graph_depth` and `graph_depth_conn` of c_monitor/graph.c: a breadth-first search from one node.
-- A failed assertion or an invalid access ends in `aborted`. The `while` loop has fuel for one round
-- more than `n_nodes`.
pub mod Trace
pub mod Invariant
pub mod Rounds
pub mod Nearest
pub mod Refine
pub mod Correct
mod Examples
use fuzz_monitor.Base.{
  ℕ, zero, suc, ◌+◌, ◌-◌, Bool, true, false, List, [], ◌∷◌, Option, none, some, get_elem?, set,
  replicate, ltb, ◌==◌, if◌then◌else◌,
}
use fuzz_monitor.Collections.{Collections, ok, err}
use fuzz_monitor.Graph.{Ptr, Graph, adjacency, graph_find_node_index}
use Trace.{BfsQueueElm}

pub data Outcome : Type 0 where
  done : ℕ → Outcome
  aborted out_of_fuel : Outcome

module _ (lib : Collections) where
  open lib use {array_size, list_items, Queue, queue_new, queue_size, queue_enqueue, queue_poll}

  pub record Search : Type 0 where
    pub queue : Queue BfsQueueElm
    pub discovered : List Bool
    pub max_depth : ℕ

  -- `if (q_elm->depth + 1 > max_depth) max_depth = q_elm->depth + 1;`
  deepen : ℕ → Search → Search
  deepen d s = if ltb s.max_depth d then record s { max_depth = d } else s

  module _ (now : ℕ) (g : Graph lib) where
    -- The body of the loop over the edges of a node at depth `d - 1`, for an edge to `value`.
    pub offer : ℕ → Search → ℕ → Option Search
    offer d s value = elim (graph_find_node_index lib g value) [
      | none ↦ some (deepen d s)
      | some i ↦ elim (get_elem? s.discovered i) [
        | none ↦ none
        | some true ↦ some (deepen d s)
        | some false ↦ elim (queue_enqueue now s.queue (record { depth = d; index = i })) [
          | err _ ↦ none
          | ok queue ↦
              some (deepen d (record s { queue = queue; discovered = set s.discovered i true }))
        ]
      ]
    ]

    pub scan : ℕ → Search → List Ptr → Option Search
    scan d s [] = some s
    scan d s (edge ∷ edges) = elim (offer d s edge.value) [
      | none ↦ none
      | some s' ↦ scan d s' edges
    ]

    -- One round of the `while` loop.
    pub round : Search → Option Search
    round s = elim (queue_poll s.queue) [
      | err _ ↦ none
      | ok (elm, queue) ↦ elim (adjacency lib g elm.index) [
        | none ↦ none
        | some (err _) ↦ none
        | some (ok (_, list)) ↦ scan (elm.depth + 1) (record s { queue = queue }) (list_items list)
      ]
    ]

    pub loop : ℕ → Search → Outcome
    loop zero s = elim (queue_size s.queue) [ zero ↦ done s.max_depth | suc _ ↦ out_of_fuel ]
    loop (suc fuel) s = elim (queue_size s.queue) [
      | zero ↦ done s.max_depth
      | suc _ ↦ elim (round s) [ none ↦ aborted | some s' ↦ loop fuel s' ]
    ]

    pub search : Queue BfsQueueElm → ℕ → Outcome
    search queue start_idx =
        elim (queue_enqueue now queue (record { depth = 0; index = start_idx })) [
          | err _ ↦ aborted
          | ok first ↦
              loop (suc g.n_nodes)
                (record { queue = first; discovered = replicate g.n_nodes false; max_depth = 0 })
        ]

    pub graph_depth : ℕ → Outcome
    graph_depth start_idx =
        if g.n_nodes == 0
        then done 0
        else if ltb (array_size g.nodes) start_idx
        then aborted
        else elim (queue_new {A = BfsQueueElm} now) [
          | err _ ↦ aborted
          | ok queue ↦ search queue start_idx
        ]

    -- `for (size_t i = 0; i < from_size; i++)`, by the rounds that are left.
    pub conn_from : ℕ → ℕ → ℕ → Outcome
    conn_from zero i max_depth = done max_depth
    conn_from (suc left) i max_depth = elim (graph_depth i) [
      | done d ↦ conn_from left (i + 1) (if ltb max_depth d then d else max_depth)
      | aborted ↦ aborted
      | out_of_fuel ↦ out_of_fuel
    ]

    pub graph_depth_conn : Outcome
    graph_depth_conn = conn_from (array_size g.nodes) 0 0
