-- ===== src/Graph.antt =====
-- c_monitor/graph.c: the directed graph of the branches that one input takes, by adjacency lists.
-- A `uint64_t *` is the block that it points to and the number stored there, which never changes. A
-- `List *` in the array `edges` is a number, and `lists` holds the list that it names. `none` is an
-- invalid access or a failed assertion. `n_nodes` counts blocks on the heap, so it does not wrap.
pub mod Rows
pub mod Add
pub mod Edges
pub mod Traverse
pub mod Depth
pub mod Examples
use fuzz_monitor.Base.{
  ℕ, zero, suc, ◌+◌, ◌≡◌, Bool, true, false, List, [], ◌∷◌, ◌++◌, Option, none, some, length,
  get_elem?, set, ◌==◌, if◌then◌else◌,
}
use fuzz_monitor.Collections.{
  CcStat, cc_ok, cc_err_key_not_found, cc_err_value_not_found, Result, ok, err, Collections,
}

-- `addr` numbers the block.
pub record Ptr : Type 0 where
  pub addr : ℕ
  pub value : ℕ

-- graph.h: the statuses of `graph_add` beside `CC_OK`.
abbrev pub cc_graph_from_exists : CcStat
cc_graph_from_exists = cc_err_key_not_found

abbrev pub cc_graph_both_exist : CcStat
cc_graph_both_exist = cc_err_value_not_found

-- The index that the iterator of `nodes` has at the first node with this number.
pub node_index : ℕ → List Ptr → ℕ → Option ℕ
node_index i [] value = none
node_index i (node ∷ nodes) value =
    if node.value == value then some i else node_index (suc i) nodes value

-- The search of the target in one adjacency list.
pub has_target : List Ptr → ℕ → Bool
has_target [] value = false
has_target (edge ∷ edges) value = if edge.value == value then true else has_target edges value

module _ (lib : Collections) where
  open lib use {
    Array, array_new, array_items, array_size, array_add, array_get_at, CList, list_new, list_items,
    list_size, list_add,
  }

  pub record Graph : Type 0 where
    pub nodes : Array Ptr
    pub edges : Array ℕ
    pub lists : List (CList Ptr)
    pub n_nodes : ℕ

  pub graph_new : ℕ → Result Graph
  graph_new now = elim (array_new {A = Ptr} now) [
    | err s ↦ err s
    | ok nodes ↦ elim (array_new {A = ℕ} now) [
      | err s ↦ err s
      | ok edges ↦ ok (record { nodes = nodes; edges = edges; lists = []; n_nodes = 0 })
    ]
  ]

  -- `array_get_at(graph->edges, i, &list)` and the list behind the pointer, with its number.
  pub adjacency : Graph → ℕ → Option (Result (ℕ × CList Ptr))
  adjacency g i = elim (array_get_at g.edges i) [
    | err s ↦ some (err s)
    | ok l ↦ elim (get_elem? g.lists l) [ none ↦ none | some list ↦ some (ok (l, list)) ]
  ]

  -- `graph_add` from its first match on.
  add_target : ℕ → Graph → ℕ → Ptr → Option (CcStat × Graph)
  add_target now g i to = elim (adjacency g i) [
    | none ↦ none
    | some (err s) ↦ some (s, g)
    | some (ok (l, list)) ↦
        if has_target (list_items list) to.value
        then some (cc_graph_both_exist, g)
        else elim (list_add now list to) [
          | err s ↦ some (s, g)
          | ok longer ↦ some (
            cc_graph_from_exists,
            record g { lists = set g.lists l longer; n_nodes = g.n_nodes + 1 },
          )
        ]
  ]

  -- `graph_add` where no node matches: `array_add(graph->edges, …)` is the last of its calls.
  add_row : ℕ → Graph → CList Ptr → CcStat × Graph
  add_row now g list = elim (array_add now g.edges (length g.lists)) [
    | err s ↦ (s, g)
    | ok edges ↦
        (cc_ok, record g { edges = edges; lists = g.lists ++ list ∷ []; n_nodes = g.n_nodes + 1 })
  ]

  add_node : ℕ → Graph → Ptr → Ptr → CcStat × Graph
  add_node now g from to = elim (list_new {A = Ptr} now) [
    | err s ↦ (s, g)
    | ok empty ↦ elim (list_add now empty to) [
      | err s ↦ (s, g)
      | ok list ↦ elim (array_add now g.nodes from) [
        | err s ↦ (s, g)
        | ok nodes ↦ add_row now (record g { nodes = nodes; n_nodes = g.n_nodes + 1 }) list
      ]
    ]
  ]

  pub graph_add : ℕ → Graph → Ptr → Ptr → Option (CcStat × Graph)
  graph_add now g from to = elim (node_index 0 (array_items g.nodes) from.value) [
    | some i ↦ add_target now g i to
    | none ↦ some (add_node now g from to)
  ]

  -- `graph_foreach`: the callback takes the node and its connections to a new state of the caller.
  foreach_from {ℓ} : {S : Type ℓ} → Graph → (S → Ptr → List Ptr → S) → ℕ → List Ptr → S → Option S
  foreach_from g fn i [] s = some s
  foreach_from g fn i (node ∷ nodes) s = elim (adjacency g i) [
    | none ↦ none
    | some (err _) ↦ none
    | some (ok (_, list)) ↦ foreach_from g fn (suc i) nodes (fn s node (list_items list))
  ]

  pub graph_foreach {ℓ} : {S : Type ℓ} → Graph → (S → Ptr → List Ptr → S) → S → Option S
  graph_foreach g fn s = foreach_from g fn 0 (array_items g.nodes) s

  pub graph_nodes : Graph → ℕ
  graph_nodes g = g.n_nodes

  edges_from : Graph → ℕ → List Ptr → ℕ → Option ℕ
  edges_from g i [] counter = some counter
  edges_from g i (node ∷ nodes) counter = elim (adjacency g i) [
    | none ↦ none
    | some (err _) ↦ none
    | some (ok (_, list)) ↦ edges_from g (suc i) nodes (counter + list_size list)
  ]

  pub graph_edges : Graph → Option ℕ
  graph_edges g = edges_from g 0 (array_items g.nodes) 0

  -- `none` stands for -1.
  pub graph_find_node_index : Graph → ℕ → Option ℕ
  graph_find_node_index g value = node_index 0 (array_items g.nodes) value
