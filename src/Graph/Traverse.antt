-- ===== src/Graph/Traverse.antt =====
-- `graph_foreach`, `graph_nodes` and `graph_edges` of c_monitor/graph.c, over the rows of a graph.
use mathlib.Core.List.{append_assoc}
use native.Mathlib.Nat.{zero-add}
use fuzz_monitor.Base.{
  ℕ, suc, ◌+◌, ◌≡◌, refl, sym, ap, ◌∙◌, List, [], ◌∷◌, ◌++◌, foldl, subst, some, length,
  length-append, get_elem?, get_elem?-append_length, arith,
}
use fuzz_monitor.Collections.{Collections, IsCollections, HasMemory, ok}
use fuzz_monitor.Graph.{
  Ptr, Graph, foreach_from, graph_foreach, edges_from, graph_edges, graph_nodes, graph_new,
}
use fuzz_monitor.Graph.Rows.{Row, total, nodes_of, Represents}
use fuzz_monitor.Graph.Add.{adjacency-row}

module _ (lib : Collections) (laws : IsCollections lib) where
  -- Where memory is found, a new graph has no rows.
  pub graph_new-Represents :
      (now : ℕ)
      → HasMemory lib now
      → (g : Graph lib) × (graph_new lib now ≡ ok g) × Represents lib g []
  unfolding graph_new
  graph_new-Represents now memory =
      let (nodes, first) = memory.array_new_ok {A = Ptr} in
      let (edges, second) = memory.array_new_ok {A = ℕ} in
      (
        record { nodes = nodes; edges = edges; lists = []; n_nodes = 0 },
        rw (first, graph_new, second),
        record {
          nodes_eq = laws.array_new_items now nodes first;
          edges_eq = laws.array_new_items now edges second;
          lists_eq = refl;
          count_eq = refl;
        },
      )

  module _ {ℓ} (g : Graph lib) {S : Type ℓ} (fn : S → Ptr → List Ptr → S) where
    foreach_lem :
        (pre rows : List Row) (i : ℕ) (s : S)
        → Represents lib g (pre ++ rows)
        → i ≡ length pre
        → foreach_from lib g fn i (nodes_of rows) s
          ≡ some (foldl (λ s r. fn s r.node r.targets) s rows)
    unfolding foreach_from
    foreach_lem pre [] i s rep at = refl
    foreach_lem pre (r ∷ rows) i s rep at =
        let here = ap (get_elem? (pre ++ r ∷ rows)) at ∙ get_elem?-append_length pre r rows in
        let (l, access, _, items) = adjacency-row lib laws g (pre ++ r ∷ rows) i r rep here in
        rw (access, foreach_from, items)
          (foreach_lem (pre ++ r ∷ []) rows (suc i) (fn s r.node r.targets)
            (subst (Represents lib g) (sym (append_assoc pre (r ∷ []) rows)) rep)
            (omega (arith, length-append pre (r ∷ []))))

    -- `graph_foreach` calls its function once for each node, in the order in which they were added,
    -- with the targets of all of the node's edges.
    pub graph_foreach-foldl :
        (rows : List Row) (s : S)
        → Represents lib g rows
        → graph_foreach lib g fn s ≡ some (foldl (λ s r. fn s r.node r.targets) s rows)
    unfolding graph_foreach
    graph_foreach-foldl rows s rep =
        ap (λ t. foreach_from lib g fn 0 t s) rep.nodes_eq ∙ foreach_lem [] rows 0 s rep refl

  edges_lem :
      (g : Graph lib) (pre rows : List Row) (i counter : ℕ)
      → Represents lib g (pre ++ rows)
      → i ≡ length pre
      → edges_from lib g i (nodes_of rows) counter ≡ some (counter + total rows)
  unfolding edges_from
  edges_lem g pre [] i counter rep at = ap some (omega arith)
  edges_lem g pre (r ∷ rows) i counter rep at =
      let here = ap (get_elem? (pre ++ r ∷ rows)) at ∙ get_elem?-append_length pre r rows in
      let (l, access, _, items) = adjacency-row lib laws g (pre ++ r ∷ rows) i r rep here in
      let size : lib.list_size l ≡ length r.targets = laws.list_size_items l ∙ ap length items in
      let sum : counter + length r.targets + total rows ≡ counter + total (r ∷ rows) =
        omega arith in
      rw (access, edges_from, size)
        (edges_lem g (pre ++ r ∷ []) rows (suc i) (counter + length r.targets)
            (subst (Represents lib g) (sym (append_assoc pre (r ∷ []) rows)) rep)
            (omega (arith, length-append pre (r ∷ [])))
          ∙ ap some sum)

  -- `graph_edges` passes its assertion and counts the edges, and `graph_nodes` returns the number of
  -- nodes that have an edge out of them plus that number of edges, not the number of vertices.
  pub graph_nodes-graph_edges :
      (g : Graph lib) (rows : List Row)
      → Represents lib g rows
      → (graph_edges lib g ≡ some (total rows)) × (graph_nodes lib g ≡ length rows + total rows)
  unfolding graph_edges graph_nodes
  graph_nodes-graph_edges g rows rep = (
    ap (λ t. edges_from lib g 0 t 0) rep.nodes_eq
        ∙ edges_lem g [] rows 0 0 rep refl
        ∙ ap some (zero-add (total rows)),
    rep.count_eq,
  )
