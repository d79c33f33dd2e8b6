-- ===== src/Graph/Add.antt =====
-- `graph_add` of c_monitor/graph.c inserts an edge into the rows.
use fuzz_monitor.Base.{
  ℕ, suc, ◌+◌, ◌<◌, ◌≡◌, refl, sym, ap, ap₂, set_same, ◌∙◌, ◌⊎◌, inl, inr, List, [], ◌∷◌, ◌++◌,
  Option, some, length, length-append, length-map, length-set, get_elem?, get_elem?-lt,
  get_elem?-map, map-set, set, lt-length_of_get_elem?, Option-cases, Bool-cases, if◌then◌else◌,
  arith,
}
use mathlib.Core.List.{map-append}
use fuzz_monitor.Collections.{
  CcStat, cc_ok, IsFailure, Result, ok, err, Collections, IsCollections, HasMemory, Result-cases,
}
use fuzz_monitor.Graph.{
  Ptr, Graph, cc_graph_from_exists, cc_graph_both_exist, node_index, has_target, adjacency,
  add_target, add_row, add_node, graph_add,
}
use fuzz_monitor.Graph.Rows.{
  Row, upto, nodes_of, Represents, insert_edge, get_elem?-upto, total-set, total-append,
  insert_edge_found, insert_edge_new,
}

-- A call does not both succeed and fail.
clash : {A : Type 0} {r : Result A} {s : CcStat} → ((a : A) × (r ≡ ok a)) → r ≡ err s → ⊥
clash (a, e) f = cc

module _ (lib : Collections) (laws : IsCollections lib) where
  open lib use {array_items, list_items, list_new, list_add, array_add}

  -- Under each row stands its list.
  pub adjacency-row :
      (g : Graph lib) (rows : List Row) (i : ℕ) (r : Row)
      → Represents lib g rows
      → get_elem? rows i ≡ some r
      → (l : lib.CList Ptr) × (adjacency lib g i ≡ some (ok (i, l)))
        × (get_elem? g.lists i ≡ some l)
        × (list_items l ≡ r.targets)
  unfolding adjacency
  adjacency-row g rows i r rep e =
      let in_rows : i < length rows = lt-length_of_get_elem? rows i e in
      let in_lists : i < length g.lists = omega (
        arith,
        length-map list_items g.lists,
        length-map (λ (r : Row). r.targets) rows,
        ap length rep.lists_eq,
      ) in
      let (l, found) = get_elem?-lt g.lists i in_lists in
      let entry =
        laws.array_get_at_items g.edges i i
          (ap (λ t. get_elem? t i) rep.edges_eq ∙ get_elem?-upto (length rows) i in_rows) in
      let same =
        sym (get_elem?-map list_items g.lists i found)
        ∙ ap (λ t. get_elem? t i) rep.lists_eq
        ∙ get_elem?-map (λ (r : Row). r.targets) rows i e in
      (l, rw (entry, adjacency, found), found, cc same)

  set-Represents :
      (g : Graph lib) (rows : List Row) (i : ℕ) (r : Row) (to : Ptr) (l : lib.CList Ptr)
      → Represents lib g rows
      → get_elem? rows i ≡ some r
      → list_items l ≡ r.targets ++ to ∷ []
      → Represents lib
          (record g { lists = set g.lists i l; n_nodes = g.n_nodes + 1 })
          (set rows i (record r { targets = r.targets ++ to ∷ [] }))
  set-Represents g rows i r to l rep e items =
      let longer = record r { targets = r.targets ++ to ∷ [] } in
      record {
        nodes_eq =
            rep.nodes_eq
            ∙ sym (
                map-set (λ (r : Row). r.node) rows i longer
                ∙ set_same (nodes_of rows) i (get_elem?-map (λ (r : Row). r.node) rows i e));
        edges_eq = rep.edges_eq ∙ ap upto (sym (length-set rows i longer));
        lists_eq =
            map-set list_items g.lists i l
            ∙ ap₂ (λ a b. set a i b) rep.lists_eq items
            ∙ sym (map-set (λ (r : Row). r.targets) rows i longer);
        count_eq = omega (arith, rep.count_eq, length-set rows i longer, total-set rows i r to e);
      }

  append-Represents :
      (g : Graph lib) (rows : List Row) (r : Row) (nodes : lib.Array Ptr) (edges : lib.Array ℕ)
      (l : lib.CList Ptr)
      → Represents lib g rows
      → array_items nodes ≡ array_items g.nodes ++ r.node ∷ []
      → array_items edges ≡ array_items g.edges ++ length g.lists ∷ []
      → list_items l ≡ r.targets
      → length r.targets ≡ 1
      → Represents lib
          (record {
            nodes = nodes;
            edges = edges;
            lists = g.lists ++ l ∷ [];
            n_nodes = g.n_nodes + 1 + 1;
          })
          (rows ++ r ∷ [])
  append-Represents g rows r nodes edges l rep ns es items one =
      let size : length g.lists ≡ length rows =
        sym (length-map list_items g.lists)
        ∙ ap length rep.lists_eq
        ∙ length-map (λ (r : Row). r.targets) rows in
      let more : suc (length rows) ≡ length (rows ++ r ∷ []) =
        omega (arith, length-append rows (r ∷ [])) in
      record {
        nodes_eq =
            ns
            ∙ ap (λ t. t ++ r.node ∷ []) rep.nodes_eq
            ∙ sym (map-append (λ (r : Row). r.node) rows (r ∷ []));
        edges_eq = es ∙ ap₂ (λ a b. a ++ b ∷ []) rep.edges_eq size ∙ ap upto more;
        lists_eq =
            map-append list_items g.lists (l ∷ [])
            ∙ ap₂ (λ a b. a ++ b ∷ []) rep.lists_eq items
            ∙ sym (map-append (λ (r : Row). r.targets) rows (r ∷ []));
        count_eq = omega (arith, rep.count_eq, length-append rows (r ∷ []), total-append rows r);
      }

  -- What a call of `graph_add` comes to: the library failed, or the rows took in the edge.
  abbrev pub Adds : ℕ → List Row → Ptr → Ptr → Option (CcStat × Graph lib) → Type 1
  Adds now rows from to result =
      (s : CcStat) × (g : Graph lib) × (result ≡ some (s, g))
      × (IsFailure s × ¬ HasMemory lib now
          ⊎ (s ≡ (insert_edge rows from to).0) × Represents lib g (insert_edge rows from to).1)

  add_target_lem :
      (now : ℕ) (g : Graph lib) (rows : List Row) (i : ℕ) (r : Row) (from to : Ptr)
      → Represents lib g rows
      → get_elem? rows i ≡ some r
      → (insert_edge rows from to ≡ (
          if has_target r.targets to.value
          then (cc_graph_both_exist, rows)
          else (cc_graph_from_exists, set rows i (record r { targets = r.targets ++ to ∷ [] }))))
      → Adds now rows from to (add_target lib now g i to)
  unfolding add_target
  add_target_lem now g rows i r from to rep e inserted =
      let (l, access, _, items) = adjacency-row g rows i r rep e in
      elim (Bool-cases (has_target r.targets to.value)) [
        | inl old ↦ (
          cc_graph_both_exist,
          g,
          rw (access, add_target, items, old),
          inr (rw (inserted, old) (refl, rep)),
        )
        | inr new ↦ elim (Result-cases (list_add now l to)) [
          | inr (s, failed) ↦ (
            s,
            g,
            rw (access, add_target, items, new, failed),
            inl (laws.list_add_fails now l to s failed, λ m. clash (m.list_add_ok l to) failed),
          )
          | inl (longer, added) ↦ (
            cc_graph_from_exists,
            record g { lists = set g.lists i longer; n_nodes = g.n_nodes + 1 },
            rw (access, add_target, items, new, added),
            inr (
                rw (inserted, new)
                  (
                    refl,
                    set-Represents g rows i r to longer rep e
                        (laws.list_add_items now l longer to added ∙ ap (λ t. t ++ to ∷ []) items),
                  )),
          )
        ]
      ]

  add_node_lem :
      (now : ℕ) (g : Graph lib) (rows : List Row) (from to : Ptr)
      → Represents lib g rows
      → (insert_edge rows from to ≡ (cc_ok, rows ++ record { node = from; targets = to ∷ [] } ∷ []))
      → Adds now rows from to (some (add_node lib now g from to))
  unfolding add_node add_row
  add_node_lem now g rows from to rep inserted = elim (Result-cases (list_new {A = Ptr} now)) [
    | inr (s, e) ↦
        (s, g, rw (e, add_node), inl (laws.list_new_fails now s e, λ m. clash m.list_new_ok e))
    | inl (empty, e) ↦ elim (Result-cases (list_add now empty to)) [
      | inr (s, e₁) ↦ (
        s,
        g,
        rw (e, add_node, e₁),
        inl (laws.list_add_fails now empty to s e₁, λ m. clash (m.list_add_ok empty to) e₁),
      )
      | inl (list, e₁) ↦ elim (Result-cases (array_add now g.nodes from)) [
        | inr (s, e₂) ↦ (
          s,
          g,
          rw (e, add_node, e₁, e₂),
          inl (
            laws.array_add_fails now g.nodes from s e₂,
            λ m. clash (m.array_add_ok g.nodes from) e₂,
          ),
        )
        | inl (nodes, e₂) ↦ elim (Result-cases (array_add now g.edges (length g.lists))) [
          | inr (s, e₃) ↦ (
            s,
            record g { nodes = nodes; n_nodes = g.n_nodes + 1 },
            rw (e, add_node, e₁, e₂, add_row, e₃),
            inl (
              laws.array_add_fails now g.edges (length g.lists) s e₃,
              λ m. clash (m.array_add_ok g.edges (length g.lists)) e₃,
            ),
          )
          | inl (edges, e₃) ↦ (
            cc_ok,
            record {
              nodes = nodes;
              edges = edges;
              lists = g.lists ++ list ∷ [];
              n_nodes = g.n_nodes + 1 + 1;
            },
            rw (e, add_node, e₁, e₂, add_row, e₃),
            inr (
                rw inserted (
                  refl,
                  append-Represents g rows (record { node = from; targets = to ∷ [] }) nodes edges
                      list rep (laws.array_add_items now g.nodes nodes from e₂)
                      (laws.array_add_items now g.edges edges (length g.lists) e₃)
                      (laws.list_add_items now empty list to e₁
                        ∙ ap (λ t. t ++ to ∷ []) (laws.list_new_items now empty e))
                      refl,
                )),
          )
        ]
      ]
    ]
  ]

  -- On a graph that stands for `rows`, `graph_add` makes no invalid access. It returns the status of
  -- `insert_edge` and a graph for its rows, or, only where an allocation of this call finds no
  -- memory, a status that is none of its three regular ones.
  pub graph_add-insert_edge :
      (now : ℕ) (g : Graph lib) (rows : List Row) (from to : Ptr)
      → Represents lib g rows
      → Adds now rows from to (graph_add lib now g from to)
  unfolding graph_add
  graph_add-insert_edge now g rows from to rep =
      elim (Option-cases (node_index 0 (array_items g.nodes) from.value)) [
        | inl missing ↦
            rw (missing, graph_add)
              (add_node_lem now g rows from to rep (
                insert_edge_new rows from to 0
                  (ap (λ t. node_index 0 t from.value) (sym rep.nodes_eq) ∙ missing)))
        | inr (j, found) ↦
            let (i, r, at, get, _, inserted) =
              insert_edge_found rows from to 0 j
                (ap (λ t. node_index 0 t from.value) (sym rep.nodes_eq) ∙ found) in
            let same : j ≡ i = omega arith in
            rw (found, graph_add, same) (add_target_lem now g rows i r from to rep get inserted)
      ]
