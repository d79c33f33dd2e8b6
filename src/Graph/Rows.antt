-- ===== src/Graph/Rows.antt =====
-- What a graph of c_monitor/graph.c stands for: its rows, each a node with the targets of its edges.
use fuzz_monitor.Base.{
  ℕ, zero, suc, ◌+◌, ◌<◌, ◌≡◌, refl, ap, inl, inr, List, [], ◌∷◌, ◌++◌, map, none, some, length,
  length-append, sym, ◌∙◌, get_elem?-append_left, get_elem?-append_length, ℕ_discrete, Bool-cases,
  ==_iff, get_elem?, set, ◌==◌, if◌then◌else◌, arith,
}
use fuzz_monitor.Collections.{CcStat, cc_ok, Collections}
use fuzz_monitor.Graph.{
  Ptr, Graph, cc_graph_from_exists, cc_graph_both_exist, node_index, has_target,
}

pub record Row : Type 0 where
  pub node : Ptr
  pub targets : List Ptr

abbrev pub total : List Row → ℕ
total [] = 0
total (r ∷ rows) = length r.targets + total rows

abbrev pub upto : ℕ → List ℕ
upto zero = []
upto (suc n) = upto n ++ n ∷ []

abbrev pub nodes_of : List Row → List Ptr
nodes_of = map (λ r. r.node)

abbrev pub targets_of : List Row → List (List Ptr)
targets_of = map (λ r. r.targets)

-- The `i`-th entry of `edges` points to the `i`-th list, and the lists hold the targets.
pub record Represents (lib : Collections) (g : Graph lib) (rows : List Row) : Type 0 where
  pub nodes_eq : lib.array_items g.nodes ≡ nodes_of rows
  pub edges_eq : lib.array_items g.edges ≡ upto (length rows)
  pub lists_eq : map lib.list_items g.lists ≡ targets_of rows
  pub count_eq : g.n_nodes ≡ length rows + total rows

-- Adding an edge, on rows.
unfoldable pub insert_edge : List Row → Ptr → Ptr → CcStat × List Row
insert_edge [] from to = (cc_ok, record { node = from; targets = to ∷ [] } ∷ [])
insert_edge (r ∷ rows) from to =
    let (s, rest) = insert_edge rows from to in
    if r.node.value == from.value
    then (if has_target r.targets to.value
        then (cc_graph_both_exist, r ∷ rows)
        else (cc_graph_from_exists, record r { targets = r.targets ++ to ∷ [] } ∷ rows))
    else (s, r ∷ rest)

pub length-upto : (n : ℕ) → length (upto n) ≡ n
length-upto zero = refl
length-upto (suc n) = omega (arith, length-append (upto n) (n ∷ []), length-upto n)

pub get_elem?-upto : (n i : ℕ) → i < n → get_elem? (upto n) i ≡ some i
get_elem?-upto zero i h = absurd (omega arith)
get_elem?-upto (suc n) i h = elim (ℕ_discrete i n) [
  | yes e ↦
      rw (e, ap (get_elem? (upto n ++ n ∷ [])) (sym (length-upto n)))
        (get_elem?-append_length (upto n) n [])
  | no ne ↦
      get_elem?-append_left (upto n) (n ∷ []) i (omega (arith, length-upto n))
      ∙ get_elem?-upto n i (omega arith)
]

pub total-set :
    (rows : List Row) (i : ℕ) (r : Row) (to : Ptr)
    → get_elem? rows i ≡ some r
    → total (set rows i (record r { targets = r.targets ++ to ∷ [] })) ≡ total rows + 1
total-set [] i r to e = cc
total-set (x ∷ rows) zero r to e = ground (arith, length-append r.targets (to ∷ []))
total-set (x ∷ rows) (suc i) r to e = omega (arith, total-set rows i r to e)

pub total-append :
    (rows : List Row) (r : Row) → total (rows ++ r ∷ []) ≡ total rows + length r.targets
total-append [] r = omega arith
total-append (x ∷ rows) r = omega (arith, total-append rows r)

-- Where the search for the node succeeds, the edge goes into that row unless it is there.
pub insert_edge_found :
    (rows : List Row) (from to : Ptr) (k j : ℕ)
    → node_index k (nodes_of rows) from.value ≡ some j
    → (i : ℕ) × (r : Row) × (j ≡ k + i)
      × (get_elem? rows i ≡ some r)
      × (r.node.value ≡ from.value)
      × (insert_edge rows from to ≡ (
          if has_target r.targets to.value
          then (cc_graph_both_exist, rows)
          else (cc_graph_from_exists, set rows i (record r { targets = r.targets ++ to ∷ [] }))))
unfolding node_index insert_edge
insert_edge_found [] from to k j e = cc
insert_edge_found (r ∷ rows) from to k j e = elim (Bool-cases (r.node.value == from.value)) [
  | inl here ↦ (0, r, ground arith, refl, (==_iff _ _).0 here, rw here)
  | inr later ↦
      let (i, q, at, get, same, inserted) =
        insert_edge_found rows from to (suc k) j (rw (later) at e) in
      elim (Bool-cases (has_target q.targets to.value)) [
        | inl old ↦ (suc i, q, omega arith, get, same, rw (later, inserted, old))
        | inr new ↦ (suc i, q, omega arith, get, same, rw (later, inserted, new))
      ]
]

-- Where it fails, the node is new and gets a row of its own at the end.
pub insert_edge_new :
    (rows : List Row) (from to : Ptr) (k : ℕ)
    → node_index k (nodes_of rows) from.value ≡ none
    → insert_edge rows from to ≡ (cc_ok, rows ++ record { node = from; targets = to ∷ [] } ∷ [])
unfolding node_index insert_edge
insert_edge_new [] from to k e = refl
insert_edge_new (r ∷ rows) from to k e = elim (Bool-cases (r.node.value == from.value)) [
  | inl here ↦ ground arith
  | inr later ↦ rw (later, insert_edge_new rows from to (suc k) (rw later at e))
]
