-- ===== src/Graph/Depth/Refine.antt =====
-- The search of c_monitor/graph.c on its containers does what the search on plain lists does.
use fuzz_monitor.Base.{
  ℕ, zero, suc, ◌+◌, ◌≤◌, ◌<◌, ◌≡◌, refl, sym, ap, subst, ◌∙◌, ◌⊎◌, inl, inr, max, Bool, true, List,
  [], ◌∷◌, ◌++◌, map, Option, some, length, length-map, get_elem?, get_elem?-lt, set, ltb,
  Bool-cases, Option-cases, arith,
}
use fuzz_monitor.Collections.{Collections, IsCollections, HasMemory}
use fuzz_monitor.Graph.{Ptr, Graph, node_index, graph_find_node_index}
use fuzz_monitor.Graph.Rows.{Row, nodes_of, Represents}
use fuzz_monitor.Graph.Add.{adjacency-row}
use fuzz_monitor.Graph.Depth.Trace.{
  BfsQueueElm, Arcs, arcs_at, flag, push, Trace, mark, mark_all, advance, HasArc,
}
use fuzz_monitor.Graph.Depth.{Search, deepen, offer, scan, round}
use fuzz_monitor.Graph.Depth.Invariant.{length-mark}

-- For each row the indices of its targets.
abbrev pub indices : List Row → List Ptr → List (Option ℕ)
indices rows = map (λ p. node_index 0 (nodes_of rows) p.value)

abbrev pub arcs_of : List Row → Arcs
arcs_of rows = map (λ r. indices rows r.targets) rows

node_index-lt :
    (k : ℕ) (nodes : List Ptr) (value j : ℕ)
    → node_index k nodes value ≡ some j
    → j < k + length nodes
unfolding node_index
node_index-lt k [] value j e = cc
node_index-lt k (p ∷ nodes) value j e = ground (arith, node_index-lt (suc k) nodes value j)

HasArc-indices :
    (rows : List Row) (ps : List Ptr) (j : ℕ) → HasArc (indices rows ps) j → j < length rows
HasArc-indices rows [] j m = absurd m
HasArc-indices rows (p ∷ ps) j (inl e) =
    omega
      (arith, node_index-lt 0 (nodes_of rows) p.value j e, length-map (λ (r : Row). r.node) rows)
HasArc-indices rows (p ∷ ps) j (inr m) = HasArc-indices rows ps j m

arcs_at-map :
    (f : Row → List (Option ℕ)) (rows : List Row) (i : ℕ) (r : Row)
    → get_elem? rows i ≡ some r
    → arcs_at (map f rows) i ≡ f r
arcs_at-map f [] i r e = cc
arcs_at-map f (q ∷ rows) zero r e = ground arith
arcs_at-map f (q ∷ rows) (suc i) r e = arcs_at-map f rows i r e

arcs_at_cases :
    (f : Row → List (Option ℕ)) (rows : List Row) (i : ℕ)
    → (arcs_at (map f rows) i ≡ []) ⊎ ((r : Row) × (arcs_at (map f rows) i ≡ f r))
arcs_at_cases f [] i = inl refl
arcs_at_cases f (q ∷ rows) zero = inr (q, refl)
arcs_at_cases f (q ∷ rows) (suc i) = arcs_at_cases f rows i

-- Arcs lead to nodes only.
pub arcs_of-lt : (rows : List Row) (i j : ℕ) → HasArc (arcs_at (arcs_of rows) i) j → j < length rows
arcs_of-lt rows i j m = elim (arcs_at_cases (λ r. indices rows r.targets) rows i) [
  | inl e ↦ absurd (subst (λ os. HasArc os j) e m)
  | inr (r, e) ↦ HasArc-indices rows r.targets j (subst (λ os. HasArc os j) e m)
]

flag-get : (fs : List Bool) (i : ℕ) (b : Bool) → get_elem? fs i ≡ some b → flag fs i ≡ b
flag-get [] i b e = cc
flag-get (x ∷ fs) zero b e = ground arith
flag-get (x ∷ fs) (suc i) b e = flag-get fs i b e

module _ (lib : Collections) (laws : IsCollections lib) (now : ℕ) (memory : HasMemory lib now) where
  open lib use {queue_items, queue_size, queue_enqueue, list_items}

  pub record Follows (s : Search lib) (t : Trace) : Type 0 where
    pub queue_eq : queue_items s.queue ≡ t.pending
    pub flags_eq : s.discovered ≡ t.flags
    pub depth_eq : s.max_depth ≡ t.deepest

  deepen-Follows :
      (d : ℕ) (s : Search lib) (t : Trace)
      → queue_items s.queue ≡ t.pending
      → s.discovered ≡ t.flags
      → s.max_depth ≡ t.deepest
      → Follows (deepen lib d s) (record t { deepest = max t.deepest d })
  unfolding deepen
  deepen-Follows d s t q f m = elim (Bool-cases (ltb s.max_depth d)) [
    | inl deeper ↦ rw deeper (record { queue_eq = q; flags_eq = f; depth_eq = ground arith })
    | inr not_deeper ↦
        rw not_deeper (record { queue_eq = q; flags_eq = f; depth_eq = ground arith })
  ]

  module _ (g : Graph lib) (rows : List Row) (rep : Represents lib g rows) where
    offer-Follows :
        (d : ℕ) (s : Search lib) (t : Trace) (value : ℕ)
        → length rows ≤ length t.flags
        → Follows s t
        → (s' : Search lib) × (offer lib now g d s value ≡ some s')
          × Follows s' (mark d t (node_index 0 (nodes_of rows) value))
    unfolding offer mark graph_find_node_index
    offer-Follows d s t value room f = elim (Option-cases (node_index 0 (nodes_of rows) value)) [
      | inl missing ↦ (
        deepen lib d s,
        rw (rep.nodes_eq, offer, missing),
        rw missing (deepen-Follows d s t f.queue_eq f.flags_eq f.depth_eq),
      )
      | inr (i, found) ↦
          let in_flags : i < length s.discovered = omega (
            arith,
            node_index-lt 0 (nodes_of rows) value i found,
            length-map (λ (r : Row). r.node) rows,
            ap length f.flags_eq,
          ) in
          let (b, read) = get_elem?-lt s.discovered i in_flags in
          let flag_eq = flag-get t.flags i b (ap (λ fs. get_elem? fs i) (sym f.flags_eq) ∙ read) in
          elim (Bool-cases b) [
            | inl on ↦ (
              deepen lib d s,
              rw (rep.nodes_eq, offer, found, read, on),
              rw (found, flag_eq ∙ on) (deepen-Follows d s t f.queue_eq f.flags_eq f.depth_eq),
            )
            | inr off ↦
                let elm : BfsQueueElm = record { depth = d; index = i } in
                let (queue, queued) = memory.queue_enqueue_ok s.queue elm in
                let u : Search lib = record s {
                  queue = queue;
                  discovered = set s.discovered i true;
                } in
                (
                  deepen lib d u,
                  rw (rep.nodes_eq, offer, found, read, off, queued),
                  rw (found, flag_eq ∙ off)
                      (deepen-Follows d u (push d i t)
                        (laws.queue_enqueue_items now s.queue queue elm queued
                          ∙ ap (λ q. q ++ elm ∷ []) f.queue_eq)
                        (ap (λ fs. set fs i true) f.flags_eq) f.depth_eq),
                )
          ]
    ]

    scan-Follows :
        (d : ℕ) (s : Search lib) (t : Trace) (edges : List Ptr)
        → length rows ≤ length t.flags
        → Follows s t
        → (s' : Search lib) × (scan lib now g d s edges ≡ some s')
          × Follows s' (mark_all d t (indices rows edges))
    unfolding scan mark_all
    scan-Follows d s t [] room f = (s, refl, f)
    scan-Follows d s t (edge ∷ edges) room f =
        let o = node_index 0 (nodes_of rows) edge.value in
        let (s', first, f') = offer-Follows d s t edge.value room f in
        let (s'', rest, f'') =
          scan-Follows d s' (mark d t o) edges (omega (arith, length-mark d t o)) f' in
        (s'', rw (first, scan) rest, f'')

    -- One round, from a queue with an element in front that stands for a row.
    pub round-Follows :
        (s : Search lib) (t : Trace) (e : BfsQueueElm) (rest : List BfsQueueElm)
        → length rows ≤ length t.flags
        → e.index < length rows
        → t.pending ≡ e ∷ rest
        → Follows s t
        → (s' : Search lib) × (round lib now g s ≡ some s')
          × Follows s' (advance (arcs_of rows) t e rest)
    unfolding round advance
    round-Follows s t e rest room lt h f =
        let (queue, polled, left) = laws.queue_poll_items s.queue e rest (f.queue_eq ∙ h) in
        let (r, row) = get_elem?-lt rows e.index lt in
        let (l, access, _, items) = adjacency-row lib laws g rows e.index r rep row in
        let arcs = arcs_at-map (λ r. indices rows r.targets) rows e.index r row in
        let deeper : e.depth + 1 ≡ suc e.depth = omega arith in
        let (s', done, f') =
          scan-Follows (suc e.depth) (record s { queue = queue })
            (record t { past = e ∷ t.past; pending = rest }) r.targets room
            (record { queue_eq = left; flags_eq = f.flags_eq; depth_eq = f.depth_eq }) in
        (s', rw (polled, round, access, items, deeper) done, rw arcs f')
