-- ===== src/Graph/Edges.antt =====
-- The edges of a graph of c_monitor/graph.c as a relation between numbers, and how `graph_add` and its
-- status change and describe it.
use fuzz_monitor.Base.{
  ℕ, ◌≡◌, ◌≢◌, sym, subst, ◌⊎◌, inl, inr, ◌↔◌, true, List, [], ◌∷◌, ◌++◌, some, Bool-cases, ==_iff,
  ◌==◌, arith,
}
use fuzz_monitor.Collections.{
  CcStat, cc_ok, cc_err_alloc, cc_err_key_not_found, cc_err_value_not_found, cc_err_other,
  IsFailure, Collections, IsCollections, HasMemory,
}
use fuzz_monitor.Graph.{Ptr, Graph, has_target, graph_add}
use fuzz_monitor.Graph.Rows.{Row, Represents, insert_edge}
use fuzz_monitor.Graph.Add.{graph_add-insert_edge}

abbrev pub HasTarget : List Ptr → ℕ → Type 0
HasTarget [] v = ⊥
HasTarget (p ∷ ps) v = (p.value ≡ v) ⊎ HasTarget ps v

-- Some row's node is `u` and has a target `v`.
abbrev pub HasEdge : List Row → ℕ → ℕ → Type 0
HasEdge [] u v = ⊥
HasEdge (r ∷ rows) u v = (r.node.value ≡ u) × HasTarget r.targets v ⊎ HasEdge rows u v

abbrev pub HasNode : List Row → ℕ → Type 0
HasNode [] u = ⊥
HasNode (r ∷ rows) u = (r.node.value ≡ u) ⊎ HasNode rows u

abbrev pub DistinctTargets : List Ptr → Type 0
DistinctTargets [] = Unit {0}
DistinctTargets (p ∷ ps) = ¬ HasTarget ps p.value × DistinctTargets ps

-- No node has two rows, no row is empty, and no row has a target twice.
abbrev pub IsWellFormed : List Row → Type 0
IsWellFormed [] = Unit {0}
IsWellFormed (r ∷ rows) =
    ¬ HasNode rows r.node.value × (r.targets ≢ []) × DistinctTargets r.targets × IsWellFormed rows

pub has_target_iff : (ps : List Ptr) (v : ℕ) → (has_target ps v ≡ true) ↔ HasTarget ps v
unfolding has_target
has_target_iff [] v = (λ e. cc, λ h. absurd h)
has_target_iff (p ∷ ps) v = ground (arith, has_target_iff ps v)

HasTarget-concat :
    (ps : List Ptr) (q : Ptr) (v : ℕ)
    → HasTarget (ps ++ q ∷ []) v ↔ (HasTarget ps v ⊎ (q.value ≡ v))
HasTarget-concat [] q v = ground arith
HasTarget-concat (p ∷ ps) q v = ground (arith, HasTarget-concat ps q v)

DistinctTargets-concat :
    (ps : List Ptr) (q : Ptr)
    → DistinctTargets ps
    → ¬ HasTarget ps q.value
    → DistinctTargets (ps ++ q ∷ [])
DistinctTargets-concat [] q d new = (λ h. h, tt)
DistinctTargets-concat (p ∷ ps) q d new = (
  λ h. ground (arith, HasTarget-concat ps q p.value),
  DistinctTargets-concat ps q d.1 (λ h. new (inr h)),
)

HasEdge-node : (rows : List Row) (u v : ℕ) → HasEdge rows u v → HasNode rows u
HasEdge-node [] u v h = elim h [ ]
HasEdge-node (r ∷ rows) u v (inl h) = inl h.0
HasEdge-node (r ∷ rows) u v (inr h) = inr (HasEdge-node rows u v h)

insert_edge-HasNode :
    (rows : List Row) (from to : Ptr) (u : ℕ)
    → HasNode (insert_edge rows from to).1 u ↔ (HasNode rows u ⊎ (u ≡ from.value))
unfolding insert_edge
insert_edge-HasNode [] from to u = ground arith
insert_edge-HasNode (r ∷ rows) from to u = ground (arith, insert_edge-HasNode rows from to u)

pub insert_edge-HasEdge :
    (rows : List Row) (from to : Ptr) (u v : ℕ)
    → HasEdge (insert_edge rows from to).1 u v
      ↔ (HasEdge rows u v ⊎ (u ≡ from.value) × (v ≡ to.value))
unfolding insert_edge
insert_edge-HasEdge [] from to u v = ground arith
insert_edge-HasEdge (r ∷ rows) from to u v = ground (
  arith,
  insert_edge-HasEdge rows from to u v,
  HasTarget-concat r.targets to v,
  has_target_iff r.targets to.value,
)

concat-ne-nil : (ps : List Ptr) (q : Ptr) → ps ++ q ∷ [] ≢ []
concat-ne-nil [] q e = cc
concat-ne-nil (p ∷ ps) q e = cc

pub insert_edge-IsWellFormed :
    (rows : List Row) (from to : Ptr)
    → IsWellFormed rows
    → IsWellFormed (insert_edge rows from to).1
unfolding insert_edge
insert_edge-IsWellFormed [] from to w = (λ h. h, λ e. cc, (λ h. h, tt), tt)
insert_edge-IsWellFormed (r ∷ rows) from to w = elim (Bool-cases (r.node.value == from.value)) [
  | inr later ↦ rw later (
    λ h. ground (arith, insert_edge-HasNode rows from to r.node.value),
    w.1,
    w.2,
    insert_edge-IsWellFormed rows from to w.3,
  )
  | inl here ↦ elim (Bool-cases (has_target r.targets to.value)) [
    | inl old ↦ rw (here, old) w
    | inr new ↦
        rw (here, new)
          (
            w.0,
            concat-ne-nil r.targets to,
            DistinctTargets-concat r.targets to w.2
                (λ h. ground (arith, has_target_iff r.targets to.value)),
            w.3,
          )
  ]
]

-- What each regular status of `graph_add` says of the graph before the call.
abbrev pub Says : CcStat → List Row → ℕ → ℕ → Type 0
Says cc_ok rows u v = ¬ HasNode rows u
Says cc_err_key_not_found rows u v = HasNode rows u × ¬ HasEdge rows u v
Says cc_err_value_not_found rows u v = HasEdge rows u v
Says other rows u v = ⊥

Says-cons :
    (s : CcStat) (r : Row) (rows : List Row) (u v : ℕ)
    → r.node.value ≢ u
    → Says s rows u v
    → Says s (r ∷ rows) u v
Says-cons cc_ok r rows u v ne h = λ m. ground arith
Says-cons cc_err_key_not_found r rows u v ne h = (inr h.0, λ m. ground arith)
Says-cons cc_err_value_not_found r rows u v ne h = inr h
Says-cons cc_err_alloc r rows u v ne h = h
Says-cons (cc_err_other n) r rows u v ne h = h

insert_edge-Says :
    (rows : List Row) (from to : Ptr)
    → IsWellFormed rows
    → Says (insert_edge rows from to).0 rows from.value to.value
unfolding insert_edge
insert_edge-Says [] from to w = λ h. h
insert_edge-Says (r ∷ rows) from to w = elim (Bool-cases (r.node.value == from.value)) [
  | inl here ↦
      let same = (==_iff r.node.value from.value).0 here in
      let elsewhere = λ (h : HasEdge rows from.value to.value).
        w.0 (subst (HasNode rows) (sym same) (HasEdge-node rows from.value to.value h)) in
      elim (Bool-cases (has_target r.targets to.value)) [
        | inl old ↦ rw (here, old) (inl (same, (has_target_iff _ _).0 old))
        | inr new ↦
            rw (here, new)
              (
                inl same,
                λ h. elim h [ inl m ↦ cc ((has_target_iff _ _).1 m.1) | inr m ↦ elsewhere m ],
              )
      ]
  | inr later ↦ rw later (
      Says-cons (insert_edge rows from to).0 r rows from.value to.value (λ e. cc ((==_iff _ _).1 e))
        (insert_edge-Says rows from to w.3))
]

Says-IsFailure : (s : CcStat) (rows : List Row) (u v : ℕ) → Says s rows u v → ¬ IsFailure s
Says-IsFailure cc_ok rows u v h f = f
Says-IsFailure cc_err_key_not_found rows u v h f = f
Says-IsFailure cc_err_value_not_found rows u v h f = f
Says-IsFailure other rows u v h f = h

module _ (lib : Collections) (laws : IsCollections lib) where
  -- Where memory is found, `graph_add` on a graph without repetitions keeps it so and adds exactly the
  -- edge from `from` to `to`. It returns `CC_OK` if the graph had no such node before,
  -- `CC_GRAPH_FROM_EXISTS` if it had the node and not the edge, and `CC_GRAPH_BOTH_EXIST` if it had both.
  pub graph_add-HasEdge :
      (now : ℕ) (g : Graph lib) (rows : List Row) (from to : Ptr)
      → HasMemory lib now
      → Represents lib g rows
      → IsWellFormed rows
      → (s : CcStat) × (g' : Graph lib) × (rows' : List Row) × (graph_add lib now g from to
          ≡ some (s, g'))
        × Represents lib g' rows'
        × IsWellFormed rows'
        × ((u v : ℕ) → HasEdge rows' u v ↔ (HasEdge rows u v ⊎ (u ≡ from.value) × (v ≡ to.value)))
        × Says s rows from.value to.value
  graph_add-HasEdge now g rows from to memory rep w =
      let (s, g', e, outcome) = graph_add-insert_edge lib laws now g rows from to rep in
      elim outcome [
        | inl (_, lacking) ↦ absurd (lacking memory)
        | inr (same, rep') ↦ (
          s,
          g',
          (insert_edge rows from to).1,
          e,
          rep',
          insert_edge-IsWellFormed rows from to w,
          insert_edge-HasEdge rows from to,
          subst (λ t. Says t rows from.value to.value) (sym same) (insert_edge-Says rows from to w),
        )
      ]
