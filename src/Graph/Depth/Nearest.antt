-- ===== src/Graph/Depth/Nearest.antt =====
-- The depth that the search of c_monitor/graph.c should return, in terms of walks, and that an empty
-- queue means that it has been found.
use fuzz_monitor.Base.{ℕ, zero, suc, ◌≤◌, ◌<◌, ◌≡◌, ◌≢◌, refl, sym, subst, ◌⊎◌, inl, inr, [], arith}
use fuzz_monitor.Graph.Depth.Trace.{Arcs, arcs_at, Trace, Walk, stay, step, Elem, Known}
use fuzz_monitor.Graph.Depth.Rounds.{Inv}

module _ (arcs : Arcs) (s : ℕ) where
  -- `i` is the start at depth 0, or `k` is the length of the shortest non-empty walk to `i`. So the
  -- start has a second depth if it lies on a cycle.
  abbrev pub Nearest : ℕ → ℕ → Type 0
  Nearest k i =
      ((k ≡ 0) × (i ≡ s)) ⊎ (0 < k) × Walk arcs s k i × ((l : ℕ) → 0 < l → Walk arcs s l i → k ≤ l)

  -- The greatest number of edges that a shortest walk to a node and one edge out of it come to.
  pub record IsDepth (d : ℕ) : Type 0 where
    pub upper : (k i : ℕ) → Nearest k i → arcs_at arcs i ≢ [] → suc k ≤ d
    pub attained : (d ≡ 0) ⊎ ((k : ℕ) × (i : ℕ) × Nearest k i × (arcs_at arcs i ≢ []) × (d ≡ suc k))

  Walk-zero : {k i : ℕ} → Walk arcs s k i → k ≡ 0 → i ≡ s
  Walk-zero stay e = refl
  Walk-zero (step w m) e = absurd (omega arith)

  module _ (size : ℕ) (t : Trace) (v : Inv arcs s size t) (empty : t.pending ≡ []) where
    gone : (k i : ℕ) → Known t k i → Elem k i t.past
    gone k i (inl m) = m
    gone k i (inr m) = absurd (subst (Elem k i) empty m)

    met : {k i : ℕ} → Walk arcs s k i → (l : ℕ) × (l ≤ k) × Elem l i t.past
    met stay = (0, omega arith, gone 0 s v.core.start)
    met (step {k} {i} {j} w m) =
        let (l, le, before) = met w in
        let (n, pos, near, known) = v.closed l i j before m in (n, omega arith, gone n j known)

    met_again : {k i : ℕ} → Walk arcs s k i → 0 < k → (l : ℕ) × (0 < l) × (l ≤ k) × Elem l i t.past
    met_again stay pos = absurd (omega arith)
    met_again (step {k} {i} {j} w m) pos =
        let (l, le, before) = met w in
        let (n, n_pos, near, known) = v.closed l i j before m in
        (n, n_pos, omega arith, gone n j known)

    Nearest-past : (k i : ℕ) → Nearest k i → Elem k i t.past
    Nearest-past k i (inl (zero_depth, at)) =
        subst (λ k. Elem k i t.past) (sym zero_depth)
          (subst (λ i. Elem 0 i t.past) (sym at) (gone 0 s v.core.start))
    Nearest-past k i (inr (pos, w, least)) =
        let (l, l_pos, le, m) = met_again w pos in
        let same : l ≡ k = omega (arith, least l l_pos (v.core.walk l i (inl m))) in
        subst (λ k. Elem k i t.past) same m

    past-Nearest : (k i : ℕ) → Elem k i t.past → Nearest k i
    past-Nearest zero i m = inl (refl, Walk-zero (v.core.walk 0 i (inl m)) refl)
    past-Nearest (suc k) i m = inr (
      omega arith,
      v.core.walk (suc k) i (inl m),
      λ l pos w.
          let (n, n_pos, le, m') = met_again w pos in
          omega (arith, v.core.unique (suc k) n i (inl m) (inl m') (omega arith) n_pos),
    )

    pub Inv-IsDepth : IsDepth t.deepest
    Inv-IsDepth = record {
      upper = λ k i near ne. v.deep k i (Nearest-past k i near) ne;
      attained = elim v.attained [
        | inl none_yet ↦ inl none_yet
        | inr (k, i, m, ne, at) ↦ inr (k, i, past-Nearest k i m, ne, at)
      ];
    }
