-- ===== src/Graph/Depth/Correct.antt =====
-- `graph_depth` and `graph_depth_conn` of c_monitor/graph.c return, and what they return.
use fuzz_monitor.Base.{
  ℕ, zero, suc, ◌+◌, ◌≤◌, ◌<◌, ◌≡◌, refl, sym, ap, subst, ◌∙◌, ◌⊎◌, inl, inr, false, List, [], ◌∷◌,
  ◌++◌, length, length-map, replicate, ltb, ◌==◌, if◌then◌else◌, ℕ_discrete, Bool-cases, List-cases,
  arith,
}
use fuzz_monitor.Collections.{Collections, IsCollections, HasMemory}
use fuzz_monitor.Graph.{Graph}
use fuzz_monitor.Graph.Rows.{Row, Represents}
use fuzz_monitor.Graph.Depth.Trace.{
  BfsQueueElm, Arcs, arcs_at, flag, Trace, advance, HasArc, Walk, stay, step, Elem, Known,
}
use fuzz_monitor.Graph.Depth.Rounds.{Inv, unseen, work, work-advance, advance-Inv}
use fuzz_monitor.Graph.Depth.Nearest.{IsDepth, Inv-IsDepth}
use fuzz_monitor.Graph.Depth.Refine.{arcs_of, arcs_of-lt, Follows, round-Follows}
use fuzz_monitor.Graph.Depth.{Search, loop, search, done, graph_depth, graph_depth_conn, conn_from}

flag-replicate : (n i : ℕ) → i < n → flag (replicate n false) i ≡ false
flag-replicate zero i lt = absurd (omega arith)
flag-replicate (suc n) zero lt = refl
flag-replicate (suc n) (suc i) lt = flag-replicate n i (omega arith)

unseen-replicate : (n : ℕ) → unseen (replicate n false) ≡ n
unseen-replicate zero = refl
unseen-replicate (suc n) = ap suc (unseen-replicate n)

length-replicate : (n : ℕ) → length (replicate n false) ≡ n
length-replicate zero = refl
length-replicate (suc n) = ap suc (length-replicate n)

abbrev first_trace : ℕ → ℕ → Trace
first_trace size s = record {
  past = [];
  pending = record { depth = 0; index = s } ∷ [];
  flags = replicate size false;
  deepest = 0;
}

first-Inv : (arcs : Arcs) (s size : ℕ) → Inv arcs s size (first_trace size s)
first-Inv arcs s size = record {
  low = 0;
  core = record {
    walk = λ k i m.
        let at : i ≡ s = ground arith in
        let zero_depth : k ≡ 0 = ground arith in rw (at, zero_depth) stay;
    start = inr (inl (refl, refl));
    flagged = λ k i m pos. absurd (ground arith);
    seen = λ i on lt. absurd (cc (flag-replicate size i (omega (arith, length-replicate size))));
    unique = λ k l i m m' p q. absurd (ground arith);
    bounded = λ k i m. ground arith;
    sorted = omega arith;
  };
  sized = length-replicate size;
  closed = λ k i j m a. absurd m;
  deep = λ k i m ne. absurd m;
  attained = inl refl;
}

Walk-lt :
    (rows : List Row) (s : ℕ)
    → s < length rows
    → {k i : ℕ} → Walk (arcs_of rows) s k i
    → i < length rows
Walk-lt rows s lt stay = lt
Walk-lt rows s lt (step {k} {i} {j} w m) = arcs_of-lt rows i j m

module _ (lib : Collections) (laws : IsCollections lib) (now : ℕ) (memory : HasMemory lib now)
    (g : Graph lib) (rows : List Row) (rep : Represents lib g rows) where
  -- Where nothing waits, the loop ends with the depth.
  ended :
      (s fuel : ℕ) (q : Search lib) (t : Trace)
      → Follows lib laws now memory q t
      → Inv (arcs_of rows) s g.n_nodes t
      → t.pending ≡ []
      → (d : ℕ) × (loop lib now g fuel q ≡ done d) × IsDepth (arcs_of rows) s d
  unfolding loop
  ended s fuel q t f v e =
      let size : lib.queue_size q.queue ≡ 0 =
        laws.queue_size_items q.queue ∙ ap length (f.queue_eq ∙ e) in
      (
        t.deepest,
        stops fuel size ∙ ap done f.depth_eq,
        Inv-IsDepth (arcs_of rows) s g.n_nodes t v e,
      )
    where
      stops : (fuel : ℕ) → lib.queue_size q.queue ≡ 0 → loop lib now g fuel q ≡ done q.max_depth
      stops zero size = rw (size, loop)
      stops (suc fuel) size = rw (size, loop)

  loop-IsDepth :
      (s fuel : ℕ) (q : Search lib) (t : Trace)
      → s < length rows
      → Follows lib laws now memory q t
      → Inv (arcs_of rows) s g.n_nodes t
      → work t ≤ fuel
      → (d : ℕ) × (loop lib now g fuel q ≡ done d) × IsDepth (arcs_of rows) s d
  unfolding loop
  loop-IsDepth s zero q t lt f v enough = elim (List-cases t.pending) [
    | inl e ↦ ended s zero q t f v e
    | inr (x, rest, e) ↦ absurd (omega (arith, ap length e))
  ]
  loop-IsDepth s (suc fuel) q t lt f v enough = elim (List-cases t.pending) [
    | inl e ↦ ended s (suc fuel) q t f v e
    | inr (x, rest, e) ↦
        let size : lib.queue_size q.queue ≡ suc (length rest) =
          laws.queue_size_items q.queue ∙ ap length (f.queue_eq ∙ e) in
        let head : Known t x.depth x.index =
          inr (subst (Elem x.depth x.index) (sym e) (inl (refl, refl))) in
        let in_rows = Walk-lt rows s lt (v.core.walk x.depth x.index head) in
        let (q', next, f') =
          round-Follows lib laws now memory g rows rep q t x rest
            (omega (arith, v.sized, rep.count_eq)) in_rows e f in
        let in_range = λ (i j : ℕ) (m : HasArc (arcs_at (arcs_of rows) i) j).
          let below : j < length rows = arcs_of-lt rows i j m in
          let bound : j < g.n_nodes = omega (arith, rep.count_eq) in bound in
        let (d, ends, depth) =
          loop-IsDepth s fuel q' (advance (arcs_of rows) t x rest) lt f'
            (advance-Inv (arcs_of rows) s g.n_nodes in_range t x rest e v)
            (omega (arith, work-advance (arcs_of rows) t x rest e)) in
        (d, rw (size, loop, next) ends, depth)
  ]

  -- From a node of the graph, and with memory for its queue, `graph_depth` passes its assertions, reads
  -- no flag out of bounds and returns. What it returns is the greatest `k + 1` for which a node with an
  -- edge is at depth `k`: the start at 0, and any node that a non-empty walk from the start reaches, the
  -- start too if it lies on a cycle, at the length of the shortest such walk.
  pub graph_depth-IsDepth :
      (start_idx : ℕ)
      → start_idx < length rows
      → (d : ℕ) × (graph_depth lib now g start_idx ≡ done d) × IsDepth (arcs_of rows) start_idx d
  unfolding graph_depth search
  graph_depth-IsDepth s lt =
      let elm : BfsQueueElm = record { depth = 0; index = s } in
      let some_nodes : (g.n_nodes == 0) ≡ false = ground (arith, rep.count_eq) in
      let count : lib.array_size g.nodes ≡ length rows =
        laws.array_size_items g.nodes
        ∙ ap length rep.nodes_eq
        ∙ length-map (λ (r : Row). r.node) rows in
      let inside : ltb (lib.array_size g.nodes) s ≡ false = ground (arith, count) in
      let (queue, made) = memory.queue_new_ok {A = BfsQueueElm} in
      let (first, queued) = memory.queue_enqueue_ok queue elm in
      let (d, ends, depth) =
        loop-IsDepth s (suc g.n_nodes)
          (record { queue = first; discovered = replicate g.n_nodes false; max_depth = 0 })
          (first_trace g.n_nodes s) lt
          (record {
            queue_eq =
                laws.queue_enqueue_items now queue first elm queued
                ∙ ap (λ q. q ++ elm ∷ []) (laws.queue_new_items now queue made);
            flags_eq = refl;
            depth_eq = refl;
          })
          (first-Inv (arcs_of rows) s g.n_nodes) (omega (arith, unseen-replicate g.n_nodes)) in
      (d, rw (some_nodes, inside, made, graph_depth, search, queued) ends, depth)

  conn_from_lem :
      (left i m : ℕ)
      → i + left ≡ length rows
      → (r : ℕ) × (conn_from lib now g left i m ≡ done r)
        × (m ≤ r)
        × ((j : ℕ) → i ≤ j → j < length rows → (d : ℕ) × IsDepth (arcs_of rows) j d × (d ≤ r))
        × ((r ≡ m) ⊎ ((j : ℕ) × (j < length rows) × IsDepth (arcs_of rows) j r))
  unfolding conn_from
  conn_from_lem zero i m e = (m, refl, omega arith, λ j le lt. absurd (omega arith), inl refl)
  conn_from_lem (suc left) i m e =
      let (d, returned, depth) = graph_depth-IsDepth i (omega arith) in
      let m' = if ltb m d then d else m in
      let (r, ends, le, all, attained) = conn_from_lem left (i + 1) m' (omega arith) in
      let m_le : m ≤ m' = ground arith in
      let d_le : d ≤ m' = ground arith in
      (
        r,
        rw (returned, conn_from) ends,
        omega arith,
        λ j ge lt. elim (ℕ_discrete i j) [
          | yes here ↦
              subst (λ j. (d : ℕ) × IsDepth (arcs_of rows) j d × (d ≤ r)) here
                (d, depth, omega arith)
          | no later ↦ all j (omega arith) lt
        ],
        elim attained [
          | inr there ↦ inr there
          | inl same ↦ elim (Bool-cases (ltb m d)) [
            | inl deeper ↦
                let top : m' ≡ d = ground arith in
                inr (i, omega arith, subst (IsDepth (arcs_of rows) i) (sym (same ∙ top)) depth)
            | inr not_deeper ↦ let kept : m' ≡ m = ground arith in inl (same ∙ kept)
          ]
        ],
      )

  -- With memory for its queues `graph_depth_conn` returns the greatest depth that the search has from
  -- any node of the graph, and 0 for a graph without nodes.
  pub graph_depth_conn-IsDepth :
      (m : ℕ) × (graph_depth_conn lib now g ≡ done m)
      × ((j : ℕ) → j < length rows → (d : ℕ) × IsDepth (arcs_of rows) j d × (d ≤ m))
      × ((m ≡ 0) ⊎ ((j : ℕ) × (j < length rows) × IsDepth (arcs_of rows) j m))
  unfolding graph_depth_conn
  graph_depth_conn-IsDepth =
      let count : lib.array_size g.nodes ≡ length rows =
        laws.array_size_items g.nodes
        ∙ ap length rep.nodes_eq
        ∙ length-map (λ (r : Row). r.node) rows in
      let (m, ends, _, all, attained) =
        conn_from_lem (lib.array_size g.nodes) 0 0 (omega (arith, count)) in
      (m, ends, λ j lt. all j (omega arith) lt, attained)
