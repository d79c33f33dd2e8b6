-- ===== src/Monitor/Branches/Whole.antt =====
-- c_monitor/main.c: what a call of process_branches returns and leaves.
use fuzz_monitor.Base.{
  ℕ, ◌+◌, ◌*◌, ◌%◌, ◌^◌, ◌<◌, ◌≡◌, refl, ap, ◌∙◌, ◌⊎◌, inl, inr, ◌↔◌, Bool, true, false, List, [],
  ◌∷◌, ◌++◌, foldl, length, ltb, if◌then◌else◌, Bool-cases, arith,
}
use fuzz_monitor.Text.{Text, codes, text_eq}
use fuzz_monitor.Collections.{Collections, IsCollections, IsHashTable, HasMemory}
use fuzz_monitor.Perf.{BtsBranch}
use fuzz_monitor.Graph.{Graph}
use fuzz_monitor.Graph.Rows.{Row, Represents}
use fuzz_monitor.Graph.Edges.{HasEdge, IsWellFormed}
use fuzz_monitor.Graph.Traverse.{graph_new-Represents, graph_foreach-foldl}
use fuzz_monitor.Graph.Depth.{done, graph_depth_conn}
use fuzz_monitor.Graph.Depth.Correct.{graph_depth_conn-IsDepth}
use fuzz_monitor.Monitor.{Monitor, SameSettings}
use fuzz_monitor.Monitor.Branches.{
  Run, Report, zero_returned, minus_one, after, report, write_graph, finish, first_run,
  process_branches,
}
use fuzz_monitor.Monitor.Branches.Print.{graph_no_print, file, Sink, graph_print_and_free}
use fuzz_monitor.Monitor.Counters.{hits_of, Linked}
use fuzz_monitor.Monitor.Branches.Heap.{times, times-append, kept, graph_print_and_free-freed}
use fuzz_monitor.Monitor.Branches.Steps.{IsSound}
use fuzz_monitor.Monitor.Branches.Runs.{recorded, HasEnds, occurrences, IsRun, run_branches-IsRun}
use fuzz_monitor.Monitor.Branches.Names.{Adds, run-Adds}

module _ (lib : Collections) (laws : IsCollections lib) where
  -- The graph is written, if it has to be, and all that it keeps is freed.
  write_graph_lem :
      (opens : Bool) (m : Monitor lib) (r : Run lib) (rows : List Row) (depth : ℕ)
      → Represents lib r.graph rows
      → (opens ≡ true) ⊎ (r.new_branches ≡ 0)
      → (sink : Sink) × (write_graph lib opens m r depth
          ≡ zero_returned (report lib m r depth sink))
        × (sink.freed ≡ r.freed ++ kept rows)
  unfolding write_graph
  write_graph_lem opens m r rows depth rep may = elim (Bool-cases (ltb 0 r.new_branches)) [
    | inl new ↦
        let start : Sink = record {
          written = codes "digraph {" ++ 10 ∷ [];
          logged = [];
          freed = r.freed;
        } in
        let whole = foldl (λ s r. graph_print_and_free file s r.node r.targets) start rows in
        let opened : opens ≡ true = ground arith in
        (
          record whole { written = whole.written ++ codes "}" ++ 10 ∷ [] },
          rw
              (
                new,
                opened,
                graph_foreach-foldl lib laws r.graph (graph_print_and_free file) rows start rep,
              )
              refl,
          graph_print_and_free-freed file start rows,
        )
    | inr old ↦
        let start : Sink = record { written = []; logged = []; freed = r.freed } in
        (
          foldl (λ s r. graph_print_and_free graph_no_print s r.node r.targets) start rows,
          rw
              (
                old,
                graph_foreach-foldl lib laws r.graph (graph_print_and_free graph_no_print) rows
                    start rep,
              )
              refl,
          graph_print_and_free-freed graph_no_print start rows,
        )
  ]

module _ (lib : Collections) (laws : IsCollections lib) (keys : IsHashTable lib text_eq) (now : ℕ)
    (memory : HasMemory lib now) (m : Monitor lib)
    (linked : Linked lib text_eq (2 ^ 64) m.branch_hits m.counters)
    (branches : List BtsBranch) where
  open lib use {hashtable_size}

  first_run-IsSound : (g : Graph lib) → Represents lib g [] → IsSound lib (first_run lib m g) []
  unfolding first_run
  first_run-IsSound g rep = record {
    represents = rep;
    well_formed = ground arith;
    linked = linked;
    owned = λ a. ground arith;
    taken = refl;
    three = refl;
  }

  -- The call up to its last part.
  reach_end :
      (opens : Bool)
      → (g : Graph lib) × (r : Run lib) × (rows : List Row) × (depth : ℕ) × (process_branches lib
            now opens m branches
          ≡ write_graph lib opens m r depth)
        × IsRun lib (first_run lib m g) [] (recorded m.sec_bounds m.bbs branches) r rows
        × (graph_depth_conn lib now r.graph ≡ done depth)
  unfolding process_branches finish
  reach_end opens =
      let (g, created, rep) = graph_new-Represents lib laws now memory in
      let (r, rows, e, ran) =
        run_branches-IsRun lib laws keys now m (first_run lib m g) [] branches memory
          (first_run-IsSound g rep) in
      let (depth, found, _, _) =
        graph_depth_conn-IsDepth lib laws now memory r.graph rows ran.sound.represents in
      (g, r, rows, depth, rw (created, process_branches, e, finish, found) refl, ran, found)

  -- Where `fopen` succeeds and memory is found, `process_branches` returns 0. `filtered_count` is the
  -- number of branches that neither touch the kernel nor have an end outside the bounds of the
  -- section, `sec_end` itself counted as inside; each key has been counted once for each of those
  -- branches that has it, modulo 2^64; and `new_branches` is by how much the table of keys has grown;
  -- a key of the table was there before or is that of one of those branches. Each key has a counter of
  -- its own, as before, and the settings are the same.
  pub process_branches-counts :
      (result : Report lib) × (process_branches lib now true m branches ≡ zero_returned result)
      × ((k : Text)
          → hits_of lib text_eq result.monitor.branch_hits result.monitor.counters k
            ≡ (hits_of lib text_eq m.branch_hits m.counters k
                + occurrences k (recorded m.sec_bounds m.bbs branches))
              % 2 ^ 64)
      × (result.filtered_count ≡ length (recorded m.sec_bounds m.bbs branches))
      × (hashtable_size result.monitor.branch_hits
          ≡ hashtable_size m.branch_hits + result.new_branches)
      × Linked lib text_eq (2 ^ 64) result.monitor.branch_hits result.monitor.counters
      × SameSettings lib m result.monitor
      × Adds lib m.branch_hits
          (λ k. occurrences k (recorded m.sec_bounds m.bbs branches))
          result.monitor.branch_hits
  unfolding report after first_run
  process_branches-counts =
      let (g, r, rows, depth, e, ran, _) = reach_end true in
      let (sink, written, _) =
        write_graph_lem lib laws true m r rows depth ran.sound.represents (inl refl) in
      (
        report lib m r depth sink,
        e ∙ written,
        ran.counts,
        omega (arith, ran.filtered),
        omega (arith, ran.size),
        ran.sound.linked,
        (refl, refl, refl, refl, refl, refl),
        run-Adds lib r.branch_hits m.branch_hits (recorded m.sec_bounds m.bbs branches) ran.names,
      )

  -- Where `fopen` succeeds and memory is found, `process_branches` takes three blocks for each branch
  -- that is not skipped: its two ends and its key. Each of them has been freed exactly once when it
  -- returns, save the keys of the new branches, which the table keeps, one for each new branch, and
  -- which have not been freed. The counter of a new branch is not among these blocks.
  pub process_branches-freed :
      (result : Report lib) × (process_branches lib now true m branches ≡ zero_returned result)
      × ((a : ℕ)
          → times a result.freed + times a result.table_keys ≡ (if ltb a result.next then 1 else 0))
      × (length result.table_keys ≡ result.new_branches)
      × (result.next ≡ 3 * result.filtered_count)
  unfolding report
  process_branches-freed =
      let (g, r, rows, depth, e, ran, _) = reach_end true in
      let (sink, written, freed) =
        write_graph_lem lib laws true m r rows depth ran.sound.represents (inl refl) in
      (
        report lib m r depth sink,
        e ∙ written,
        λ a.
            omega
              (arith, ap (times a) freed, times-append a r.freed (kept rows), ran.sound.owned a),
        ran.sound.taken,
        ran.sound.three,
      )

  -- Where `fopen` succeeds and memory is found, `depth` is what `graph_depth_conn` finds in a graph that
  -- has an edge for each two ends of a branch that is not skipped, and no other edge.
  pub process_branches-depth :
      (result : Report lib) × (graph : Graph lib) × (rows : List Row) × (process_branches lib now
          true m branches
        ≡ zero_returned result)
      × Represents lib graph rows
      × IsWellFormed rows
      × ((x y : ℕ) → HasEdge rows x y ↔ HasEnds (recorded m.sec_bounds m.bbs branches) x y)
      × (graph_depth_conn lib now graph ≡ done result.depth)
  unfolding report
  process_branches-depth =
      let (g, r, rows, depth, e, ran, found) = reach_end true in
      let (sink, written, _) =
        write_graph_lem lib laws true m r rows depth ran.sound.represents (inl refl) in
      (
        report lib m r depth sink,
        r.graph,
        rows,
        e ∙ written,
        ran.sound.represents,
        ran.sound.well_formed,
        λ x y. ground (arith, ran.edges x y),
        found,
      )

  -- Where `fopen` fails and memory is found, `process_branches` returns 0 if no key was new, and
  -- otherwise -1; the keys have been counted all the same.
  pub process_branches-minus_one :
      (m' : Monitor lib) × (new : ℕ) × (hashtable_size m'.branch_hits
        ≡ hashtable_size m.branch_hits + new)
      × ((k : Text)
          → hits_of lib text_eq m'.branch_hits m'.counters k
            ≡ (hits_of lib text_eq m.branch_hits m.counters k
                + occurrences k (recorded m.sec_bounds m.bbs branches))
              % 2 ^ 64)
      × ((0 < new) × (process_branches lib now false m branches ≡ minus_one m')
          ⊎ (new ≡ 0)
            × (result : Report lib) × (process_branches lib now false m branches
                ≡ zero_returned result)
            × (result.monitor ≡ m'))
  unfolding report after first_run write_graph
  process_branches-minus_one =
      let (g, r, rows, depth, e, ran, _) = reach_end false in
      (
        after lib m r,
        r.new_branches,
        omega (arith, ran.size),
        ran.counts,
        elim (Bool-cases (ltb 0 r.new_branches)) [
          | inl new ↦ inl (ground arith, e ∙ rw new refl)
          | inr old ↦
              let none_new : r.new_branches ≡ 0 = ground arith in
              let (sink, written, _) =
                write_graph_lem lib laws false m r rows depth ran.sound.represents (inr none_new) in
              inr (none_new, report lib m r depth sink, e ∙ written, refl)
        ],
      )
