-- ===== src/Monitor/Branches/Invariant.antt =====
-- c_monitor/main.c: what process_branches keeps true of the table of branches, memory or not.
use fuzz_monitor.Base.{
  ℕ, ◌+◌, ◌^◌, ◌≡◌, refl, subst, ◌⊎◌, inl, inr, Bool, List, [], ◌∷◌, ◌++◌, length, get_elem?-lt,
  ltb, Bool-cases, Option-cases, arith,
}
use fuzz_monitor.Text.{Text, codes, text_eq}
use fuzz_monitor.Collections.{Collections, IsHashTable, Result-cases}
use fuzz_monitor.Perf.{BtsBranch}
use fuzz_monitor.Graph.{Ptr, graph_new, graph_add, graph_foreach}
use fuzz_monitor.Graph.Depth.{Outcome, done, aborted, out_of_fuel, graph_depth_conn}
use fuzz_monitor.Monitor.{Monitor, SameSettings}
use fuzz_monitor.Monitor.Counters.{Linked, increment-Linked, insert-Linked}
use fuzz_monitor.Monitor.Branches.{
  release, Run, Progress, going, failed, crashed, count_hit, record_branch, process_branch,
  run_branches, Returned, zero_returned, minus_one, aborts, write_graph, finish, first_run, after,
  report, process_branches,
}
use fuzz_monitor.Monitor.Branches.Print.{file, graph_no_print, graph_print_and_free}
use fuzz_monitor.Monitor.Branches.Address.{in_kernel, out_of_section, resolve, branch_key}

module _ (lib : Collections) (keys : IsHashTable lib text_eq) where
  open lib use {hashtable_get, hashtable_add}

  abbrev IsLinked : Run lib → Type 0
  IsLinked r = Linked lib text_eq (2 ^ 64) r.branch_hits r.counters

  abbrev Keeps : Progress lib → Type 0
  Keeps (going r) = IsLinked r
  Keeps (failed r) = IsLinked r
  Keeps crashed = Unit {0}

  count_hit-Keeps :
      (now : ℕ) (r : Run lib) (block : ℕ) (key : Text)
      → IsLinked r
      → Keeps (count_hit lib now r block key)
  unfolding count_hit
  count_hit-Keeps now r block key l =
      elim (Result-cases (hashtable_get text_eq r.branch_hits key)) [
        | inl (i, at) ↦
            let (hits, e) = get_elem?-lt r.counters i (l.in_range key i at) in
            rw (at, count_hit, e)
              (increment-Linked lib text_eq keys (2 ^ 64) (omega arith) r.branch_hits r.counters key
                l i hits at e)
        | inr missing ↦
            elim (Result-cases (hashtable_add text_eq now r.branch_hits key (length r.counters))) [
              | inl (table, added) ↦
                  rw (missing.1, count_hit, added)
                    (insert-Linked lib text_eq keys (2 ^ 64) (omega arith) r.branch_hits r.counters
                      key l now table missing added)
              | inr (s, full) ↦ rw (missing.1, count_hit, full) l
            ]
      ]

  record_branch-Keeps :
      (now : ℕ) (r : Run lib) (ends : ℕ × ℕ) → IsLinked r → Keeps (record_branch lib now r ends)
  unfolding record_branch
  record_branch-Keeps now r ends l =
      let from : Ptr = record { addr = r.next; value = ends.0 } in
      let to : Ptr = record { addr = r.next + 1; value = ends.1 } in
      elim (Option-cases (graph_add lib now r.graph from to)) [
        | inl crashes ↦ rw (crashes, record_branch) tt
        | inr ((s, graph), added) ↦ elim (Option-cases (release s from to)) [
          | inl stops ↦ rw (added, record_branch, stops) tt
          | inr (blocks, freed) ↦
              rw (added, record_branch, freed)
                (count_hit-Keeps now
                  (record r {
                    graph = graph;
                    filtered_count = r.filtered_count + 1;
                    next = r.next + 3;
                    freed = r.freed ++ blocks;
                  })
                  (r.next + 2) (branch_key ends.0 ends.1) l)
        ]
      ]

  process_branch-Keeps :
      (now : ℕ) (m : Monitor lib) (r : Run lib) (b : BtsBranch)
      → IsLinked r
      → Keeps (process_branch lib now m r b)
  unfolding process_branch
  process_branch-Keeps now m r b l = elim (Bool-cases (in_kernel b)) [
    | inl kernel ↦ rw (kernel, process_branch) l
    | inr user ↦ elim (Bool-cases (out_of_section m.sec_bounds b)) [
      | inl outside ↦ rw (user, process_branch, outside) l
      | inr inside ↦
          rw (user, process_branch, inside) (record_branch-Keeps now r (resolve m.bbs b) l)
    ]
  ]

  Progress-cases :
      (p : Progress lib)
      → ((r : Run lib) × (p ≡ going r)) ⊎ ((r : Run lib) × (p ≡ failed r)) ⊎ (p ≡ crashed)
  Progress-cases (going r) = inl (r, refl)
  Progress-cases (failed r) = inr (inl (r, refl))
  Progress-cases crashed = inr (inr refl)

  run_branches-Keeps :
      (now : ℕ) (m : Monitor lib) (r : Run lib) (branches : List BtsBranch)
      → IsLinked r
      → Keeps (run_branches lib now m r branches)
  unfolding run_branches
  run_branches-Keeps now m r [] l = l
  run_branches-Keeps now m r (b ∷ branches) l =
      let kept = process_branch-Keeps now m r b l in
      elim (Progress-cases (process_branch lib now m r b)) [
        | inl (r', e) ↦
            rw (e, run_branches) (run_branches-Keeps now m r' branches (subst Keeps e kept))
        | inr (inl (r', e)) ↦ rw (e, run_branches) (subst Keeps e kept)
        | inr (inr e) ↦ rw (e, run_branches) tt
      ]

  abbrev Holds : Monitor lib → Monitor lib → Type 0
  Holds m m' = Linked lib text_eq (2 ^ 64) m'.branch_hits m'.counters × SameSettings lib m m'

  -- The monitor that a call leaves, on each of its returns.
  abbrev pub KeepsTable : Monitor lib → Returned lib → Type 0
  KeepsTable m (zero_returned result) = Holds m result.monitor
  KeepsTable m (minus_one m') = Holds m m'
  KeepsTable m aborts = Unit {0}

  after-Holds : (m : Monitor lib) (r : Run lib) → IsLinked r → Holds m (after lib m r)
  unfolding after
  after-Holds m r l = (l, (refl, refl, refl, refl, refl, refl))

  write_graph-KeepsTable :
      (opens : Bool) (m : Monitor lib) (r : Run lib) (depth : ℕ)
      → IsLinked r
      → KeepsTable m (write_graph lib opens m r depth)
  unfolding write_graph report
  write_graph-KeepsTable opens m r depth l = elim (Bool-cases (ltb 0 r.new_branches)) [
    | inl new ↦ elim (Bool-cases opens) [
      | inl opened ↦
          elim (Option-cases (
            graph_foreach lib r.graph (graph_print_and_free file)
              (record { written = codes "digraph {" ++ 10 ∷ []; logged = []; freed = r.freed }))) [
                | inl e ↦ rw (new, opened, write_graph, e) tt
                | inr (sink, e) ↦ rw (new, opened, write_graph, e) (after-Holds m r l)
              ]
      | inr shut ↦ rw (new, shut, write_graph) (after-Holds m r l)
    ]
    | inr old ↦
        elim (Option-cases (
          graph_foreach lib r.graph (graph_print_and_free graph_no_print)
            (record { written = []; logged = []; freed = r.freed }))) [
              | inl e ↦ rw (old, write_graph, e) tt
              | inr (sink, e) ↦ rw (old, write_graph, e) (after-Holds m r l)
            ]
  ]

  Outcome-cases :
      (o : Outcome) → ((depth : ℕ) × (o ≡ done depth)) ⊎ (o ≡ aborted) ⊎ (o ≡ out_of_fuel)
  Outcome-cases (done depth) = inl (depth, refl)
  Outcome-cases aborted = inr (inl refl)
  Outcome-cases out_of_fuel = inr (inr refl)

  finish-KeepsTable :
      (now : ℕ) (opens : Bool) (m : Monitor lib) (r : Run lib)
      → IsLinked r
      → KeepsTable m (finish lib now opens m r)
  unfolding finish
  finish-KeepsTable now opens m r l = elim (Outcome-cases (graph_depth_conn lib now r.graph)) [
    | inl (depth, e) ↦ rw (e, finish) (write_graph-KeepsTable opens m r depth l)
    | inr (inl e) ↦ rw (e, finish) tt
    | inr (inr e) ↦ rw (e, finish) tt
  ]

  -- Whether memory is found or not, and whether fopen succeeds or not: where process_branches returns,
  -- every key of the table still has a counter of its own below 2^64, and the settings of the monitor are
  -- the same.
  pub process_branches-KeepsTable :
      (now : ℕ) (opens : Bool) (m : Monitor lib) (branches : List BtsBranch)
      → Linked lib text_eq (2 ^ 64) m.branch_hits m.counters
      → KeepsTable m (process_branches lib now opens m branches)
  unfolding process_branches first_run
  process_branches-KeepsTable now opens m branches l = elim (Result-cases (graph_new lib now)) [
    | inr (s, e) ↦ rw (e, process_branches) tt
    | inl (g, e) ↦
        let start = first_run lib m g in
        let kept = run_branches-Keeps now m start branches l in
        elim (Progress-cases (run_branches lib now m start branches)) [
          | inl (r, ran) ↦
              rw (e, process_branches, ran) (finish-KeepsTable now opens m r (subst Keeps ran kept))
          | inr (inl (r, ran)) ↦
              rw (e, process_branches, ran) (after-Holds m r (subst Keeps ran kept))
          | inr (inr ran) ↦ rw (e, process_branches, ran) tt
        ]
  ]
