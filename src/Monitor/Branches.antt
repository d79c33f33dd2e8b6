-- ===== src/Monitor/Branches.antt =====
-- c_monitor/main.c: process_branches, which filters the branches of one input, takes them from
-- addresses to basic blocks, counts them and writes their graph. `bts_start` is the list of its `count`
-- branches. A block on the heap is its number, and `freed` lists those that have been freed; the
-- mallocs of main.c itself are taken to succeed.
pub mod Address
pub mod Print
pub mod Blocks
pub mod Keys
pub mod Heap
pub mod Steps
pub mod Runs
pub mod Names
pub mod Whole
pub mod Invariant
pub mod Examples
use fuzz_monitor.Base.{
  ℕ, zero, suc, ◌+◌, ◌%◌, ◌^◌, Bool, true, false, not, ◌&&◌, ◌||◌, List, [], ◌∷◌, ◌++◌, map, foldl,
  Option, none, some, length, get_elem?, set, ltb, leb, ◌==◌, if◌then◌else◌,
}
use fuzz_monitor.Text.{Text, codes, text_eq, decimal, hex, snprintf}
use fuzz_monitor.Collections.{
  CcStat, cc_ok, cc_err_alloc, cc_err_key_not_found, cc_err_value_not_found, cc_err_other,
  Collections, ok, err,
}
use fuzz_monitor.Perf.{BtsBranch}
use fuzz_monitor.Sections.{SectionBounds}
use fuzz_monitor.Bb.{BasicBlock}
use fuzz_monitor.Graph.{Ptr, Graph, graph_new, graph_add, graph_foreach}
use fuzz_monitor.Graph.Depth.{done, aborted, out_of_fuel, graph_depth_conn}
use fuzz_monitor.Monitor.{Monitor}
use Address.{in_kernel, out_of_section, resolve, branch_key}
use Print.{file, graph_no_print, Sink, graph_print_and_free}

-- The `switch` on the status of `graph_add`: what it frees, or `none` where it aborts.
unfoldable pub release : CcStat → Ptr → Ptr → Option (List ℕ)
release cc_ok from to = some []
release cc_err_key_not_found from to = some (from.addr ∷ [])
release cc_err_value_not_found from to = some (to.addr ∷ from.addr ∷ [])
release cc_err_alloc from to = none
release (cc_err_other n) from to = none

module _ (lib : Collections) where
  open lib use {hashtable_get, hashtable_add}

  -- The variables of `process_branches` while its loop runs; `next` is the number of the next block, and
  -- `table_keys` are the blocks of keys that the table has taken in this call.
  pub record Run : Type 0 where
    pub graph : Graph lib
    pub branch_hits : lib.HashTable Text ℕ
    pub counters : List ℕ
    pub new_branches : ℕ
    pub filtered_count : ℕ
    pub next : ℕ
    pub freed : List ℕ
    pub table_keys : List ℕ

  -- `failed` is `return -1`, and `crashed` a failed assertion, an `abort()` or an invalid access.
  pub data Progress : Type 0 where
    going failed : Run → Progress
    crashed : Progress

  -- The counter of the branch goes up and the key in `block` is freed, or the branch is new, gets a counter,
  -- and the table keeps the key.
  pub count_hit : ℕ → Run → ℕ → Text → Progress
  count_hit now r block key = elim (hashtable_get text_eq r.branch_hits key) [
    | ok value ↦ elim (get_elem? r.counters value) [
      | none ↦ crashed
      | some hits ↦ going (record r {
        counters = set r.counters value ((hits + 1) % 2 ^ 64);
        freed = r.freed ++ block ∷ [];
      })
    ]
    | err _ ↦ elim (hashtable_add text_eq now r.branch_hits key (length r.counters)) [
      | err _ ↦ failed r
      | ok table ↦ going (record r {
        branch_hits = table;
        counters = r.counters ++ 1 ∷ [];
        new_branches = r.new_branches + 1;
        table_keys = r.table_keys ++ block ∷ [];
      })
    ]
  ]

  -- The body of the loop for a branch that no test has skipped.
  pub record_branch : ℕ → Run → ℕ × ℕ → Progress
  record_branch now r (from_bb, to_bb) =
      let from : Ptr = record { addr = r.next; value = from_bb } in
      let to : Ptr = record { addr = r.next + 1; value = to_bb } in
      elim (graph_add lib now r.graph from to) [
        | none ↦ crashed
        | some (s, graph) ↦ elim (release s from to) [
          | none ↦ crashed
          | some blocks ↦
              count_hit now
                (record r {
                  graph = graph;
                  filtered_count = r.filtered_count + 1;
                  next = r.next + 3;
                  freed = r.freed ++ blocks;
                })
                (r.next + 2) (branch_key from_bb to_bb)
        ]
      ]

  pub process_branch : ℕ → Monitor lib → Run → BtsBranch → Progress
  process_branch now m r branch =
      if in_kernel branch
      then going r
      else if out_of_section m.sec_bounds branch
      then going r
      else record_branch now r (resolve m.bbs branch)

  pub run_branches : ℕ → Monitor lib → Run → List BtsBranch → Progress
  run_branches now m r [] = going r
  run_branches now m r (branch ∷ branches) = elim (process_branch now m r branch) [
    | going r' ↦ run_branches now m r' branches
    | failed r' ↦ failed r'
    | crashed ↦ crashed
  ]

  -- What the caller sees: the monitor after the call, the three results where 0 is returned, what was
  -- written to the graph's file, the blocks that were freed, of `next` in all, and those of the keys that
  -- the table keeps.
  pub record Report : Type 0 where
    pub monitor : Monitor lib
    pub new_branches : ℕ
    pub filtered_count : ℕ
    pub depth : ℕ
    pub written : Text
    pub freed : List ℕ
    pub next : ℕ
    pub table_keys : List ℕ

  pub data Returned : Type 0 where
    zero_returned : Report → Returned
    minus_one : Monitor lib → Returned
    aborts : Returned

  pub after : Monitor lib → Run → Monitor lib
  after m r = record m { branch_hits = r.branch_hits; counters = r.counters }

  pub report : Monitor lib → Run → ℕ → Sink → Report
  report m r depth sink = record {
    monitor = after m r;
    new_branches = r.new_branches;
    filtered_count = r.filtered_count;
    depth = depth;
    written = sink.written;
    freed = sink.freed;
    next = r.next;
    table_keys = r.table_keys;
  }

  -- From `if (_new_branches > 0)` on; `opens` says whether `fopen` succeeds.
  pub write_graph : Bool → Monitor lib → Run → ℕ → Returned
  write_graph opens m r depth =
      if ltb 0 r.new_branches
      then (if opens
          then elim (graph_foreach lib r.graph (graph_print_and_free file)
              (record { written = codes "digraph {" ++ 10 ∷ []; logged = []; freed = r.freed })) [
                | none ↦ aborts
                | some sink ↦ zero_returned (
                    report m r depth
                      (record sink { written = sink.written ++ codes "}" ++ 10 ∷ [] }))
              ]
          else minus_one (after m r))
      else elim (graph_foreach lib r.graph (graph_print_and_free graph_no_print)
          (record { written = []; logged = []; freed = r.freed })) [
            | none ↦ aborts
            | some sink ↦ zero_returned (report m r depth sink)
          ]

  pub finish : ℕ → Bool → Monitor lib → Run → Returned
  finish now opens m r = elim (graph_depth_conn lib now r.graph) [
    | done depth ↦ write_graph opens m r depth
    | aborted ↦ aborts
    | out_of_fuel ↦ aborts
  ]

  pub first_run : Monitor lib → Graph lib → Run
  first_run m graph = record {
    graph = graph;
    branch_hits = m.branch_hits;
    counters = m.counters;
    new_branches = 0;
    filtered_count = 0;
    next = 0;
    freed = [];
    table_keys = [];
  }

  -- The caller passes the addresses of its three results, so none of them is NULL.
  pub process_branches : ℕ → Bool → Monitor lib → List BtsBranch → Returned
  process_branches now opens m branches = elim (graph_new lib now) [
    | err _ ↦ aborts
    | ok graph ↦ elim (run_branches now m (first_run m graph) branches) [
      | crashed ↦ aborts
      | failed r ↦ minus_one (after m r)
      | going r ↦ finish now opens m r
    ]
  ]
