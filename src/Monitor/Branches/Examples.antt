-- ===== src/Monitor/Branches/Examples.antt =====
-- Runs of process_branches of c_monitor/main.c, and its theorems at them: a section from 10 to 100, a
-- basic block from 16 to 20, and a table in which the branch from 16 to 32 has been hit 5 times.
use fuzz_monitor.Base.{
  ℕ, zero, suc, ◌+◌, ◌*◌, ◌%◌, ◌^◌, ◌<◌, ◌≡◌, ◌≢◌, refl, sym, ◌∙◌, ◌⊎◌, inl, inr, ◌↔◌, true, false,
  List, [], ◌∷◌, some, length, get_elem?, ltb, if◌then◌else◌, Bool-cases, arith,
}
use fuzz_monitor.Text.{Text, codes, text_eq}
use fuzz_monitor.Text.Decimal.{text_eq_iff}
use fuzz_monitor.Collections.{ok, Collections, IsHashTable}
use fuzz_monitor.Collections.Lists.{list_collections, list_IsHashTable}
use fuzz_monitor.Perf.{BtsBranch}
use fuzz_monitor.Bb.{BasicBlock}
use fuzz_monitor.Graph.{Graph}
use fuzz_monitor.Graph.Rows.{Row, Represents}
use fuzz_monitor.Graph.Edges.{HasEdge, IsWellFormed}
use fuzz_monitor.Graph.Depth.{done, graph_depth_conn}
use fuzz_monitor.Graph.Examples.{laws, memory}
use fuzz_monitor.Monitor.{Monitor, SameSettings}
use fuzz_monitor.Monitor.Branches.{Report, zero_returned, minus_one, process_branches}
use fuzz_monitor.Monitor.Branches.Address.{resolve, branch_key}
use fuzz_monitor.Monitor.Branches.Blocks.{AreDisjoint, block_of, resolve-block_of}
use fuzz_monitor.Monitor.Branches.Keys.{parse_key, parse_key-branch_key, branch_key-injective}
use fuzz_monitor.Monitor.Counters.{hits_of, Linked}
use fuzz_monitor.Monitor.Branches.Heap.{times}
use fuzz_monitor.Monitor.Branches.Runs.{recorded, HasEnds, occurrences}
use fuzz_monitor.Monitor.Branches.Names.{Adds}
use fuzz_monitor.Monitor.Branches.Whole.{
  process_branches-counts, process_branches-freed, process_branches-depth,
  process_branches-minus_one,
}

abbrev lists : Collections
lists = list_collections 9

keys : IsHashTable lists text_eq
keys = list_IsHashTable 9 text_eq text_eq_iff

abbrev bbs : List BasicBlock
bbs = record { from = 16; to = 20 } ∷ []

abbrev monitor : Monitor lists
monitor = record {
  sut = codes "/bin/sut" ∷ [];
  branch_hits = (codes "16/32", 0) ∷ [];
  counters = 5 ∷ [];
  sec_bounds = some (record { sec_start = 10; sec_end = 100 });
  bbs = bbs;
  graph_indiv_path = codes "/tmp";
  input_n = 0;
  fuzz_corpus_path = codes "/tmp/corpus";
}

abbrev branch : ℕ → ℕ → BtsBranch
branch from to = record { from = from; to = to; misc = 0 }

-- An old key, a new one, a branch into the kernel and one out of the section.
abbrev branches : List BtsBranch
branches = branch 18 32 ∷ branch 32 48 ∷ branch 16 0xffffffff00000001 ∷ branch 200 16 ∷ []

-- The table has one key.
only_key :
    (k : Text) (i : ℕ)
    → lists.hashtable_get text_eq monitor.branch_hits k ≡ ok i
    → (i ≡ 0) × (k ≡ codes "16/32")
only_key k i e = elim (Bool-cases (text_eq k (codes "16/32"))) [
  | inl same ↦ (ground (arith, rw same at e), (text_eq_iff k (codes "16/32")).0 same)
  | inr other ↦ absurd (cc (rw other at e))
]

only_counter : (i hits : ℕ) → get_elem? monitor.counters i ≡ some hits → hits < 2 ^ 64
only_counter zero hits e = ground arith
only_counter (suc i) hits e = absurd (cc e)

monitor-Linked : Linked lists text_eq (2 ^ 64) monitor.branch_hits monitor.counters
monitor-Linked = record {
  in_range = λ k i e. omega (arith, (only_key k i e).0);
  apart = λ j k i one two. (only_key j i one).1 ∙ sym (only_key k i two).1;
  small = only_counter;
  listed = (rw ((text_eq_iff (codes "16/32") (codes "16/32")).1 refl) refl, tt);
}

process_branches-counts_example :
    (result : Report lists) × (process_branches lists 3 true monitor branches
      ≡ zero_returned result)
    × ((k : Text)
        → hits_of lists text_eq result.monitor.branch_hits result.monitor.counters k
          ≡ (hits_of lists text_eq monitor.branch_hits monitor.counters k
              + occurrences k (recorded monitor.sec_bounds monitor.bbs branches))
            % 2 ^ 64)
    × (result.filtered_count ≡ length (recorded monitor.sec_bounds monitor.bbs branches))
    × (length result.monitor.branch_hits ≡ 1 + result.new_branches)
    × Linked lists text_eq (2 ^ 64) result.monitor.branch_hits result.monitor.counters
    × SameSettings lists monitor result.monitor
    × Adds lists monitor.branch_hits
        (λ k. occurrences k (recorded monitor.sec_bounds monitor.bbs branches))
        result.monitor.branch_hits
process_branches-counts_example =
    process_branches-counts lists laws keys 3 memory monitor monitor-Linked branches

process_branches-freed_example :
    (result : Report lists) × (process_branches lists 3 true monitor branches
      ≡ zero_returned result)
    × ((a : ℕ)
        → times a result.freed + times a result.table_keys ≡ (if ltb a result.next then 1 else 0))
    × (length result.table_keys ≡ result.new_branches)
    × (result.next ≡ 3 * result.filtered_count)
process_branches-freed_example =
    process_branches-freed lists laws keys 3 memory monitor monitor-Linked branches

process_branches-depth_example :
    (result : Report lists) × (graph : Graph lists) × (rows : List Row) × (process_branches lists 3
        true monitor branches
      ≡ zero_returned result)
    × Represents lists graph rows
    × IsWellFormed rows
    × ((x y : ℕ)
        → HasEdge rows x y ↔ HasEnds (recorded monitor.sec_bounds monitor.bbs branches) x y)
    × (graph_depth_conn lists 3 graph ≡ done result.depth)
process_branches-depth_example =
    process_branches-depth lists laws keys 3 memory monitor monitor-Linked branches

process_branches-minus_one_example :
    (m' : Monitor lists) × (new : ℕ) × (length m'.branch_hits ≡ 1 + new)
    × ((k : Text)
        → hits_of lists text_eq m'.branch_hits m'.counters k
          ≡ (hits_of lists text_eq monitor.branch_hits monitor.counters k
              + occurrences k (recorded monitor.sec_bounds monitor.bbs branches))
            % 2 ^ 64)
    × ((0 < new) × (process_branches lists 3 false monitor branches ≡ minus_one m')
        ⊎ (new ≡ 0)
          × (result : Report lists) × (process_branches lists 3 false monitor branches
              ≡ zero_returned result)
          × (result.monitor ≡ m'))
process_branches-minus_one_example =
    process_branches-minus_one lists laws keys 3 memory monitor monitor-Linked branches

bbs-AreDisjoint : AreDisjoint bbs
bbs-AreDisjoint = (omega arith, λ address low high. refl, ground arith)

resolve-block_of_example : resolve bbs (branch 18 32) ≡ (block_of bbs 18, block_of bbs 32)
resolve-block_of_example = resolve-block_of bbs (branch 18 32) bbs-AreDisjoint

parse_key-branch_key_example :
    parse_key (branch_key 16 0x8000000000000000) ≡ some (16, 0x7fffffffffffffff)
parse_key-branch_key_example =
    parse_key-branch_key 16 0x8000000000000000 (omega arith) (omega arith)

branch_key-injective_example : branch_key 1 12 ≢ branch_key 11 2
branch_key-injective_example =
    branch_key-injective 1 12 11 2 (omega arith) (omega arith) (omega arith) (omega arith)
      (inl (λ e. omega arith))
