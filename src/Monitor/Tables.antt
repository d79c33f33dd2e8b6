-- ===== src/Monitor/Tables.antt =====
-- c_monitor/main.c: free_hashtable, which writes the graph of all branches when the monitor ends. A key's
-- block is named by its text, which no other key of the table has, and that of a counter by its number;
-- the copy of a key and the ends of a branch are numbered as they are taken.
pub mod Rounds
pub mod Written
pub mod Examples
use fuzz_monitor.Base.{
  ℕ, zero, suc, ◌+◌, Bool, true, false, List, [], ◌∷◌, ◌++◌, Option, none, some, get_elem?, ◌==◌,
  if◌then◌else◌,
}
use fuzz_monitor.Text.{Text, codes, decimal, hex}
use fuzz_monitor.Collections.{CcStat, ok, err, Collections}
use fuzz_monitor.Graph.{Ptr, Graph, graph_new, graph_add, graph_foreach, graph_nodes, graph_edges}
use fuzz_monitor.Monitor.Branches.{release}
use fuzz_monitor.Monitor.Branches.Keys.{parse_key}
use fuzz_monitor.Monitor.Branches.Print.{null, Sink, graph_print_and_free}

-- `\t"0xF" -> "0xT" [label="N"];\n`
unfoldable pub labelled_line : ℕ → ℕ → ℕ → Text
labelled_line from to hits =
    9 ∷ 34 ∷ codes "0x"
    ++ hex from
    ++ 34 ∷ codes " -> "
    ++ 34 ∷ codes "0x"
    ++ hex to
    ++ 34 ∷ codes " [label="
    ++ 34 ∷ decimal hits
    ++ 34 ∷ codes "];"
    ++ 10 ∷ []

-- The keys and the counters of the table that have been freed.
pub record Entries : Type 0 where
  pub freed_keys : List Text
  pub freed_values : List ℕ

abbrev pub no_entries : Entries
no_entries = record { freed_keys = []; freed_values = [] }

-- The end of a round: `free(entry->key)` and `free(entry->value)`.
unfoldable pub free_entry : Entries → Text × ℕ → Entries
free_entry freed (key, value) = record {
  freed_keys = freed.freed_keys ++ key ∷ [];
  freed_values = freed.freed_values ++ value ∷ [];
}

-- The loop without a file.
unfoldable pub free_entries : Entries → List (Text × ℕ) → Entries
free_entries freed [] = freed
free_entries freed (entry ∷ entries) = free_entries (free_entry freed entry) entries

module _ (lib : Collections) where
  open lib use {HashTable, hashtable_size, hashtable_entries}

  -- The variables of the loop; `next` is the number of the next block.
  pub record Dump : Type 0 where
    pub graph : Graph lib
    pub written : Text
    pub next : ℕ
    pub freed : List ℕ
    pub entries : Entries

  -- The part of a round that is for `graph_filename`, with the copy of the key in the block `d.next`; `none` is an abort or an invalid access.
  unfoldable pub dump_entry : ℕ → List ℕ → Dump → Text × ℕ → Option Dump
  dump_entry now counters d (key, value) = elim (parse_key key) [
    | none ↦ none
    | some (f, t) ↦ elim (get_elem? counters value) [
      | none ↦ none
      | some hits ↦
          let from : Ptr = record { addr = d.next + 1; value = f } in
          let to : Ptr = record { addr = d.next + 2; value = t } in
          elim (graph_add lib now d.graph from to) [
            | none ↦ none
            | some (s, graph) ↦ elim (release s from to) [
              | none ↦ none
              | some blocks ↦ some (record {
                graph = graph;
                written = d.written ++ labelled_line f t hits;
                next = d.next + 3;
                freed = d.freed ++ d.next ∷ blocks;
                entries = d.entries;
              })
            ]
          ]
    ]
  ]

  unfoldable pub dump_entries : ℕ → List ℕ → Dump → List (Text × ℕ) → Option Dump
  dump_entries now counters d [] = some d
  dump_entries now counters d (entry ∷ entries) = elim (dump_entry now counters d entry) [
    | none ↦ none
    | some d' ↦
        dump_entries now counters (record d' { entries = free_entry d'.entries entry }) entries
  ]

  -- `nothing_written` is the call without a file, and `exits` the `exit` where fopen fails. The numbers
  -- of nodes and edges that are logged come with the file.
  pub data Freed : Type 0 where
    exits crashed : Freed
    nothing_written : Entries → Freed
    file_written : Sink → ℕ → ℕ × ℕ → Entries → Freed

  -- From the end of the loop on.
  unfoldable pub close_file : Text → Dump → Freed
  close_file footer d = elim (graph_edges lib d.graph) [
    | none ↦ crashed
    | some edges ↦
        elim (graph_foreach lib d.graph (graph_print_and_free null)
          (record { written = d.written ++ footer; logged = []; freed = d.freed })) [
            | none ↦ crashed
            | some sink ↦ file_written sink d.next (graph_nodes lib d.graph, edges) d.entries
          ]
  ]

  unfoldable pub write_table : ℕ → HashTable Text ℕ → List ℕ → Freed
  write_table now table counters =
      let header = codes "digraph {" ++ 10 ∷ [] in
      let footer = codes "}" ++ 10 ∷ [] in
      elim (graph_new lib now) [
        | err _ ↦ crashed
        | ok graph ↦
            if hashtable_size table == 0
            then file_written (record { written = header ++ footer; logged = []; freed = [] }) 0
                (0, 0) no_entries
            else elim (dump_entries now counters
                (record {
                  graph = graph;
                  written = header;
                  next = 0;
                  freed = [];
                  entries = no_entries;
                })
                (hashtable_entries table)) [ none ↦ crashed | some d ↦ close_file footer d ]
      ]

  unfoldable pub free_hashtable : ℕ → Bool → Bool → HashTable Text ℕ → List ℕ → Freed
  free_hashtable now with_file opens table counters =
      if with_file
      then (if opens then write_table now table counters else exits)
      else nothing_written (free_entries no_entries (hashtable_entries table))
