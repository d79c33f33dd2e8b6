-- ===== src/Monitor/Tables/Written.antt =====
-- What free_hashtable of c_monitor/main.c writes and frees.
use fuzz_monitor.Base.{
  ℕ, ◌*◌, ◌≡◌, refl, ap, ◌∙◌, true, false, List, [], ◌∷◌, ◌++◌, map, foldl, length, All, ltb, ◌==◌,
  if◌then◌else◌, arith,
}
use fuzz_monitor.Text.{Text, codes, text_eq}
use fuzz_monitor.Collections.{Collections, IsCollections, IsHashTable, HasMemory}
use fuzz_monitor.Graph.{graph_nodes}
use fuzz_monitor.Graph.Rows.{Row, total}
use fuzz_monitor.Graph.Traverse.{graph_new-Represents, graph_foreach-foldl, graph_nodes-graph_edges}
use fuzz_monitor.Monitor.Branches.Heap.{times, times-append, kept, graph_print_and_free-freed}
use fuzz_monitor.Monitor.Branches.Print.{null, Sink, graph_print_and_free}
use fuzz_monitor.Monitor.Tables.{
  Entries, no_entries, Dump, Freed, file_written, close_file, write_table, free_hashtable,
}
use fuzz_monitor.Monitor.Tables.Rounds.{
  entry_of, key_of, value_of, IsReadable, lines_of, IsSoundDump, dump_entries-written,
  free_entries-keys, free_entries-values,
}

-- Without a file the callback prints to the log only.
null-written :
    (s : Sink) (rows : List Row)
    → (foldl (λ s r. graph_print_and_free null s r.node r.targets) s rows).written ≡ s.written
unfolding graph_print_and_free
null-written s [] = refl
null-written s (r ∷ rows) = null-written (graph_print_and_free null s r.node r.targets) rows

module _ (lib : Collections) (laws : IsCollections lib) (now : ℕ) (memory : HasMemory lib now) where
  -- What the file says, and that every block is freed once: those for a copy of a key or an end, and the
  -- keys and the counters of the entries.
  abbrev pub IsWritten : List ℕ → List (ℕ × ℕ × ℕ) → Freed lib → Type 0
  IsWritten counters branches result =
      (sink : Sink) × (next : ℕ) × (numbers : ℕ × ℕ) × (entries : Entries) × (result
        ≡ file_written sink next numbers entries)
      × (sink.written
          ≡ (codes "digraph {" ++ 10 ∷ []) ++ lines_of counters branches ++ (codes "}" ++ 10 ∷ []))
      × ((a : ℕ) → times a sink.freed ≡ (if ltb a next then 1 else 0))
      × (next ≡ 3 * length branches)
      × (entries.freed_keys ≡ map key_of branches)
      × (entries.freed_values ≡ map value_of branches)

  close_file_lem :
      (footer : Text) (d : Dump lib) (rows : List Row)
      → IsSoundDump lib laws now memory d rows
      → (sink : Sink) × (numbers : ℕ × ℕ) × (close_file lib footer d
          ≡ file_written sink d.next numbers d.entries)
        × (sink.written ≡ d.written ++ footer)
        × ((a : ℕ) → times a sink.freed ≡ (if ltb a d.next then 1 else 0))
  unfolding close_file
  close_file_lem footer d rows sound =
      let start : Sink = record { written = d.written ++ footer; logged = []; freed = d.freed } in
      let (edges, _) = graph_nodes-graph_edges lib laws d.graph rows sound.represents in
      let visited =
        graph_foreach-foldl lib laws d.graph (graph_print_and_free null) rows start
          sound.represents in
      (
        foldl (λ s r. graph_print_and_free null s r.node r.targets) start rows,
        (graph_nodes lib d.graph, total rows),
        rw (edges, close_file, visited) refl,
        null-written start rows,
        λ a. omega (
          arith,
          ap (times a) (graph_print_and_free-freed null start rows),
          times-append a d.freed (kept rows),
          sound.owned a,
        ),
      )

  module _ (keys : IsHashTable lib text_eq) (table : lib.HashTable Text ℕ) (counters : List ℕ) where
    write_table-IsWritten :
        (branches : List (ℕ × ℕ × ℕ))
        → lib.hashtable_entries table ≡ map entry_of branches
        → All (IsReadable counters) branches
        → IsWritten counters branches (write_table lib now table counters)
    unfolding write_table
    write_table-IsWritten [] entries all =
        let (g, created, _) = graph_new-Represents lib laws now memory in
        let size : lib.hashtable_size table ≡ 0 = keys.size_entries table ∙ ap length entries in
        (
          record {
            written = (codes "digraph {" ++ 10 ∷ []) ++ (codes "}" ++ 10 ∷ []);
            logged = [];
            freed = [];
          },
          0,
          (0, 0),
          no_entries,
          rw (created, write_table, size) refl,
          refl,
          λ a. ground arith,
          refl,
          refl,
          refl,
        )
    write_table-IsWritten (branch ∷ branches) entries all =
        let (g, created, rep) = graph_new-Represents lib laws now memory in
        let size : (lib.hashtable_size table == 0) ≡ false =
          ground (arith, keys.size_entries table ∙ ap length entries) in
        let start : Dump lib = record {
          graph = g;
          written = codes "digraph {" ++ 10 ∷ [];
          next = 0;
          freed = [];
          entries = no_entries;
        } in
        let (d, rows, e, sound, lines, entries_eq, threes) =
          dump_entries-written lib laws now memory counters start [] (branch ∷ branches)
            (record { represents = rep; owned = λ a. ground arith }) all in
        let (sink, numbers, closed, written, freed) =
          close_file_lem (codes "}" ++ 10 ∷ []) d rows sound in
        (
          sink,
          d.next,
          numbers,
          d.entries,
          rw (created, write_table, size, entries, e) closed,
          written ∙ ap (λ t. t ++ (codes "}" ++ 10 ∷ [])) lines,
          freed,
          omega (arith, threes),
          ap (λ (f : Entries). f.freed_keys) entries_eq
              ∙ free_entries-keys no_entries (branch ∷ branches),
          ap (λ (f : Entries). f.freed_values) entries_eq
              ∙ free_entries-values no_entries (branch ∷ branches),
        )

    -- Where fopen succeeds and memory is found, and the keys of the table were made of addresses below
    -- 2^63, free_hashtable writes one line for each entry of the table, with the ends of its branch and
    -- its counter, in the order of the entries. It takes three blocks for each entry, a copy of the key and two ends, and
    -- frees every one of them once, and the key and the counter of each entry once, in the same order.
    pub free_hashtable-IsWritten :
        (branches : List (ℕ × ℕ × ℕ))
        → lib.hashtable_entries table ≡ map entry_of branches
        → All (IsReadable counters) branches
        → IsWritten counters branches (free_hashtable lib now true true table counters)
    unfolding free_hashtable
    free_hashtable-IsWritten branches entries all = write_table-IsWritten branches entries all
