-- ===== src/Monitor/Tables/Rounds.antt =====
-- c_monitor/main.c: the rounds of the loop of free_hashtable over the entries of the table.
use mathlib.Core.List.{append_assoc, append-nil}
use fuzz_monitor.Base.{
  ℕ, ◌+◌, ◌*◌, ◌≤◌, ◌≡◌, refl, sym, ap, ap₂, ◌∙◌, inl, inr, List, [], ◌∷◌, ◌++◌, map, none, some,
  length, get_elem?, All, ltb, if◌then◌else◌, arith,
}
use fuzz_monitor.Text.{Text, long_max}
use fuzz_monitor.Collections.{Collections, IsCollections, HasMemory}
use fuzz_monitor.Graph.{Ptr}
use fuzz_monitor.Graph.Rows.{Row, Represents, insert_edge}
use fuzz_monitor.Graph.Add.{graph_add-insert_edge}
use fuzz_monitor.Monitor.Branches.Address.{branch_key}
use fuzz_monitor.Monitor.Branches.Keys.{parse_key, parse_key-branch_key}
use fuzz_monitor.Monitor.Branches.Heap.{times, times-append, kept, insert_edge-release}
use fuzz_monitor.Monitor.Tables.{
  Entries, free_entry, free_entries, labelled_line, Dump, dump_entry, dump_entries,
}

-- A branch of the table: its ends and the number of its counter.
abbrev pub entry_of : ℕ × ℕ × ℕ → Text × ℕ
entry_of (from, to, value) = (branch_key from to, value)

abbrev pub key_of : ℕ × ℕ × ℕ → Text
key_of (from, to, value) = branch_key from to

abbrev pub value_of : ℕ × ℕ × ℕ → ℕ
value_of (from, to, value) = value

pub free_entries-keys :
    (freed : Entries) (branches : List (ℕ × ℕ × ℕ))
    → (free_entries freed (map entry_of branches)).freed_keys
      ≡ freed.freed_keys ++ map key_of branches
unfolding free_entries free_entry
free_entries-keys freed [] = sym (append-nil freed.freed_keys)
free_entries-keys freed (branch ∷ branches) =
    free_entries-keys (free_entry freed (entry_of branch)) branches
    ∙ append_assoc freed.freed_keys (key_of branch ∷ []) (map key_of branches)

pub free_entries-values :
    (freed : Entries) (branches : List (ℕ × ℕ × ℕ))
    → (free_entries freed (map entry_of branches)).freed_values
      ≡ freed.freed_values ++ map value_of branches
unfolding free_entries free_entry
free_entries-values freed [] = sym (append-nil freed.freed_values)
free_entries-values freed (branch ∷ branches) =
    free_entries-values (free_entry freed (entry_of branch)) branches
    ∙ append_assoc freed.freed_values (value_of branch ∷ []) (map value_of branches)

-- The ends are addresses that `atol` reads, and the counter is there.
abbrev pub IsReadable : List ℕ → ℕ × ℕ × ℕ → Type 0
IsReadable counters (from, to, value) =
    (from ≤ long_max) × (to ≤ long_max) × (hits : ℕ) × (get_elem? counters value ≡ some hits)

abbrev pub hits_at : List ℕ → ℕ → ℕ
hits_at counters value = elim (get_elem? counters value) [ none ↦ 0 | some hits ↦ hits ]

abbrev pub lines_of : List ℕ → List (ℕ × ℕ × ℕ) → Text
lines_of counters [] = []
lines_of counters ((from, to, value) ∷ branches) =
    labelled_line from to (hits_at counters value) ++ lines_of counters branches

module _ (lib : Collections) (laws : IsCollections lib) (now : ℕ) (memory : HasMemory lib now) where
  -- Each block for a copy of a key or an end is kept by the graph or has been freed, once.
  pub record IsSoundDump (d : Dump lib) (rows : List Row) : Type 0 where
    pub represents : Represents lib d.graph rows
    pub owned : (a : ℕ) → times a (kept rows) + times a d.freed ≡ (if ltb a d.next then 1 else 0)

  dump_entry-written :
      (counters : List ℕ) (d : Dump lib) (rows : List Row) (branch : ℕ × ℕ × ℕ)
      → IsSoundDump d rows
      → IsReadable counters branch
      → (d' : Dump lib) × (rows' : List Row) × (dump_entry lib now counters d (entry_of branch)
          ≡ some d')
        × IsSoundDump d' rows'
        × (d'.written ≡ d.written ++ labelled_line branch.0 branch.1 (hits_at counters branch.2))
        × (d'.entries ≡ d.entries)
        × (d'.next ≡ d.next + 3)
  unfolding dump_entry
  dump_entry-written counters d rows (f, t, value) sound (low, low', hits, at) =
      let from : Ptr = record { addr = d.next + 1; value = f } in
      let to : Ptr = record { addr = d.next + 2; value = t } in
      let (s, graph, e, outcome) =
        graph_add-insert_edge lib laws now d.graph rows from to sound.represents in
      let (blocks, freed, sum) = insert_edge-release rows from to in
      let parsed : parse_key (branch_key f t) ≡ some (f, t) =
        parse_key-branch_key f t (omega arith) (omega arith)
        ∙ ap₂ (λ x y. some (x, y)) (omega arith) (omega arith) in
      elim outcome [
        | inl (_, lacking) ↦ absurd (lacking memory)
        | inr (same, rep) ↦ (
          record {
            graph = graph;
            written = d.written ++ labelled_line f t hits;
            next = d.next + 3;
            freed = d.freed ++ d.next ∷ blocks;
            entries = d.entries;
          },
          (insert_edge rows from to).1,
          rw (parsed, dump_entry, at, e, same, freed) refl,
          record {
            represents = rep;
            owned =
                λ a. ground (arith, sound.owned a, sum a, times-append a d.freed (d.next ∷ blocks));
          },
          rw (at, hits_at) refl,
          refl,
          refl,
        )
      ]

  pub dump_entries-written :
      (counters : List ℕ) (d : Dump lib) (rows : List Row) (branches : List (ℕ × ℕ × ℕ))
      → IsSoundDump d rows
      → All (IsReadable counters) branches
      → (d' : Dump lib) × (rows' : List Row) × (dump_entries lib now counters d
            (map entry_of branches)
          ≡ some d')
        × IsSoundDump d' rows'
        × (d'.written ≡ d.written ++ lines_of counters branches)
        × (d'.entries ≡ free_entries d.entries (map entry_of branches))
        × (d'.next ≡ d.next + 3 * length branches)
  unfolding dump_entries free_entries
  dump_entries-written counters d rows [] sound all =
      (d, rows, refl, sound, sym (append-nil d.written), refl, omega arith)
  dump_entries-written counters d rows (branch ∷ branches) sound all =
      let (q, rows', e, next, line, same, three) =
        dump_entry-written counters d rows branch sound all.0 in
      let q' : Dump lib = record q { entries = free_entry q.entries (entry_of branch) } in
      let (p, rows'', e', last, lines, freed, threes) =
        dump_entries-written counters q' rows' branches
          (record { represents = next.represents; owned = next.owned }) all.1 in
      (
        p,
        rows'',
        rw (e, dump_entries) e',
        last,
        lines
            ∙ ap (λ t. t ++ lines_of counters branches) line
            ∙ append_assoc d.written (labelled_line branch.0 branch.1 (hits_at counters branch.2))
                (lines_of counters branches),
        freed
            ∙ ap (λ f. free_entries (free_entry f (entry_of branch)) (map entry_of branches)) same,
        omega (arith, three, threes),
      )
