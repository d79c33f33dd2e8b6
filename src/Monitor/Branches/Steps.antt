-- ===== src/Monitor/Branches/Steps.antt =====
-- c_monitor/main.c: one round of the loop of process_branches, where memory is found.
use fuzz_monitor.Base.{
  ℕ, ◌+◌, ◌*◌, ◌%◌, ◌^◌, ◌≡◌, refl, ◌⊎◌, inl, inr, List, [], ◌∷◌, ◌++◌, length, length-append, All,
  get_elem?-lt, set, ◌↔◌, ltb, if◌then◌else◌, arith,
}
use fuzz_monitor.Text.{Text, text_eq}
use fuzz_monitor.Collections.{Collections, IsCollections, IsHashTable, HasMemory, Result-cases}
use fuzz_monitor.Graph.{Ptr}
use fuzz_monitor.Graph.Rows.{Row, Represents, insert_edge}
use fuzz_monitor.Graph.Add.{graph_add-insert_edge}
use fuzz_monitor.Graph.Edges.{HasEdge, IsWellFormed, insert_edge-IsWellFormed, insert_edge-HasEdge}
use fuzz_monitor.Monitor.Branches.{Run, Progress, going, count_hit, record_branch}
use fuzz_monitor.Monitor.Branches.Address.{branch_key}
use fuzz_monitor.Monitor.Counters.{
  Linked, Counts, increment-Counts, increment-Linked, insert-Counts, insert-Linked,
}
use fuzz_monitor.Monitor.Branches.Heap.{times, times-append, kept, insert_edge-release}

module _ (lib : Collections) where
  open lib use {HashTable, hashtable_size, hashtable_entries}

  -- Every key of a table has a property.
  abbrev pub AllKeys : (Text → Type 0) → HashTable Text ℕ → Type 0
  AllKeys P table = All (λ entry. P (entry.0)) (hashtable_entries table)

  -- What counting leaves: the table and the counters after it, how many keys were new, and the block of
  -- the key, which is freed or in the table, not both.
  abbrev Counted : Run lib → ℕ → Text → Progress lib → Type 1
  Counted r block key p =
      (table : HashTable Text ℕ) × (counters : List ℕ) × (new : ℕ) × (freed table_keys : List ℕ)
      × (p
          ≡ going (record r {
            branch_hits = table;
            counters = counters;
            new_branches = new;
            freed = freed;
            table_keys = table_keys;
          }))
      × Linked lib text_eq (2 ^ 64) table counters
      × Counts lib text_eq (2 ^ 64) r.branch_hits r.counters key table counters
      × (hashtable_size table + r.new_branches ≡ hashtable_size r.branch_hits + new)
      × ((P : Text → Type 0) → P key → AllKeys P r.branch_hits → AllKeys P table)
      × ((a : ℕ)
          → times a freed + times a table_keys
            ≡ times a r.freed + times a r.table_keys + times a (block ∷ []))
      × (length table_keys + r.new_branches ≡ length r.table_keys + new)

  -- The loop's variables with the rows of its graph: the table and its counters go together, and each
  -- block that was taken is kept by the graph or by the table or has been freed, once; the table keeps
  -- that of each new key, and three blocks are taken for each branch.
  pub record IsSound (r : Run lib) (rows : List Row) : Type 0 where
    pub represents : Represents lib r.graph rows
    pub well_formed : IsWellFormed rows
    pub linked : Linked lib text_eq (2 ^ 64) r.branch_hits r.counters
    pub owned :
        (a : ℕ)
        → times a (kept rows) + times a r.freed + times a r.table_keys
          ≡ (if ltb a r.next then 1 else 0)
    pub taken : length r.table_keys ≡ r.new_branches
    pub three : r.next ≡ 3 * r.filtered_count

  -- The branch from `u` to `v` is recorded.
  pub record IsRecorded (r : Run lib) (rows : List Row) (u v : ℕ) (r' : Run lib) (rows' : List Row)
      : Type 1 where
    pub sound : IsSound r' rows'
    pub edges : (x y : ℕ) → HasEdge rows' x y ↔ (HasEdge rows x y ⊎ (x ≡ u) × (y ≡ v))
    pub counts :
        Counts lib text_eq
          (2 ^ 64)
          r.branch_hits
          r.counters
          (branch_key u v)
          r'.branch_hits
          r'.counters
    pub filtered : r'.filtered_count ≡ r.filtered_count + 1
    pub size :
        hashtable_size r'.branch_hits + r.new_branches
        ≡ hashtable_size r.branch_hits + r'.new_branches
    pub names :
        (P : Text → Type 0)
        → P (branch_key u v)
        → AllKeys P r.branch_hits
        → AllKeys P r'.branch_hits

module _ (lib : Collections) (laws : IsCollections lib) (keys : IsHashTable lib text_eq) where
  open lib use {hashtable_get}

  pub count_hit-Counted :
      (now : ℕ) (r : Run lib) (block : ℕ) (key : Text)
      → HasMemory lib now
      → Linked lib text_eq (2 ^ 64) r.branch_hits r.counters
      → Counted lib r block key (count_hit lib now r block key)
  unfolding count_hit
  count_hit-Counted now r block key memory l =
      elim (Result-cases (hashtable_get text_eq r.branch_hits key)) [
        | inl (i, at) ↦
            let (hits, e) = get_elem?-lt r.counters i (l.in_range key i at) in
            (
              r.branch_hits,
              set r.counters i ((hits + 1) % 2 ^ 64),
              r.new_branches,
              r.freed ++ block ∷ [],
              r.table_keys,
              rw (at, count_hit, e) refl,
              increment-Linked lib text_eq keys (2 ^ 64) (omega arith) r.branch_hits r.counters key
                  l i hits at e,
              increment-Counts lib text_eq keys (2 ^ 64) (omega arith) r.branch_hits r.counters key
                  l i hits at e,
              omega arith,
              λ P new all. all,
              λ a. omega (arith, times-append a r.freed (block ∷ [])),
              refl,
            )
        | inr (s, missing) ↦
            let (table, added) =
              memory.hashtable_add_ok text_eq r.branch_hits key (length r.counters) in
            (
              table,
              r.counters ++ 1 ∷ [],
              r.new_branches + 1,
              r.freed,
              r.table_keys ++ block ∷ [],
              rw (missing, count_hit, added) refl,
              insert-Linked lib text_eq keys (2 ^ 64) (omega arith) r.branch_hits r.counters key l
                  now table (s, missing) added,
              insert-Counts lib text_eq keys (2 ^ 64) (omega arith) r.branch_hits r.counters key l
                  now table (s, missing) added,
              omega (
                arith,
                keys.size_add_new now r.branch_hits table key (length r.counters) s added missing,
              ),
              λ P.
                  keys.entries_add (λ entry. P (entry.0)) now r.branch_hits table key
                    (length r.counters) added,
              λ a. omega (arith, times-append a r.table_keys (block ∷ [])),
              omega (arith, length-append r.table_keys (block ∷ [])),
            )
      ]

  pub record_branch-IsRecorded :
      (now : ℕ) (r : Run lib) (rows : List Row) (u v : ℕ)
      → HasMemory lib now
      → IsSound lib r rows
      → (r' : Run lib) × (rows' : List Row) × (record_branch lib now r (u, v) ≡ going r')
        × IsRecorded lib r rows u v r' rows'
  unfolding record_branch
  record_branch-IsRecorded now r rows u v memory sound =
      let from : Ptr = record { addr = r.next; value = u } in
      let to : Ptr = record { addr = r.next + 1; value = v } in
      let (s, graph, e, outcome) =
        graph_add-insert_edge lib laws now r.graph rows from to sound.represents in
      let (blocks, freed, sum) = insert_edge-release rows from to in
      elim outcome [
        | inl (_, lacking) ↦ absurd (lacking memory)
        | inr (same, rep) ↦
            let added = record r {
              graph = graph;
              filtered_count = r.filtered_count + 1;
              next = r.next + 3;
              freed = r.freed ++ blocks;
            } in
            let (
              table, counters, new, out, table_keys, counted, linked, counts, size, names, once,
              grown,
            ) =
              count_hit-Counted now added (r.next + 2) (branch_key u v) memory sound.linked in
            (
              record added {
                branch_hits = table;
                counters = counters;
                new_branches = new;
                freed = out;
                table_keys = table_keys;
              },
              (insert_edge rows from to).1,
              rw (e, record_branch, same, freed) counted,
              record {
                sound = record {
                  represents = rep;
                  well_formed = insert_edge-IsWellFormed rows from to sound.well_formed;
                  linked = linked;
                  owned = λ a.
                      ground (arith, sound.owned a, sum a, times-append a r.freed blocks, once a);
                  taken = omega (arith, sound.taken, grown);
                  three = omega (arith, sound.three);
                };
                edges = insert_edge-HasEdge rows from to;
                counts = counts;
                filtered = refl;
                size = size;
                names = names;
              },
            )
      ]
