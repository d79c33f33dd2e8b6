-- ===== src/Monitor/Session/Returns.antt =====
-- c_monitor/main.c: what monitor_loop returns and logs where no call fails.
use native.Mathlib.Nat.{zero-add}
use mathlib.Core.Path.{fun_ext}
use fuzz_monitor.Base.{
  ℕ, ◌+◌, ◌%◌, ◌^◌, ◌<◌, ◌≡◌, refl, ap, ◌∙◌, Bool, true, false, List, [], ◌∷◌, ◌++◌, map, All, some,
  get_elem?-lt, if◌then◌else◌, arith,
}
use fuzz_monitor.Text.{text_eq}
use fuzz_monitor.Collections.{ok, Collections, IsCollections, IsHashTable, HasMemory}
use fuzz_monitor.Perf.{GblStatus}
use fuzz_monitor.Monitor.{Monitor}
use fuzz_monitor.Monitor.Counters.{hits_of, Linked, hits_of_new}
use fuzz_monitor.Monitor.Seen.{same_hash, seen_start}
use fuzz_monitor.Monitor.Seen.Invariant.{seen_hits, seen_start-IsSeen}
use fuzz_monitor.Monitor.Loop.{exit_success, Turn, Loop, leaves, take_turns}
use fuzz_monitor.Monitor.Loop.Invariant.{IsSteady}
use fuzz_monitor.Monitor.Loop.Works.{Work, inputs_of, Runs, HasAdded}
use fuzz_monitor.Monitor.Loop.Accumulates.{take_turns-HasAdded}
use fuzz_monitor.Monitor.Session.{
  WatchTry, watched, watch_loop, seen_lines, Ended, returned, close_loop, loop_start, run_turns,
  monitor_loop,
}

module _ (lib : Collections) (hashes : IsHashTable lib same_hash) where
  open lib use {HashTable, hashtable_new, hashtable_get, hashtable_entries, hashtable_size}

  seen_lines-map :
      (table : HashTable ℕ ℕ) (counters : List ℕ) (entries : List (ℕ × ℕ))
      → Linked lib same_hash (2 ^ 32) table counters
      → All (λ entry. hashtable_get same_hash table (entry.0) ≡ ok (entry.1)) entries
      → seen_lines counters entries
        ≡ some (map (λ entry. (entry.0, hits_of lib same_hash table counters (entry.0))) entries)
  unfolding seen_lines
  seen_lines-map table counters [] l all = refl
  seen_lines-map table counters ((key, value) ∷ entries) l all =
      let (hits, e) = get_elem?-lt counters value (l.in_range key value all.0) in
      rw (all.0, hits_of, e, seen_lines-map table counters entries l all.1, seen_lines) refl

  close_loop-lines :
      (print_seen_inputs : Bool) (l : Loop lib) (counts : ℕ → ℕ)
      → IsSteady lib l
      → ((k : ℕ) → seen_hits lib l.seen k ≡ counts k)
      → let entries = hashtable_entries l.seen.seen_inputs_table in
        close_loop lib print_seen_inputs exit_success l
        ≡ returned exit_success l.monitor
            (if print_seen_inputs then map (λ entry. (entry.0, counts (entry.0))) entries else [])
            entries
  unfolding close_loop
  close_loop-lines false l counts s same = refl
  close_loop-lines true l counts s same =
      let table = l.seen.seen_inputs_table in
      let lines =
        seen_lines-map table l.seen.counters (hashtable_entries table) s.seen.linked
          s.seen.linked.listed in
      let ending : (ℕ → ℕ) → Ended lib = λ f.
        returned exit_success l.monitor
          (map (λ entry. (entry.0, f (entry.0))) (hashtable_entries table))
          (hashtable_entries table) in
      rw (lines, close_loop) (ap ending (fun_ext same))

  module _ (laws : IsCollections lib) (keys : IsHashTable lib text_eq) (now : ℕ)
      (memory : HasMemory lib now) where
    loop_start-IsSteady :
        (m : Monitor lib) (status : GblStatus) (table : HashTable ℕ ℕ)
        → hashtable_new now ≡ ok table
        → Linked lib text_eq (2 ^ 64) m.branch_hits m.counters
        → m.input_n < 2 ^ 64
        → IsSteady lib (loop_start lib m status table)
    unfolding loop_start
    loop_start-IsSteady m status table new linked small = record {
      seen = seen_start-IsSeen lib hashes now table new;
      linked = linked;
      small = small;
    }

    -- Where every call succeeds, and the loop works on inputs until `keep_running` is cleared,
    -- monitor_loop returns EXIT_SUCCESS. If it is asked to, it logs one line for each entry of the table of
    -- inputs, with the CRC and how many of the inputs have that CRC, modulo 2^32; and it frees the key and
    -- the counter of every entry. What the turns have added to the monitor is in the state after them.
    pub monitor_loop-returned :
        (wd : ℕ) (attempts : List WatchTry) (turns rest : List Turn) (stop : Turn) (ws : List Work)
        (print_seen_inputs : Bool) (m : Monitor lib) (status : GblStatus)
        → Linked lib text_eq (2 ^ 64) m.branch_hits m.counters
        → m.input_n < 2 ^ 64
        → watch_loop m.fuzz_corpus_path attempts ≡ watched wd
        → Runs lib wd m.fuzz_corpus_path turns ws
        → stop.running ≡ false
        → (table : HashTable ℕ ℕ) × (l : Loop lib) × (monitor_loop lib now true attempts
              (turns ++ stop ∷ rest)
              print_seen_inputs
              m
              status
            ≡ returned exit_success l.monitor
                (if print_seen_inputs
                  then map
                      (λ entry. (entry.0, inputs_of (entry.0) ws % 2 ^ 32))
                      (hashtable_entries l.seen.seen_inputs_table)
                  else [])
                (hashtable_entries l.seen.seen_inputs_table))
          × (hashtable_new now ≡ ok table)
          × HasAdded lib (loop_start lib m status table) ws l
    unfolding monitor_loop run_turns close_loop take_turns loop_start seen_start
    monitor_loop-returned wd attempts turns rest stop ws print m status linked small watch runs
          stops =
        let (table, new) = memory.hashtable_new_ok in
        let start = loop_start lib m status table in
        let (l, e, added) =
          take_turns-HasAdded lib laws keys hashes wd m.fuzz_corpus_path start turns (stop ∷ rest)
            ws (loop_start-IsSteady m status table new linked small) refl runs in
        let counts : (k : ℕ) → seen_hits lib l.seen k ≡ inputs_of k ws % 2 ^ 32 = λ k.
          added.inputs k
          ∙ ap (λ n. (n + inputs_of k ws) % 2 ^ 32)
              (hits_of_new lib same_hash hashes (2 ^ 32) (omega arith) now table [] k new)
          ∙ ap (λ n. n % 2 ^ 32) (zero-add (inputs_of k ws)) in
        let stopping : take_turns lib wd l (stop ∷ rest) ≡ leaves exit_success l =
          rw (stops, take_turns) refl in
        (
          table,
          l,
          rw (new, monitor_loop, watch, run_turns, e, stopping)
              (close_loop-lines print l (λ k. inputs_of k ws % 2 ^ 32) added.steady counts),
          new,
          added,
        )
