-- ===== src/Monitor/Session/Examples.antt =====
-- A run of monitor_loop of c_monitor/main.c, with the watch added at once.
use fuzz_monitor.Base.{
  ℕ, ◌%◌, ◌^◌, ◌≡◌, refl, true, false, List, [], ◌∷◌, ◌++◌, map, if◌then◌else◌, arith,
}
use fuzz_monitor.Text.{text_eq}
use fuzz_monitor.Collections.{ok}
use fuzz_monitor.Monitor.Inotify.{inotify_wait4_creation, split_last_slash}
use fuzz_monitor.Graph.Examples.{laws, memory}
use fuzz_monitor.Monitor.Counters.{Linked-new}
use fuzz_monitor.Monitor.Loop.{exit_success, Turn, Loop}
use fuzz_monitor.Monitor.Loop.Works.{inputs_of, HasAdded}
use fuzz_monitor.Monitor.Loop.Examples.{
  lists, keys, hashes, turn_of, turns, inputs, turns-Runs, monitor,
}
use fuzz_monitor.Monitor.Session.{
  WatchTry, watches, no_entry, watched, gives_up, watch_loop, returned, loop_start, monitor_loop,
}
use fuzz_monitor.Monitor.Session.Returns.{monitor_loop-returned}
use fuzz_monitor.Monitor.Program.{first_status}

abbrev pub attempts : List WatchTry
attempts = record { running = true; answer = watches 1 } ∷ []

abbrev pub stop : Turn
stop = record (turn_of []) { running = false }

pub watch_added : watch_loop monitor.fuzz_corpus_path attempts ≡ watched 1
unfolding watch_loop
watch_added = refl

-- The directory is not there, and its parent cannot be watched either.
no_parent :
    watch_loop monitor.fuzz_corpus_path
      (record { running = true; answer = no_entry false true [] } ∷ [])
    ≡ gives_up
unfolding watch_loop inotify_wait4_creation split_last_slash
no_parent = refl

monitor_loop-returned_example :
    (table : List (ℕ × ℕ)) × (l : Loop lists) × (monitor_loop lists 3 true attempts
        (turns ++ stop ∷ [])
        true
        monitor
        first_status
      ≡ returned exit_success l.monitor
          (if true
            then map
                (λ entry. (entry.0, inputs_of (entry.0) inputs % 2 ^ 32))
                l.seen.seen_inputs_table
            else [])
          l.seen.seen_inputs_table)
    × (lists.hashtable_new 3 ≡ ok table)
    × HasAdded lists (loop_start lists monitor first_status table) inputs l
monitor_loop-returned_example =
    monitor_loop-returned lists hashes laws keys 3 memory 1 attempts turns [] stop inputs true
      monitor first_status (Linked-new lists text_eq keys (2 ^ 64) (omega arith) 3 [] refl)
      (omega arith) watch_added turns-Runs refl
