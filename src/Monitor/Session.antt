-- ===== src/Monitor/Session.antt =====
-- c_monitor/main.c: monitor_loop from its first line to its last, and main around it. The answers of the
-- system, in the order in which they are asked for, are arguments.
pub mod Returns
pub mod Examples
use fuzz_monitor.Base.{
  ℕ, Bool, true, false, List, [], ◌∷◌, Option, none, some, get_elem?, if◌then◌else◌,
}
use fuzz_monitor.Text.{Text}
use fuzz_monitor.Collections.{ok, err, Collections}
use fuzz_monitor.Perf.{GblStatus}
use fuzz_monitor.Perf.Api.{ApiRet}
use fuzz_monitor.Monitor.{Monitor}
use fuzz_monitor.Monitor.Seen.{seen_start}
use fuzz_monitor.Monitor.Inotify.{
  WaitRound, ret_zero, ret_minus_one, still_waiting, inotify_wait4_creation,
}
use fuzz_monitor.Monitor.Loop.{
  Exit, exit_success, exit_failure, Turn, Loop, goes, leaves, in_child, blocks, crashes, take_turns,
}

-- What inotify_add_watch answers, with the wait for the directory where that is ENOENT.
pub data WatchAnswer : Type 0 where
  watches : ℕ → WatchAnswer
  no_entry : Bool → Bool → List WaitRound → WatchAnswer
  watch_fails : WatchAnswer

-- `running` is `keep_running` at the loop's test.
pub record WatchTry : Type 0 where
  pub running : Bool
  pub answer : WatchAnswer

-- `watching` with no further answer.
pub data Watched : Type 0 where
  watched : ℕ → Watched
  stopped gives_up watching : Watched

-- The loop that adds the watch.
unfoldable pub watch_loop : Text → List WatchTry → Watched
watch_loop path [] = watching
watch_loop path (attempt ∷ attempts) =
    let rest = watch_loop path attempts in
    if attempt.running
    then elim attempt.answer [
      | watches wd ↦ watched wd
      | watch_fails ↦ gives_up
      | no_entry add_ok rm_ok rounds ↦ elim (inotify_wait4_creation path add_ok rm_ok rounds) [
        | ret_zero ↦ rest
        | ret_minus_one ↦ gives_up
        | still_waiting ↦ watching
      ]
    ]
    else stopped

-- A line for each entry of the table, `%16lx %5u`: the hash and what its counter points to.
unfoldable pub seen_lines : List ℕ → List (ℕ × ℕ) → Option (List (ℕ × ℕ))
seen_lines counters [] = some []
seen_lines counters ((key, value) ∷ entries) = elim (get_elem? counters value) [
  | none ↦ none
  | some hits ↦ elim (seen_lines counters entries) [
    | none ↦ none
    | some lines ↦ some ((key, hits) ∷ lines)
  ]
]

module _ (lib : Collections) where
  open lib use {hashtable_new, hashtable_entries}

  -- `returned` with the lines that are logged at the end, and the entries of the table of inputs whose key
  -- and value are freed. `goes_on` is a loop that has not come to its end, and `waits` one that waits in a
  -- call.
  pub data Ended : Type 0 where
    returned : Exit → Monitor lib → List (ℕ × ℕ) → List (ℕ × ℕ) → Ended
    child_returned : ApiRet → Monitor lib → Ended
    goes_on : Loop lib → Ended
    waits crashed : Ended

  -- From `close(inotify_fd)` on.
  unfoldable pub close_loop : Bool → Exit → Loop lib → Ended
  close_loop print_seen_inputs exit l =
      let entries = hashtable_entries l.seen.seen_inputs_table in
      if print_seen_inputs
      then elim (seen_lines l.seen.counters entries) [
        | none ↦ crashed
        | some lines ↦ returned exit l.monitor lines entries
      ]
      else returned exit l.monitor [] entries

  unfoldable pub loop_start : Monitor lib → GblStatus → lib.HashTable ℕ ℕ → Loop lib
  loop_start m status table = record {
    monitor = m;
    seen = seen_start lib table;
    status = status;
    max_depth = 0;
  }

  unfoldable pub run_turns : Bool → ℕ → List Turn → Loop lib → Ended
  run_turns print_seen_inputs wd turns l = elim (take_turns lib wd l turns) [
    | goes l' ↦ goes_on l'
    | leaves exit l' ↦ close_loop print_seen_inputs exit l'
    | in_child ret l' ↦ child_returned ret l'.monitor
    | blocks ↦ waits
    | crashes ↦ crashed
  ]

  -- `init_ok` says whether inotify_init1 succeeds. A loop that is `stopped` before the watch is added finds
  -- `keep_running` cleared in its second test too.
  unfoldable pub monitor_loop :
      ℕ → Bool → List WatchTry → List Turn → Bool → Monitor lib → GblStatus → Ended
  monitor_loop now init_ok attempts turns print_seen_inputs m status =
      elim (hashtable_new {K = ℕ} {V = ℕ} now) [
        | err _ ↦ crashed
        | ok table ↦
            if init_ok
            then elim (watch_loop m.fuzz_corpus_path attempts) [
              | gives_up ↦ returned exit_failure m [] []
              | watching ↦ waits
              | stopped ↦ close_loop print_seen_inputs exit_success (loop_start m status table)
              | watched wd ↦ run_turns print_seen_inputs wd turns (loop_start m status table)
            ]
            else returned exit_failure m [] []
      ]
