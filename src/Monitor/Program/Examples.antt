-- ===== src/Monitor/Program/Examples.antt =====
-- Runs of main of c_monitor/main.c.
use fuzz_monitor.Base.{ℕ, ◌<◌, ◌⊎◌, All, ◌≡◌, refl, true, List, [], ◌∷◌, ◌++◌, none, arith}
use fuzz_monitor.Text.{Text, codes}
use fuzz_monitor.Bb.{found, basic_blocks_find, read_blocks, fgets_lines}
use fuzz_monitor.Graph.Examples.{laws, memory}
use fuzz_monitor.Monitor.Tables.{Entries, nothing_written, file_written}
use fuzz_monitor.Monitor.Branches.Print.{Sink}
use fuzz_monitor.Monitor.Branches.Address.{branch_key, resolve, find_blocks}
use fuzz_monitor.Monitor.Loop.Works.{branches_of}
use fuzz_monitor.Monitor.Program.Lines.{AreLow, count_lines, HasLine}
use fuzz_monitor.Monitor.Program.Dumped.{count_of, run_main-graph}
use fuzz_monitor.Monitor.Loop.{exit_success}
use fuzz_monitor.Monitor.Loop.Examples.{lists, keys, hashes, turns, inputs, turns-Runs, corpus}
use fuzz_monitor.Monitor.Session.Examples.{attempts, stop, watch_added}
use fuzz_monitor.Monitor.Program.{take_options, World, ends, find_bounds, run_main}
use fuzz_monitor.Monitor.Program.Usage.{run_main-starts}
use fuzz_monitor.Monitor.Program.Runs.{RunsWell, run_main-success}

-- The script prints nothing.
abbrev world : World
world = record {
  malloc = λ size. none;
  program = none;
  keeps = true;
  stream = [];
  context_ok = true;
  socket_ok = true;
  bind_ok = true;
  table_now = 3;
  loop_now = 3;
  init_ok = true;
  attempts = attempts;
  turns = turns ++ stop ∷ [];
  end_now = 3;
  opens = true;
}

abbrev opts : List (ℕ × Text)
opts = (b'c', codes "old") ∷ (b'b', codes "r2.sh") ∷ (b'c', corpus) ∷ []

no_blocks : basic_blocks_find true [] ≡ found []
unfolding basic_blocks_find read_blocks fgets_lines
no_blocks = refl

world-RunsWell : RunsWell lists world corpus [] inputs
world-RunsWell = record {
  blocks = no_blocks;
  context = refl;
  socket = refl;
  bind = refl;
  table_memory = memory;
  loop_memory = memory;
  init = refl;
  wd = 1;
  watch = watch_added;
  turns = turns;
  stop = stop;
  rest = [];
  turns_eq = refl;
  runs = turns-Runs;
  stops = refl;
}

run_main-starts_example :
    run_main lists world opts (codes "sut" ∷ [])
    ≡ find_bounds lists world
        (take_options opts)
        (codes "sut" ∷ [])
        corpus
        (take_options opts).sec_name
run_main-starts_example =
    run_main-starts lists world opts ((b'c', codes "old") ∷ []) ((b'c', corpus) ∷ [])
      ((b'c', codes "old") ∷ (b'b', codes "r2.sh") ∷ []) [] (codes "sut") (codes "r2.sh") corpus []
      refl (omega arith) refl tt

run_main-success_example :
    (freed : Entries) × (run_main lists world opts (codes "sut" ∷ [])
      ≡ ends exit_success (nothing_written freed))
run_main-success_example =
    run_main-success lists laws keys hashes world opts ((b'c', codes "old") ∷ [])
      ((b'c', corpus) ∷ []) ((b'c', codes "old") ∷ (b'b', codes "r2.sh") ∷ []) [] (codes "sut")
      (codes "r2.sh") corpus [] [] inputs refl (omega arith) refl tt (omega arith) (omega arith)
      world-RunsWell

-- The run with -g.
abbrev dumping : List (ℕ × Text)
dumping = (b'g', codes "all.dot") ∷ opts

inputs-AreLow : AreLow [] inputs
unfolding resolve find_blocks
inputs-AreLow = ground arith

run_main-graph_example :
    (edges : List (ℕ × ℕ)) × (sink : Sink) × (next : ℕ) × (numbers : ℕ × ℕ) × (freed : Entries)
    × (run_main lists world dumping (codes "sut" ∷ [])
        ≡ ends exit_success (file_written sink next numbers freed))
    × (sink.written
        ≡ (codes "digraph {" ++ 10 ∷ [])
          ++ count_lines (count_of lists [] inputs) edges
          ++ (codes "}" ++ 10 ∷ []))
    × All (λ e. 0 < branches_of (branch_key e.0 e.1) none [] inputs) edges
    × ((k : Text) → (count_of lists [] inputs k ≡ 0) ⊎ HasLine k edges)
run_main-graph_example =
    run_main-graph lists [] inputs laws keys hashes world dumping
      ((b'g', codes "all.dot") ∷ (b'c', codes "old") ∷ []) ((b'c', corpus) ∷ [])
      ((b'g', codes "all.dot") ∷ (b'c', codes "old") ∷ (b'b', codes "r2.sh") ∷ []) [] [] opts
      (codes "sut") (codes "r2.sh") corpus (codes "all.dot") [] refl (omega arith) refl tt refl
      (omega arith) (omega arith) world-RunsWell inputs-AreLow refl memory
