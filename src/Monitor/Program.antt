-- ===== src/Monitor/Program.antt =====
-- c_monitor/main.c: main, from its arguments to its exit status. What it logs and the output of `usage` are
-- left out, and so are `free_monitor` and the calls that close ZeroMQ.
pub mod Usage
pub mod Runs
pub mod Lines
pub mod Dumped
pub mod Examples
use fuzz_monitor.Base.{
  ℕ, ◌*◌, ◌^◌, Bool, true, false, ◌||◌, ◌&&◌, List, [], ◌∷◌, foldl, Option, none, some, leb, ltb,
  ◌==◌, if◌then◌else◌,
}
use fuzz_monitor.Text.{Text, codes}
use fuzz_monitor.Collections.{ok, err, Collections}
use fuzz_monitor.Sections as Sections
use fuzz_monitor.Sections.{SectionBounds, Malloc, section_find}
use fuzz_monitor.Bb as Bb
use fuzz_monitor.Bb.{BasicBlock, basic_blocks_find}
use fuzz_monitor.Perf.{GblStatus, null}
use fuzz_monitor.Perf.Api.{ApiRet}
use fuzz_monitor.Monitor.{Monitor}
use fuzz_monitor.Monitor.Tables as Tables
use fuzz_monitor.Monitor.Tables.{Freed, nothing_written, file_written, free_hashtable}
use fuzz_monitor.Monitor.Loop.{Exit, exit_success, exit_failure, Turn}
use fuzz_monitor.Monitor.Session as Session
use fuzz_monitor.Monitor.Session.{WatchTry, Ended, monitor_loop}

-- What the loop over getopt sets.
pub record Options : Type 0 where
  pub graph_filename : Option Text
  pub sec_name : Option Text
  pub print_seen_inputs : Bool
  pub basic_block_script : Option Text
  pub graph_indiv_path : Option Text
  pub fuzz_corpus_path : Option Text

unfoldable pub no_options : Options
no_options = record {
  graph_filename = none;
  sec_name = none;
  print_seen_inputs = false;
  basic_block_script = none;
  graph_indiv_path = none;
  fuzz_corpus_path = none;
}

-- A round of the loop: what getopt returns, and `optarg`. Any other option is passed over.
unfoldable pub take_option : Options → ℕ × Text → Options
take_option o (opt, optarg) =
    if opt == b'g'
    then record o { graph_filename = some optarg }
    else if opt == b's'
    then record o { sec_name = some optarg }
    else if opt == b'i'
    then record o { print_seen_inputs = true }
    else if opt == b'b'
    then record o { basic_block_script = some optarg }
    else if opt == b't'
    then record o { graph_indiv_path = some optarg }
    else if opt == b'c'
    then record o { fuzz_corpus_path = some optarg }
    else o

unfoldable pub take_options : List (ℕ × Text) → Options
take_options opts = foldl take_option no_options opts

-- What the system answers in a run; `stream` is what the script prints on the blocks of the program, and
-- `keeps` is that of Bb.antt. The calls `table_now`, `loop_now` and `end_now` allocate.
pub record World : Type 0 where
  pub malloc : Malloc
  pub program : Option (List ℕ)
  pub keeps : Bool
  pub stream : Text
  pub context_ok : Bool
  pub socket_ok : Bool
  pub bind_ok : Bool
  pub table_now : ℕ
  pub loop_now : ℕ
  pub init_ok : Bool
  pub attempts : List WatchTry
  pub turns : List Turn
  pub end_now : ℕ
  pub opens : Bool

-- The static `gbl_status`.
unfoldable pub first_status : GblStatus
first_status = record {
  child_pid = none;
  perf_fd = none;
  data_ready = 0;
  mmap_buf = null;
  mmap_aux = null;
}

-- `sec_size <= 0`, for the bit pattern of an `int64_t`.
unfoldable pub not_positive : ℕ → Bool
not_positive size = size == 0 || leb (2 ^ 63) size

-- A `char *` that is not NULL.
unfoldable pub is_given : Option Text → Bool
is_given none = false
is_given (some text) = true

module _ (lib : Collections) where
  open lib use {hashtable_new}

  -- `usage` is the exit with EXIT_FAILURE after the usage has been printed; `ends` comes with what
  -- free_hashtable has done, and `exits` without.
  pub data Program : Type 0 where
    usage : Program
    exits : Exit → Program
    ends : Exit → Freed lib → Program
    goes_on in_child waits crashed : Program

  -- `free_hashtable(monitor->branch_hits, graph_filename)` and the return.
  unfoldable pub end_program : World → Options → Exit → Monitor lib → Program
  end_program w o ret m =
      elim (free_hashtable lib w.end_now (is_given o.graph_filename) w.opens m.branch_hits
        m.counters) [
          | Tables.nothing_written entries ↦ ends ret (nothing_written entries)
          | Tables.file_written sink next numbers entries ↦
              ends ret (file_written sink next numbers entries)
          | Tables.exits ↦ exits exit_failure
          | Tables.crashed ↦ crashed
        ]

  -- From the creation of the table of branches on.
  unfoldable pub run_loop :
      World → Options → List Text → Text → Option SectionBounds → List BasicBlock → Program
  run_loop w o sut corpus sec_bounds bbs = elim (hashtable_new {K = Text} {V = ℕ} w.table_now) [
    | err _ ↦ exits exit_failure
    | ok branch_hits ↦
        elim (monitor_loop lib w.loop_now w.init_ok w.attempts w.turns o.print_seen_inputs
          (record {
            sut = sut;
            branch_hits = branch_hits;
            counters = [];
            sec_bounds = sec_bounds;
            bbs = bbs;
            graph_indiv_path = elim o.graph_indiv_path [ none ↦ codes "(null)" | some path ↦ path ];
            input_n = 0;
            fuzz_corpus_path = corpus;
          })
          first_status) [
            | Session.returned ret m lines entries ↦ end_program w o ret m
            | Session.child_returned ret m ↦ in_child
            | Session.goes_on l ↦ goes_on
            | Session.waits ↦ waits
            | Session.crashed ↦ crashed
          ]
  ]

  -- From basic_blocks_find on. Its result is a `size_t`, of which no value is below 0.
  unfoldable pub run_monitor : World → Options → List Text → Text → Option SectionBounds → Program
  run_monitor w o sut corpus sec_bounds = elim (basic_blocks_find w.keeps w.stream) [
    | Bb.aborts ↦ crashed
    | Bb.out_of_bounds ↦ crashed
    | Bb.found bbs ↦
        if w.context_ok && w.socket_ok && w.bind_ok
        then run_loop w o sut corpus sec_bounds bbs
        else exits exit_failure
  ]

  -- From `if (sec_name)` on.
  unfoldable pub find_bounds : World → Options → List Text → Text → Option Text → Program
  find_bounds w o sut corpus none = run_monitor w o sut corpus none
  find_bounds w o sut corpus (some sec_name) = elim (section_find w.malloc w.program sec_name) [
    | Sections.crashed ↦ crashed
    | Sections.returned sec_size bounds ↦
        if not_positive sec_size then exits exit_failure else run_monitor w o sut corpus bounds
  ]

  -- `basic_block_script` and `fuzz_corpus_path` must not be NULL.
  unfoldable pub check_given : World → Options → List Text → Option Text → Option Text → Program
  check_given w o sut none corpus = usage
  check_given w o sut (some script) none = usage
  check_given w o sut (some script) (some corpus) = find_bounds w o sut corpus o.sec_name

  -- `sut` is what is left of the arguments after the options.
  unfoldable pub run_main : World → List (ℕ × Text) → List Text → Program
  run_main w opts [] = usage
  run_main w opts (command ∷ args) =
      let o = take_options opts in
      check_given w o (command ∷ args) o.basic_block_script o.fuzz_corpus_path
