-- ===== src/Perf/Reader/Examples.antt =====
-- A run of the tool of perf/main.c in its machine mode, read by src/myperf.rs.
use fuzz_monitor.Base.{ℕ, ◌≡◌, refl, true, List, [], ◌∷◌, some, none, arith}
use fuzz_monitor.Text.{Text, codes}
use fuzz_monitor.Perf.{BtsBranch, GblStatus, null, Aux, stopped, exited, waited, is_last}
use fuzz_monitor.Perf.Api.{Calls, is_parent}
use fuzz_monitor.Perf.Traced.{IsTraced}
use fuzz_monitor.Perf.Tool.{succeeds, run_tool}
use fuzz_monitor.Perf.Reader.{read_output}
use fuzz_monitor.Perf.Reader.RoundTrip.{users, run_tool-users}

abbrev pub branches : List BtsBranch
branches = record { from = 16; to = 32; misc = 0 } ∷ record { from = 32; to = 16; misc = 0 } ∷ []

abbrev pub aux_of : ℕ → Aux
aux_of head = record { head = head; branches = branches }

-- The program is stopped at its start, and ends.
abbrev pub calls : Calls
calls = record {
  type_file = some 5;
  type_read = true;
  input = some 5;
  write_ok = true;
  fork = is_parent 77;
  system = record {
    sigaction_ok = true;
    perf_open = some 6;
    map_buf = some 4096;
    map_aux = some 8192;
    events = waited (stopped 5) (aux_of 0) true ∷ waited (exited 0) (aux_of 48) true ∷ [];
    last = aux_of 48;
  };
  child = record { input = some 3; null_device = some 4; trace_ok = true; exec_ok = true };
}

pub calls-IsTraced : IsTraced calls branches
unfolding is_last
calls-IsTraced = record {
  type_fd = 5;
  type_file_eq = refl;
  type_read_eq = refl;
  in_fd = 5;
  input_eq = refl;
  write_eq = refl;
  pid = 77;
  fork_eq = refl;
  sigaction_eq = refl;
  fd = 6;
  perf_open_eq = refl;
  buf = 4096;
  map_buf_eq = refl;
  aux = 8192;
  map_aux_eq = refl;
  pre = waited (stopped 5) (aux_of 0) true ∷ [];
  rest = [];
  ending = exited 0;
  ending_aux = aux_of 48;
  cont = true;
  events_eq = refl;
  goes_on = ground arith;
  ends = refl;
  head_eq = refl;
  branches_eq = refl;
}

abbrev status : GblStatus
status = record {
  child_pid = none;
  perf_fd = none;
  data_ready = 0;
  mmap_buf = null;
  mmap_aux = null;
}

run_tool-users_example :
    (text : Text) × (run_tool
        (codes "perf" ∷ codes "x" ∷ codes "/bin/sut" ∷ [])
        (some (codes "abc"))
        calls
        status
      ≡ succeeds text)
    × (read_output text ≡ some (users branches))
run_tool-users_example =
    run_tool-users (codes "perf") (codes "/bin/sut") (codes "abc") [] calls status branches
      calls-IsTraced (omega arith)
