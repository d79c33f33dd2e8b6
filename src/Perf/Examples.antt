-- ===== src/Perf/Examples.antt =====
-- Runs of perf/perf.c: a child that is stopped for exec, then once for data, and then ends.
use fuzz_monitor.Base.{
  ℕ, ◌+◌, ◌-◌, ◌≡◌, refl, true, false, take, ◌==◌, if◌then◌else◌, List, [], ◌∷◌, ◌++◌, Option, none,
  some, arith,
}
use fuzz_monitor.Perf.{
  BtsBranch, GblStatus, null, mapped, opened, maps, kills, continues, Aux, Output, stopped, exited,
  Event, sigio, interrupted, waited, is_last, breaks, wait_loop, analyze_bts, take_data,
  perf_sig_handler,
}
use fuzz_monitor.Perf.Parent.{
  System, perf_success, perf_failure, perf_parent, perf_close, map_and_wait, after_loop,
}
use fuzz_monitor.Perf.Api.{
  Calls, is_parent, is_child, zero_in_child, parent_ret, in_child, perf_child, perf_init,
  fork_and_monitor, perf_monitor_api,
}
use fuzz_monitor.Perf.Input.{input_after, input_expected, perf_monitor_api-input_after}
use fuzz_monitor.Perf.Session.{perf_monitor_api-closes_twice}
use fuzz_monitor.Perf.Logged.{users, analyze_bts-users}
use fuzz_monitor.Perf.Wait.{tally}
use fuzz_monitor.Perf.Release.{
  opens, closes, mappings, unmappings, IsBalanced, perf_parent-IsBalanced,
  perf_parent-releases_twice,
}
use fuzz_monitor.Perf.Ends.{traps, resumes, pending, wait_loop-breaks, perf_parent-success}

abbrev aux_of : ℕ → Aux
aux_of head = record { head = head; branches = [] }

abbrev idle : GblStatus
idle = record {
  child_pid = some 77;
  perf_fd = none;
  data_ready = 0;
  mmap_buf = null;
  mmap_aux = null;
}

abbrev nothing : Output
nothing = record { bts_start = null; count = 0; logged = [] }

abbrev pre : List Event
pre =
    waited (stopped 5) (aux_of 0) true
    ∷ sigio
    ∷ interrupted
    ∷ waited (stopped 5) (aux_of 48) true
    ∷ []

abbrev whole : List Event
whole = pre ++ waited (exited 0) (aux_of 72) true ∷ []

abbrev system : Option ℕ → System
system map_aux = record {
  sigaction_ok = true;
  perf_open = some 6;
  map_buf = some 4096;
  map_aux = map_aux;
  events = whole;
  last = aux_of 72;
}

run_succeeds : (perf_parent true (system (some 8192)) idle nothing).ret ≡ perf_success
unfolding perf_parent map_and_wait after_loop wait_loop take_data analyze_bts is_last
    perf_sig_handler
run_succeeds = refl

actions_of_run :
    (perf_parent true (system (some 8192)) idle nothing).actions
    ≡ opened 6
      ∷ maps (mapped 4096)
      ∷ maps (mapped 8192)
      ∷ continues (some 77)
      ∷ kills (some 77) 5
      ∷ continues (some 77)
      ∷ []
unfolding perf_parent map_and_wait after_loop wait_loop take_data analyze_bts is_last
    perf_sig_handler
actions_of_run = refl

perf_parent-IsBalanced_example : IsBalanced (
    (perf_parent true (system (some 8192)) idle nothing).actions
    ++ (perf_close (perf_parent true (system (some 8192)) idle nothing).status).1)
perf_parent-IsBalanced_example =
    perf_parent-IsBalanced true (system (some 8192)) idle nothing run_succeeds

perf_parent-releases_twice_example :
    let p = perf_parent true (system none) idle nothing in
    let actions = p.actions ++ (perf_close p.status).1 in
    (p.ret ≡ perf_failure)
    × (tally (mappings 4096) actions ≡ 1)
    × (tally (unmappings 4096) actions ≡ 2)
    × (tally (opens 6) actions ≡ 1)
    × (tally (closes 6) actions ≡ 2)
perf_parent-releases_twice_example =
    perf_parent-releases_twice true (system none) idle nothing 6 4096 refl refl refl refl

wait_loop-breaks_example :
    let w = wait_loop true idle nothing [] (pre ++ waited (exited 0) (aux_of 72) true ∷ []) in
    (w.left ≡ breaks)
    × (tally traps w.actions ≡ 0 + 1)
    × (tally resumes w.actions ≡ 0 + 2)
    × (w.status.data_ready ≡ pending 0 pre - 1)
unfolding is_last
wait_loop-breaks_example =
    wait_loop-breaks idle nothing [] pre [] (exited 0) (aux_of 72) true (ground arith) refl

perf_parent-success_example :
    let p = perf_parent true (system (some 8192)) idle nothing in
    (p.ret ≡ perf_success) × (p.output.bts_start ≡ mapped 8192) × (p.output.count ≡ 3)
unfolding is_last
perf_parent-success_example =
    perf_parent-success (system (some 8192)) idle nothing 6 4096 8192 pre [] (exited 0) (aux_of 72)
      true 3 refl refl refl refl refl (ground arith) refl refl

abbrev calls : Calls
calls = record {
  type_file = some 5;
  type_read = true;
  input = some 5;
  write_ok = true;
  fork = is_parent 77;
  system = system (some 8192);
  child = record { input = some 3; null_device = some 4; trace_ok = true; exec_ok = false };
}

abbrev calls_in_child : Calls
calls_in_child = record calls { fork = is_child }

-- Where execv fails, the child comes back to its caller with 0, which is not PERF_FAILURE.
exec_fails : (perf_monitor_api calls_in_child idle nothing).ret ≡ zero_in_child
unfolding perf_monitor_api fork_and_monitor perf_init in_child perf_child
exec_fails = refl

api_succeeds : (perf_monitor_api calls idle nothing).ret ≡ parent_ret perf_success
unfolding perf_monitor_api fork_and_monitor perf_init perf_close perf_parent map_and_wait after_loop
    wait_loop take_data analyze_bts is_last perf_sig_handler
api_succeeds = refl

-- The file that the call has made is gone after it.
perf_monitor_api-input_after_example :
    input_after true (perf_monitor_api calls idle nothing).actions
    ≡ input_expected calls true (perf_monitor_api calls idle nothing).ret
perf_monitor_api-input_after_example = perf_monitor_api-input_after calls idle nothing true

perf_monitor_api-closes_twice_example :
    let api = perf_monitor_api calls idle nothing in
    let actions = api.actions ++ (perf_close api.status).1 in
    tally (closes 5) actions ≡ tally (opens 5) actions + (if 5 == 5 then 1 else 0)
perf_monitor_api-closes_twice_example =
    perf_monitor_api-closes_twice calls idle nothing 5 77 (refl, refl, refl) refl refl api_succeeds
      5

abbrev recorded : List BtsBranch
recorded =
    record { from = 16; to = 32; misc = 0 }
    ∷ record { from = 0xffffffff80000000; to = 32; misc = 0 }
    ∷ record { from = 32; to = 16; misc = 0 }
    ∷ []

analyze_bts-users_example :
    analyze_bts false idle (record { head = 48; branches = recorded }) nothing
    ≡ some (record nothing { logged = users (take 2 recorded) ∷ [] })
analyze_bts-users_example = analyze_bts-users 2 idle recorded nothing (omega arith)
