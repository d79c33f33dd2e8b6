-- ===== src/Perf/Traced.antt =====
-- perf/perf.c: a call of perf_monitor_api in which no call fails, from the fork to the branches.
use fuzz_monitor.Base.{
  ℕ, ◌*◌, ◌≡◌, refl, ap, ◌∙◌, Bool, true, List, [], ◌∷◌, ◌++◌, All, some, length,
}
use fuzz_monitor.Perf.{
  BtsBranch, GblStatus, null, Output, Aux, Event, WaitStatus, waited, is_last, branch_size,
}
use fuzz_monitor.Perf.Parent.{perf_success, perf_close}
use fuzz_monitor.Perf.Ends.{GoesOn, perf_parent-success}
use fuzz_monitor.Perf.Api.{
  Calls, is_parent, parent_ret, perf_init, fork_and_monitor, perf_monitor_api, prepared, reach_fork,
}

-- No call of the tracer fails, the child ends, and the kernel has written just these branches.
pub record IsTraced (calls : Calls) (branches : List BtsBranch) : Type 0 where
  pub type_fd : ℕ
  pub type_file_eq : calls.type_file ≡ some type_fd
  pub type_read_eq : calls.type_read ≡ true
  pub in_fd : ℕ
  pub input_eq : calls.input ≡ some in_fd
  pub write_eq : calls.write_ok ≡ true
  pub pid : ℕ
  pub fork_eq : calls.fork ≡ is_parent pid
  pub sigaction_eq : calls.system.sigaction_ok ≡ true
  pub fd : ℕ
  pub perf_open_eq : calls.system.perf_open ≡ some fd
  pub buf : ℕ
  pub map_buf_eq : calls.system.map_buf ≡ some buf
  pub aux : ℕ
  pub map_aux_eq : calls.system.map_aux ≡ some aux
  pub pre : List Event
  pub rest : List Event
  pub ending : WaitStatus
  pub ending_aux : Aux
  pub cont : Bool
  pub events_eq : calls.system.events ≡ pre ++ waited ending ending_aux cont ∷ rest
  pub goes_on : All GoesOn pre
  pub ends : is_last ending ≡ true
  pub head_eq : calls.system.last.head ≡ length branches * branch_size
  pub branches_eq : calls.system.last.branches ≡ branches

abbrev pub no_output : Output
no_output = record { bts_start = null; count = 0; logged = [] }

pub perf_monitor_api-IsTraced :
    (calls : Calls) (branches : List BtsBranch) (s : GblStatus)
    → IsTraced calls branches
    → let api = perf_monitor_api calls s no_output in
      (api.ret ≡ parent_ret perf_success) × (api.output.count ≡ length branches)
unfolding fork_and_monitor
perf_monitor_api-IsTraced calls branches s t =
    let supported : (perf_init calls.type_file calls.type_read).0 ≡ true =
      unfold perf_init in rw (t.type_file_eq, t.type_read_eq) refl in
    let (ret, _, count) =
      perf_parent-success calls.system (record (perf_close s).0 { child_pid = some t.pid })
        no_output t.fd t.buf t.aux t.pre t.rest t.ending t.ending_aux t.cont (length branches)
        t.sigaction_eq t.perf_open_eq t.map_buf_eq t.map_aux_eq t.events_eq t.goes_on t.ends
        t.head_eq in
    let reach =
      reach_fork calls s no_output t.in_fd supported t.input_eq t.write_eq
      ∙ ap
          (λ f.
            fork_and_monitor f calls.system calls.child (perf_close s).0 no_output t.in_fd
              (prepared calls s t.in_fd))
          t.fork_eq in
    rw reach (ap parent_ret ret, count)
