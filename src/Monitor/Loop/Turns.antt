-- ===== src/Monitor/Loop/Turns.antt =====
-- c_monitor/main.c, monitor_loop: a turn in which no call fails, from the input to its branches.
use fuzz_monitor.Base.{ℕ, ◌≡◌, refl, true, List, some, length, take-length, leb, arith}
use fuzz_monitor.Collections.{Collections}
use fuzz_monitor.Perf.{BtsBranch, Aux}
use fuzz_monitor.Perf.Api.{perf_monitor_api}
use fuzz_monitor.Monitor.Loop.{Turn, traced, Loop, record_input, run_input}
use fuzz_monitor.Perf.Traced.{IsTraced, no_output, perf_monitor_api-IsTraced}

traced_lem :
    (last : Aux) (branches : List BtsBranch) (count : ℕ)
    → last.branches ≡ branches
    → count ≡ length branches
    → traced last count ≡ some branches
unfolding traced
traced_lem last branches count whole all =
    let enough : leb (length branches) (length branches) ≡ true = ground arith in
    rw (whole, all, enough, take-length branches) refl

module _ (lib : Collections) where
  pub run_input-IsTraced :
      (turn : Turn) (l : Loop lib) (branches : List BtsBranch)
      → IsTraced turn.calls branches
      → run_input lib turn l
        ≡ record_input lib turn
            (record l { status = (perf_monitor_api turn.calls l.status no_output).status })
            branches
  unfolding run_input
  run_input-IsTraced turn l branches t =
      let api = perf_monitor_api turn.calls l.status no_output in
      let (ret, count) = perf_monitor_api-IsTraced turn.calls branches l.status t in
      let found = traced_lem turn.calls.system.last branches api.output.count t.branches_eq count in
      rw (ret, run_input, found) refl
