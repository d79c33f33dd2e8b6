-- ===== src/Perf/Tool.antt =====
-- perf/main.c, the tool that traces one run, and perf_monitor of perf/perf.c.
use fuzz_monitor.Base.{
  ℕ, Bool, false, ◌&&◌, ◌||◌, List, [], ◌∷◌, ◌++◌, Option, none, some, length, take, ltb, leb,
  if◌then◌else◌,
}
use fuzz_monitor.Text.{Text, codes, decimal, text_eq}
use fuzz_monitor.Log.{machine, info, debug, log_at}
use fuzz_monitor.Perf.{BtsBranch, GblStatus, null, Aux}
use fuzz_monitor.Perf.Parent.{
  perf_success, perf_failure, perf_blocked, perf_crash, perf_parent, perf_close,
}
use fuzz_monitor.Perf.Api.{
  Calls, fork_fails, is_child, is_parent, perf_init, perf_child, parent_ret, child_failure,
  zero_in_child, execs, perf_monitor_api,
}

-- How perf_monitor ends: by its `exit`, or by a return with what has been logged of the branches; the
-- child ends as the program.
pub data Monitored : Type 0 where
  exits waits crashed becomes_program : Monitored
  logs : List ℕ → Monitored

unfoldable pub perf_monitor : Calls → GblStatus → Monitored
perf_monitor calls s =
    let (s', released) = perf_close s in
    if (perf_init calls.type_file calls.type_read).0
    then elim calls.fork [
      | fork_fails ↦ exits
      | is_parent pid ↦
          let p =
            perf_parent false calls.system (record s' { child_pid = some pid })
              (record { bts_start = null; count = 0; logged = [] }) in
          elim p.ret [
            | perf_failure ↦ exits
            | perf_success ↦ logs p.output.logged
            | perf_blocked ↦ waits
            | perf_crash ↦ crashed
          ]
      | is_child ↦ if perf_child calls.child then becomes_program else exits
    ]
    else exits

-- The test of the loop in main.
unfoldable pub is_kernel : BtsBranch → Bool
is_kernel br = ltb 0xffffffff00000000 br.from || ltb 0xffffffff00000000 br.to

unfoldable pub branch_message : BtsBranch → Text
branch_message br = codes "branch," ++ (decimal br.from ++ (codes "," ++ decimal br.to))

-- What LOG_M prints for the branches.
unfoldable pub print_branches : List BtsBranch → Text
print_branches [] = []
print_branches (br ∷ branches) =
    let rest = print_branches branches in
    if is_kernel br
    then rest
    else log_at machine machine (codes "main") 50 none (branch_message br) ++ rest

-- `count` branches from `bts_start` on.
unfoldable pub output_of : Aux → ℕ → Option Text
output_of last count =
    if leb count (length last.branches)
    then some (print_branches (take count last.branches))
    else none

-- How main ends: with its status and its output, or in perf_monitor, whose own messages are left out.
pub data ToolEnd : Type 0 where
  succeeds fails : Text → ToolEnd
  monitors : Text → Monitored → ToolEnd
  in_child waits crashed : ToolEnd

-- From the read of the input on; `stdin` is what `read` puts into the buffer.
unfoldable pub run_machine : Option Text → Calls → GblStatus → ToolEnd
run_machine stdin calls s =
    let failure = log_at machine machine (codes "main") in
    elim stdin [
      | none ↦ fails (failure 33 none (codes "failed reading input"))
      | some input ↦
          let api =
            perf_monitor_api calls s (record { bts_start = null; count = 0; logged = [] }) in
          elim api.ret [
            | parent_ret ret ↦ elim ret [
              | perf_failure ↦ fails (failure 40 none (codes "failed perf monitoring"))
              | perf_success ↦ elim (output_of calls.system.last api.output.count) [
                | none ↦ crashed
                | some text ↦ succeeds text
              ]
              | perf_blocked ↦ waits
              | perf_crash ↦ crashed
            ]
            | child_failure ↦ in_child
            | zero_in_child ↦ in_child
            | execs ↦ in_child
          ]
    ]

-- `argv` is not empty: its first element is the name of the tool. The level is DEBUG at the start.
unfoldable pub run_tool : List Text → Option Text → Calls → GblStatus → ToolEnd
run_tool argv stdin calls s = elim argv [
  | [] ↦ succeeds []
  | name ∷ args ↦ elim args [
    | [] ↦ succeeds (
        log_at debug info (codes "main") 15 none
          (codes "usage: " ++ (name ++ codes " [x] command [args]")))
    | first ∷ rest ↦
        if ltb 0 (length rest) && text_eq first (codes "x")
        then run_machine stdin calls s
        else monitors (log_at info info (codes "main") 27 none (codes "Starting perf tool..."))
            (perf_monitor calls s)
  ]
]
