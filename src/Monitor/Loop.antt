-- ===== src/Monitor/Loop.antt =====
-- c_monitor/main.c: monitor_loop. A turn of its loop is given by what happens in it: `keep_running`, which
-- the signal handler clears, the answers of ZeroMQ and inotify, and the calls of the tracer. What it logs,
-- and the times that are only logged, are left out, and so is the release of the table at the end.
pub mod Turns
pub mod Invariant
pub mod Works
pub mod Bounds
pub mod Accumulates
pub mod Examples
use fuzz_monitor.Base.{
  ℕ, ◌+◌, ◌%◌, ◌^◌, Bool, true, false, List, [], ◌∷◌, Option, none, some, length, take, max, leb,
  ltb, if◌then◌else◌,
}
use fuzz_monitor.Text.{Text}
use fuzz_monitor.Collections.{ok, err, Collections}
use fuzz_monitor.Perf.{BtsBranch, GblStatus, null, Output, Aux}
use fuzz_monitor.Perf.Parent.{perf_success, perf_failure, perf_blocked, perf_crash}
use fuzz_monitor.Perf.Api.{
  Calls, ApiRet, parent_ret, child_failure, zero_in_child, execs, perf_monitor_api,
}
use fuzz_monitor.Monitor.{Monitor}
use fuzz_monitor.Monitor.Branches.{zero_returned, minus_one, aborts, process_branches}
use fuzz_monitor.Monitor.Seen.{Seen, noted, crashed, note_input, seen_start}
use fuzz_monitor.Monitor.Inotify.{
  EventRead, Files, read_minus_one, bytes, inotify_maybe_read, WaitRet, ret_zero, ret_minus_one,
  still_waiting,
}

abbrev pub buf_sz : ℕ
buf_sz = 1048576

pub data Exit : Type 0 where
  exit_success exit_failure : Exit

-- zmq_recv returns the size of the message, also where the buffer holds only its first part.
pub data Received : Type 0 where
  message : Text → Received
  eagain recv_fails : Received

-- `running` is `keep_running` at the loop's test, and `running_after` after a failed zmq_recv.
pub record Turn : Type 0 where
  pub running : Bool
  pub received : Received
  pub running_after : Bool
  pub read : EventRead
  pub files : Files
  pub now : ℕ
  pub calls : Calls
  pub opens : Bool

-- The input is in the buffer, of `size` bytes, from the corpus or not.
pub data Fetched : Type 0 where
  input : Text → ℕ → Bool → Fetched
  nothing : Fetched
  breaks : Exit → Fetched

unfoldable pub fetch : ℕ → Text → Turn → Fetched
fetch wd path turn = elim turn.received [
  | message text ↦ input (take buf_sz text) (length text) false
  | eagain ↦ elim (inotify_maybe_read turn.read turn.files wd path buf_sz) [
    | read_minus_one ↦ breaks exit_failure
    | bytes text ↦ elim text [ [] ↦ nothing | c ∷ rest ↦ input (c ∷ rest) (length (c ∷ rest)) true ]
  ]
  | recv_fails ↦ if turn.running_after then breaks exit_failure else breaks exit_success
]

-- `count` branches from `bts_start` on; `none` where so many have not been written.
unfoldable pub traced : Aux → ℕ → Option (List BtsBranch)
traced last count =
    if leb count (length last.branches) then some (take count last.branches) else none

module _ (lib : Collections) where
  open lib use {hashtable_new}

  pub record Loop : Type 0 where
    pub monitor : Monitor lib
    pub seen : Seen lib
    pub status : GblStatus
    pub max_depth : ℕ

  -- `in_child` is the process that perf_monitor_api has forked.
  pub data Turned : Type 0 where
    goes : Loop → Turned
    leaves : Exit → Loop → Turned
    in_child : ApiRet → Loop → Turned
    blocks crashes : Turned

  -- From process_branches on.
  unfoldable pub record_input : Turn → Loop → List BtsBranch → Turned
  record_input turn l branches =
      elim (process_branches lib turn.now turn.opens l.monitor branches) [
        | aborts ↦ crashes
        | minus_one m ↦ leaves exit_failure (record l { monitor = m })
        | zero_returned result ↦ goes (record l {
          monitor = record (result.monitor) { input_n = (l.monitor.input_n + 1) % 2 ^ 64 };
          max_depth = if ltb l.max_depth result.depth then result.depth else l.max_depth;
        })
      ]

  -- From the call of perf_monitor_api on.
  unfoldable pub run_input : Turn → Loop → Turned
  run_input turn l =
      let api =
        perf_monitor_api turn.calls l.status
          (record { bts_start = null; count = 0; logged = [] }) in
      let l' = record l { status = api.status } in
      elim api.ret [
        | parent_ret ret ↦ elim ret [
          | perf_failure ↦ leaves exit_failure l'
          | perf_blocked ↦ blocks
          | perf_crash ↦ crashes
          | perf_success ↦ elim (traced turn.calls.system.last api.output.count) [
            | none ↦ crashes
            | some branches ↦ record_input turn l' branches
          ]
        ]
        | child_failure ↦ in_child child_failure l'
        | zero_in_child ↦ in_child zero_in_child l'
        | execs ↦ in_child execs l'
      ]

  unfoldable pub take_turn : ℕ → Turn → Loop → Turned
  take_turn wd turn l = elim (fetch wd l.monitor.fuzz_corpus_path turn) [
    | nothing ↦ goes l
    | breaks exit ↦ leaves exit l
    | input buf size from_corpus ↦ elim (note_input lib turn.now l.seen buf size) [
      | crashed ↦ crashes
      | noted seen value ↦ run_input turn (record l { seen = seen })
    ]
  ]

  -- The `while` loop, as far as its turns are given.
  unfoldable pub take_turns : ℕ → Loop → List Turn → Turned
  take_turns wd l [] = goes l
  take_turns wd l (turn ∷ turns) =
      if turn.running
      then elim (take_turn wd turn l) [
        | goes l' ↦ take_turns wd l' turns
        | leaves exit l' ↦ leaves exit l'
        | in_child ret l' ↦ in_child ret l'
        | blocks ↦ blocks
        | crashes ↦ crashes
      ]
      else leaves exit_success l
