-- ===== src/Perf/Parent.antt =====
-- perf/perf.c: perf_parent, which maps the buffers and waits for the child, and perf_close.
use fuzz_monitor.Base.{ℕ, Bool, List, [], ◌∷◌, ◌++◌, Option, none, some, if◌then◌else◌}
use fuzz_monitor.Perf.{
  GblStatus, Mapping, null, map_failed, mapped, Action, opened, closed, maps, unmaps, kills,
  sigkill, Aux, Output, analyze_bts, Event, breaks, bails, returns, blocked, crashes, Waiting,
  wait_loop,
}

-- The answers of the system in perf_parent, with the buffer as it is after the loop.
pub record System : Type 0 where
  pub sigaction_ok : Bool
  pub perf_open : Option ℕ
  pub map_buf : Option ℕ
  pub map_aux : Option ℕ
  pub events : List Event
  pub last : Aux

pub data Ret : Type 0 where
  perf_success perf_failure perf_blocked perf_crash : Ret

pub record Parent : Type 0 where
  pub ret : Ret
  pub status : GblStatus
  pub output : Output
  pub actions : List Action

-- `close`, on a descriptor that is there.
unfoldable pub close_fd : Option ℕ → List Action
close_fd none = []
close_fd (some fd) = closed fd ∷ []

unfoldable pub after_loop : Bool → Aux → Waiting → Parent
after_loop given last w = elim w.left [
  | breaks ↦ elim (analyze_bts given w.status last w.output) [
    | none ↦ record { ret = perf_crash; status = w.status; output = w.output; actions = w.actions }
    | some out ↦ record { ret = perf_success; status = w.status; output = out; actions = w.actions }
  ]
  | bails ↦ record {
    ret = perf_failure;
    status = w.status;
    output = w.output;
    actions =
        w.actions
        ++ unmaps w.status.mmap_aux ∷ unmaps w.status.mmap_buf ∷ close_fd w.status.perf_fd
        ++ kills w.status.child_pid sigkill ∷ [];
  }
  | returns ↦ record {
    ret = perf_failure;
    status = w.status;
    output = w.output;
    actions = w.actions;
  }
  | blocked ↦ record {
    ret = perf_blocked;
    status = w.status;
    output = w.output;
    actions = w.actions;
  }
  | crashes ↦ record { ret = perf_crash; status = w.status; output = w.output; actions = w.actions }
]

-- perf_parent from the mapping of the buffer on, with the descriptor open.
unfoldable pub map_and_wait : Bool → System → GblStatus → ℕ → Output → Parent
map_and_wait given sys s fd out = elim sys.map_buf [
  | none ↦ record {
    ret = perf_failure;
    status = record s { mmap_buf = map_failed };
    output = out;
    actions = opened fd ∷ closed fd ∷ kills s.child_pid sigkill ∷ [];
  }
  | some buf ↦ elim sys.map_aux [
    | none ↦ record {
      ret = perf_failure;
      status = record s { mmap_buf = mapped buf; mmap_aux = map_failed };
      output = out;
      actions =
          opened fd
          ∷ maps (mapped buf)
          ∷ unmaps (mapped buf)
          ∷ closed fd
          ∷ kills s.child_pid sigkill
          ∷ [];
    }
    | some aux ↦ after_loop given sys.last (
        wait_loop given (record s { mmap_buf = mapped buf; mmap_aux = mapped aux }) out
          (opened fd ∷ maps (mapped buf) ∷ maps (mapped aux) ∷ []) sys.events)
  ]
]

unfoldable pub perf_parent : Bool → System → GblStatus → Output → Parent
perf_parent given sys s out =
    if sys.sigaction_ok
    then elim sys.perf_open [
      | none ↦ record {
        ret = perf_failure;
        status = record s { perf_fd = none };
        output = out;
        actions = kills s.child_pid sigkill ∷ [];
      }
      | some fd ↦ map_and_wait given sys (record s { perf_fd = some fd }) fd out
    ]
    else record { ret = perf_failure; status = s; output = out; actions = [] }

-- The three tests of perf_close, which clears what it has released.
unfoldable pub close_mapping : Mapping → List Action
close_mapping null = []
close_mapping map_failed = unmaps map_failed ∷ []
close_mapping (mapped n) = unmaps (mapped n) ∷ []

unfoldable pub perf_close : GblStatus → GblStatus × List Action
perf_close s = (
  record s { mmap_aux = null; mmap_buf = null; perf_fd = none },
  close_mapping s.mmap_aux ++ close_mapping s.mmap_buf ++ close_fd s.perf_fd,
)
