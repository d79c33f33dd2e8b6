-- ===== src/Perf/Api.antt =====
-- perf/perf.c: perf_init, perf_child and perf_monitor_api, which gives the input to a child in a file and
-- monitors it.
use fuzz_monitor.Base.{
  ℕ, ◌≡◌, refl, Bool, true, false, List, [], ◌∷◌, ◌++◌, Option, none, some, if◌then◌else◌,
}
use fuzz_monitor.Perf.{GblStatus, Action, opened, closed, creates, unlinks, Output}
use fuzz_monitor.Perf.Parent.{
  System, Ret, perf_success, perf_failure, perf_blocked, perf_crash, perf_parent, perf_close,
}

-- perf_init: `type_file` is the descriptor of the file with the type, if it opens, and `type_read` says
-- whether it can be read.
unfoldable pub perf_init : Option ℕ → Bool → Bool × List Action
perf_init none type_read = (false, [])
perf_init (some fd) false = (false, opened fd ∷ closed fd ∷ [])
perf_init (some fd) true = (true, opened fd ∷ closed fd ∷ [])

-- What the child's calls answer; `exec_ok` says that execv does not return.
pub record Child : Type 0 where
  pub input : Option ℕ
  pub null_device : Option ℕ
  pub trace_ok : Bool
  pub exec_ok : Bool

pub data Fork : Type 0 where
  fork_fails is_child : Fork
  is_parent : ℕ → Fork

-- How perf_child ends: in the program under test, or with PERF_FAILURE.
unfoldable pub perf_child : Child → Bool
perf_child c = elim c.null_device [
  | none ↦ false
  | some fd ↦ if c.trace_ok then c.exec_ok else false
]

pub record Calls : Type 0 where
  pub type_file : Option ℕ
  pub type_read : Bool
  pub input : Option ℕ
  pub write_ok : Bool
  pub fork : Fork
  pub system : System
  pub child : Child

-- `zero_in_child` is the `return 0` of the child, and `execs` the program under test.
pub data ApiRet : Type 0 where
  parent_ret : Ret → ApiRet
  child_failure zero_in_child execs : ApiRet

pub record Api : Type 0 where
  pub ret : ApiRet
  pub status : GblStatus
  pub output : Output
  pub actions : List Action

unfoldable pub in_child : Child → ApiRet
in_child c = elim c.input [
  | none ↦ child_failure
  | some fd ↦ if perf_child c then execs else zero_in_child
]

-- The `unlink` behind perf_parent, which is not reached while it waits.
unfoldable pub unlink_after : Ret → List Action
unlink_after perf_success = unlinks ∷ []
unlink_after perf_failure = unlinks ∷ []
unlink_after perf_blocked = []
unlink_after perf_crash = []

-- From `fork` on, with the input written to the file of descriptor `fd`. The actions are those of the
-- process that the call returns in; the descriptors of the child are not followed.
unfoldable pub fork_and_monitor : Fork → System → Child → GblStatus → Output → ℕ → List Action → Api
fork_and_monitor fork_fails system child s out fd done = record {
  ret = parent_ret perf_failure;
  status = record s { child_pid = none };
  output = out;
  actions = done ++ unlinks ∷ [];
}
fork_and_monitor (is_parent pid) system child s out fd done =
    let p = perf_parent true system (record s { child_pid = some pid }) out in
    record {
      ret = parent_ret p.ret;
      status = p.status;
      output = p.output;
      actions = ((done ++ closed fd ∷ []) ++ p.actions) ++ unlink_after p.ret;
    }
fork_and_monitor is_child system child s out fd done = record {
  ret = in_child child;
  status = record s { child_pid = some 0 };
  output = out;
  actions = done;
}

unfoldable pub perf_monitor_api : Calls → GblStatus → Output → Api
perf_monitor_api calls s out =
    let (s', released) = perf_close s in
    let (supported, looked) = perf_init calls.type_file calls.type_read in
    let failed : List Action → Api = λ actions. record {
      ret = parent_ret perf_failure;
      status = s';
      output = out;
      actions = actions;
    } in
    if supported
    then elim calls.input [
      | none ↦ failed (released ++ looked)
      | some fd ↦
          if calls.write_ok
          then fork_and_monitor calls.fork calls.system calls.child s' out fd
              (released ++ looked ++ opened fd ∷ creates ∷ closed fd ∷ [])
          else failed (released ++ looked ++ opened fd ∷ creates ∷ closed fd ∷ unlinks ∷ [])
    ]
    else failed (released ++ looked)

-- The actions up to the fork.
abbrev pub prepared : Calls → GblStatus → ℕ → List Action
prepared calls s fd =
    (perf_close s).1
    ++ (perf_init calls.type_file calls.type_read).1
    ++ opened fd ∷ creates ∷ closed fd ∷ []

pub reach_fork :
    (calls : Calls) (s : GblStatus) (out : Output) (fd : ℕ)
    → (perf_init calls.type_file calls.type_read).0 ≡ true
    → calls.input ≡ some fd
    → calls.write_ok ≡ true
    → perf_monitor_api calls s out
      ≡ fork_and_monitor calls.fork calls.system calls.child
          (perf_close s).0
          out
          fd
          (prepared calls s fd)
unfolding perf_monitor_api
reach_fork calls s out fd supported file written =
    rw (supported, perf_monitor_api, file, written) refl
