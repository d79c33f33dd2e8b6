-- ===== src/Perf.antt =====
-- perf/perf.c: the run of one child under Intel BTS. What the system answers is data: the results of the
-- calls, and the sequence of signals and of returns of waitpid while the loop of perf_parent waits. What
-- the code does to descriptors, mappings and the child is written down as a list of actions.
pub mod Parent
pub mod Release
pub mod Wait
pub mod Ends
pub mod Logged
pub mod Api
pub mod Session
pub mod Untouched
pub mod Input
pub mod Traced
pub mod Tool
pub mod Reader
pub mod Examples
use fuzz_monitor.Base.{
  ℕ, zero, suc, ◌+◌, ◌-◌, ◌*◌, ◌/◌, ◌%◌, ◌^◌, Bool, true, false, ◌||◌, List, [], ◌∷◌, ◌++◌, Option,
  none, some, ltb, ◌==◌, if◌then◌else◌,
}

-- bts_branch_t
pub record BtsBranch : Type 0 where
  pub from : ℕ
  pub to : ℕ
  pub misc : ℕ

-- A pointer that `mmap` may have returned.
pub data Mapping : Type 0 where
  null map_failed : Mapping
  mapped : ℕ → Mapping

-- `none` is -1.
pub record GblStatus : Type 0 where
  pub child_pid : Option ℕ
  pub perf_fd : Option ℕ
  pub data_ready : ℕ
  pub mmap_buf : Mapping
  pub mmap_aux : Mapping

-- `creates` and `unlinks` are about the file with the input, ./.input.
pub data Action : Type 0 where
  opened closed : ℕ → Action
  maps unmaps : Mapping → Action
  kills : Option ℕ → ℕ → Action
  continues : Option ℕ → Action
  creates unlinks : Action

abbrev pub sigkill : ℕ
sigkill = 9

abbrev pub sigtrap : ℕ
sigtrap = 5

-- The part of the buffer that the kernel has written, and its `aux_head`, in bytes.
pub record Aux : Type 0 where
  pub head : ℕ
  pub branches : List BtsBranch

abbrev pub branch_size : ℕ
branch_size = 24

-- What the callers' pointers receive; `logged` counts the branches of each summary in the log.
pub record Output : Type 0 where
  pub bts_start : Mapping
  pub count : ℕ
  pub logged : List ℕ

-- The loop of analyze_bts from the branch at byte `at` on; `none` is a read beyond the buffer.
unfoldable pub log_branches : List BtsBranch → ℕ → ℕ → ℕ → Option ℕ
log_branches [] at head counter = if ltb at head then none else some counter
log_branches (br ∷ rest) at head counter =
    let skipped = log_branches rest (at + branch_size) head counter in
    let taken = log_branches rest (at + branch_size) head (counter + 1) in
    if ltb at head
    then (if ltb 0xffffffff00000000 br.from || ltb 0xffffffff00000000 br.to then skipped else taken)
    else some counter

-- The difference of the pointers `mmap_aux + head` and `mmap_aux`, in branches. Where `head` is not at the
-- end of a branch it is undefined; the value then is that of gcc, which divides by 8 with a shift and by 3
-- with the inverse of 3 modulo 2^64.
unfoldable pub branches_between : ℕ → ℕ
branches_between head =
    if head % branch_size == 0 then head / branch_size else (head / 8 * 0xaaaaaaaaaaaaaaab) % 2 ^ 64

-- `given` says whether both pointers are there.
unfoldable pub analyze_bts : Bool → GblStatus → Aux → Output → Option Output
analyze_bts true s aux out =
    some (record out { bts_start = s.mmap_aux; count = branches_between aux.head })
analyze_bts false s aux out = elim (log_branches aux.branches 0 aux.head 0) [
  | none ↦ none
  | some counter ↦ some (record out { logged = out.logged ++ counter ∷ [] })
]

pub data WaitStatus : Type 0 where
  exited signaled stopped : ℕ → WaitStatus

-- What happens while the loop waits; `waited` says too whether `PTRACE_CONT` succeeds after it.
pub data Event : Type 0 where
  sigio interrupted wait_fails : Event
  waited : WaitStatus → Aux → Bool → Event

-- Everything but a stop by SIGTRAP ends the loop.
unfoldable pub is_last : WaitStatus → Bool
is_last (exited n) = true
is_last (signaled n) = true
is_last (stopped signal) = if signal == sigtrap then false else true

-- perf_sig_handler on SIGIO
unfoldable pub perf_sig_handler : GblStatus → GblStatus × List Action
perf_sig_handler s = (record s { data_ready = s.data_ready + 1 }, kills s.child_pid sigtrap ∷ [])

-- How the loop is left: by its `break`, by the `goto` on a failure of waitpid, by the `return` on a
-- failure of ptrace, or, with no further event, not at all.
pub data Left : Type 0 where
  breaks bails returns blocked crashes : Left

pub record Waiting : Type 0 where
  pub left : Left
  pub status : GblStatus
  pub output : Output
  pub actions : List Action

-- The analysis in the loop, if a signal has announced data.
unfoldable pub take_data : Bool → GblStatus → Aux → Output → Option (GblStatus × Output)
take_data given s aux out =
    if ltb 0 s.data_ready
    then elim (analyze_bts given s aux out) [
      | none ↦ none
      | some out' ↦ some (record s { data_ready = s.data_ready - 1 }, out')
    ]
    else some (s, out)

unfoldable pub wait_loop : Bool → GblStatus → Output → List Action → List Event → Waiting
wait_loop given s out done [] = record { left = blocked; status = s; output = out; actions = done }
wait_loop given s out done (sigio ∷ events) =
    let (s', actions) = perf_sig_handler s in wait_loop given s' out (done ++ actions) events
wait_loop given s out done (interrupted ∷ events) = wait_loop given s out done events
wait_loop given s out done (wait_fails ∷ events) = record {
  left = bails;
  status = s;
  output = out;
  actions = done;
}
wait_loop given s out done (waited status aux cont ∷ events) = elim (take_data given s aux out) [
  | none ↦ record { left = crashes; status = s; output = out; actions = done }
  | some (s', out') ↦
      let rest = wait_loop given s' out' (done ++ continues s.child_pid ∷ []) events in
      if is_last status
      then record { left = breaks; status = s'; output = out'; actions = done }
      else if cont
      then rest
      else record { left = returns; status = s'; output = out'; actions = done }
]
