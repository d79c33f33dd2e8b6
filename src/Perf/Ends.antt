-- ===== src/Perf/Ends.antt =====
-- perf_parent of perf/perf.c on a run in which no call fails: the loop comes to its end.
use fuzz_monitor.Base.{
  ℕ, ◌+◌, ◌-◌, ◌*◌, ◌%◌, ◌≡◌, refl, ap, ◌∙◌, inl, inr, Bool, true, false, List, [], ◌∷◌, ◌++◌, All,
  some, ltb, ◌==◌, if◌then◌else◌, Bool-cases, arith,
}
use fuzz_monitor.Perf.{
  GblStatus, mapped, Action, opened, maps, kills, continues, sigtrap, Aux, Output, analyze_bts,
  WaitStatus, Event, sigio, interrupted, wait_fails, waited, is_last, perf_sig_handler, breaks,
  take_data, wait_loop, branch_size, branches_between,
}
use fuzz_monitor.Perf.Parent.{System, perf_success, after_loop, map_and_wait, perf_parent}
use fuzz_monitor.Perf.Wait.{tally, tally-append, wait_loop-SameResources}

-- A signal, or a stop of the child by SIGTRAP after which it is continued.
abbrev pub GoesOn : Event → Type 0
GoesOn sigio = Unit {0}
GoesOn interrupted = Unit {0}
GoesOn wait_fails = ⊥
GoesOn (waited status aux cont) = (is_last status ≡ false) × (cont ≡ true)

abbrev pub signals : List Event → ℕ
signals [] = 0
signals (sigio ∷ events) = 1 + signals events
signals (other ∷ events) = signals events

abbrev pub stops : List Event → ℕ
stops [] = 0
stops (waited status aux cont ∷ events) = 1 + stops events
stops (other ∷ events) = stops events

-- The announcements of data that no stop has taken up.
abbrev pub pending : ℕ → List Event → ℕ
pending n [] = n
pending n (sigio ∷ events) = pending (n + 1) events
pending n (waited status aux cont ∷ events) = pending (n - 1) events
pending n (other ∷ events) = pending n events

abbrev pub traps : Action → ℕ
traps (kills pid signal) = if signal == sigtrap then 1 else 0
traps other = 0

abbrev pub resumes : Action → ℕ
resumes (continues pid) = 1
resumes other = 0

take_data_lem :
    (s : GblStatus) (aux : Aux) (out : Output)
    → (out' : Output) × (take_data true s aux out
        ≡ some (record s { data_ready = s.data_ready - 1 }, out'))
unfolding take_data analyze_bts
take_data_lem s aux out = elim (Bool-cases (ltb 0 s.data_ready)) [
  | inl ready ↦ (
    record out { bts_start = s.mmap_aux; count = branches_between aux.head },
    rw (ready, take_data) refl,
  )
  | inr idle ↦
      let same : s.data_ready ≡ s.data_ready - 1 = ground arith in
      (out, rw (idle, take_data) (ap (λ n. some (record s { data_ready = n }, out)) same))
]

-- While the child is only stopped by SIGTRAP and continued, the loop waits on. It breaks at the first
-- other return of waitpid. The child has then been sent one SIGTRAP for each SIGIO and been continued
-- once for each stop, and `data_ready` is the number of announcements that no return has taken up.
pub wait_loop-breaks :
    (s : GblStatus) (out : Output) (done : List Action) (pre rest : List Event)
    (status : WaitStatus) (aux : Aux) (cont : Bool)
    → All GoesOn pre
    → is_last status ≡ true
    → let w = wait_loop true s out done (pre ++ waited status aux cont ∷ rest) in
      (w.left ≡ breaks)
      × (tally traps w.actions ≡ tally traps done + signals pre)
      × (tally resumes w.actions ≡ tally resumes done + stops pre)
      × (w.status.data_ready ≡ pending s.data_ready pre - 1)
unfolding wait_loop perf_sig_handler
wait_loop-breaks s out done [] rest status aux cont goes last =
    let (out', taken) = take_data_lem s aux out in
    rw (taken, wait_loop, last) (refl, omega arith, omega arith, refl)
wait_loop-breaks s out done (sigio ∷ pre) rest status aux cont goes last =
    let more = done ++ kills s.child_pid sigtrap ∷ [] in
    let (left, trapped, resumed, ready) =
      wait_loop-breaks (record s { data_ready = s.data_ready + 1 }) out more pre rest status aux
        cont goes.1 last in
    (
      left,
      omega (arith, trapped, tally-append traps done (kills s.child_pid sigtrap ∷ [])),
      omega (arith, resumed, tally-append resumes done (kills s.child_pid sigtrap ∷ [])),
      ready,
    )
wait_loop-breaks s out done (interrupted ∷ pre) rest status aux cont goes last =
    wait_loop-breaks s out done pre rest status aux cont goes.1 last
wait_loop-breaks s out done (wait_fails ∷ pre) rest status aux cont goes last = absurd goes.0
wait_loop-breaks s out done (waited st a c ∷ pre) rest status aux cont goes last =
    let (out', taken) = take_data_lem s a out in
    let more = done ++ continues s.child_pid ∷ [] in
    let (left, trapped, resumed, ready) =
      wait_loop-breaks (record s { data_ready = s.data_ready - 1 }) out' more pre rest status aux
        cont goes.1 last in
    rw (taken, wait_loop, goes.0.0, goes.0.1)
      (
        left,
        omega (arith, trapped, tally-append traps done (continues s.child_pid ∷ [])),
        omega (arith, resumed, tally-append resumes done (continues s.child_pid ∷ [])),
        ready,
      )

branches_between-whole : (n : ℕ) → branches_between (n * branch_size) ≡ n
unfolding branches_between
branches_between-whole n =
    let whole : (n * branch_size % branch_size == 0) ≡ true = ground arith in rw whole (omega arith)

-- Where no call of perf_parent fails, it returns PERF_SUCCESS as soon as the child has ended or has been
-- stopped by another signal than SIGTRAP, and gives out the second mapping. Where `aux_head`, as it is
-- after the loop, is at the end of the `n`-th branch, the count that it gives out is `n`.
pub perf_parent-success :
    (sys : System) (s : GblStatus) (out : Output) (fd buf aux : ℕ) (pre rest : List Event)
    (status : WaitStatus) (a : Aux) (cont : Bool) (n : ℕ)
    → sys.sigaction_ok ≡ true
    → sys.perf_open ≡ some fd
    → sys.map_buf ≡ some buf
    → sys.map_aux ≡ some aux
    → sys.events ≡ pre ++ waited status a cont ∷ rest
    → All GoesOn pre
    → is_last status ≡ true
    → sys.last.head ≡ n * branch_size
    → let p = perf_parent true sys s out in
      (p.ret ≡ perf_success) × (p.output.bts_start ≡ mapped aux) × (p.output.count ≡ n)
unfolding perf_parent map_and_wait after_loop analyze_bts
perf_parent-success sys s out fd buf aux pre rest status a cont n ok has_fd has_buf has_aux es goes
      last whole =
    let start = record s { perf_fd = some fd; mmap_buf = mapped buf; mmap_aux = mapped aux } in
    let done = opened fd ∷ maps (mapped buf) ∷ maps (mapped aux) ∷ [] in
    let (left, _, _, _) = wait_loop-breaks start out done pre rest status a cont goes last in
    let (_, _, same) = wait_loop-SameResources true start out done sys.events in
    let left' : (wait_loop true start out done sys.events).left ≡ breaks =
      ap (λ t. (wait_loop true start out done t).left) es ∙ left in
    rw (ok, perf_parent, map_and_wait, has_fd, has_buf, has_aux, after_loop, left')
      (refl, same, ap branches_between whole ∙ branches_between-whole n)
