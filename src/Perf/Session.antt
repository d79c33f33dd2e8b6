-- ===== src/Perf/Session.antt =====
-- perf_monitor_api of perf/perf.c with the perf_close of the next run: every descriptor and mapping.
use fuzz_monitor.Base.{
  ℕ, ◌+◌, ◌≡◌, refl, sym, ap, ◌∙◌, inl, inr, Bool, true, false, List, [], ◌∷◌, ◌++◌, Option, none,
  some, ◌==◌, if◌then◌else◌, Bool-cases, arith,
}
use fuzz_monitor.Perf.{GblStatus, Action, opened, closed, creates, Output}
use fuzz_monitor.Perf.Parent.{
  perf_success, Parent, perf_parent, perf_close, close_mapping, close_fd,
}
use fuzz_monitor.Perf.Wait.{tally, tally-append}
use fuzz_monitor.Perf.Release.{opens, closes, IsIdle, perf_parent-IsBalanced}
use fuzz_monitor.Perf.Api.{
  Calls, is_parent, Api, parent_ret, perf_init, perf_monitor_api, fork_and_monitor, prepared,
  unlink_after, reach_fork,
}

-- A call that succeeds has come to the fork.
success-reaches :
    (calls : Calls) (s : GblStatus) (out : Output) (fd : ℕ)
    → calls.input ≡ some fd
    → (perf_monitor_api calls s out).ret ≡ parent_ret perf_success
    → perf_monitor_api calls s out
      ≡ fork_and_monitor calls.fork calls.system calls.child
          (perf_close s).0
          out
          fd
          (prepared calls s fd)
unfolding perf_monitor_api
success-reaches calls s out fd file success =
    elim (Bool-cases (perf_init calls.type_file calls.type_read).0) [
      | inr unsupported ↦ absurd (cc (rw (unsupported) at success))
      | inl supported ↦ elim (Bool-cases calls.write_ok) [
        | inr no_write ↦ absurd (cc (rw (supported, file, no_write) at success))
        | inl written ↦ reach_fork calls s out fd supported file written
      ]
    ]

perf_init-balance :
    (n : ℕ) (type_file : Option ℕ) (type_read : Bool)
    → tally (closes n) (perf_init type_file type_read).1
      ≡ tally (opens n) (perf_init type_file type_read).1
unfolding perf_init
perf_init-balance n none type_read = refl
perf_init-balance n (some fd) false = omega arith
perf_init-balance n (some fd) true = omega arith

close_idle : (s : GblStatus) → IsIdle s → (perf_close s).1 ≡ []
unfolding perf_close close_mapping close_fd
close_idle s (no_fd, no_buf, no_aux) = rw (no_fd, no_buf, no_aux) refl

module _ (calls : Calls) (s : GblStatus) (out : Output) (fd pid : ℕ) where
  abbrev monitored : Parent
  monitored = perf_parent true calls.system (record (perf_close s).0 { child_pid = some pid }) out

  abbrev tail_actions : List Action
  tail_actions = monitored.actions ++ (perf_close monitored.status).1

  tally-session :
      (f : Action → ℕ)
      → IsIdle s
      → tally f (
          (((prepared calls s fd ++ closed fd ∷ []) ++ monitored.actions)
            ++ unlink_after monitored.ret)
          ++ (perf_close monitored.status).1)
        ≡ tally f (perf_init calls.type_file calls.type_read).1
          + f (opened fd)
          + f creates
          + f (closed fd)
          + f (closed fd)
          + tally f (unlink_after monitored.ret)
          + tally f tail_actions
  tally-session f idle =
      let front = (perf_close s).1 ++ (perf_init calls.type_file calls.type_read).1 in
      omega (
        arith,
        ap (tally f) (close_idle s idle),
        tally-append f (perf_close s).1 (perf_init calls.type_file calls.type_read).1,
        tally-append f front (opened fd ∷ creates ∷ closed fd ∷ []),
        tally-append f (prepared calls s fd) (closed fd ∷ []),
        tally-append f (prepared calls s fd ++ closed fd ∷ []) monitored.actions,
        tally-append f ((prepared calls s fd ++ closed fd ∷ []) ++ monitored.actions)
            (unlink_after monitored.ret),
        tally-append f
            (((prepared calls s fd ++ closed fd ∷ []) ++ monitored.actions)
              ++ unlink_after monitored.ret)
            (perf_close monitored.status).1,
        tally-append f monitored.actions (perf_close monitored.status).1,
      )

-- Where perf_monitor_api succeeds in a process that holds nothing before it, the perf_close of the next
-- run leaves nothing open: every descriptor has been closed as often as opened, save that of the file
-- with the input, which has been closed once more, after the fork.
pub perf_monitor_api-closes_twice :
    (calls : Calls) (s : GblStatus) (out : Output) (fd pid : ℕ)
    → IsIdle s
    → calls.fork ≡ is_parent pid
    → calls.input ≡ some fd
    → (perf_monitor_api calls s out).ret ≡ parent_ret perf_success
    → (n : ℕ)
    → let api = perf_monitor_api calls s out in
      let actions = api.actions ++ (perf_close api.status).1 in
      tally (closes n) actions ≡ tally (opens n) actions + (if fd == n then 1 else 0)
unfolding fork_and_monitor unlink_after
perf_monitor_api-closes_twice calls s out fd pid idle forked file success n =
    let reach =
      success-reaches calls s out fd file success
      ∙ ap
          (λ f.
            fork_and_monitor f calls.system calls.child (perf_close s).0 out fd
              (prepared calls s fd))
          forked in
    let done : (monitored calls s out fd pid).ret ≡ perf_success =
      let both : parent_ret (monitored calls s out fd pid).ret ≡ parent_ret perf_success =
        ap (λ (a : Api). a.ret) (sym reach) ∙ success in
      cc both in
    let no_fds : tally (closes n) (unlink_after (monitored calls s out fd pid).ret) ≡ 0 =
      rw (done, unlink_after, tally) refl in
    let no_fds' : tally (opens n) (unlink_after (monitored calls s out fd pid).ret) ≡ 0 =
      rw (done, unlink_after, tally) refl in
    let (fds, _) =
      perf_parent-IsBalanced true calls.system (record (perf_close s).0 { child_pid = some pid })
        out done n in
    let sum = λ (f : Action → ℕ).
      ap (λ (a : Api). tally f (a.actions ++ (perf_close a.status).1)) reach
      ∙ tally-session calls s out fd pid f idle in
    omega (
      arith,
      sum (closes n),
      sum (opens n),
      fds,
      no_fds,
      no_fds',
      perf_init-balance n calls.type_file calls.type_read,
    )
