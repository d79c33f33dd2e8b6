-- ===== src/Perf/Input.antt =====
-- perf/perf.c: what a call of perf_monitor_api leaves of its file with the input.
use fuzz_monitor.Base.{
  ℕ, ◌≡◌, refl, sym, ap, ◌∙◌, inl, inr, Bool, true, false, List, [], ◌∷◌, ◌++◌, none, some,
  if◌then◌else◌, Bool-cases, Option-cases, arith,
}
use fuzz_monitor.Perf.{
  GblStatus, Action, opened, closed, maps, unmaps, kills, continues, creates, unlinks, Output,
}
use fuzz_monitor.Perf.Parent.{
  Ret, perf_success, perf_failure, perf_blocked, perf_crash, perf_parent, perf_close,
}
use fuzz_monitor.Perf.Wait.{tally, tally-append}
use fuzz_monitor.Perf.Api.{
  Calls, Fork, fork_fails, is_child, is_parent, Child, ApiRet, parent_ret, child_failure,
  zero_in_child, execs, in_child, perf_child, unlink_after, perf_init, fork_and_monitor,
  perf_monitor_api, prepared, reach_fork,
}
use fuzz_monitor.Perf.Untouched.{
  touches, perf_close-untouched, perf_init-untouched, perf_parent-untouched,
}

-- Whether the file is there after the actions of a process, where no other process touches it.
abbrev pub input_after : Bool → List Action → Bool
input_after there [] = there
input_after there (creates ∷ actions) = input_after true actions
input_after there (unlinks ∷ actions) = input_after false actions
input_after there (other ∷ actions) = input_after there actions

-- A call has made the file.
abbrev pub makes : Calls → Bool
makes calls = elim calls.input [
  | none ↦ false
  | some fd ↦ (perf_init calls.type_file calls.type_read).0
]

-- What the result of a call says of the file, which was there before or not.
abbrev pub input_expected : Calls → Bool → ApiRet → Bool
input_expected calls there (parent_ret perf_success) = false
input_expected calls there (parent_ret perf_failure) = if makes calls then false else there
input_expected calls there (parent_ret perf_blocked) = true
input_expected calls there (parent_ret perf_crash) = true
input_expected calls there child_failure = true
input_expected calls there zero_in_child = true
input_expected calls there execs = true

input_after-append :
    (there : Bool) (xs ys : List Action)
    → input_after there (xs ++ ys) ≡ input_after (input_after there xs) ys
input_after-append there [] ys = refl
input_after-append there (creates ∷ xs) ys = input_after-append true xs ys
input_after-append there (unlinks ∷ xs) ys = input_after-append false xs ys
input_after-append there (opened fd ∷ xs) ys = input_after-append there xs ys
input_after-append there (closed fd ∷ xs) ys = input_after-append there xs ys
input_after-append there (maps m ∷ xs) ys = input_after-append there xs ys
input_after-append there (unmaps m ∷ xs) ys = input_after-append there xs ys
input_after-append there (kills pid signal ∷ xs) ys = input_after-append there xs ys
input_after-append there (continues pid ∷ xs) ys = input_after-append there xs ys

untouched :
    (there : Bool) (actions : List Action)
    → tally touches actions ≡ 0
    → input_after there actions ≡ there
untouched there [] h = refl
untouched there (creates ∷ xs) h = absurd (omega arith)
untouched there (unlinks ∷ xs) h = absurd (omega arith)
untouched there (opened fd ∷ xs) h = untouched there xs (omega arith)
untouched there (closed fd ∷ xs) h = untouched there xs (omega arith)
untouched there (maps m ∷ xs) h = untouched there xs (omega arith)
untouched there (unmaps m ∷ xs) h = untouched there xs (omega arith)
untouched there (kills pid signal ∷ xs) h = untouched there xs (omega arith)
untouched there (continues pid ∷ xs) h = untouched there xs (omega arith)

-- The actions before the file is opened.
abbrev front : Calls → GblStatus → List Action
front calls s = (perf_close s).1 ++ (perf_init calls.type_file calls.type_read).1

front-untouched : (calls : Calls) (s : GblStatus) → tally touches (front calls s) ≡ 0
front-untouched calls s = omega (
  arith,
  tally-append touches (perf_close s).1 (perf_init calls.type_file calls.type_read).1,
  perf_close-untouched s,
  perf_init-untouched calls.type_file calls.type_read,
)

unlink_after_lem :
    (calls : Calls) (there : Bool) (r : Ret)
    → makes calls ≡ true
    → input_after true (unlink_after r) ≡ input_expected calls there (parent_ret r)
unfolding unlink_after
unlink_after_lem calls there perf_success h = refl
unlink_after_lem calls there perf_failure h = rw h refl
unlink_after_lem calls there perf_blocked h = refl
unlink_after_lem calls there perf_crash h = refl

in_child_lem :
    (calls : Calls) (there : Bool) (c : Child) → input_expected calls there (in_child c) ≡ true
unfolding in_child
in_child_lem calls there c = elim (Option-cases c.input) [
  | inl missing ↦ rw (missing, in_child) refl
  | inr (fd, has) ↦ elim (Bool-cases (perf_child c)) [
    | inl runs ↦ rw (has, in_child, runs) refl
    | inr fails ↦ rw (has, in_child, fails) refl
  ]
]

fork_and_monitor_lem :
    (fork : Fork) (calls : Calls) (there : Bool) (s : GblStatus) (out : Output) (fd : ℕ)
    (done : List Action)
    → makes calls ≡ true
    → input_after there done ≡ true
    → let api = fork_and_monitor fork calls.system calls.child s out fd done in
      input_after there api.actions ≡ input_expected calls there api.ret
unfolding fork_and_monitor
fork_and_monitor_lem fork_fails calls there s out fd done made is =
    input_after-append there done (unlinks ∷ []) ∙ rw made refl
fork_and_monitor_lem is_child calls there s out fd done made is =
    is ∙ sym (in_child_lem calls there calls.child)
fork_and_monitor_lem (is_parent pid) calls there s out fd done made is =
    let p = perf_parent true calls.system (record s { child_pid = some pid }) out in
    let kept : input_after there ((done ++ closed fd ∷ []) ++ p.actions) ≡ true =
      input_after-append there (done ++ closed fd ∷ []) p.actions
      ∙ untouched (input_after there (done ++ closed fd ∷ [])) p.actions
          (perf_parent-untouched calls.system (record s { child_pid = some pid }) out)
      ∙ input_after-append there done (closed fd ∷ [])
      ∙ is in
    input_after-append there ((done ++ closed fd ∷ []) ++ p.actions) (unlink_after p.ret)
    ∙ ap (λ b. input_after b (unlink_after p.ret)) kept
    ∙ unlink_after_lem calls there p.ret made

-- By what its own process does to the file with the input: after perf_monitor_api has returned in the
-- process that called it, the file is not there, on every path on which it had been made; a call that
-- fails before that leaves the file as it was; and while the parent waits in perf_parent, the file is
-- there. The child removes it on none of its paths.
pub perf_monitor_api-input_after :
    (calls : Calls) (s : GblStatus) (out : Output) (there : Bool)
    → let api = perf_monitor_api calls s out in
      input_after there api.actions ≡ input_expected calls there api.ret
unfolding perf_monitor_api
perf_monitor_api-input_after calls s out there =
    let begun = untouched there (front calls s) (front-untouched calls s) in
    elim (Bool-cases (perf_init calls.type_file calls.type_read).0) [
      | inr unsupported ↦ elim (Option-cases calls.input) [
        | inl no_file ↦ rw (unsupported, perf_monitor_api, no_file) begun
        | inr (fd, file) ↦
            let kept : (if (perf_init calls.type_file calls.type_read).0 then false else there)
                ≡ there =
              rw unsupported refl in
            rw (unsupported, perf_monitor_api, file) (begun ∙ sym kept)
      ]
      | inl supported ↦ elim (Option-cases calls.input) [
        | inl no_file ↦ rw (supported, perf_monitor_api, no_file) begun
        | inr (fd, file) ↦
            let made : makes calls ≡ true = rw (file, makes) supported in
            elim (Bool-cases calls.write_ok) [
              | inr no_write ↦
                  let failing : (if (perf_init calls.type_file calls.type_read).0
                        then false
                        else there)
                      ≡ false =
                    rw supported refl in
                  rw (supported, perf_monitor_api, file, no_write)
                    (input_after-append there (front calls s)
                        (opened fd ∷ creates ∷ closed fd ∷ unlinks ∷ [])
                      ∙ sym failing)
              | inl written ↦
                  let reach = reach_fork calls s out fd supported file written in
                  rw reach (
                    fork_and_monitor_lem calls.fork calls there (perf_close s).0 out fd
                      (prepared calls s fd) made
                      (input_after-append there (front calls s)
                        (opened fd ∷ creates ∷ closed fd ∷ [])))
            ]
      ]
    ]
