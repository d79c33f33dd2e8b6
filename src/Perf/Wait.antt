-- ===== src/Perf/Wait.antt =====
-- The loop of perf_parent of perf/perf.c: what it leaves alone, and how it comes to its end.
use fuzz_monitor.Base.{
  ℕ, ◌+◌, ◌-◌, ◌≡◌, refl, subst, ◌∙◌, inl, inr, Bool, List, [], ◌∷◌, ◌++◌, Option, some, ltb,
  Bool-cases, Option-cases, arith,
}
use fuzz_monitor.Perf.{
  GblStatus, Action, kills, continues, sigtrap, Aux, Output, analyze_bts, Event, sigio, interrupted,
  wait_fails, waited, is_last, perf_sig_handler, take_data, wait_loop,
}

-- The sum of a weight over the actions.
abbrev pub tally : (Action → ℕ) → List Action → ℕ
tally f [] = 0
tally f (a ∷ actions) = f a + tally f actions

pub tally-append :
    (f : Action → ℕ) (xs ys : List Action) → tally f (xs ++ ys) ≡ tally f xs + tally f ys
tally-append f [] ys = omega arith
tally-append f (a ∷ xs) ys = omega (arith, tally-append f xs ys)

-- A weight of descriptors or mappings only.
pub record IsOfResources (f : Action → ℕ) : Type 0 where
  pub kills_none : (pid : Option ℕ) (signal : ℕ) → f (kills pid signal) ≡ 0
  pub continues_none : (pid : Option ℕ) → f (continues pid) ≡ 0

-- The descriptor and the mappings are the same.
abbrev pub SameResources : GblStatus → GblStatus → Type 0
SameResources s s' =
    (s'.perf_fd ≡ s.perf_fd) × (s'.mmap_buf ≡ s.mmap_buf) × (s'.mmap_aux ≡ s.mmap_aux)

subst_resources : (s s' t : GblStatus) → t ≡ s' → SameResources s t → SameResources s s'
subst_resources s s' t e same = subst (SameResources s) e same

take_data-SameResources :
    (given : Bool) (s : GblStatus) (aux : Aux) (out : Output) (s' : GblStatus) (out' : Output)
    → take_data given s aux out ≡ some (s', out')
    → SameResources s s'
unfolding take_data
take_data-SameResources given s aux out s' out' e = elim (Bool-cases (ltb 0 s.data_ready)) [
  | inr none_ready ↦ subst_resources s s' s (cc (rw none_ready at e)) (refl, refl, refl)
  | inl ready ↦ elim (Option-cases (analyze_bts given s aux out)) [
    | inl bad ↦ absurd (cc (rw (ready, bad) at e))
    | inr (o, good) ↦
        subst_resources s s' (record s { data_ready = s.data_ready - 1 })
          (cc (rw (ready, good) at e)) (refl, refl, refl)
  ]
]

pub wait_loop-SameResources :
    (given : Bool) (s : GblStatus) (out : Output) (done : List Action) (events : List Event)
    → SameResources s (wait_loop given s out done events).status
unfolding wait_loop perf_sig_handler
wait_loop-SameResources given s out done [] = (refl, refl, refl)
wait_loop-SameResources given s out done (sigio ∷ events) =
    wait_loop-SameResources given (record s { data_ready = s.data_ready + 1 }) out
      (done ++ kills s.child_pid sigtrap ∷ []) events
wait_loop-SameResources given s out done (interrupted ∷ events) =
    wait_loop-SameResources given s out done events
wait_loop-SameResources given s out done (wait_fails ∷ events) = (refl, refl, refl)
wait_loop-SameResources given s out done (waited status aux cont ∷ events) =
    elim (Option-cases (take_data given s aux out)) [
      | inl bad ↦ rw (bad, wait_loop) (refl, refl, refl)
      | inr ((s', out'), good) ↦
          let (fd, buf, mm) = take_data-SameResources given s aux out s' out' good in
          let (fd', buf', mm') =
            wait_loop-SameResources given s' out' (done ++ continues s.child_pid ∷ []) events in
          elim (Bool-cases (is_last status)) [
            | inl last ↦ rw (good, wait_loop, last) (fd, buf, mm)
            | inr more ↦ elim (Bool-cases cont) [
              | inl on ↦ rw (good, wait_loop, more, on) (fd' ∙ fd, buf' ∙ buf, mm' ∙ mm)
              | inr off ↦ rw (good, wait_loop, more, off) (fd, buf, mm)
            ]
          ]
    ]

pub wait_loop-tally :
    (f : Action → ℕ) (given : Bool) (s : GblStatus) (out : Output) (done : List Action)
    (events : List Event)
    → IsOfResources f
    → tally f (wait_loop given s out done events).actions ≡ tally f done
unfolding wait_loop perf_sig_handler
wait_loop-tally f given s out done [] r = refl
wait_loop-tally f given s out done (sigio ∷ events) r = omega (
  arith,
  wait_loop-tally f given (record s { data_ready = s.data_ready + 1 }) out
      (done ++ kills s.child_pid sigtrap ∷ []) events r,
  tally-append f done (kills s.child_pid sigtrap ∷ []),
  r.kills_none s.child_pid sigtrap,
)
wait_loop-tally f given s out done (interrupted ∷ events) r =
    wait_loop-tally f given s out done events r
wait_loop-tally f given s out done (wait_fails ∷ events) r = refl
wait_loop-tally f given s out done (waited status aux cont ∷ events) r =
    elim (Option-cases (take_data given s aux out)) [
      | inl bad ↦ rw (bad, wait_loop, tally) refl
      | inr ((s', out'), good) ↦
          let rest =
            wait_loop-tally f given s' out' (done ++ continues s.child_pid ∷ []) events r in
          elim (Bool-cases (is_last status)) [
            | inl last ↦ rw (good, tally, wait_loop, last) refl
            | inr more ↦ elim (Bool-cases cont) [
              | inl on ↦
                  rw (good, tally, wait_loop, more, on)
                    (omega (
                      arith,
                      rest,
                      tally-append f done (continues s.child_pid ∷ []),
                      r.continues_none s.child_pid,
                    ))
              | inr off ↦ rw (good, tally, wait_loop, more, off) refl
            ]
          ]
    ]
