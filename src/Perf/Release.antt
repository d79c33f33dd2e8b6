-- ===== src/Perf/Release.antt =====
-- perf_parent and perf_close of perf/perf.c: what is acquired and what is released.
use fuzz_monitor.Base.{
  ℕ, ◌+◌, ◌≡◌, refl, sym, ap, ap₂, subst, ◌∙◌, inl, inr, Bool, true, List, [], ◌∷◌, ◌++◌, none,
  some, ◌==◌, if◌then◌else◌, Bool-cases, Option-cases, arith,
}
use fuzz_monitor.Perf.{
  GblStatus, mapped, null, Action, opened, closed, maps, unmaps, Aux, Output, analyze_bts, Left,
  breaks, bails, returns, blocked, crashes, Waiting, wait_loop,
}
use fuzz_monitor.Perf.Parent.{
  System, perf_success, perf_failure, Parent, after_loop, map_and_wait, perf_parent, close_mapping,
  close_fd, perf_close,
}
use fuzz_monitor.Perf.Wait.{
  tally, tally-append, IsOfResources, SameResources, wait_loop-SameResources, wait_loop-tally,
}

abbrev pub opens : ℕ → Action → ℕ
opens n (opened fd) = if fd == n then 1 else 0
opens n other = 0

abbrev pub closes : ℕ → Action → ℕ
closes n (closed fd) = if fd == n then 1 else 0
closes n other = 0

abbrev pub mappings : ℕ → Action → ℕ
mappings n (maps (mapped a)) = if a == n then 1 else 0
mappings n other = 0

abbrev pub unmappings : ℕ → Action → ℕ
unmappings n (unmaps (mapped a)) = if a == n then 1 else 0
unmappings n other = 0

-- Everything that is acquired is released, once.
abbrev pub IsBalanced : List Action → Type 0
IsBalanced actions =
    (n : ℕ)
    → (tally (closes n) actions ≡ tally (opens n) actions)
      × (tally (unmappings n) actions ≡ tally (mappings n) actions)

-- Nothing is held.
abbrev pub IsIdle : GblStatus → Type 0
IsIdle s = (s.perf_fd ≡ none) × (s.mmap_buf ≡ null) × (s.mmap_aux ≡ null)

opens-IsOfResources : (n : ℕ) → IsOfResources (opens n)
opens-IsOfResources n = record { kills_none = λ pid signal. refl; continues_none = λ pid. refl }

closes-IsOfResources : (n : ℕ) → IsOfResources (closes n)
closes-IsOfResources n = record { kills_none = λ pid signal. refl; continues_none = λ pid. refl }

mappings-IsOfResources : (n : ℕ) → IsOfResources (mappings n)
mappings-IsOfResources n = record { kills_none = λ pid signal. refl; continues_none = λ pid. refl }

unmappings-IsOfResources : (n : ℕ) → IsOfResources (unmappings n)
unmappings-IsOfResources n = record {
  kills_none = λ pid signal. refl;
  continues_none = λ pid. refl;
}

-- A successful end adds no action to those of the loop.
after_loop-success :
    (given : Bool) (last : Aux) (w : Waiting) (l : Left)
    → w.left ≡ l
    → (after_loop given last w).ret ≡ perf_success
    → ((after_loop given last w).actions ≡ w.actions)
      × ((after_loop given last w).status ≡ w.status)
unfolding after_loop
after_loop-success given last w breaks e success =
    elim (Option-cases (analyze_bts given w.status last w.output)) [
      | inl bad ↦ rw (e, after_loop, bad) (refl, refl)
      | inr (out, good) ↦ rw (e, after_loop, good) (refl, refl)
    ]
after_loop-success given last w bails e success = absurd (cc (rw (e) at success))
after_loop-success given last w returns e success = rw (e, after_loop) (refl, refl)
after_loop-success given last w blocked e success = rw (e, after_loop) (refl, refl)
after_loop-success given last w crashes e success = rw (e, after_loop) (refl, refl)

module _ (given : Bool) (sys : System) (s : GblStatus) (out : Output) (fd buf aux : ℕ) where
  abbrev start : GblStatus
  start = record s { perf_fd = some fd; mmap_buf = mapped buf; mmap_aux = mapped aux }

  abbrev waited_on : Waiting
  waited_on =
      wait_loop given start out (opened fd ∷ maps (mapped buf) ∷ maps (mapped aux) ∷ []) sys.events

  close_lem :
      (t : GblStatus)
      → SameResources start t
      → (perf_close t).1 ≡ unmaps (mapped aux) ∷ unmaps (mapped buf) ∷ closed fd ∷ []
  unfolding perf_close close_mapping close_fd
  close_lem t (f, b, a) = rw (f, b, a) refl

  loop_lem :
      (f : Action → ℕ)
      → IsOfResources f
      → tally f (waited_on.actions ++ (perf_close waited_on.status).1)
        ≡ f (opened fd)
          + f (maps (mapped buf))
          + f (maps (mapped aux))
          + (f (unmaps (mapped aux)) + f (unmaps (mapped buf)) + f (closed fd))
  loop_lem f r = omega (
    arith,
    tally-append f waited_on.actions (perf_close waited_on.status).1,
    wait_loop-tally f given start out (opened fd ∷ maps (mapped buf) ∷ maps (mapped aux) ∷ [])
        sys.events r,
    ap (tally f) (
        close_lem waited_on.status (
          wait_loop-SameResources given start out
            (opened fd ∷ maps (mapped buf) ∷ maps (mapped aux) ∷ []) sys.events)),
  )

  loop-IsBalanced : IsBalanced (waited_on.actions ++ (perf_close waited_on.status).1)
  loop-IsBalanced n = (
    omega (
      arith,
      loop_lem (closes n) (closes-IsOfResources n),
      loop_lem (opens n) (opens-IsOfResources n),
    ),
    omega (
      arith,
      loop_lem (unmappings n) (unmappings-IsOfResources n),
      loop_lem (mappings n) (mappings-IsOfResources n),
    ),
  )

-- A run of perf_parent that returns PERF_SUCCESS keeps one descriptor and two mappings, and perf_close
-- after it releases each of them, so that all that the two have acquired is released once.
pub perf_parent-IsBalanced :
    (given : Bool) (sys : System) (s : GblStatus) (out : Output)
    → (perf_parent given sys s out).ret ≡ perf_success
    → IsBalanced (
        (perf_parent given sys s out).actions
        ++ (perf_close (perf_parent given sys s out).status).1)
unfolding perf_parent map_and_wait
perf_parent-IsBalanced given sys s out success = elim (Bool-cases sys.sigaction_ok) [
  | inr bad ↦ absurd (cc (rw bad at success))
  | inl good ↦ elim (Option-cases sys.perf_open) [
    | inl no_fd ↦ absurd (cc (rw (good, no_fd) at success))
    | inr (fd, has_fd) ↦ elim (Option-cases sys.map_buf) [
      | inl no_buf ↦ absurd (cc (rw (good, has_fd, no_buf) at success))
      | inr (buf, has_buf) ↦ elim (Option-cases sys.map_aux) [
        | inl no_aux ↦ absurd (cc (rw (good, has_fd, has_buf, no_aux) at success))
        | inr (aux, has_aux) ↦
            let w = waited_on given sys s out fd buf aux in
            let reach : perf_parent given sys s out ≡ after_loop given sys.last w =
              rw (good, has_fd, has_buf, has_aux) refl in
            let (acts, status) =
              after_loop-success given sys.last w w.left refl
                (ap (λ (p : Parent). p.ret) (sym reach) ∙ success) in
            subst IsBalanced
              (ap₂ (λ xs t. xs ++ (perf_close t).1)
                (sym (ap (λ (p : Parent). p.actions) reach ∙ acts))
                (sym (ap (λ (p : Parent). p.status) reach ∙ status)))
              (loop-IsBalanced given sys s out fd buf aux)
      ]
    ]
  ]
]

-- Where the second mmap fails, perf_parent unmaps the first mapping and closes the descriptor and leaves
-- both in gbl_status, so the perf_close of the next run releases them a second time.
pub perf_parent-releases_twice :
    (given : Bool) (sys : System) (s : GblStatus) (out : Output) (fd buf : ℕ)
    → sys.sigaction_ok ≡ true
    → sys.perf_open ≡ some fd
    → sys.map_buf ≡ some buf
    → sys.map_aux ≡ none
    → let p = perf_parent given sys s out in
      let actions = p.actions ++ (perf_close p.status).1 in
      (p.ret ≡ perf_failure)
      × (tally (mappings buf) actions ≡ 1)
      × (tally (unmappings buf) actions ≡ 2)
      × (tally (opens fd) actions ≡ 1)
      × (tally (closes fd) actions ≡ 2)
unfolding perf_parent map_and_wait perf_close close_mapping close_fd
perf_parent-releases_twice given sys s out fd buf ok has_fd has_buf no_aux =
    rw (ok, has_fd, has_buf, no_aux) (refl, ground arith, ground arith, ground arith, ground arith)
