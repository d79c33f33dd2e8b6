-- ===== src/Perf/Untouched.antt =====
-- perf/perf.c: what perf_init, perf_parent and perf_close do, they do to other things than the file with the input.
use fuzz_monitor.Base.{
  ℕ, ◌≡◌, refl, inl, inr, Bool, true, false, [], ◌∷◌, ◌++◌, Option, none, some, Bool-cases,
  Option-cases, arith,
}
use fuzz_monitor.Perf.{
  GblStatus, Mapping, null, map_failed, mapped, Action, opened, maps, unmaps, kills, creates,
  unlinks, Aux, Output, analyze_bts, Left, breaks, bails, returns, blocked, crashes, Waiting,
  wait_loop,
}
use fuzz_monitor.Perf.Parent.{
  System, close_fd, close_mapping, after_loop, map_and_wait, perf_parent, perf_close,
}
use fuzz_monitor.Perf.Wait.{tally, tally-append, IsOfResources, wait_loop-tally}
use fuzz_monitor.Perf.Api.{perf_init}

abbrev pub touches : Action → ℕ
touches creates = 1
touches unlinks = 1
touches other = 0

touches-IsOfResources : IsOfResources touches
touches-IsOfResources = record { kills_none = λ pid signal. refl; continues_none = λ pid. refl }

close_fd-untouched : (fd : Option ℕ) → tally touches (close_fd fd) ≡ 0
unfolding close_fd
close_fd-untouched none = refl
close_fd-untouched (some fd) = omega arith

close_mapping-untouched : (m : Mapping) → tally touches (close_mapping m) ≡ 0
unfolding close_mapping
close_mapping-untouched null = refl
close_mapping-untouched map_failed = omega arith
close_mapping-untouched (mapped n) = omega arith

pub perf_close-untouched : (s : GblStatus) → tally touches (perf_close s).1 ≡ 0
unfolding perf_close
perf_close-untouched s = omega (
  arith,
  tally-append touches (close_mapping s.mmap_aux) (close_mapping s.mmap_buf),
  tally-append touches (close_mapping s.mmap_aux ++ close_mapping s.mmap_buf) (close_fd s.perf_fd),
  close_mapping-untouched s.mmap_aux,
  close_mapping-untouched s.mmap_buf,
  close_fd-untouched s.perf_fd,
)

pub perf_init-untouched :
    (type_file : Option ℕ) (type_read : Bool) → tally touches (perf_init type_file type_read).1 ≡ 0
unfolding perf_init
perf_init-untouched none type_read = refl
perf_init-untouched (some fd) false = omega arith
perf_init-untouched (some fd) true = omega arith

after_loop-untouched :
    (last : Aux) (w : Waiting) (left : Left)
    → w.left ≡ left
    → tally touches w.actions ≡ 0
    → tally touches (after_loop true last w).actions ≡ 0
unfolding after_loop analyze_bts
after_loop-untouched last w breaks e h = rw (e, after_loop) h
after_loop-untouched last w returns e h = rw (e, after_loop) h
after_loop-untouched last w blocked e h = rw (e, after_loop) h
after_loop-untouched last w crashes e h = rw (e, after_loop) h
after_loop-untouched last w bails e h =
    let released =
      unmaps w.status.mmap_aux ∷ unmaps w.status.mmap_buf ∷ close_fd w.status.perf_fd in
    rw (e, after_loop)
      (omega (
        arith,
        h,
        close_fd-untouched w.status.perf_fd,
        tally-append touches w.actions released,
        tally-append touches (w.actions ++ released) (kills w.status.child_pid 9 ∷ []),
      ))

map_and_wait-untouched :
    (sys : System) (s : GblStatus) (fd : ℕ) (out : Output)
    → tally touches (map_and_wait true sys s fd out).actions ≡ 0
unfolding map_and_wait
map_and_wait-untouched sys s fd out = elim (Option-cases sys.map_buf) [
  | inl no_buf ↦ rw (no_buf, map_and_wait) (omega arith)
  | inr (buf, has_buf) ↦ elim (Option-cases sys.map_aux) [
    | inl no_aux ↦ rw (has_buf, map_and_wait, no_aux) (omega arith)
    | inr (aux, has_aux) ↦
        let start = record s { mmap_buf = mapped buf; mmap_aux = mapped aux } in
        let done = opened fd ∷ maps (mapped buf) ∷ maps (mapped aux) ∷ [] in
        let w = wait_loop true start out done sys.events in
        rw (has_buf, map_and_wait, has_aux)
          (after_loop-untouched sys.last w w.left refl
            (wait_loop-tally touches true start out done sys.events touches-IsOfResources))
  ]
]

pub perf_parent-untouched :
    (sys : System) (s : GblStatus) (out : Output)
    → tally touches (perf_parent true sys s out).actions ≡ 0
unfolding perf_parent
perf_parent-untouched sys s out = elim (Bool-cases sys.sigaction_ok) [
  | inr refused ↦ rw (refused, perf_parent) refl
  | inl ok ↦ elim (Option-cases sys.perf_open) [
    | inl no_fd ↦ rw (ok, perf_parent, no_fd) (omega arith)
    | inr (fd, has_fd) ↦
        rw (ok, perf_parent, has_fd)
          (map_and_wait-untouched sys (record s { perf_fd = some fd }) fd out)
  ]
]
