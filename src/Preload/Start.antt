-- ===== src/Preload/Start.antt =====
-- preloads/preload.c: the constructor and the destructor of the library, with its log.
use fuzz_monitor.Base.{
  ℕ, ◌+◌, ◌-◌, ◌/◌, ◌<◌, ◌≤◌, ◌≡◌, refl, Bool, List, [], ◌∷◌, ◌++◌, leb, ◌==◌, if◌then◌else◌, arith,
}
use fuzz_monitor.Text.{Text, codes, decimal}

-- `round(tv_nsec / 1.0e6)`, for the nanoseconds of a clock.
unfoldable pub get_time_ms : ℕ → ℕ
get_time_ms tv_nsec = (tv_nsec + 500000) / 1000000

-- `%ld`, for a difference.
unfoldable pub signed_difference : ℕ → ℕ → Text
signed_difference a b = if leb b a then decimal (a - b) else codes "-" ++ decimal (b - a)

-- The line that is written to the log; `start` is `start_time_ms`.
unfoldable pub log_action : ℕ → ℕ → Text → Text
unfolding get_time_ms signed_difference
log_action start tv_nsec str = signed_difference (get_time_ms tv_nsec) start ++ 9 ∷ str ++ 10 ∷ []

-- What the system answers to the constructor; `log_nsec` and `end_nsec` are the clock at its two lines.
pub record Setup : Type 0 where
  pub start_nsec : ℕ
  pub pid : ℕ
  pub log_ok : Bool
  pub log_nsec : ℕ
  pub socket_ok : Bool
  pub connect_ok : Bool
  pub end_nsec : ℕ

-- `unable` is the exit where there is no log, `fails` that with a log, and `runs` the return, after which
-- LD_PRELOAD is empty.
pub data Started : Type 0 where
  unable : Started
  fails : Text → Started
  runs : ℕ → ℕ → Text → Started

unfoldable pub before_main : Setup → Started
unfolding get_time_ms log_action
before_main s =
    let start = get_time_ms s.start_nsec in
    let opened = log_action start s.log_nsec (codes "open_log") in
    let line = log_action start s.end_nsec in
    if s.log_ok
    then (if s.socket_ok
        then (if s.connect_ok
            then runs s.pid start (opened ++ line (codes "open_zmq"))
            else fails (opened ++ line (codes "fail_connect")))
        else fails (opened ++ line (codes "fail_sender")))
    else unable

pub data Closing : Type 0 where
  socket context log_file : Closing

-- What the destructor closes in a process, and the log after it. A child of the fuzzer has another pid.
unfoldable pub after_main : ℕ → ℕ → ℕ → ℕ → Text → List Closing × Text
unfolding log_action
after_main pid own start tv_nsec log =
    if pid == own
    then (socket ∷ context ∷ log_file ∷ [], log ++ log_action start tv_nsec (codes "close_zmq"))
    else ([], log)

-- However long the system has run, a time is at most a second.
get_time_ms-le : (tv_nsec : ℕ) → tv_nsec < 1000000000 → get_time_ms tv_nsec ≤ 1000
unfolding get_time_ms
get_time_ms-le tv_nsec fits = omega arith

-- A second after the start the log says that no time has passed.
second_lem :
    log_action (get_time_ms 5000000) 5000000 (codes "x") ≡ codes "0" ++ 9 ∷ codes "x" ++ 10 ∷ []
unfolding log_action get_time_ms signed_difference decimal
second_lem = refl
