-- ===== src/Log.antt =====
-- perf/log.h and perf/log.c: which messages are written, and how. The level of the process is an argument.
use fuzz_monitor.Base.{
  ℕ, Bool, true, false, [], ◌∷◌, ◌++◌, Option, none, some, take, leb, ◌==◌, if◌then◌else◌,
}
use fuzz_monitor.Text.{Text, codes, decimal}

-- `enum llevel_t`
pub data LLevel : Type 0 where
  machine fatal error warning info debug : LLevel

unfoldable pub level : LLevel → ℕ
level machine = 0
level fatal = 1
level error = 2
level warning = 3
level info = 4
level debug = 5

-- The test of the macros LOG_M, LOG_F, LOG_E, LOG_W, LOG_I and LOG_D.
unfoldable pub is_logged : LLevel → LLevel → Bool
unfolding level
is_logged log_level machine = level log_level == level machine
is_logged log_level ll = leb (level ll) (level log_level)

-- The table `log_levels`: `descr` and `print_funcline`.
unfoldable pub descr : LLevel → Option Text
descr machine = none
descr fatal = some (codes "F")
descr error = some (codes "E")
descr warning = some (codes "W")
descr info = some (codes "I")
descr debug = some (codes "D")

unfoldable pub print_funcline : LLevel → Bool
print_funcline machine = false
print_funcline fatal = true
print_funcline error = true
print_funcline warning = true
print_funcline info = false
print_funcline debug = true

unfoldable pub descr_part : Option Text → Text
descr_part none = []
descr_part (some text) = codes "[" ++ (text ++ codes "] ")

-- The text of `errno`, cut off to its buffer.
unfoldable pub error_part : Option Text → Text
error_part none = []
error_part (some strerr) = codes ": " ++ take 511 strerr

-- What is written for a message; `perr` is the text of `errno` where it is asked for.
unfoldable pub log_log : LLevel → Text → ℕ → Option Text → Text → Text
unfolding descr print_funcline descr_part error_part
log_log ll fn ln perr message =
    descr_part (descr ll)
    ++ ((if print_funcline ll then fn ++ (codes "():" ++ (decimal ln ++ codes " ")) else [])
        ++ (message ++ (error_part perr ++ 10 ∷ [])))

-- A macro at a place of the code.
unfoldable pub log_at : LLevel → LLevel → Text → ℕ → Option Text → Text → Text
unfolding is_logged log_log
log_at log_level ll fn ln perr message =
    if is_logged log_level ll then log_log ll fn ln perr message else []
