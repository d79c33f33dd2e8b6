-- ===== src/Preload.antt =====
-- preloads/preload.c: the library that is loaded into the fuzzer. It notes the descriptor of the file that
-- the fuzzer writes its inputs to, and passes one write in 101 of it on.
pub mod Writes
pub mod Start
pub mod Examples
use fuzz_monitor.Base.{
  ℕ, zero, suc, ◌+◌, ◌%◌, ◌^◌, Bool, true, false, List, [], ◌∷◌, ◌++◌, Option, none, some, ltb,
  ◌==◌, if◌then◌else◌,
}
use fuzz_monitor.Text.{Text, contains}

abbrev pub skip_n : ℕ
skip_n = 100

-- The static variables, and what `sender` has been given. `none` is a descriptor of -1.
pub record Preload : Type 0 where
  pub fuzzer_out_fd : Option ℕ
  pub counter : ℕ
  pub sent : List Text

unfoldable pub preload_start : Preload
preload_start = record { fuzzer_out_fd = some 0; counter = 0; sent = [] }

-- `open` and `open64`, which the macro makes alike: `ret` is the result of the real function.
-- `path_needle` is chosen when the library is built.
unfoldable pub open_file : Text → Preload → Text → Option ℕ → Preload × Option ℕ
open_file path_needle s path ret =
    (if contains path path_needle then record s { fuzzer_out_fd = ret } else s, ret)

-- `fd == fuzzer_out_fd`
unfoldable pub same_fd : Option ℕ → Option ℕ → Bool
same_fd none none = true
same_fd none (some out) = false
same_fd (some fd) none = false
same_fd (some fd) (some out) = fd == out

-- What `write` does before it calls the real function.
unfoldable pub write_file : Preload → Option ℕ → Text → Preload
write_file s fd buf =
    let counter' = (s.counter + 1) % 2 ^ 64 in
    if same_fd fd s.fuzzer_out_fd
    then (if ltb skip_n counter'
        then record s { counter = 0; sent = s.sent ++ buf ∷ [] }
        else record s { counter = counter' })
    else s

pub data Call : Type 0 where
  opens : Text → Option ℕ → Call
  writes : Option ℕ → Text → Call

-- The calls of the fuzzer, in order.
unfoldable pub run_calls : Text → Preload → List Call → Preload
run_calls path_needle s [] = s
run_calls path_needle s (opens path ret ∷ calls) =
    run_calls path_needle (open_file path_needle s path ret).0 calls
run_calls path_needle s (writes fd buf ∷ calls) = run_calls path_needle (write_file s fd buf) calls
