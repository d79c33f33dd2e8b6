-- ===== src/Preload/Examples.antt =====
-- Runs of preloads/preload.c.
use fuzz_monitor.Base.{
  ℕ, ◌+◌, ◌-◌, ◌*◌, ◌%◌, ◌≡◌, refl, List, [], ◌∷◌, ◌++◌, map, some, length, get_elem?, arith,
}
use fuzz_monitor.Text.{Text, contains, starts_with, codes}
use fuzz_monitor.Preload.{
  Preload, preload_start, skip_n, open_file, same_fd, write_file, Call, opens, writes, run_calls,
}
use fuzz_monitor.Preload.Writes.{run_calls-every_101st, run_calls-others}

abbrev needle : Text
needle = codes "cur_input"

-- Before anything is opened, standard input is taken for the fuzzer's file.
start_is_stdin : (write_file preload_start (some 0) (codes "a")).counter ≡ 1
unfolding preload_start write_file same_fd
start_is_stdin = refl

needle_inside :
    (open_file needle preload_start (codes "out/.cur_input") (some 7)).0.fuzzer_out_fd ≡ some 7
unfolding preload_start open_file contains starts_with
needle_inside = refl

abbrev busy : Preload
busy = record { fuzzer_out_fd = some 7; counter = 99; sent = [] }

abbrev bufs : List Text
bufs = codes "a" ∷ codes "b" ∷ codes "c" ∷ []

run_calls-every_101st_example :
    let s' = run_calls needle busy (map (writes (some 7)) bufs) in
    (new : List Text) × (s'.sent ≡ [] ++ new)
    × ((k : ℕ) → get_elem? new k ≡ get_elem? bufs (k * 101 + (skip_n - 99)))
    × (s'.counter ≡ (99 + length bufs) % 101)
run_calls-every_101st_example = run_calls-every_101st needle busy bufs (omega arith)

abbrev others : List Call
others = opens (codes "x") (some 8) ∷ writes (some 8) (codes "d") ∷ []

run_calls-others_example :
    run_calls needle busy (others ++ writes (some 7) (codes "e") ∷ [])
    ≡ run_calls needle busy (writes (some 7) (codes "e") ∷ [])
unfolding contains starts_with
run_calls-others_example =
    run_calls-others needle busy others (writes (some 7) (codes "e") ∷ [])
      (refl, (λ e. ground arith, ground arith))
