-- ===== src/Perf/Reader.antt =====
-- src/myperf.rs: trace2 of the Rust front end, which reads what the tool of perf/main.c prints for its machine
-- mode. The bytes are ASCII, so from_utf8_lossy changes nothing; `none` is a panic.
pub mod RoundTrip
pub mod Examples
use fuzz_monitor.Base.{
  ℕ, ◌+◌, ◌^◌, ◌≤◌, ◌<◌, ◌≡◌, refl, sym, ap, ◌∙◌, inl, inr, Bool, true, false, ◌&&◌, List, [], ◌∷◌,
  ◌++◌, map, All, Option, none, some, take, take-length, leb, ltb, ◌==◌, if◌then◌else◌, length,
  Bool-cases, arith,
}
use fuzz_monitor.Text.{Text, codes, decimal, is_digit, read_digits, starts_with, text_eq}
use fuzz_monitor.Text.Decimal.{IsDigits, decimal-IsDigits, read_digits-decimal, decimal_cons}
use fuzz_monitor.Log.{machine, log_log, log_at}
use fuzz_monitor.Perf.{BtsBranch, GblStatus, Aux}
use fuzz_monitor.Perf.Tool.{is_kernel, branch_message, print_branches}

-- `str::lines`: a line ends with a newline, before which a carriage return is left out.
unfoldable pub without_cr : Text → Text
without_cr [] = []
without_cr (c ∷ []) = if c == 13 then [] else c ∷ []
without_cr (c ∷ d ∷ line) = c ∷ without_cr (d ∷ line)

-- `line` is the part of the line that has been read.
unfoldable pub lines : Text → Text → List Text
lines [] [] = []
lines (c ∷ line) [] = (c ∷ line) ∷ []
lines line (c ∷ text) =
    let fresh = lines [] text in
    let longer = lines (line ++ c ∷ []) text in if c == 10 then without_cr line ∷ fresh else longer

-- `str::split` at commas.
unfoldable pub split : Text → Text → List Text
split piece [] = piece ∷ []
split piece (c ∷ text) =
    let fresh = split [] text in
    let longer = split (piece ++ c ∷ []) text in if c == b',' then piece ∷ fresh else longer

unfoldable pub all_digits : Text → Bool
all_digits [] = true
all_digits (c ∷ cs) = is_digit c && all_digits cs

unfoldable pub parse_digits : Text → Option ℕ
parse_digits [] = none
parse_digits (c ∷ cs) =
    if all_digits (c ∷ cs) && ltb (read_digits 0 (c ∷ cs)) (2 ^ 64)
    then some (read_digits 0 (c ∷ cs))
    else none

-- `u64::from_str_radix(text, 10)`, which takes a plus sign.
unfoldable pub from_str_radix : Text → Option ℕ
from_str_radix [] = none
from_str_radix (c ∷ cs) = if c == b'+' then parse_digits cs else parse_digits (c ∷ cs)

-- A line that begins with `branch`.
unfoldable pub read_branch : List Text → Option BtsBranch
read_branch [] = none
read_branch (word ∷ []) = none
read_branch (word ∷ fst ∷ []) = none
read_branch (word ∷ fst ∷ snd ∷ more) = elim (from_str_radix fst) [
  | none ↦ none
  | some from ↦ elim (from_str_radix snd) [
    | none ↦ none
    | some to ↦ some (record { from = from; to = to; misc = 0 })
  ]
]

unfoldable pub read_lines : List Text → Option (List BtsBranch)
read_lines [] = some []
read_lines (line ∷ rest) =
    if starts_with line (codes "branch")
    then elim (read_branch (split [] line)) [
      | none ↦ none
      | some branch ↦ elim (read_lines rest) [
        | none ↦ none
        | some branches ↦ some (branch ∷ branches)
      ]
    ]
    else read_lines rest

-- The branches of an output.
unfoldable pub read_output : Text → Option (List BtsBranch)
read_output text = read_lines (lines [] text)
