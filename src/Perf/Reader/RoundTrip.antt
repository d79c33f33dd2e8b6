-- ===== src/Perf/Reader/RoundTrip.antt =====
-- What perf/main.c prints of the branches, src/myperf.rs reads.
use mathlib.Core.List.{append_assoc, append-nil}
use fuzz_monitor.Base.{
  ℕ, ◌^◌, ◌≤◌, ◌<◌, ◌≡◌, refl, sym, subst, ap, ◌∙◌, inl, inr, Bool, true, false, ◌&&◌, List, [],
  ◌∷◌, ◌++◌, All, All-map, none, some, length, take-length, leb, ltb, ◌==◌, if◌then◌else◌,
  Bool-cases, arith,
}
use fuzz_monitor.Text.{Text, codes, decimal, read_digits, starts_with, text_eq}
use fuzz_monitor.Text.Decimal.{
  IsDigits, decimal-IsDigits, read_digits-decimal, decimal_cons, digit_lem, text_eq_iff,
}
use fuzz_monitor.Log.{machine, log_log, log_at}
use fuzz_monitor.Perf.{BtsBranch, GblStatus, Aux}
use fuzz_monitor.Perf.Api.{Calls, perf_monitor_api}
use fuzz_monitor.Perf.Traced.{IsTraced, no_output, perf_monitor_api-IsTraced}
use fuzz_monitor.Perf.Tool.{
  is_kernel, branch_message, print_branches, output_of, run_machine, succeeds, run_tool,
}
use fuzz_monitor.Perf.Reader.{
  without_cr, lines, split, all_digits, parse_digits, from_str_radix, read_branch, read_lines,
  read_output,
}

without_cr-none : (line : Text) → All (λ c. (c == 13) ≡ false) line → without_cr line ≡ line
unfolding without_cr
without_cr-none [] all = refl
without_cr-none (c ∷ []) all = rw all.0 refl
without_cr-none (c ∷ d ∷ line) all = ap (◌∷◌ c) (without_cr-none (d ∷ line) all.1)

lines-word :
    (word line rest : Text)
    → All (λ c. (c == 10) ≡ false) word
    → lines line (word ++ 10 ∷ rest) ≡ without_cr (line ++ word) ∷ lines [] rest
unfolding lines
lines-word [] [] rest all = refl
lines-word [] (d ∷ line) rest all = rw (append-nil line) refl
lines-word (c ∷ word) [] rest all = rw all.0 (lines-word word (c ∷ []) rest all.1)
lines-word (c ∷ word) (d ∷ line) rest all = rw all.0 (
    lines-word word (d ∷ line ++ c ∷ []) rest all.1
    ∙ ap (λ t. without_cr (d ∷ t) ∷ lines [] rest) (append_assoc line (c ∷ []) word))

split-word :
    (word piece rest : Text)
    → All (λ c. (c == b',') ≡ false) word
    → split piece (word ++ b',' ∷ rest) ≡ (piece ++ word) ∷ split [] rest
unfolding split
split-word [] piece rest all = rw (append-nil piece) refl
split-word (c ∷ word) piece rest all = rw all.0 (
    split-word word (piece ++ c ∷ []) rest all.1
    ∙ ap (λ t. t ∷ split [] rest) (append_assoc piece (c ∷ []) word))

split-last :
    (word piece : Text)
    → All (λ c. (c == b',') ≡ false) word
    → split piece word ≡ (piece ++ word) ∷ []
unfolding split
split-last [] piece all = rw (append-nil piece) refl
split-last (c ∷ word) piece all =
    rw all.0 (
      split-last word (piece ++ c ∷ []) all.1 ∙ ap (λ t. t ∷ []) (append_assoc piece (c ∷ []) word))

all_digits-IsDigits : (ds : Text) → IsDigits ds → all_digits ds ≡ true
unfolding all_digits
all_digits-IsDigits [] h = refl
all_digits-IsDigits (d ∷ ds) h = rw (digit_lem d h.0.0 h.0.1) (all_digits-IsDigits ds h.1)

-- A printed number is read back.
from_str_radix-decimal : (n : ℕ) → n < 2 ^ 64 → from_str_radix (decimal n) ≡ some n
unfolding from_str_radix parse_digits
from_str_radix-decimal n small =
    let (d, ds, e) = decimal_cons n in
    let digits : IsDigits (d ∷ ds) = subst IsDigits e (decimal-IsDigits n) in
    let value : read_digits 0 (d ∷ ds) ≡ n =
      ap (read_digits 0) (sym e) ∙ read_digits-decimal n small in
    let no_plus : (d == b'+') ≡ false = ground (arith, digits.0) in
    let fits : ltb n (2 ^ 64) ≡ true = ground arith in
    rw (e, no_plus, all_digits-IsDigits (d ∷ ds) digits, value, fits) refl

-- No digit is a separator that comes before the digits.
no_separator :
    (separator : ℕ) (ds : Text)
    → separator < b'0'
    → IsDigits ds
    → All (λ c. (c == separator) ≡ false) ds
no_separator separator ds low h =
    All-map (λ (c : ℕ) (digit : (b'0' ≤ c) × (c ≤ b'9')). ground (arith, digit.0)) ds h

-- Neither end of the branch is in the kernel.
abbrev pub is_user : BtsBranch → Bool
is_user b = leb b.from 0xffffffff00000000 && leb b.to 0xffffffff00000000

-- The branches that are not in the kernel, without what the line leaves out.
abbrev pub users : List BtsBranch → List BtsBranch
users [] = []
users (b ∷ branches) =
    let rest = users branches in
    if is_user b then record { from = b.from; to = b.to; misc = 0 } ∷ rest else rest

-- The addresses fit 64 bits.
abbrev pub Fits : List BtsBranch → Type 0
Fits = All (λ (b : BtsBranch). (b.from < 2 ^ 64) × (b.to < 2 ^ 64))

All-concat : (P : ℕ → Type 0) (xs ys : Text) → All P xs → All P ys → All P (xs ++ ys)
All-concat P [] ys left right = right
All-concat P (x ∷ xs) ys left right = (left.0, All-concat P xs ys left.1 right)

message_clear :
    (separator : ℕ) (b : BtsBranch)
    → separator < b','
    → All (λ c. (c == separator) ≡ false) (branch_message b)
unfolding branch_message
message_clear separator b low =
    let other : (c : ℕ) → b',' ≤ c → (c == separator) ≡ false = λ c h. ground arith in
    let digits = λ (n : ℕ). no_separator separator (decimal n) (omega arith) (decimal-IsDigits n) in
    All-concat (λ c. (c == separator) ≡ false) (codes "branch,")
      (decimal b.from ++ (codes "," ++ decimal b.to)) (ground arith)
      (All-concat (λ c. (c == separator) ≡ false) (decimal b.from) (codes "," ++ decimal b.to)
        (digits b.from) (other b',' (omega arith), digits b.to))

read_branch-message :
    (b : BtsBranch)
    → b.from < 2 ^ 64
    → b.to < 2 ^ 64
    → read_branch (split [] (branch_message b))
      ≡ some (record { from = b.from; to = b.to; misc = 0 })
unfolding branch_message read_branch
read_branch-message b small small' =
    let clear = λ (n : ℕ). no_separator b',' (decimal n) (omega arith) (decimal-IsDigits n) in
    rw
      (
        split-word (codes "branch") [] (decimal b.from ++ (b',' ∷ decimal b.to)) (ground arith),
        split-word (decimal b.from) [] (decimal b.to) (clear b.from),
        split-last (decimal b.to) [] (clear b.to),
        read_branch,
        from_str_radix-decimal b.from small,
        from_str_radix-decimal b.to small',
      )
      refl

begins : (b : BtsBranch) → starts_with (branch_message b) (codes "branch") ≡ true
unfolding branch_message starts_with
begins b = refl

nothing_read : read_output [] ≡ some []
unfolding read_output read_lines lines
nothing_read = refl

read_output-branch :
    (b : BtsBranch) (rest : Text)
    → b.from < 2 ^ 64
    → b.to < 2 ^ 64
    → (branches : List BtsBranch) → read_output rest ≡ some branches
    → read_output (log_at machine machine (codes "main") 50 none (branch_message b) ++ rest)
      ≡ some (record { from = b.from; to = b.to; misc = 0 } ∷ branches)
unfolding log_at log_log read_output read_lines
read_output-branch b rest small small' branches e =
    let m = branch_message b in
    let whole : m ++ 10 ∷ [] ++ rest ≡ m ++ 10 ∷ rest = append_assoc m (10 ∷ []) rest in
    let line : lines [] (m ++ 10 ∷ [] ++ rest) ≡ m ∷ lines [] rest =
      ap (lines []) whole
      ∙ lines-word m [] rest (message_clear 10 b (omega arith))
      ∙ ap (λ t. t ∷ lines [] rest) (without_cr-none m (message_clear 13 b (omega arith))) in
    rw (line, begins b, read_lines, read_branch-message b small small', e) refl

read_output-print_branches :
    (branches : List BtsBranch)
    → Fits branches
    → read_output (print_branches branches) ≡ some (users branches)
unfolding print_branches is_kernel
read_output-print_branches [] fits = nothing_read
read_output-print_branches (b ∷ branches) fits =
    let rest = read_output-print_branches branches fits.1 in
    elim (Bool-cases (is_kernel b)) [
      | inl kernel ↦
          let skipped : is_user b ≡ false = ground arith in
          rw (kernel, print_branches, skipped) rest
      | inr user ↦
          let kept : is_user b ≡ true = ground arith in
          rw (user, print_branches, kept)
            (read_output-branch b (print_branches branches) fits.0.0 fits.0.1 (users branches) rest)
    ]

output_lem :
    (last : Aux) (branches : List BtsBranch) (count : ℕ)
    → last.branches ≡ branches
    → count ≡ length branches
    → output_of last count ≡ some (print_branches branches)
unfolding output_of
output_lem last branches count whole all =
    let enough : leb (length branches) (length branches) ≡ true = ground arith in
    rw (whole, all, enough, take-length branches) refl

run_machine-output :
    (input : Text) (calls : Calls) (s : GblStatus) (branches : List BtsBranch)
    → IsTraced calls branches
    → run_machine (some input) calls s ≡ succeeds (print_branches branches)
unfolding run_machine
run_machine-output input calls s branches t =
    let (ret, count) = perf_monitor_api-IsTraced calls branches s t in
    let text =
      output_lem calls.system.last branches (perf_monitor_api calls s no_output).output.count
        t.branches_eq count in
    rw (ret, run_machine, text) refl

-- Where no call fails, the kernel records branches with addresses of 64 bits and the child ends, the tool
-- in its machine mode ends with success, and trace2 reads its output, without a panic, as the branches
-- that are not in the kernel, in their order.
pub run_tool-users :
    (name command input : Text) (args : List Text) (calls : Calls) (s : GblStatus)
    (branches : List BtsBranch)
    → IsTraced calls branches
    → Fits branches
    → (text : Text) × (run_tool (name ∷ codes "x" ∷ command ∷ args) (some input) calls s
        ≡ succeeds text)
      × (read_output text ≡ some (users branches))
unfolding run_tool
run_tool-users name command input args calls s branches t fits =
    let machine_mode : (ltb 0 (length (command ∷ args)) && text_eq (codes "x") (codes "x")) ≡ true =
      rw ((text_eq_iff (codes "x") (codes "x")).1 refl) (ground arith) in
    (
      print_branches branches,
      rw (machine_mode, run_tool) (run_machine-output input calls s branches t),
      read_output-print_branches branches fits,
    )
