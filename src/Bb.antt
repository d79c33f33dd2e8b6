-- ===== src/Bb.antt =====
-- c_monitor/bb.c: reading the basic blocks of a program from what the script prints. The command that
-- is built for popen is left out: the stream is an argument. Its script and the program's path are the caller's.
pub mod Columns
pub mod Lines
pub mod Examples
use fuzz_monitor.Base.{
  ℕ, zero, suc, ◌+◌, ◌-◌, ◌*◌, Bool, true, false, List, [], ◌∷◌, ◌++◌, Option, none, some, length,
  ltb, ◌==◌, if◌then◌else◌,
}
use fuzz_monitor.Text.{Text, atol}

pub record BasicBlock : Type 0 where
  pub from : ℕ
  pub to : ℕ

-- A failed assertion is told from a write beyond the array.
pub data Reading : Type 0 where
  found : List BasicBlock → Reading
  aborts out_of_bounds : Reading

abbrev pub line_sz : ℕ
line_sz = 1024

-- The array has so many entries, of 16 bytes each.
abbrev pub bbs_entries : ℕ
bbs_entries = 1024

abbrev pub bbs_sz : ℕ
bbs_sz = bbs_entries * 16

-- The lines that `fgets` reads into a buffer of `line_sz` bytes; `room` is left for the one begun.
unfoldable pub fgets_lines : ℕ → Text → Text → List Text
fgets_lines room [] [] = []
fgets_lines room (c ∷ line) [] = (c ∷ line) ∷ []
fgets_lines room line (c ∷ stream) =
    let fresh = fgets_lines (line_sz - 1) [] stream in
    let longer = fgets_lines (room - 1) (line ++ c ∷ []) stream in
    if c == 10
    then (line ++ c ∷ []) ∷ fresh
    else if ltb 1 room
    then longer
    else (line ++ c ∷ []) ∷ fresh

-- The columns that `strtok(line, " ")` gives, one after the other.
unfoldable pub strtok_columns : Text → Text → List Text
strtok_columns [] [] = []
strtok_columns (c ∷ col) [] = (c ∷ col) ∷ []
strtok_columns [] (c ∷ line) =
    let skipped = strtok_columns [] line in
    let begun = strtok_columns (c ∷ []) line in if c == 32 then skipped else begun
strtok_columns (d ∷ col) (c ∷ line) =
    let fresh = strtok_columns [] line in
    let longer = strtok_columns (d ∷ col ++ c ∷ []) line in
    if c == 32 then (d ∷ col) ∷ fresh else longer

-- The `switch` on the number of the column.
unfoldable pub set_column : ℕ → BasicBlock → Text → Option BasicBlock
set_column zero bb col = some (record bb { from = atol col })
set_column (suc zero) bb col = some (record bb { to = atol col })
set_column (suc (suc zero)) bb col = some bb
set_column (suc (suc (suc n))) bb col = none

unfoldable pub set_columns : ℕ → BasicBlock → List Text → Option BasicBlock
set_columns col_idx bb [] = some bb
set_columns col_idx bb (col ∷ cols) = elim (set_column col_idx bb col) [
  | none ↦ none
  | some bb' ↦ set_columns (col_idx + 1) bb' cols
]

-- The `while` loop, with the entries that are filled; an entry is 0 before. A line at an entry beyond the
-- array is `out_of_bounds`.
unfoldable pub read_blocks : List BasicBlock → List Text → Reading
read_blocks bbs [] = found bbs
read_blocks bbs (line ∷ lines) =
    if ltb (length bbs) bbs_sz
    then (if ltb (length bbs) bbs_entries
        then elim (set_columns 0 (record { from = 0; to = 0 }) (strtok_columns [] line)) [
          | none ↦ aborts
          | some bb ↦ read_blocks (bbs ++ bb ∷ []) lines
        ]
        else out_of_bounds)
    else aborts

-- `keeps` says whether `realloc` to no bytes returns an array.
unfoldable pub basic_blocks_find : Bool → Text → Reading
basic_blocks_find keeps stream = elim (read_blocks [] (fgets_lines (line_sz - 1) [] stream)) [
  | found [] ↦ if keeps then found [] else aborts
  | found (bb ∷ bbs) ↦ found (bb ∷ bbs)
  | aborts ↦ aborts
  | out_of_bounds ↦ out_of_bounds
]
