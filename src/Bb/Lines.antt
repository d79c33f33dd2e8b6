-- ===== src/Bb/Lines.antt =====
-- c_monitor/bb.c reads the lines that r2.sh prints: the start of a block, its end and its size.
use mathlib.Core.List.{append_assoc, append-nil}
use fuzz_monitor.Base.{
  ℕ, ◌+◌, ◌-◌, ◌≤◌, ◌<◌, ◌≡◌, refl, sym, ap, ap₂, ◌∙◌, Bool, true, false, List, [], ◌∷◌, ◌++◌,
  Option, none, some, length, length-append, All, map, Bool-cases, inl, inr, ltb, ◌==◌, arith,
}
use fuzz_monitor.Text.{Text, decimal, long_max}
use fuzz_monitor.Text.Decimal.{decimal-IsDigits, length-decimal, atol-decimal, atol-decimal_line}
use fuzz_monitor.Bb.{
  BasicBlock, found, out_of_bounds, line_sz, bbs_entries, bbs_sz, fgets_lines, strtok_columns,
  set_column, set_columns, read_blocks, basic_blocks_find,
}
use fuzz_monitor.Bb.Columns.{
  fgets_lines-word, AllDigits-no_separator, All-concat, column-decimal, column-last,
}

-- A block, and its size where the line has that column.
abbrev pub Row : Type 0
Row = BasicBlock × Option ℕ

abbrev pub size_part : Option ℕ → Text
size_part none = []
size_part (some size) = 32 ∷ decimal size

-- The line that stands for a block: `from to size`, as r2.sh prints it, or `from to`.
abbrev pub line_of : Row → Text
line_of (bb, size) = decimal bb.from ++ 32 ∷ decimal bb.to ++ size_part size ++ 10 ∷ []

abbrev pub stream_of : List Row → Text
stream_of [] = []
stream_of (row ∷ rows) = line_of row ++ stream_of rows

abbrev pub blocks_of : List Row → List BasicBlock
blocks_of rows = map (λ (row : Row). row.0) rows

line_of_lem :
    (bb : BasicBlock) (size : Option ℕ)
    → line_of (bb, size) ≡ decimal bb.from ++ 32 ∷ (decimal bb.to ++ (size_part size ++ 10 ∷ []))
line_of_lem bb size =
    append_assoc (decimal bb.from ++ 32 ∷ decimal bb.to) (size_part size) (10 ∷ [])
    ∙ append_assoc (decimal bb.from) (32 ∷ decimal bb.to) (size_part size ++ 10 ∷ [])

columns-line_of :
    (bb : BasicBlock) (size : Option ℕ)
    → strtok_columns [] (line_of (bb, size))
      ≡ decimal bb.from ∷ strtok_columns [] (decimal bb.to ++ (size_part size ++ 10 ∷ []))
columns-line_of bb size =
    ap (strtok_columns []) (line_of_lem bb size)
    ∙ column-decimal bb.from (decimal bb.to ++ (size_part size ++ 10 ∷ []))

set_columns-line_of :
    (bb : BasicBlock) (size : Option ℕ)
    → bb.from ≤ long_max
    → bb.to ≤ long_max
    → set_columns 0 (record { from = 0; to = 0 }) (strtok_columns [] (line_of (bb, size))) ≡ some bb
unfolding set_columns set_column
set_columns-line_of bb none low low' =
    rw (columns-line_of bb none, column-last bb.to)
      (ap₂ (λ f t. some (record { from = f; to = t }))
        (atol-decimal bb.from (omega arith) ∙ omega arith)
        (atol-decimal_line bb.to (omega arith) ∙ omega arith))
set_columns-line_of bb (some size) low low' =
    rw
      (
        columns-line_of bb (some size),
        column-decimal bb.to (decimal size ++ 10 ∷ []),
        column-last size,
      )
      (ap₂ (λ f t. some (record { from = f; to = t }))
        (atol-decimal bb.from (omega arith) ∙ omega arith)
        (atol-decimal bb.to (omega arith) ∙ omega arith))

-- The addresses are at most the greatest `long`.
abbrev pub IsSmall : Row → Type 0
IsSmall row = (row.0.from ≤ long_max) × (row.0.to ≤ long_max)

size_part-clear : (size : Option ℕ) → All (λ c. (c == 10) ≡ false) (size_part size)
size_part-clear none = tt
size_part-clear (some n) =
    (refl, AllDigits-no_separator 10 (decimal n) (omega arith) (decimal-IsDigits n))

size_part-short : (size : Option ℕ) → length (size_part size) ≤ 21
size_part-short none = omega arith
size_part-short (some n) = omega (arith, length-decimal n)

fgets_lines-stream_of :
    (rows : List Row) → fgets_lines (line_sz - 1) [] (stream_of rows) ≡ map line_of rows
unfolding fgets_lines
fgets_lines-stream_of [] = refl
fgets_lines-stream_of ((bb, size) ∷ rows) =
    let word = decimal bb.from ++ 32 ∷ decimal bb.to ++ size_part size in
    let whole : All (λ c. (c == 10) ≡ false) word =
      All-concat (λ c. (c == 10) ≡ false) (decimal bb.from ++ 32 ∷ decimal bb.to) (size_part size)
        (All-concat (λ c. (c == 10) ≡ false) (decimal bb.from) (32 ∷ decimal bb.to)
          (AllDigits-no_separator 10 (decimal bb.from) (omega arith) (decimal-IsDigits bb.from))
          (refl, AllDigits-no_separator 10 (decimal bb.to) (omega arith) (decimal-IsDigits bb.to)))
        (size_part-clear size) in
    let short : length word < line_sz - 1 = omega (
      arith,
      length-append (decimal bb.from ++ 32 ∷ decimal bb.to) (size_part size),
      length-append (decimal bb.from) (32 ∷ decimal bb.to),
      length-decimal bb.from,
      length-decimal bb.to,
      size_part-short size,
    ) in
    ap (fgets_lines (line_sz - 1) []) (append_assoc word (10 ∷ []) (stream_of rows))
    ∙ fgets_lines-word word [] (stream_of rows) (line_sz - 1) whole short
    ∙ ap (λ t. line_of (bb, size) ∷ t) (fgets_lines-stream_of rows)

read_blocks-line_of :
    (rows : List Row) (before : List BasicBlock)
    → All IsSmall rows
    → length before + length rows ≤ bbs_entries
    → read_blocks before (map line_of rows) ≡ found (before ++ blocks_of rows)
unfolding read_blocks
read_blocks-line_of [] before small fits = ap found (sym (append-nil before))
read_blocks-line_of ((bb, size) ∷ rows) before small fits =
    let room : ltb (length before) bbs_entries ≡ true = ground arith in
    let room' : ltb (length before) bbs_sz ≡ true = ground arith in
    rw (read_blocks, room, room', set_columns-line_of bb size small.0.0 small.0.1)
      (read_blocks-line_of rows (before ++ bb ∷ []) small.1
          (omega (arith, length-append before (bb ∷ [])))
        ∙ ap found (append_assoc before (bb ∷ []) (blocks_of rows)))

-- From a stream with a line for each of 1 to 1024 basic blocks, with its size in a third column or without
-- it, and with addresses that are at most the greatest `long`, basic_blocks_find reads these blocks.
pub basic_blocks_find-stream_of :
    (keeps : Bool) (row : Row) (rows : List Row)
    → All IsSmall (row ∷ rows)
    → length (row ∷ rows) ≤ bbs_entries
    → basic_blocks_find keeps (stream_of (row ∷ rows)) ≡ found (blocks_of (row ∷ rows))
unfolding basic_blocks_find
basic_blocks_find-stream_of keeps row rows small fits =
    rw
      (
        basic_blocks_find,
        fgets_lines-stream_of (row ∷ rows),
        read_blocks-line_of (row ∷ rows) [] small (omega arith),
      )
      refl

read_blocks-overflow :
    (rows : List Row) (before : List BasicBlock)
    → All IsSmall rows
    → length before ≤ bbs_entries
    → bbs_entries < length before + length rows
    → read_blocks before (map line_of rows) ≡ out_of_bounds
unfolding read_blocks
read_blocks-overflow [] before small low high = absurd (omega arith)
read_blocks-overflow ((bb, size) ∷ rows) before small low high =
    elim (Bool-cases (ltb (length before) bbs_entries)) [
      | inl room ↦
          let room' : ltb (length before) bbs_sz ≡ true = ground arith in
          rw (read_blocks, room, room', set_columns-line_of bb size small.0.0 small.0.1)
            (read_blocks-overflow rows (before ++ bb ∷ []) small.1
              (ground (arith, length-append before (bb ∷ [])))
              (omega (arith, length-append before (bb ∷ []))))
      | inr full ↦
          let passes : ltb (length before) bbs_sz ≡ true = ground arith in
          rw (read_blocks, full, passes) refl
    ]

-- With a line for each of more than 1024 basic blocks, with or without sizes, basic_blocks_find writes
-- beyond the array, which has 1024 entries: the assertion compares the number of blocks with the number
-- of bytes.
pub basic_blocks_find-overflow :
    (keeps : Bool) (rows : List Row)
    → All IsSmall rows
    → bbs_entries < length rows
    → basic_blocks_find keeps (stream_of rows) ≡ out_of_bounds
unfolding basic_blocks_find
basic_blocks_find-overflow keeps rows small high =
    rw
      (
        basic_blocks_find,
        fgets_lines-stream_of rows,
        read_blocks-overflow rows [] small (omega arith) (omega arith),
      )
      refl
