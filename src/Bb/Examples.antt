-- ===== src/Bb/Examples.antt =====
-- Runs of c_monitor/bb.c.
use fuzz_monitor.Base.{
  ℕ, zero, suc, ◌≡◌, refl, none, some, false, List, [], ◌∷◌, All, replicate, length, arith,
}
use fuzz_monitor.Text.{codes, atol}
use fuzz_monitor.Bb.{
  found, aborts, out_of_bounds, basic_blocks_find, read_blocks, set_columns, set_column,
  strtok_columns, fgets_lines,
}
use fuzz_monitor.Bb.Lines.{
  Row, stream_of, blocks_of, IsSmall, basic_blocks_find-stream_of, basic_blocks_find-overflow,
}

three_columns :
    basic_blocks_find false (codes "16 20 4\n32  48\n")
    ≡ found (record { from = 16; to = 20 } ∷ record { from = 32; to = 48 } ∷ [])
unfolding basic_blocks_find read_blocks set_columns set_column strtok_columns fgets_lines atol
three_columns = refl

-- A space behind the third column makes the newline a fourth.
four_columns : basic_blocks_find false (codes "16 20 4 \n") ≡ aborts
unfolding basic_blocks_find read_blocks set_columns set_column strtok_columns fgets_lines atol
four_columns = refl

abbrev first_row : Row
first_row = (record { from = 16; to = 20 }, some 4)

abbrev rows : List Row
rows = (record { from = 32; to = 48 }, none) ∷ []

basic_blocks_find-stream_of_example :
    basic_blocks_find false (stream_of (first_row ∷ rows)) ≡ found (blocks_of (first_row ∷ rows))
basic_blocks_find-stream_of_example =
    basic_blocks_find-stream_of false first_row rows (ground arith) (omega arith)

replicate-IsSmall : (n : ℕ) → All IsSmall (replicate n first_row)
replicate-IsSmall zero = tt
replicate-IsSmall (suc n) = ((omega arith, omega arith), replicate-IsSmall n)

length-replicate : (n : ℕ) → length (replicate n first_row) ≡ n
length-replicate zero = refl
length-replicate (suc n) = omega (arith, length-replicate n)

basic_blocks_find-overflow_example :
    basic_blocks_find false (stream_of (replicate 1025 first_row)) ≡ out_of_bounds
basic_blocks_find-overflow_example =
    basic_blocks_find-overflow false (replicate 1025 first_row) (replicate-IsSmall 1025)
      (omega (arith, length-replicate 1025))
