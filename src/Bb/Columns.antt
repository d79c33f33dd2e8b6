-- ===== src/Bb/Columns.antt =====
-- c_monitor/bb.c: what fgets and strtok make of a line of numbers.
use mathlib.Core.List.{append_assoc, append-nil}
use fuzz_monitor.Base.{
  ℕ, ◌-◌, ◌<◌, ◌≡◌, refl, ap, ◌∙◌, subst, true, false, [], ◌∷◌, ◌++◌, length, All, ltb, ◌==◌, arith,
}
use fuzz_monitor.Text.{Text, decimal}
use fuzz_monitor.Text.Decimal.{IsDigits, decimal-IsDigits, decimal_cons}
use fuzz_monitor.Bb.{line_sz, fgets_lines, strtok_columns}

-- A line of at most `room` bytes is read whole.
pub fgets_lines-word :
    (word line stream : Text) (room : ℕ)
    → All (λ c. (c == 10) ≡ false) word
    → length word < room
    → fgets_lines room line (word ++ 10 ∷ stream)
      ≡ (line ++ word ++ 10 ∷ []) ∷ fgets_lines (line_sz - 1) [] stream
unfolding fgets_lines
fgets_lines-word [] [] stream room all h = refl
fgets_lines-word [] (d ∷ line) stream room all h = rw (append-nil line) refl
fgets_lines-word (c ∷ word) [] stream room all h =
    let more : ltb 1 room ≡ true = ground arith in
    rw (all.0, more) (fgets_lines-word word (c ∷ []) stream (room - 1) all.1 (omega arith))
fgets_lines-word (c ∷ word) (d ∷ line) stream room all h =
    let more : ltb 1 room ≡ true = ground arith in
    rw (all.0, more)
      (fgets_lines-word word (d ∷ line ++ c ∷ []) stream (room - 1) all.1 (omega arith)
        ∙ ap (λ t. (d ∷ t ++ 10 ∷ []) ∷ fgets_lines (line_sz - 1) [] stream)
            (append_assoc line (c ∷ []) word))

-- A column ends at the space behind it or with the line.
strtok_columns-word :
    (d : ℕ) (col word line : Text)
    → All (λ c. (c == 32) ≡ false) word
    → strtok_columns (d ∷ col) (word ++ 32 ∷ line) ≡ (d ∷ col ++ word) ∷ strtok_columns [] line
unfolding strtok_columns
strtok_columns-word d col [] line all = rw (append-nil col) refl
strtok_columns-word d col (c ∷ word) line all = rw all.0 (
    strtok_columns-word d (col ++ c ∷ []) word line all.1
    ∙ ap (λ t. (d ∷ t) ∷ strtok_columns [] line) (append_assoc col (c ∷ []) word))

strtok_columns-last :
    (d : ℕ) (col word : Text)
    → All (λ c. (c == 32) ≡ false) word
    → strtok_columns (d ∷ col) word ≡ (d ∷ col ++ word) ∷ []
unfolding strtok_columns
strtok_columns-last d col [] all = rw (append-nil col) refl
strtok_columns-last d col (c ∷ word) all = rw all.0 (
    strtok_columns-last d (col ++ c ∷ []) word all.1
    ∙ ap (λ t. (d ∷ t) ∷ []) (append_assoc col (c ∷ []) word))

pub AllDigits-no_separator :
    (separator : ℕ) (ds : Text)
    → separator < b'0'
    → IsDigits ds
    → All (λ c. (c == separator) ≡ false) ds
AllDigits-no_separator separator [] low h = tt
AllDigits-no_separator separator (d ∷ ds) low h =
    (ground (arith, h.0.0), AllDigits-no_separator separator ds low h.1)

pub All-concat : (P : ℕ → Type 0) (xs ys : Text) → All P xs → All P ys → All P (xs ++ ys)
All-concat P [] ys left right = right
All-concat P (x ∷ xs) ys left right = (left.0, All-concat P xs ys left.1 right)

-- A number is a column, up to the space behind it or the newline.
pub column-decimal :
    (n : ℕ) (line : Text)
    → strtok_columns [] (decimal n ++ 32 ∷ line) ≡ decimal n ∷ strtok_columns [] line
unfolding strtok_columns
column-decimal n line =
    let (d, ds, e) = decimal_cons n in
    let plain =
      AllDigits-no_separator 32 (d ∷ ds) (omega arith) (subst IsDigits e (decimal-IsDigits n)) in
    rw (e, plain.0) (strtok_columns-word d [] ds line plain.1)

pub column-last : (n : ℕ) → strtok_columns [] (decimal n ++ 10 ∷ []) ≡ (decimal n ++ 10 ∷ []) ∷ []
unfolding strtok_columns
column-last n =
    let (d, ds, e) = decimal_cons n in
    let plain =
      AllDigits-no_separator 32 (d ∷ ds) (omega arith) (subst IsDigits e (decimal-IsDigits n)) in
    let no_space = All-concat (λ c. (c == 32) ≡ false) ds (10 ∷ []) plain.1 (ground arith) in
    rw (e, plain.0) (strtok_columns-last d [] (ds ++ 10 ∷ []) no_space)
