-- ===== src/Sections/Memory.antt =====
-- c_monitor/sections.c: the table that is read into memory is the one of the file.
use native.Mathlib.Nat.{mul-suc, add_comm}
use mathlib.Core.List.{append_assoc}
use fuzz_monitor.Base.{
  ℕ, zero, suc, ◌+◌, ◌*◌, ◌^◌, ◌≤◌, ◌<◌, ◌≡◌, refl, sym, ap, ap₂, ◌∙◌, true, List, [], ◌∷◌, ◌++◌,
  some, length, length-append, take, drop, length-take, length-drop, drop-drop, take-add,
  take-append_length, drop-append_length, take-drop-take, ◌&&◌, leb, ltb, ◌==◌, arith,
}
use fuzz_monitor.Sections.{
  header_size, read_max, ElfShdr, shdr_of, seek, read_exactly, write_bytes, read_entries, entry_at,
}

pub read_exactly_lem :
    (file : List ℕ) (pos n : ℕ)
    → pos + n ≤ length file
    → n ≤ read_max
    → read_exactly file pos n ≡ some (take n (drop pos file))
unfolding read_exactly
read_exactly_lem file pos n fits few =
    let whole : length (take n (drop pos file)) ≡ n =
      omega (arith, length-take n (drop pos file), length-drop pos file) in
    let test : (n == n && leb n read_max) ≡ true = ground arith in
    rw (whole, read_exactly, test) refl

pub seek_lem : (pos offset : ℕ) → offset < 2 ^ 63 → seek pos offset ≡ some offset
unfolding seek
seek_lem pos offset small =
    let test : ltb offset (2 ^ 63) ≡ true = ground arith in rw (test, seek) refl

-- A write behind what has been written before.
write_bytes_lem :
    (before tail bytes : List ℕ) (start : ℕ)
    → length before ≡ start
    → length bytes ≤ length tail
    → write_bytes (before ++ tail) start bytes
      ≡ some ((before ++ bytes) ++ drop (length bytes) tail)
unfolding write_bytes
write_bytes_lem before tail bytes start at fits =
    let test : leb (start + length bytes) (length (before ++ tail)) ≡ true =
      ground (arith, length-append before tail) in
    let rest : drop (start + length bytes) (before ++ tail) ≡ drop (length bytes) tail =
      sym (drop-drop (length bytes) start (before ++ tail))
      ∙ ap (drop (length bytes)) (drop-append_length start before tail at) in
    rw (test, write_bytes, take-append_length start before tail at, rest)
      (ap some (sym (append_assoc before bytes (drop (length bytes) tail))))

length-eq_zero : (xs : List ℕ) → length xs ≡ 0 → xs ≡ []
length-eq_zero [] e = refl
length-eq_zero (x ∷ xs) e = absurd (omega arith)

pub read_entries_lem :
    (file : List ℕ) (size pos i left : ℕ) (before tail : List ℕ)
    → size ≡ header_size
    → length before ≡ header_size * i
    → length tail ≡ size * left
    → pos + size * left ≤ length file
    → read_entries file size (before ++ tail) pos i left
      ≡ some (before ++ take (size * left) (drop pos file), pos + size * left)
unfolding read_entries
read_entries_lem file size pos i zero before tail e at block fits =
    let no_size : size * 0 ≡ 0 = omega arith in
    let no_tail : tail ≡ [] = length-eq_zero tail (omega arith) in
    rw (no_size, no_tail, read_entries) (ap (λ p. some (before ++ [], p)) (omega arith))
read_entries_lem file size pos i (suc left) before tail e at block fits =
    let chunk = take size (drop pos file) in
    let whole : length chunk ≡ size =
      omega (arith, length-take size (drop pos file), length-drop pos file) in
    let grow : size * suc left ≡ size + size * left =
      mul-suc size left ∙ add_comm (size * left) size in
    let got = read_exactly_lem file pos size (omega (arith, grow)) (omega arith) in
    let written = write_bytes_lem before tail chunk (header_size * i) at (omega (arith, grow)) in
    let block' : length (drop (length chunk) tail) ≡ size * left =
      omega (arith, length-drop (length chunk) tail, grow) in
    let at' : length (before ++ chunk) ≡ header_size * (i + 1) =
      omega (arith, length-append before chunk) in
    let rest =
      read_entries_lem file size (pos + size) (i + 1) left (before ++ chunk)
        (drop (length chunk) tail) e at' block' (omega (arith, grow)) in
    let parts : take (size * suc left) (drop pos file)
        ≡ chunk ++ take (size * left) (drop (pos + size) file) =
      ap (λ n. take n (drop pos file)) grow
      ∙ take-add size (size * left) (drop pos file)
      ∙ ap (λ xs. chunk ++ take (size * left) xs) (drop-drop size pos file) in
    let place : pos + size * suc left ≡ pos + size + size * left = omega (arith, grow) in
    rw (got, read_entries, written)
      (rest
        ∙ ap₂ (λ xs p. some (xs, p))
            (append_assoc before chunk (take (size * left) (drop (pos + size) file))
              ∙ ap (◌++◌ before) (sym parts))
            (sym place))

-- The section header with a number, as it stands in the file.
abbrev pub header_at : List ℕ → ℕ → ℕ → ElfShdr
header_at file shoff k = shdr_of (take header_size (drop (shoff + header_size * k) file))

pub entry_at_lem :
    (file : List ℕ) (shoff n k : ℕ)
    → k < n
    → shoff + header_size * n ≤ length file
    → entry_at (take (header_size * n) (drop shoff file)) k ≡ some (header_at file shoff k)
unfolding entry_at
entry_at_lem file shoff n k inside fits =
    let table = take (header_size * n) (drop shoff file) in
    let test : leb (header_size * k + header_size) (length table) ≡ true =
      ground (arith, length-take (header_size * n) (drop shoff file), length-drop shoff file) in
    let part : take header_size (drop (header_size * k) table)
        ≡ take header_size (drop (shoff + header_size * k) file) =
      take-drop-take header_size (header_size * k) (header_size * n) (drop shoff file) (omega arith)
      ∙ ap (take header_size) (drop-drop (header_size * k) shoff file) in
    rw (test, entry_at) (ap (λ bytes. some (shdr_of bytes)) part)
