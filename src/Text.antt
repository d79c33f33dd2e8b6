-- ===== src/Text.antt =====
-- What the code uses of stdio and stdlib on texts: a text is the list of its bytes, without the final 0.
pub mod Decimal
pub mod Search
use Prim.Native.Char.{code}
use Prim.Native.String.{String}
use fuzz_monitor.Base.{
  ℕ, zero, suc, ◌+◌, ◌-◌, ◌*◌, ◌/◌, ◌%◌, ◌^◌, Bool, true, false, ◌&&◌, ◌||◌, min, List, [], ◌∷◌,
  ◌++◌, Option, none, some, take, ltb, leb, ◌==◌, if◌then◌else◌,
}

abbrev pub Text : Type 0
Text = List ℕ

-- The bytes of an ASCII literal.
abbrev pub codes : String → Text
codes String.[] = []
codes (String.◌∷◌ c s) = code c ∷ codes s

-- `strcmp(a, b) == 0`
pub text_eq : Text → Text → Bool
text_eq [] [] = true
text_eq [] (b ∷ t) = false
text_eq (a ∷ s) [] = false
text_eq (a ∷ s) (b ∷ t) = (a == b) && text_eq s t

-- Does the text begin with the other one?
unfoldable pub starts_with : Text → Text → Bool
starts_with text [] = true
starts_with [] (c ∷ needle) = false
starts_with (d ∷ text) (c ∷ needle) =
    let rest = starts_with text needle in if d == c then rest else false

-- `strstr(text, needle) != NULL`
unfoldable pub contains : Text → Text → Bool
unfolding starts_with
contains [] needle = starts_with [] needle
contains (d ∷ text) needle =
    let rest = contains text needle in if starts_with (d ∷ text) needle then true else rest

-- The digits of a number in a base, at most `fuel` of them.
pub digits_of : (ℕ → ℕ) → ℕ → ℕ → ℕ → Text
digits_of digit base zero n = []
digits_of digit base (suc fuel) n =
    let rest = digits_of digit base fuel (n / base) in
    if ltb n base then digit n ∷ [] else rest ++ digit (n % base) ∷ []

abbrev pub decimal_digit : ℕ → ℕ
decimal_digit d = b'0' + d

abbrev pub hex_digit : ℕ → ℕ
hex_digit d = if ltb d 10 then b'0' + d else b'a' + (d - 10)

-- `%lu` of a `uint64_t`, which has 20 digits at most.
unfoldable pub decimal : ℕ → Text
unfolding digits_of
decimal n = digits_of decimal_digit 10 20 n

-- `%lx` of a `uint64_t`
unfoldable pub hex : ℕ → Text
unfolding digits_of
hex n = digits_of hex_digit 16 16 n

-- `snprintf` into a buffer of `size` bytes, the last of which is 0.
abbrev pub snprintf : ℕ → Text → Text
snprintf size text = take (size - 1) text

pub is_digit : ℕ → Bool
is_digit c = leb b'0' c && leb c b'9'

-- The digits in front, as `strtol` reads them in base 10.
pub read_digits : ℕ → Text → ℕ
unfolding is_digit
read_digits acc [] = acc
read_digits acc (c ∷ cs) =
    let rest = read_digits (acc * 10 + (c - b'0')) cs in if is_digit c then rest else acc

pub is_space : ℕ → Bool
is_space c = c == 32 || leb 9 c && leb c 13

pub skip_space : Text → Text
unfolding is_space
skip_space [] = []
skip_space (c ∷ cs) = let rest = skip_space cs in if is_space c then rest else c ∷ cs

-- The greatest `long`.
abbrev pub long_max : ℕ
long_max = 0x7fffffffffffffff

-- A number beyond the range of `long` is cut off at its ends. The result is stored as a `uint64_t`.
pub atol_signed : Text → ℕ
unfolding read_digits
atol_signed [] = 0
atol_signed (c ∷ cs) =
    if c == b'-'
    then (2 ^ 64 - min (read_digits 0 cs) (long_max + 1)) % 2 ^ 64
    else if c == b'+'
    then min (read_digits 0 cs) long_max
    else min (read_digits 0 (c ∷ cs)) long_max

-- `(uint64_t) atol(text)`
unfoldable pub atol : Text → ℕ
unfolding atol_signed skip_space
atol text = atol_signed (skip_space text)
