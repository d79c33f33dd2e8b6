-- ===== src/Text/Decimal.antt =====
-- Numbers that are printed in decimal are read back.
use native.Mathlib.Nat.{pow-suc}
use fuzz_monitor.Base.{
  ℕ, zero, suc, ◌+◌, ◌-◌, ◌*◌, ◌/◌, ◌%◌, ◌^◌, ◌≤◌, ◌<◌, ◌≡◌, ◌↔◌, refl, ap, ◌∙◌, true, false, [],
  ◌∷◌, ◌++◌, length, length-append, All, ltb, ◌==◌, Bool-cases, List-cases, inl, inr, min, arith,
}
use fuzz_monitor.Text.{
  Text, text_eq, digits_of, decimal_digit, decimal, is_digit, read_digits, is_space, atol, long_max,
}

abbrev pub IsDigits : Text → Type 0
IsDigits = All (λ c. (b'0' ≤ c) × (c ≤ b'9'))

pub text_eq_iff : (s t : Text) → (text_eq s t ≡ true) ↔ (s ≡ t)
unfolding text_eq
text_eq_iff [] [] = (λ e. refl, λ e. refl)
text_eq_iff [] (b ∷ t) = (λ e. cc, λ e. cc)
text_eq_iff (a ∷ s) [] = (λ e. cc, λ e. cc)
text_eq_iff (a ∷ s) (b ∷ t) = ground (arith, text_eq_iff s t)

IsDigits-concat : (ds : Text) (d : ℕ) → IsDigits ds → d < 10 → IsDigits (ds ++ decimal_digit d ∷ [])
IsDigits-concat [] d h lt = omega arith
IsDigits-concat (c ∷ ds) d h lt = (h.0, IsDigits-concat ds d h.1 lt)

digits_of-IsDigits : (fuel n : ℕ) → IsDigits (digits_of decimal_digit 10 fuel n)
unfolding digits_of
digits_of-IsDigits zero n = tt
digits_of-IsDigits (suc fuel) n = elim (Bool-cases (ltb n 10)) [
  | inl last ↦ let lt : n < 10 = ground arith in rw last (omega arith)
  | inr more ↦ rw more (
      IsDigits-concat (digits_of decimal_digit 10 fuel (n / 10)) (n % 10)
        (digits_of-IsDigits fuel (n / 10)) (omega arith))
]

length-digits_of : (digit : ℕ → ℕ) (base fuel n : ℕ) → length (digits_of digit base fuel n) ≤ fuel
unfolding digits_of
length-digits_of digit base zero n = omega arith
length-digits_of digit base (suc fuel) n = ground (
  arith,
  length-digits_of digit base fuel (n / base),
  length-append (digits_of digit base fuel (n / base)) (digit (n % base) ∷ []),
)

pub digit_lem : (c : ℕ) → b'0' ≤ c → c ≤ b'9' → is_digit c ≡ true
unfolding is_digit
digit_lem c low high = ground arith

pub read_digits-append :
    (ds rest : Text) (acc : ℕ)
    → IsDigits ds
    → read_digits acc (ds ++ rest) ≡ read_digits (read_digits acc ds) rest
unfolding read_digits
read_digits-append [] rest acc h = refl
read_digits-append (d ∷ ds) rest acc h =
    rw (digit_lem d h.0.0 h.0.1) (read_digits-append ds rest (acc * 10 + (d - b'0')) h.1)

read_digits_one : (acc d : ℕ) → d < 10 → read_digits acc (decimal_digit d ∷ []) ≡ acc * 10 + d
unfolding read_digits
read_digits_one acc d h = rw (digit_lem (decimal_digit d) (omega arith) (omega arith)) (omega arith)

read_digits-digits_of :
    (fuel n : ℕ) → n < 10 ^ suc fuel → read_digits 0 (digits_of decimal_digit 10 (suc fuel) n) ≡ n
unfolding digits_of
read_digits-digits_of zero n h =
    let last : ltb n 10 ≡ true = ground arith in rw last (read_digits_one 0 n h ∙ omega arith)
read_digits-digits_of (suc fuel) n h = elim (Bool-cases (ltb n 10)) [
  | inl last ↦ let lt : n < 10 = ground arith in rw last (read_digits_one 0 n lt ∙ omega arith)
  | inr more ↦
      let front = digits_of decimal_digit 10 (suc fuel) (n / 10) in
      let before : read_digits 0 front ≡ n / 10 =
        read_digits-digits_of fuel (n / 10) (omega (arith, pow-suc 10 (suc fuel))) in
      rw more (
        read_digits-append front (decimal_digit (n % 10) ∷ []) 0
          (digits_of-IsDigits (suc fuel) (n / 10))
        ∙ ap (λ t. read_digits t (decimal_digit (n % 10) ∷ [])) before
        ∙ read_digits_one (n / 10) (n % 10) (omega arith)
        ∙ omega arith)
]

pub decimal-IsDigits : (n : ℕ) → IsDigits (decimal n)
unfolding decimal
decimal-IsDigits n = digits_of-IsDigits 20 n

pub length-decimal : (n : ℕ) → length (decimal n) ≤ 20
unfolding decimal
length-decimal n = length-digits_of decimal_digit 10 20 n

pub read_digits-decimal : (n : ℕ) → n < 2 ^ 64 → read_digits 0 (decimal n) ≡ n
unfolding decimal
read_digits-decimal n h = read_digits-digits_of 19 n (omega arith)

atol-digits : (ds : Text) → IsDigits ds → atol ds ≡ min (read_digits 0 ds) long_max
unfolding atol
atol-digits [] h = omega arith
atol-digits (d ∷ ds) h =
    let low : b'0' ≤ d = h.0.0 in
    let no_space : is_space d ≡ false = unfold is_space in ground arith in
    let no_minus : (d == b'-') ≡ false = ground arith in
    let no_plus : (d == b'+') ≡ false = ground arith in rw (no_space, no_minus, no_plus)

atol-digits_line :
    (ds : Text) → IsDigits ds → atol (ds ++ 10 ∷ []) ≡ min (read_digits 0 ds) long_max
unfolding atol
atol-digits_line [] h = refl
atol-digits_line (d ∷ ds) h =
    let low : b'0' ≤ d = h.0.0 in
    let no_space : is_space d ≡ false = unfold is_space in ground arith in
    let no_minus : (d == b'-') ≡ false = ground arith in
    let no_plus : (d == b'+') ≡ false = ground arith in
    let ends : read_digits (read_digits 0 (d ∷ ds)) (10 ∷ []) ≡ read_digits 0 (d ∷ ds) =
      unfold read_digits in unfold is_digit in refl in
    rw (no_space, no_minus, no_plus, read_digits-append (d ∷ ds) (10 ∷ []) 0 h, ends)

-- `atol` reads a printed number back, cut off at the greatest `long`.
pub atol-decimal : (n : ℕ) → n < 2 ^ 64 → atol (decimal n) ≡ min n long_max
atol-decimal n h =
    atol-digits (decimal n) (decimal-IsDigits n)
    ∙ ap (λ t. min t long_max) (read_digits-decimal n h)

-- What stands behind the number does not matter if it is no digit.
pub atol-decimal_line : (n : ℕ) → n < 2 ^ 64 → atol (decimal n ++ 10 ∷ []) ≡ min n long_max
atol-decimal_line n h =
    atol-digits_line (decimal n) (decimal-IsDigits n)
    ∙ ap (λ t. min t long_max) (read_digits-decimal n h)

pub decimal_cons : (n : ℕ) → (d : ℕ) × (ds : Text) × (decimal n ≡ d ∷ ds)
unfolding decimal digits_of
decimal_cons n = elim (List-cases (decimal n)) [
  | inr found ↦ found
  | inl empty ↦ elim (Bool-cases (ltb n 10)) [
    | inl last ↦ absurd (cc (rw last at empty))
    | inr more ↦
        let none_left = ap length (rw more at empty) in
        absurd (
          omega (
            arith,
            none_left,
            length-append (digits_of decimal_digit 10 19 (n / 10)) (decimal_digit (n % 10) ∷ []),
          ))
  ]
]
