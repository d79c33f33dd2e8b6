-- ===== src/Monitor/Branches/Keys.antt =====
-- The keys of c_monitor/main.c: `from "/" to` in decimal, in a buffer of 64 bytes.
use fuzz_monitor.Base.{
  ℕ, zero, suc, ◌≤◌, ◌<◌, ◌^◌, ◌≡◌, ◌≢◌, refl, sym, ap, ◌∙◌, false, [], ◌∷◌, ◌++◌, Option, none,
  some, ◌⊎◌, inl, inr, length, length-append, take, ◌==◌, if◌then◌else◌, min, arith,
}
use mathlib.Core.List.{append_assoc}
use fuzz_monitor.Text.{Text, decimal, read_digits, atol, long_max}
use fuzz_monitor.Text.Decimal.{
  IsDigits, decimal-IsDigits, length-decimal, read_digits-decimal, atol-decimal,
}
use fuzz_monitor.Monitor.Branches.Address.{hash_key_sep, branch_key}

take-all : (n : ℕ) (s : Text) → length s ≤ n → take n s ≡ s
take-all zero [] h = refl
take-all zero (c ∷ s) h = absurd (omega arith)
take-all (suc n) [] h = refl
take-all (suc n) (c ∷ s) h = ap (◌∷◌ c) (take-all n s (omega arith))

-- The buffer is large enough for any two numbers of 64 bits.
pub branch_key-fits :
    (from to : ℕ) → branch_key from to ≡ decimal from ++ hash_key_sep ++ decimal to
unfolding branch_key
branch_key-fits from to = take-all 63 (decimal from ++ hash_key_sep ++ decimal to) (
    omega (
      arith,
      length-append (decimal from ++ hash_key_sep) (decimal to),
      length-append (decimal from) hash_key_sep,
      length-decimal from,
      length-decimal to,
    ))

-- `strstr(dup, HASH_KEY_SEP)` and the cut at it: what stands before and behind the separator.
unfoldable pub split_key : Text → Option (Text × Text)
split_key [] = none
split_key (c ∷ cs) =
    let rest : Option (Text × Text) = elim (split_key cs) [
      | none ↦ none
      | some (a, b) ↦ some (c ∷ a, b)
    ] in
    if c == b'/' then some ([], cs) else rest

split_key-digits : (ds rest : Text) → IsDigits ds → split_key (ds ++ b'/' ∷ rest) ≡ some (ds, rest)
unfolding split_key
split_key-digits [] rest h = refl
split_key-digits (d ∷ ds) rest h =
    let low : b'0' ≤ d = h.0.0 in
    let other : (d == b'/') ≡ false = ground arith in rw (other, split_key-digits ds rest h.1)

pub split-branch_key :
    (from to : ℕ) → split_key (branch_key from to) ≡ some (decimal from, decimal to)
split-branch_key from to =
    ap split_key (branch_key-fits from to ∙ append_assoc (decimal from) hash_key_sep (decimal to))
    ∙ split_key-digits (decimal from) (decimal to) (decimal-IsDigits from)

-- The two numbers that free_hashtable reads off a key; `none` is the access through a NULL `split`.
unfoldable pub parse_key : Text → Option (ℕ × ℕ)
parse_key key = elim (split_key key) [
  | none ↦ none
  | some (dup, second) ↦ some (atol dup, atol second)
]

-- A key that process_branches makes of two numbers of 64 bits is read back by free_hashtable with each
-- of them cut off at the greatest `long`: as it was made for numbers below 2^63, and not above.
pub parse_key-branch_key :
    (from to : ℕ)
    → from < 2 ^ 64
    → to < 2 ^ 64
    → parse_key (branch_key from to) ≡ some (min from long_max, min to long_max)
unfolding parse_key
parse_key-branch_key from to hf ht =
    rw (parse_key, split-branch_key from to, atol-decimal from hf, atol-decimal to ht) refl

-- Two branches with different ends of 64 bits have different keys.
pub branch_key-injective :
    (f t f' t' : ℕ)
    → f < 2 ^ 64
    → t < 2 ^ 64
    → f' < 2 ^ 64
    → t' < 2 ^ 64
    → (f ≢ f') ⊎ (t ≢ t')
    → branch_key f t ≢ branch_key f' t'
branch_key-injective f t f' t' hf ht hf' ht' differ e =
    let both = sym (split-branch_key f t) ∙ ap split_key e ∙ split-branch_key f' t' in
    let left : decimal f ≡ decimal f' = cc both in
    let right : decimal t ≡ decimal t' = cc both in
    elim differ [
      | inl ne ↦
          ne (sym (read_digits-decimal f hf) ∙ ap (read_digits 0) left ∙ read_digits-decimal f' hf')
      | inr ne ↦
          ne
            (sym (read_digits-decimal t ht) ∙ ap (read_digits 0) right ∙ read_digits-decimal t' ht')
    ]
