-- ===== src/Util/Detect.antt =====
-- Which inputs the CRC of c_monitor/util.c tells apart, seen through the register: a message is one
-- number, its first byte lowest, and the register is that number after eight steps for each byte.
use mathlib.Core.List.{foldl-append}
use fuzz_monitor.Base.{
  IsBytes, le_value, le_value-lt, ℕ, zero, suc, ◌+◌, ◌*◌, ◌^◌, ◌≤◌, ◌<◌, ◌≡◌, ◌≢◌, refl, sym, ap,
  ◌∙◌, List, [], ◌∷◌, ◌++◌, foldl, some, length, take-length, replicate, bit_xor, arith,
}
use fuzz_monitor.Base.Xor.{
  xor-lt_pow, xor_comm, xor_assoc, xor_cancel, xor_self, xor-zero, xor_fields,
}
use fuzz_monitor.Util.Bitwise.{
  shift_bits, shift_byte, reference_crc, shift_bits-xor, shift_bits-shl, shift_bits-eq_zero,
}
use fuzz_monitor.Util.{util_crc64}
use fuzz_monitor.Util.Crc.{util_crc64-reference, fold-lt, shift_byte-lt, IsBytes-append}

shift_bits-eight : (n r : ℕ) → shift_bits (suc n * 8) r ≡ shift_bits (n * 8) (shift_bits 8 r)
unfolding shift_bits
shift_bits-eight n r =
    let rounds : suc n * 8 ≡ suc (suc (suc (suc (suc (suc (suc (suc (n * 8)))))))) = omega arith in
    ap (λ k. shift_bits k r) rounds

fold-le_value :
    (bs : List ℕ) (r : ℕ)
    → IsBytes bs
    → foldl shift_byte r bs ≡ shift_bits (length bs * 8) (bit_xor r (le_value bs))
unfolding shift_byte le_value
fold-le_value [] r h = sym (xor-zero r)
fold-le_value (b ∷ bs) r h =
    let v = le_value bs in
    let apart : bit_xor r (v * 256 + b) ≡ bit_xor (bit_xor r b) (v * 256) =
      ap (bit_xor r) (sym (xor_fields 8 v b h.0) ∙ xor_comm (v * 256) b)
      ∙ sym (xor_assoc r b (v * 256)) in
    let one_byte : shift_bits 8 (bit_xor r (v * 256 + b)) ≡ bit_xor (shift_bits 8 (bit_xor r b)) v =
      ap (shift_bits 8) apart
      ∙ shift_bits-xor 8 (bit_xor r b) (v * 256)
      ∙ ap (bit_xor (shift_bits 8 (bit_xor r b))) (shift_bits-shl 8 v) in
    fold-le_value bs (shift_bits 8 (bit_xor r b)) h.1
    ∙ ap (shift_bits (length bs * 8)) (sym one_byte)
    ∙ sym (shift_bits-eight (length bs) (bit_xor r (v * 256 + b)))

le_value_injective :
    (xs ys : List ℕ)
    → IsBytes xs
    → IsBytes ys
    → length xs ≡ length ys
    → le_value xs ≡ le_value ys
    → xs ≡ ys
unfolding le_value
le_value_injective [] [] h k l e = refl
le_value_injective [] (y ∷ ys) h k l e = absurd (omega arith)
le_value_injective (x ∷ xs) [] h k l e = absurd (omega arith)
le_value_injective (x ∷ xs) (y ∷ ys) h k l e =
    let first : x ≡ y = omega arith in
    cc (first, le_value_injective xs ys h.1 k.1 (omega arith) (omega arith))

-- Eight steps for each byte lose nothing of a register of 64 bits.
shift_bits_injective :
    (k a b : ℕ) → a < 2 ^ 64 → b < 2 ^ 64 → shift_bits k a ≡ shift_bits k b → a ≡ b
shift_bits_injective k a b ha hb e =
    let gone : shift_bits k (bit_xor a b) ≡ 0 =
      shift_bits-xor k a b ∙ ap (λ t. bit_xor t (shift_bits k b)) e ∙ xor_self (shift_bits k b) in
    sym (
      xor_cancel a b a
        (shift_bits-eq_zero k (bit_xor a b) (xor-lt_pow 64 a b ha hb) gone ∙ sym (xor_self a)))

fold_injective :
    (bs : List ℕ) (a b : ℕ)
    → IsBytes bs
    → a < 2 ^ 64
    → b < 2 ^ 64
    → foldl shift_byte a bs ≡ foldl shift_byte b bs
    → a ≡ b
unfolding shift_byte
fold_injective [] a b h ha hb e = e
fold_injective (x ∷ bs) a b h ha hb e =
    let same =
      fold_injective bs (shift_byte a x) (shift_byte b x) h.1 (shift_byte-lt a x ha h.0)
        (shift_byte-lt b x hb h.0) e in
    let before =
      shift_bits_injective 8 (bit_xor a x) (bit_xor b x) (xor-lt_pow 64 a x ha (omega (arith, h.0)))
        (xor-lt_pow 64 b x hb (omega (arith, h.0))) same in
    xor_cancel x a b (xor_comm x a ∙ before ∙ xor_comm b x)

window_injective :
    (xs ys : List ℕ) (r : ℕ)
    → IsBytes xs
    → IsBytes ys
    → length xs ≡ length ys
    → length xs ≤ 8
    → r < 2 ^ 64
    → foldl shift_byte r xs ≡ foldl shift_byte r ys
    → xs ≡ ys
window_injective xs ys r h k same short hr e =
    let vx : le_value xs < 2 ^ 64 = le_value-lt xs 8 h short in
    let vy : le_value ys < 2 ^ 64 = le_value-lt ys 8 k (omega arith) in
    let shifted =
      sym (fold-le_value xs r h)
      ∙ e
      ∙ fold-le_value ys r k
      ∙ ap (λ n. shift_bits (n * 8) (bit_xor r (le_value ys))) (sym same) in
    le_value_injective xs ys h k same (
      xor_cancel r (le_value xs) (le_value ys) (
        shift_bits_injective (length xs * 8) (bit_xor r (le_value xs)) (bit_xor r (le_value ys))
          (xor-lt_pow 64 r (le_value xs) hr vx) (xor-lt_pow 64 r (le_value ys) hr vy) shifted))

burst :
    (pre post xs ys : List ℕ)
    → IsBytes pre
    → IsBytes post
    → IsBytes xs
    → IsBytes ys
    → length xs ≡ length ys
    → length xs ≤ 8
    → reference_crc (pre ++ xs ++ post) ≡ reference_crc (pre ++ ys ++ post)
    → xs ≡ ys
unfolding reference_crc
burst pre post xs ys hp hq h k same short e =
    let r = foldl shift_byte 0 pre in
    let hr = fold-lt pre 0 hp (omega arith) in
    let unfold_fold = λ (zs : List ℕ).
      foldl-append shift_byte 0 (pre ++ zs) post
      ∙ ap (λ t. foldl shift_byte t post) (foldl-append shift_byte 0 pre zs) in
    window_injective xs ys r h k same short hr (
      fold_injective post (foldl shift_byte r xs) (foldl shift_byte r ys) hq (fold-lt xs r h hr)
        (fold-lt ys r k hr) (sym (unfold_fold xs) ∙ e ∙ unfold_fold ys))

some_eq : (a b : ℕ) → some a ≡ some b → a ≡ b
some_eq a b e = cc

whole :
    (bytes : List ℕ) → IsBytes bytes → util_crc64 bytes (length bytes) ≡ some (reference_crc bytes)
whole bytes h =
    util_crc64-reference bytes (length bytes) h (omega arith)
    ∙ ap (λ t. some (reference_crc t)) (take-length bytes)

zero_first : (bytes : List ℕ) → reference_crc (0 ∷ bytes) ≡ reference_crc bytes
unfolding reference_crc shift_byte
zero_first bytes = refl

-- Two inputs of bytes of the same length that differ only inside a window of at most eight bytes
-- never have the same `util_CRC64`; so the monitor does not take one for the other.
pub util_crc64-burst :
    (pre post xs ys : List ℕ)
    → IsBytes pre
    → IsBytes post
    → IsBytes xs
    → IsBytes ys
    → length xs ≡ length ys
    → length xs ≤ 8
    → xs ≢ ys
    → util_crc64 (pre ++ xs ++ post) (length (pre ++ xs ++ post))
      ≢ util_crc64 (pre ++ ys ++ post) (length (pre ++ ys ++ post))
util_crc64-burst pre post xs ys hp hq h k same short differ e = differ (
    burst pre post xs ys hp hq h k same short
      (some_eq _ _ (sym (whole _ (bytes_of xs h)) ∙ e ∙ whole _ (bytes_of ys k))))
  where
    bytes_of : (zs : List ℕ) → IsBytes zs → IsBytes (pre ++ zs ++ post)
    bytes_of zs hz = IsBytes-append (pre ++ zs) post (IsBytes-append pre zs hp hz) hq

-- The register starts at 0, so zero bytes in front of an input leave no trace: the input with any
-- number of them in front has the `util_CRC64` of the input alone.
util_crc64-leading_zeros :
    (n : ℕ) (bytes : List ℕ)
    → IsBytes bytes
    → util_crc64 (replicate n 0 ++ bytes) (length (replicate n 0 ++ bytes))
      ≡ util_crc64 bytes (length bytes)
util_crc64-leading_zeros n bytes h =
    whole (replicate n 0 ++ bytes) (zeros-IsBytes n h) ∙ ap some (skip n) ∙ sym (whole bytes h)
  where
    zeros-IsBytes : (n : ℕ) → IsBytes bytes → IsBytes (replicate n 0 ++ bytes)
    zeros-IsBytes zero h = h
    zeros-IsBytes (suc n) h = (omega arith, zeros-IsBytes n h)

    skip : (n : ℕ) → reference_crc (replicate n 0 ++ bytes) ≡ reference_crc bytes
    skip zero = refl
    skip (suc n) = zero_first (replicate n 0 ++ bytes) ∙ skip n
