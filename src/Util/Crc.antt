-- ===== src/Util/Crc.antt =====
-- What the two loops of c_monitor/util.c compute.
use mathlib.Core.List.{reverse-append, reverse-cons}
use fuzz_monitor.Base.{
  IsBytes, IsBytes-take, ℕ, zero, suc, ◌+◌, ◌%◌, ◌^◌, ◌≤◌, ◌<◌, ◌≡◌, refl, sym, ap, ◌∙◌, List, [],
  ◌∷◌, ◌++◌, foldl, reverse, none, some, Option-cases, lt-length_of_get_elem?, inl, inr, get_elem?,
  get_elem?-lt, drop-get, take-get, take-length, length, take, drop, bit_xor, arith,
}
use fuzz_monitor.Base.Xor.{xor-lt_pow}
use fuzz_monitor.Util.Bitwise.{
  shift_byte, reference_crc, table_lem, shift_byte-table, shift_bits-lt,
}
use fuzz_monitor.Util.{crc64_round, crc64_loop, util_crc64, crc64_rev_loop, util_crc64_rev}

IsBytes-get : (buf : List ℕ) (i : ℕ) {b : ℕ} → IsBytes buf → get_elem? buf i ≡ some b → b < 256
IsBytes-get [] i h e = cc
IsBytes-get (x ∷ xs) zero h e = ground (arith, h.0)
IsBytes-get (x ∷ xs) (suc i) h e = IsBytes-get xs i h.1 e

round_lem :
    (buf : List ℕ) (i res : ℕ) {b : ℕ}
    → IsBytes buf
    → get_elem? buf i ≡ some b
    → crc64_round buf i res ≡ some (shift_byte res b)
unfolding crc64_round
round_lem buf i res {b} h e =
    let small : b < 256 = IsBytes-get buf i h e in
    let x = bit_xor (res % 256) b in
    rw (
      e,
      table_lem x (xor-lt_pow 8 (res % 256) b (omega arith) small),
      shift_byte-table res b small,
    )

loop_lem :
    (buf : List ℕ) (left i res : ℕ)
    → IsBytes buf
    → i + left ≤ length buf
    → crc64_loop buf left i res ≡ some (foldl shift_byte res (take left (drop i buf)))
unfolding crc64_loop
loop_lem buf zero i res h fits = refl
loop_lem buf (suc left) i res h fits =
    let (b, e) = get_elem?-lt buf i (omega arith) in
    rw (round_lem buf i res h e, drop-get buf i e)
      (loop_lem buf left (i + 1) (shift_byte res b) h (omega arith))

rev_loop_lem :
    (buf : List ℕ) (n res : ℕ)
    → IsBytes buf
    → n ≤ length buf
    → crc64_rev_loop buf n res ≡ some (foldl shift_byte res (reverse (take n buf)))
unfolding crc64_rev_loop
rev_loop_lem buf zero res h fits = refl
rev_loop_lem buf (suc i) res h fits =
    let (b, e) = get_elem?-lt buf i (omega arith) in
    rw (round_lem buf i res h e, take-get buf i e, reverse-append (take i buf) (b ∷ []))
      (rev_loop_lem buf i (shift_byte res b) h (omega arith))

-- On a buffer of at least `len` bytes the table-driven loop reads no byte and no table entry out of
-- bounds, and returns the CRC that the bit-by-bit register gives for the first `len` bytes.
pub util_crc64-reference :
    (buf : List ℕ) (len : ℕ)
    → IsBytes buf
    → len ≤ length buf
    → util_crc64 buf len ≡ some (reference_crc (take len buf))
unfolding util_crc64 reference_crc
util_crc64-reference buf len h fits = loop_lem buf len 0 0 h (omega arith)

loop-none :
    (buf : List ℕ) (left i res : ℕ)
    → i ≤ length buf
    → length buf < i + left
    → crc64_loop buf left i res ≡ none
unfolding crc64_loop crc64_round
loop-none buf zero i res inside beyond = absurd (omega arith)
loop-none buf (suc left) i res inside beyond = elim (Option-cases (get_elem? buf i)) [
  | inl out ↦ rw (out, crc64_loop, crc64_round) refl
  | inr (b, at) ↦
      let next = lt-length_of_get_elem? buf i at in
      elim (Option-cases (crc64_round buf i res)) [
        | inl out ↦ rw (out, crc64_loop) refl
        | inr (res', e) ↦
            rw (e, crc64_loop) (loop-none buf left (i + 1) res' (omega arith) (omega arith))
      ]
]

-- `util_CRC64` of more bytes than the buffer has reads beyond it.
pub util_crc64-none : (buf : List ℕ) (len : ℕ) → length buf < len → util_crc64 buf len ≡ none
unfolding util_crc64
util_crc64-none buf len beyond = loop-none buf len 0 0 (omega arith) (omega arith)

pub IsBytes-append : (xs ys : List ℕ) → IsBytes xs → IsBytes ys → IsBytes (xs ++ ys)
IsBytes-append [] ys h k = k
IsBytes-append (x ∷ xs) ys h k = (h.0, IsBytes-append xs ys h.1 k)

IsBytes-reverse : (xs : List ℕ) → IsBytes xs → IsBytes (reverse xs)
IsBytes-reverse [] h = tt
IsBytes-reverse (x ∷ xs) h =
    rw (reverse-cons x xs) (IsBytes-append (reverse xs) (x ∷ []) (IsBytes-reverse xs h.1) (h.0, tt))

-- On a whole buffer of bytes `util_CRC64Rev` is `util_CRC64` of the bytes in reverse order.
pub util_crc64_rev-reverse :
    (buf : List ℕ)
    → IsBytes buf
    → util_crc64_rev buf (length buf) ≡ util_crc64 (reverse buf) (length (reverse buf))
unfolding util_crc64_rev reference_crc
util_crc64_rev-reverse buf h =
    rev_loop_lem buf (length buf) 0 h (omega arith)
    ∙ ap (λ t. some (foldl shift_byte 0 (reverse t))) (take-length buf)
    ∙ ap (λ t. some (foldl shift_byte 0 t)) (sym (take-length (reverse buf)))
    ∙ sym (
        util_crc64-reference (reverse buf) (length (reverse buf)) (IsBytes-reverse buf h)
          (omega arith))

pub shift_byte-lt : (r byte : ℕ) → r < 2 ^ 64 → byte < 256 → shift_byte r byte < 2 ^ 64
unfolding shift_byte
shift_byte-lt r byte h k = shift_bits-lt 8 (bit_xor r byte) (xor-lt_pow 64 r byte h (omega arith))

pub fold-lt :
    (bytes : List ℕ) (r : ℕ) → IsBytes bytes → r < 2 ^ 64 → foldl shift_byte r bytes < 2 ^ 64
fold-lt [] r h k = k
fold-lt (b ∷ bytes) r h k = fold-lt bytes (shift_byte r b) h.1 (shift_byte-lt r b k h.0)

-- Whatever `util_CRC64` returns for a buffer of bytes fits a `uint64_t`.
util_crc64-lt :
    (buf : List ℕ) (len : ℕ) {crc : ℕ}
    → IsBytes buf
    → len ≤ length buf
    → util_crc64 buf len ≡ some crc
    → crc < 2 ^ 64
unfolding reference_crc
util_crc64-lt buf len h fits e =
    let bound = fold-lt (take len buf) 0 (IsBytes-take len buf h) (omega arith) in
    ground (arith, util_crc64-reference buf len h fits)
