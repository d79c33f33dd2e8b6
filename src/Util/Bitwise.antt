-- ===== src/Util/Bitwise.antt =====
-- The CRC of c_monitor/util.c one bit at a time: the register is divided by the ISO 3309 generator
-- in reflected form. The table of c_monitor/util.c holds eight such steps for each byte.
use fuzz_monitor.Base.{
  ℕ, zero, suc, ◌*◌, ◌/◌, ◌%◌, ◌^◌, ◌<◌, ◌≡◌, refl, sym, ap, ◌∙◌, Bool, true, false, ◌&&◌, ◌==◌,
  ==_iff, if◌then◌else◌, List, foldl, Option, none, some, get_elem?, bit_xor, arith,
}
use fuzz_monitor.Base.Xor.{
  xor-mod_two, xor-div_two, xor_comm, xor_swap, xor_assoc, xor_self, xor-zero, xor_fields,
  xor-lt_pow, xor_cancel,
}
use native.Mathlib.Nat.{pow-suc}
use fuzz_monitor.Util.Table.{util_crc64_iso_poly}

-- x^64 + x^4 + x^3 + x + 1, lowest power in the highest bit.
abbrev pub generator : ℕ
generator = 0xd800000000000000

pub shift_bit : ℕ → ℕ
shift_bit r = if r % 2 == 1 then bit_xor (r / 2) generator else r / 2

unfoldable pub shift_bits : ℕ → ℕ → ℕ
shift_bits zero r = r
shift_bits (suc k) r = shift_bits k (shift_bit r)

-- Eight bits of the message.
unfoldable pub shift_byte : ℕ → ℕ → ℕ
unfolding shift_bits shift_bit
shift_byte r byte = shift_bits 8 (bit_xor r byte)

-- The reference CRC of a message: the register starts at 0 and takes in byte after byte.
unfoldable pub reference_crc : List ℕ → ℕ
unfolding shift_byte
reference_crc bytes = foldl shift_byte 0 bytes

shift_bit-xor : (a b : ℕ) → shift_bit (bit_xor a b) ≡ bit_xor (shift_bit a) (shift_bit b)
unfolding shift_bit
shift_bit-xor a b = ground (
  arith,
  xor-mod_two a b,
  xor-div_two a b,
  xor_assoc (a / 2) (b / 2) generator,
  xor_assoc (a / 2) generator (b / 2),
  xor_comm (b / 2) generator,
  xor_swap (a / 2) generator (b / 2) generator,
  xor_self generator,
  xor-zero (bit_xor (a / 2) (b / 2)),
)

pub shift_bits-xor :
    (k a b : ℕ) → shift_bits k (bit_xor a b) ≡ bit_xor (shift_bits k a) (shift_bits k b)
unfolding shift_bits
shift_bits-xor zero a b = refl
shift_bits-xor (suc k) a b =
    ap (shift_bits k) (shift_bit-xor a b) ∙ shift_bits-xor k (shift_bit a) (shift_bit b)

-- Zero bits below a word are shifted out without a trace.
pub shift_bits-shl : (k q : ℕ) → shift_bits k (q * 2 ^ k) ≡ q
unfolding shift_bits shift_bit
shift_bits-shl zero q = omega arith
shift_bits-shl (suc k) q =
    let double : q * 2 ^ suc k ≡ 2 * (q * 2 ^ k) =
      omega (arith, ap (λ (t : ℕ). q * t) (pow-suc 2 k)) in
    let step : shift_bit (q * 2 ^ suc k) ≡ q * 2 ^ k = ground arith in
    ap (shift_bits k) step ∙ shift_bits-shl k q

-- The whole table at once: entry `k` is the register `k` after eight steps.
holds : Option ℕ → ℕ → Bool
holds none word = false
holds (some entry) word = entry == word

holds_sound : (entry : Option ℕ) (word : ℕ) → holds entry word ≡ true → entry ≡ some word
unfolding holds
holds_sound none word h = cc
holds_sound (some entry) word h = ap some ((==_iff entry word).0 h)

table_row : ℕ → Bool
unfolding holds
table_row k = holds (get_elem? util_crc64_iso_poly k) (shift_bits 8 k)

rows_below : ℕ → Bool
rows_below zero = true
rows_below (suc n) = table_row n && rows_below n

rows_below_sound : (n k : ℕ) → rows_below n ≡ true → k < n → table_row k ≡ true
unfolding rows_below
rows_below_sound zero k h lt = absurd (omega arith)
rows_below_sound (suc n) k h lt = ground (arith, rows_below_sound n k)

table_checked : rows_below 256 ≡ true
unfolding rows_below table_row util_crc64_iso_poly shift_bits shift_bit
table_checked = refl

pub table_lem : (k : ℕ) → k < 256 → get_elem? util_crc64_iso_poly k ≡ some (shift_bits 8 k)
unfolding table_row
table_lem k h =
    holds_sound (get_elem? util_crc64_iso_poly k) (shift_bits 8 k)
      (rows_below_sound 256 k table_checked h)

-- One round of the table-driven loop is eight steps of the register.
pub shift_byte-table :
    (r byte : ℕ)
    → byte < 256
    → shift_byte r byte ≡ bit_xor (shift_bits 8 (bit_xor (r % 256) byte)) (r / 256)
unfolding shift_byte
shift_byte-table r byte h =
    let split : bit_xor (r / 256 * 256) (r % 256) ≡ r =
      xor_fields 8 (r / 256) (r % 256) (omega arith) ∙ omega arith in
    ap (λ t. shift_bits 8 (bit_xor t byte)) (sym split)
    ∙ ap (shift_bits 8) (xor_assoc (r / 256 * 256) (r % 256) byte)
    ∙ shift_bits-xor 8 (r / 256 * 256) (bit_xor (r % 256) byte)
    ∙ ap (λ t. bit_xor t (shift_bits 8 (bit_xor (r % 256) byte))) (shift_bits-shl 8 (r / 256))
    ∙ xor_comm (r / 256) (shift_bits 8 (bit_xor (r % 256) byte))

shift_bit-lt : (r : ℕ) → r < 2 ^ 64 → shift_bit r < 2 ^ 64
unfolding shift_bit
shift_bit-lt r h = ground (arith, xor-lt_pow 64 (r / 2) generator (omega arith) (omega arith))

pub shift_bits-lt : (k r : ℕ) → r < 2 ^ 64 → shift_bits k r < 2 ^ 64
unfolding shift_bits
shift_bits-lt zero r h = h
shift_bits-lt (suc k) r h = shift_bits-lt k (shift_bit r) (shift_bit-lt r h)

-- Only the zero register is shifted to 0, since the generator has its highest bit set.
shift_bit-eq_zero : (r : ℕ) → r < 2 ^ 64 → shift_bit r ≡ 0 → r ≡ 0
unfolding shift_bit
shift_bit-eq_zero r h e =
    ground (
      arith,
      xor_cancel generator (r / 2) generator,
      xor_comm generator (r / 2),
      xor_self generator,
    )

pub shift_bits-eq_zero : (k r : ℕ) → r < 2 ^ 64 → shift_bits k r ≡ 0 → r ≡ 0
unfolding shift_bits
shift_bits-eq_zero zero r h e = e
shift_bits-eq_zero (suc k) r h e =
    shift_bit-eq_zero r h (shift_bits-eq_zero k (shift_bit r) (shift_bit-lt r h) e)
