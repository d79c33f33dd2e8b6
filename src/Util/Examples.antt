-- ===== src/Util/Examples.antt =====
-- Runs of the CRC of c_monitor/util.c, and its theorems at concrete inputs.
use fuzz_monitor.Base.{ℕ, ◌≡◌, ◌≢◌, refl, List, [], ◌∷◌, some, none, length, reverse, take, arith}
use fuzz_monitor.Util.{util_crc64, util_crc64_rev}
use fuzz_monitor.Util.Table.{util_crc64_iso_poly}
use fuzz_monitor.Util.Bitwise.{reference_crc}
use fuzz_monitor.Util.Crc.{util_crc64-reference, util_crc64_rev-reverse}
use fuzz_monitor.Util.Detect.{util_crc64-burst}

-- The check value of CRC-64/GO-ISO without its two inversions.
abbrev digits : List ℕ
digits = b'1' ∷ b'2' ∷ b'3' ∷ b'4' ∷ b'5' ∷ b'6' ∷ b'7' ∷ b'8' ∷ b'9' ∷ []

crc_of_digits : util_crc64 digits 9 ≡ some 0x46a5a9388a5beffe
unfolding util_crc64 util_crc64_iso_poly
crc_of_digits = refl

short_buffer : util_crc64 digits 10 ≡ none
unfolding util_crc64 util_crc64_iso_poly
short_buffer = refl

util_crc64-reference_example : util_crc64 digits 5 ≡ some (reference_crc (take 5 digits))
util_crc64-reference_example = util_crc64-reference digits 5 (omega arith) (omega arith)

util_crc64_rev-reverse_example :
    util_crc64_rev digits (length digits) ≡ util_crc64 (reverse digits) (length (reverse digits))
util_crc64_rev-reverse_example = util_crc64_rev-reverse digits (omega arith)

util_crc64-burst_example :
    util_crc64 (b'1' ∷ b'2' ∷ b'3' ∷ b'4' ∷ []) 4 ≢ util_crc64 (b'1' ∷ b'8' ∷ b'9' ∷ b'4' ∷ []) 4
util_crc64-burst_example =
    util_crc64-burst (b'1' ∷ []) (b'4' ∷ []) (b'2' ∷ b'3' ∷ []) (b'8' ∷ b'9' ∷ []) (omega arith)
      (omega arith) (omega arith) (omega arith) refl (omega arith) (λ e. cc e)
