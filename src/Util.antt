-- ===== src/Util.antt =====
-- c_monitor/util.c: the CRC-64 of an input, by which the monitor recognises an input it has seen.
-- A buffer is the list of its bytes, and a read outside of it (or of the table) gives `none`.
pub mod Table
pub mod Bitwise
pub mod Crc
pub mod Detect
mod Examples
use fuzz_monitor.Base.{ℕ, zero, suc, ◌+◌, ◌/◌, ◌%◌, List, Option, none, some, get_elem?, bit_xor}
use Table.{util_crc64_iso_poly}

infixl 5 ◌>>=◌
abbrev ◌>>=◌ {ℓ κ} : {A : Type ℓ} {B : Type κ} → Option A → (A → Option B) → Option B
none >>= f = none
some a >>= f = f a

-- One round: `res = util_CRC64ISOPoly[(uint8_t) res ^ buf[i]] ^ (res >> 8)`.
crc64_round : List ℕ → ℕ → ℕ → Option ℕ
crc64_round buf i res = do
  byte ← get_elem? buf i
  word ← get_elem? util_crc64_iso_poly (bit_xor (res % 256) byte)
  some (bit_xor word (res / 256))

-- `for (size_t i = 0; i < len; i++)`, by the rounds that are left.
crc64_loop : List ℕ → ℕ → ℕ → ℕ → Option ℕ
crc64_loop buf zero i res = some res
crc64_loop buf (suc left) i res = crc64_round buf i res >>= crc64_loop buf left (i + 1)

pub util_crc64 : List ℕ → ℕ → Option ℕ
unfolding crc64_loop crc64_round
util_crc64 buf len = crc64_loop buf len 0 0

-- `for (ssize_t i = (ssize_t) len - 1; i >= 0; i--)`: the count is `i + 1`.
crc64_rev_loop : List ℕ → ℕ → ℕ → Option ℕ
crc64_rev_loop buf zero res = some res
crc64_rev_loop buf (suc i) res = crc64_round buf i res >>= crc64_rev_loop buf i

pub util_crc64_rev : List ℕ → ℕ → Option ℕ
unfolding crc64_rev_loop crc64_round
util_crc64_rev buf len = crc64_rev_loop buf len 0
