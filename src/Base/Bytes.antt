-- ===== src/Base/Bytes.antt =====
-- Bytes, and the numbers that they stand for.
use Prim.Native.Nat.{ℕ, zero, suc, ◌+◌, ◌*◌, ◌^◌, ◌<◌, ◌≤◌}
use native.Mathlib.Nat.{one-le-pow, pow-suc}
use mathlib.Core.List.{List, [], ◌∷◌}
use native.Mathlib.Omega.{arith}
use fuzz_monitor.Base.Lists.{length, take, drop, All}

abbrev pub IsBytes : List ℕ → Type 0
IsBytes = All (λ b. b < 256)

pub IsBytes-take : (n : ℕ) (xs : List ℕ) → IsBytes xs → IsBytes (take n xs)
IsBytes-take zero xs h = tt
IsBytes-take (suc n) [] h = tt
IsBytes-take (suc n) (x ∷ xs) h = (h.0, IsBytes-take n xs h.1)

pub IsBytes-drop : (n : ℕ) (xs : List ℕ) → IsBytes xs → IsBytes (drop n xs)
IsBytes-drop zero xs h = h
IsBytes-drop (suc n) [] h = tt
IsBytes-drop (suc n) (x ∷ xs) h = IsBytes-drop n xs h.1

-- The bytes as one number, the first byte lowest.
unfoldable pub le_value : List ℕ → ℕ
le_value [] = 0
le_value (b ∷ bs) = le_value bs * 256 + b

pub le_value-lt : (bs : List ℕ) (n : ℕ) → IsBytes bs → length bs ≤ n → le_value bs < 256 ^ n
unfolding le_value
le_value-lt [] n h fits = omega (arith, one-le-pow n 256)
le_value-lt (b ∷ bs) zero h fits = absurd (omega arith)
le_value-lt (b ∷ bs) (suc n) h fits =
    omega (arith, le_value-lt bs n h.1 (omega arith), pow-suc 256 n)
