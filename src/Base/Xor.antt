-- ===== src/Base/Xor.antt =====
-- The laws of `^` on unsigned words, at every width. The native operation is a recursion on binary
-- digits with fuel; here the fuel is dropped and each law goes from `a / 2` to `a`.
use Prim.Native.Nat.{ℕ, zero, suc, ◌+◌, ◌-◌, ◌*◌, ◌/◌, ◌%◌, ◌^◌, ◌≤◌, ◌<◌, bit_xor}
use Prim.Native.Nat.{digits, bit_xor-bitwise, differ}
use mathlib.Core.Path.{◌≡◌, refl, ap, sym, ◌∙◌}
use native.Mathlib.Nat.{pow-suc}
use native.Mathlib.Omega.{arith}

abbrev xor_digits : ℕ → ℕ → ℕ → ℕ
xor_digits = digits (λ rest. rest) differ

-- One digit more than the first number has is no digit.
spare_digit : (n a b : ℕ) → a ≤ n → xor_digits (suc n) a b ≡ xor_digits n a b
spare_digit n zero b le = elim n as (λ n. xor_digits (suc n) 0 b ≡ xor_digits n 0 b) [
  | zero ↦ refl
  | suc m ↦ refl
]
spare_digit zero (suc a) b le = absurd (omega arith)
spare_digit (suc n) (suc a) b le =
    ap (λ t. t * 2 + differ (suc a % 2) (b % 2)) (spare_digit n (suc a / 2) (b / 2) (omega arith))

spare_digits : (d m a b : ℕ) → a + d ≡ m → xor_digits m a b ≡ bit_xor a b
spare_digits zero m a b e = let same : m ≡ a = omega arith in rw same (sym (bit_xor-bitwise a b))
spare_digits (suc d) m a b e =
    let before : m ≡ suc (a + d) = omega arith in
    rw before (spare_digit (a + d) a b (omega arith) ∙ spare_digits d (a + d) a b refl)

differ-mod : (a b : ℕ) → a < 2 → b < 2 → differ a b ≡ (a + b) % 2
differ-mod zero b h k = omega arith
differ-mod (suc zero) zero h k = refl
differ-mod (suc zero) (suc zero) h k = refl
differ-mod (suc zero) (suc (suc b)) h k = absurd (omega arith)
differ-mod (suc (suc a)) b h k = absurd (omega arith)

-- One step: the lowest digit, and the rest.
pub xor_step : (a b : ℕ) → bit_xor a b ≡ bit_xor (a / 2) (b / 2) * 2 + (a + b) % 2
xor_step zero b = simp bit_xor-bitwise (omega arith)
xor_step (suc a) b =
    let rest = spare_digits (a - suc a / 2) a (suc a / 2) (b / 2) (omega arith) in
    let digit = differ-mod (suc a % 2) (b % 2) (omega arith) (omega arith) in
    omega (arith, bit_xor-bitwise (suc a) b, rest, digit)

pub xor-div_two : (a b : ℕ) → bit_xor a b / 2 ≡ bit_xor (a / 2) (b / 2)
xor-div_two a b = omega (arith, xor_step a b)

pub xor-mod_two : (a b : ℕ) → bit_xor a b % 2 ≡ (a + b) % 2
xor-mod_two a b = omega (arith, xor_step a b)

-- A statement about three words that holds at 0 and goes from the halves to the whole.
halving {ℓ} :
    (P : ℕ → ℕ → ℕ → Type ℓ)
    → P 0 0 0
    → ((a b c : ℕ) → P (a / 2) (b / 2) (c / 2) → P a b c)
    → (n a b c : ℕ) → a ≤ n
    → b ≤ n
    → c ≤ n
    → P a b c
halving P base up zero a b c p q r =
    let ea : a ≡ 0 = omega arith in
    let eb : b ≡ 0 = omega arith in let ec : c ≡ 0 = omega arith in rw (ea, eb, ec) base
halving P base up (suc n) a b c p q r =
    up a b c (halving P base up n (a / 2) (b / 2) (c / 2) (omega arith) (omega arith) (omega arith))

pub xor_induction {ℓ} :
    (P : ℕ → ℕ → ℕ → Type ℓ)
    → P 0 0 0
    → ((a b c : ℕ) → P (a / 2) (b / 2) (c / 2) → P a b c)
    → (a b c : ℕ) → P a b c
xor_induction P base up a b c =
    halving P base up (a + b + c) a b c (omega arith) (omega arith) (omega arith)

pub xor_comm : (a b : ℕ) → bit_xor a b ≡ bit_xor b a
xor_comm a b =
    xor_induction (λ a b _. bit_xor a b ≡ bit_xor b a) refl
      (λ a b _ ih. omega (arith, xor_step a b, xor_step b a, ih)) a b 0

pub xor_assoc : (a b c : ℕ) → bit_xor (bit_xor a b) c ≡ bit_xor a (bit_xor b c)
xor_assoc =
    xor_induction (λ a b c. bit_xor (bit_xor a b) c ≡ bit_xor a (bit_xor b c)) refl
      λ a b c ih. omega (
        arith,
        xor_step (bit_xor a b) c,
        xor_step a (bit_xor b c),
        xor-mod_two a b,
        xor-mod_two b c,
        ap (λ t. bit_xor t (c / 2)) (xor-div_two a b),
        ap (λ t. bit_xor (a / 2) t) (xor-div_two b c),
        ih,
      )

pub zero-xor : (b : ℕ) → bit_xor 0 b ≡ b
zero-xor b = bit_xor-bitwise 0 b

pub xor-zero : (a : ℕ) → bit_xor a 0 ≡ a
xor-zero a = xor_comm a 0 ∙ zero-xor a

pub xor_self : (a : ℕ) → bit_xor a a ≡ 0
xor_self a =
    xor_induction (λ a _ _. bit_xor a a ≡ 0) refl (λ a _ _ ih. omega (arith, xor_step a a, ih)) a 0
      0

-- What is or-ed in can be cancelled.
pub xor_cancel : (a b c : ℕ) → bit_xor a b ≡ bit_xor a c → b ≡ c
xor_cancel a b c h = sym (undo b) ∙ ap (bit_xor a) h ∙ undo c
  where
    undo : (x : ℕ) → bit_xor a (bit_xor a x) ≡ x
    undo x = sym (xor_assoc a a x) ∙ ap (λ t. bit_xor t x) (xor_self a) ∙ zero-xor x

-- (a ^ b) ^ (c ^ d) regrouped.
pub xor_swap :
    (a b c d : ℕ) → bit_xor (bit_xor a b) (bit_xor c d) ≡ bit_xor (bit_xor a c) (bit_xor b d)
xor_swap a b c d =
    xor_assoc a b (bit_xor c d)
    ∙ ap (bit_xor a)
        (sym (xor_assoc b c d) ∙ ap (λ t. bit_xor t d) (xor_comm b c) ∙ xor_assoc c b d)
    ∙ sym (xor_assoc a c (bit_xor b d))

-- `(q << k) ^ r` is a sum when `r` fits `k` bits.
pub xor_fields : (k q r : ℕ) → r < 2 ^ k → bit_xor (q * 2 ^ k) r ≡ q * 2 ^ k + r
xor_fields zero q r fits = let e : r ≡ 0 = omega arith in rw e (xor-zero _ ∙ omega arith)
xor_fields (suc k) q r fits =
    let double : q * 2 ^ suc k ≡ 2 * (q * 2 ^ k) =
      omega (arith, ap (λ (t : ℕ). q * t) (pow-suc 2 k)) in
    let rest = xor_fields k q (r / 2) (omega (arith, pow-suc 2 k)) in
    let half : q * 2 ^ suc k / 2 ≡ q * 2 ^ k = omega arith in
    omega (arith, xor_step (q * 2 ^ suc k) r, ap (λ t. bit_xor t (r / 2)) half, rest)

pub xor-lt_pow : (k a b : ℕ) → a < 2 ^ k → b < 2 ^ k → bit_xor a b < 2 ^ k
xor-lt_pow zero a b h g =
    let e : a ≡ 0 = omega arith in let e' : b ≡ 0 = omega arith in rw (e, e') (omega arith)
xor-lt_pow (suc k) a b h g = omega (
  arith,
  xor_step a b,
  pow-suc 2 k,
  xor-lt_pow k (a / 2) (b / 2) (omega (arith, pow-suc 2 k)) (omega (arith, pow-suc 2 k)),
)
