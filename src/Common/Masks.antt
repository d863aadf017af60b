-- ===== src/Common/Masks.antt =====
-- `|` of fields that do not overlap, `&` with a mask of low ones, and `^` with the low digits, as
-- arithmetic.
use Prim.Native.Nat.{
  ℕ, zero, suc, ◌+◌, ◌-◌, ◌*◌, ◌/◌, ◌%◌, ◌^◌, ◌<◌, bit_and, bit_or, bit_xor, bit_or-bitwise,
}
use mathlib.Core.Path.{◌≡◌, ap}
use native.Mathlib.Omega.{arith}
use native.Mathlib.Nat.{pow-suc, pow-succ', one-le-pow, div-one, div-div-eq-div-mul}
use ts_c_riocpp.Common.Bits.{
  bit_and_low, bit_or_low, bit_xor_low, bit_and-zero, bit_or-zero, bit_xor-zero,
}

shift_in : (q k : ℕ) → q * 2 ^ suc k ≡ 2 * (q * 2 ^ k)
shift_in q k = omega (arith, ap (λ (t : ℕ). q * t) (pow-suc 2 k))

pub bit_or_disjoint : (k q r : ℕ) → r < 2 ^ k → bit_or (q * 2 ^ k) r ≡ q * 2 ^ k + r
bit_or_disjoint zero q r h = ground (arith, bit_or-zero q)
bit_or_disjoint (suc k) q r h = ground (
  arith,
  bit_or_low (q * 2 ^ suc k) r,
  shift_in q k,
  pow-suc 2 k,
  bit_or_disjoint k q (r / 2) (omega (arith, pow-suc 2 k)),
)

-- `|` of numbers below a power of two is below it.
pub bit_or_bound : (k a b : ℕ) → a < 2 ^ k → b < 2 ^ k → bit_or a b < 2 ^ k
bit_or_bound zero zero b ha hb = simp bit_or-bitwise hb
bit_or_bound zero (suc a) b ha hb = absurd (omega arith)
bit_or_bound (suc k) a b ha hb = ground (
  arith,
  bit_or_low a b,
  pow-suc 2 k,
  bit_or_bound k (a / 2) (b / 2) (omega (arith, pow-suc 2 k)) (omega (arith, pow-suc 2 k)),
)

pub bit_xor_clear : (k q r : ℕ) → r < 2 ^ k → bit_xor (q * 2 ^ k + r) r ≡ q * 2 ^ k
bit_xor_clear zero q r h = ground (arith, bit_xor-zero q)
bit_xor_clear (suc k) q r h = ground (
  arith,
  bit_xor_low (q * 2 ^ suc k + r) r,
  shift_in q k,
  pow-suc 2 k,
  bit_xor_clear k q (r / 2) (omega (arith, pow-suc 2 k)),
)

mask_fields : (k q r : ℕ) → r < 2 ^ k → bit_and (q * 2 ^ k + r) (2 ^ k - 1) ≡ r
mask_fields zero q r h = rw bit_and-zero (omega arith)
mask_fields (suc k) q r h = ground (
  arith,
  bit_and_low (q * 2 ^ suc k + r) (2 ^ suc k - 1),
  shift_in q k,
  pow-suc 2 k,
  one-le-pow k 2 (omega arith),
  mask_fields k q (r / 2) (omega (arith, pow-suc 2 k)),
)

-- A mask of `k` low ones is the remainder by `2 ^ k`.
pub bit_and_mask : (k a : ℕ) → bit_and a (2 ^ k - 1) ≡ a % 2 ^ k
bit_and_mask k a =
    ground (arith, one-le-pow k 2 (omega arith), mask_fields k (a / 2 ^ k) (a % 2 ^ k))

pub bit_xor_low_byte : (c : ℕ) → bit_xor c (c % 256) ≡ c / 256 * 256
bit_xor_low_byte c = ground (arith, bit_xor_clear 8 (c / 256) (c % 256) (omega arith))

-- A test of one bit.
pub bit_and_single : (k a : ℕ) → bit_and a (2 ^ k) ≡ a / 2 ^ k % 2 * 2 ^ k
bit_and_single zero a = omega (arith, bit_and_mask 1 a, div-one a)
bit_and_single (suc k) a =
    rw (bit_and_low a (2 ^ suc k), even, half, bit_and_single k (a / 2))
      (omega (
        arith,
        pow-suc 2 k,
        quotient,
        ap (λ (t : ℕ). t % 2 * 2 ^ k) quotient,
        ap (λ (t : ℕ). a / 2 ^ suc k % 2 * t) (pow-suc 2 k),
      ))
  where
    even : 2 ^ suc k % 2 ≡ 0
    even = omega (arith, pow-suc 2 k)

    half : 2 ^ suc k / 2 ≡ 2 ^ k
    half = omega (arith, pow-suc 2 k)

    quotient : a / 2 / 2 ^ k ≡ a / 2 ^ suc k
    quotient = rw pow-succ' (div-div-eq-div-mul a 2 (2 ^ k))

-- A mask above the lowest `k` digits.
pub bit_and_field : (k a m : ℕ) → bit_and a (m * 2 ^ k) ≡ bit_and (a / 2 ^ k) m * 2 ^ k
bit_and_field zero a m = rw (div-one a) (ground arith)
bit_and_field (suc k) a m =
    rw (bit_and_low a (m * 2 ^ suc k), even, half, bit_and_field k (a / 2) m, quotient)
      (omega (arith, shift_in (bit_and (a / 2 ^ suc k) m) k))
  where
    even : m * 2 ^ suc k % 2 ≡ 0
    even = omega (arith, shift_in m k)

    half : m * 2 ^ suc k / 2 ≡ m * 2 ^ k
    half = omega (arith, shift_in m k)

    quotient : a / 2 / 2 ^ k ≡ a / 2 ^ suc k
    quotient = rw pow-succ' (div-div-eq-div-mul a 2 (2 ^ k))
