-- ===== src/Common/Bits.antt =====
-- Laws of `bit_and`, `bit_or` and `bit_xor` at variables. The native operations stand for a recursion
-- on binary digits with fuel; here the fuel is dropped, and one equation is left for the lowest digit.
use Prim.Native.Nat.{
  ℕ, zero, suc, ◌+◌, ◌*◌, ◌/◌, ◌%◌, ◌^◌, ◌≤◌, ◌<◌, min, max, bit_and, bit_or, bit_xor, digits,
  bitwise, differ, bit_and-bitwise, bit_or-bitwise, bit_xor-bitwise,
}
use mathlib.Core.Path.{◌≡◌, refl, sym, ap, ap₂, ◌∙◌}
use native.Mathlib.Omega.{arith}
use native.Mathlib.Nat.{
  pow-succ', one-le-pow, div-div-eq-div-mul, div-one, div-eq_of_lt, lt-div-mul-add,
}

module _ (rest : ℕ → ℕ) (join : ℕ → ℕ → ℕ) where
  -- More fuel than the number has digits changes nothing.
  enough_fuel : (m n x y : ℕ) → x ≤ m → x ≤ n → digits rest join m x y ≡ digits rest join n x y
  enough_fuel zero zero x y p q = refl
  enough_fuel zero (suc n) zero y p q = refl
  enough_fuel zero (suc n) (suc x) y p q = absurd (omega arith)
  enough_fuel (suc m) zero zero y p q = refl
  enough_fuel (suc m) zero (suc x) y p q = absurd (omega arith)
  enough_fuel (suc m) (suc n) zero y p q = refl
  enough_fuel (suc m) (suc n) (suc x) y p q =
      rw (enough_fuel m n (suc x / 2) (y / 2) (omega arith) (omega arith))

  bitwise_low :
      (x y : ℕ)
      → bitwise rest join (suc x) y
        ≡ bitwise rest join (suc x / 2) (y / 2) * 2 + join (suc x % 2) (y % 2)
  bitwise_low x y =
      omega (arith, enough_fuel x (suc x / 2) (suc x / 2) (y / 2) (omega arith) (omega arith))

-- The three operations, one binary digit at a time.
pub bit_and_low : (x y : ℕ) → bit_and x y ≡ bit_and (x / 2) (y / 2) * 2 + min (x % 2) (y % 2)
bit_and_low zero y = simp bit_and-bitwise (omega arith)
bit_and_low (suc x) y = simp bit_and-bitwise (bitwise_low (λ b. 0) min x y)

pub bit_or_low : (x y : ℕ) → bit_or x y ≡ bit_or (x / 2) (y / 2) * 2 + max (x % 2) (y % 2)
bit_or_low zero y = simp bit_or-bitwise (omega arith)
bit_or_low (suc x) y = simp bit_or-bitwise (bitwise_low (λ b. b) max x y)

differ_digits : (x y : ℕ) → x < 2 → y < 2 → differ x y ≡ (x + y) % 2
differ_digits zero y p q = omega arith
differ_digits (suc zero) zero p q = refl
differ_digits (suc zero) (suc zero) p q = refl
differ_digits (suc zero) (suc (suc y)) p q = absurd (omega arith)
differ_digits (suc (suc x)) y p q = absurd (omega arith)

pub bit_xor_low : (x y : ℕ) → bit_xor x y ≡ bit_xor (x / 2) (y / 2) * 2 + (x + y) % 2
bit_xor_low zero y = simp bit_xor-bitwise (omega arith)
bit_xor_low (suc x) y = simp bit_xor-bitwise (
    omega (
      arith,
      bitwise_low (λ b. b) differ x y,
      differ_digits (suc x % 2) (y % 2) (omega arith) (omega arith),
    ))

-- With zero. The recursion of the operations is on the first number.
pub zero-bit_xor : (y : ℕ) → bit_xor 0 y ≡ y
zero-bit_xor y = simp bit_xor-bitwise refl

pub zero-bit_or : (y : ℕ) → bit_or 0 y ≡ y
zero-bit_or y = simp bit_or-bitwise refl

pub zero-bit_and : (y : ℕ) → bit_and 0 y ≡ 0
zero-bit_and y = simp bit_and-bitwise refl

-- Strong induction by fuel: a statement about `x / 2` gives it about `x`.
halving : (P : ℕ → Type 0) → P 0 → ((x : ℕ) → P (x / 2) → P x) → (fuel x : ℕ) → x ≤ fuel → P x
halving P base step fuel zero h = base
halving P base step zero (suc x) h = absurd (omega arith)
halving P base step (suc fuel) (suc x) h =
    step (suc x) (halving P base step fuel (suc x / 2) (omega arith))

pub bit_xor-zero : (x : ℕ) → bit_xor x 0 ≡ x
bit_xor-zero x =
    halving (λ x. bit_xor x 0 ≡ x) refl (λ x ih. omega (arith, bit_xor_low x 0, ih)) x x
      (omega arith)

pub bit_or-zero : (x : ℕ) → bit_or x 0 ≡ x
bit_or-zero x =
    halving (λ x. bit_or x 0 ≡ x) refl (λ x ih. omega (arith, bit_or_low x 0, ih)) x x (omega arith)

pub bit_and-zero : (x : ℕ) → bit_and x 0 ≡ 0
bit_and-zero x =
    halving (λ x. bit_and x 0 ≡ 0) refl (λ x ih. omega (arith, bit_and_low x 0, ih)) x x
      (omega arith)

pub bit_xor_self : (x : ℕ) → bit_xor x x ≡ 0
bit_xor_self x =
    halving (λ x. bit_xor x x ≡ 0) refl (λ x ih. omega (arith, bit_xor_low x x, ih)) x x
      (omega arith)

-- The same `y` twice cancels.
cancel_fuel : (fuel x y : ℕ) → x ≤ fuel → y ≤ fuel → bit_xor (bit_xor x y) y ≡ x
cancel_fuel zero x y p q =
    let e : x ≡ 0 = omega arith in let e' : y ≡ 0 = omega arith in rw (e, e') refl
cancel_fuel (suc fuel) zero zero p q = refl
cancel_fuel (suc fuel) zero (suc y) p q = rw (zero-bit_xor (suc y)) (bit_xor_self (suc y))
cancel_fuel (suc fuel) (suc x) y p q = omega (
  arith,
  bit_xor_low (suc x) y,
  bit_xor_low (bit_xor (suc x) y) y,
  ap (λ (t : ℕ). bit_xor t (y / 2)) halved,
  cancel_fuel fuel (suc x / 2) (y / 2) (omega arith) (omega arith),
)
  where
    halved : bit_xor (suc x) y / 2 ≡ bit_xor (suc x / 2) (y / 2)
    halved = omega (arith, bit_xor_low (suc x) y)

pub bit_xor_cancel : (x y : ℕ) → bit_xor (bit_xor x y) y ≡ x
bit_xor_cancel x y = cancel_fuel (x + y) x y (omega arith) (omega arith)

-- A shift to the right goes inside.
div_pow_suc : (x k : ℕ) → x / 2 ^ suc k ≡ x / 2 / 2 ^ k
div_pow_suc x k = rw pow-succ' (sym (div-div-eq-div-mul x 2 (2 ^ k)))

bit_xor-half : (x y : ℕ) → bit_xor x y / 2 ≡ bit_xor (x / 2) (y / 2)
bit_xor-half x y = omega (arith, bit_xor_low x y)

pub bit_xor_shift : (k x y : ℕ) → bit_xor x y / 2 ^ k ≡ bit_xor (x / 2 ^ k) (y / 2 ^ k)
bit_xor_shift zero x y = div-one (bit_xor x y) ∙ sym (ap₂ bit_xor (div-one x) (div-one y))
bit_xor_shift (suc k) x y =
    rw (div_pow_suc x k, div_pow_suc y k, div_pow_suc (bit_xor x y) k, bit_xor-half x y)
      (bit_xor_shift k (x / 2) (y / 2))

-- No digit comes out above those of the two numbers.
pub bit_xor-lt : (k x y : ℕ) → x < 2 ^ k → y < 2 ^ k → bit_xor x y < 2 ^ k
bit_xor-lt k x y p q = omega (
  arith,
  none_left,
  lt-div-mul-add {a = bit_xor x y} (one-le-pow k 2 (omega arith)),
  ap (λ (t : ℕ). t * 2 ^ k) none_left,
)
  where
    none_left : bit_xor x y / 2 ^ k ≡ 0
    none_left = rw (bit_xor_shift k x y, div-eq_of_lt p, div-eq_of_lt q) refl

pub bit_xor_comm : (x y : ℕ) → bit_xor x y ≡ bit_xor y x
bit_xor_comm x =
    halving (λ x. (y : ℕ) → bit_xor x y ≡ bit_xor y x) (λ y. zero-bit_xor y ∙ sym (bit_xor-zero y))
      (λ x ih y. omega (arith, bit_xor_low x y, bit_xor_low y x, ih (y / 2))) x x (omega arith)

pub bit_or_comm : (x y : ℕ) → bit_or x y ≡ bit_or y x
bit_or_comm x =
    halving (λ x. (y : ℕ) → bit_or x y ≡ bit_or y x) (λ y. zero-bit_or y ∙ sym (bit_or-zero y))
      (λ x ih y. omega (arith, bit_or_low x y, bit_or_low y x, ih (y / 2))) x x (omega arith)

pub bit_and_comm : (x y : ℕ) → bit_and x y ≡ bit_and y x
bit_and_comm x =
    halving (λ x. (y : ℕ) → bit_and x y ≡ bit_and y x) (λ y. zero-bit_and y ∙ sym (bit_and-zero y))
      (λ x ih y. omega (arith, bit_and_low x y, bit_and_low y x, ih (y / 2))) x x (omega arith)
