-- ===== src/Modbus/Crc/Residue.antt =====
-- A message followed by its own CRC, low byte first, leaves the counter at 0.
use ts_c_riocpp.Common.{
  ℕ, zero, suc, ◌*◌, ◌/◌, ◌%◌, ◌^◌, ◌≡◌, refl, ap, List, [], ◌∷◌, ◌++◌, arith, bit_and_mask,
  bit_xor_low_byte, bit_xor_self,
}
use ts_c_riocpp.Modbus.Crc.{Crc, round, rounds, add, add_all, crc_of}
use native.Mathlib.Nat.{pow-suc}

pub add_all-append : (c : Crc) (xs ys : List ℕ) → add_all c (xs ++ ys) ≡ add_all (add_all c xs) ys
unfolding add_all
add_all-append c [] ys = refl
add_all-append c (x ∷ xs) ys = add_all-append (add c x) xs ys

round_even : (q : ℕ) → round (2 * q) ≡ q
unfolding round
round_even q = ground (arith, bit_and_mask 1 (2 * q))

rounds_shift : (n q : ℕ) → rounds n (q * 2 ^ n) ≡ q
unfolding rounds
rounds_shift zero q = omega arith
rounds_shift (suc n) q = rw (even, round_even) (rounds_shift n q)
  where
    even : q * 2 ^ suc n ≡ 2 * (q * 2 ^ n)
    even = omega (arith, ap (λ (t : ℕ). q * t) (pow-suc 2 n))

-- With its own low byte the counter is shifted, with its own value it is cleared.
add_low_byte : (c : Crc) → add c (c % 256) ≡ c / 256
unfolding add
add_low_byte c = rw (bit_xor_low_byte c) (rounds_shift 8 (c / 256))

add_self : (c : Crc) → add c c ≡ 0
unfolding add
add_self c = rw (bit_xor_self c) (rounds_shift 8 0)

-- A message, then the low byte of its CRC, then the high byte: the CRC of the whole is 0.
pub crc_residue : (msg : List ℕ) → crc_of (msg ++ (crc_of msg % 256 ∷ crc_of msg / 256 ∷ [])) ≡ 0
unfolding crc_of
crc_residue msg = rw add_all-append closing
  where
    closing : add_all (crc_of msg) (crc_of msg % 256 ∷ crc_of msg / 256 ∷ []) ≡ 0
    closing = unfold add_all in rw (add_low_byte (crc_of msg)) (add_self (crc_of msg / 256))
