-- ===== src/Modbus/Crc.antt =====
-- class CRC of include/Modbus/CRC.h and src/Modbus/CRC.cpp. The object is its counter, a uint16_t.
pub mod Residue
pub mod Detect
use ts_c_riocpp.Common.{
  ℕ, zero, suc, List, [], ◌∷◌, if◌then◌else◌, ◌==◌, bit_and, bit_xor, shr, not,
}

abbrev pub Crc : Type 0
Crc = ℕ

unfoldable pub reset : Crc
reset = 0xFFFF

-- The body of the loop of `add`.
unfoldable pub round : Crc → Crc
round c = if not (bit_and c 0x0001 == 0) then bit_xor (shr c 1) 0xA001 else shr c 1

unfoldable pub rounds : ℕ → Crc → Crc
rounds zero c = c
rounds (suc n) c = rounds n (round c)

unfoldable pub add : Crc → ℕ → Crc
add c d = rounds 8 (bit_xor c d)

unfoldable pub add_all : Crc → List ℕ → Crc
add_all c [] = c
add_all c (d ∷ ds) = add_all (add c d) ds

-- The constructor from a vector of bytes, followed by `get`.
unfoldable pub crc_of : List ℕ → ℕ
crc_of bytes = add_all reset bytes
