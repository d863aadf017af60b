-- ===== src/Crio/ArrayUtilities.antt =====
-- classes U8ArrayUtilities and U16ArrayUtilities of include/cRIO/U8ArrayUtilities.h and
-- include/cRIO/U16ArrayUtilities.h: integers in arrays, the most significant part first. A buffer is the
-- memory from its pointer on. Signed integers and floats are their bit patterns.
pub mod BigEndian
use ts_c_riocpp.Common.{
  ℕ, ◌+◌, ◌*◌, List, [], ◌∷◌, Option, none, some, bit_or, shl, u8, u16, u32, u64, value, leb,
  if◌then◌else◌,
}

abbrev pub Memory : Type 0
Memory = ℕ → ℕ

-- I8 and U8 have the same bit pattern, as have I16 and U16, and I32 and U32.
unfoldable pub byte_at : Memory → ℕ → ℕ
byte_at buffer index = u8 (buffer index)

unfoldable pub word_at : Memory → ℕ → ℕ
word_at buffer index = u16 (bit_or (shl (buffer index) 8) (buffer (index + 1)))

unfoldable pub long_at : Memory → ℕ → ℕ
long_at buffer index =
    bit_or
      (bit_or (bit_or (u32 (shl (buffer index) 24)) (shl (buffer (index + 1)) 16))
        (shl (buffer (index + 2)) 8))
      (buffer (index + 3))

-- The last six bytes of I64 and U64 behind what the first two make.
unfoldable pub join_low : Memory → ℕ → ℕ → ℕ
join_low buffer index high =
    bit_or
      (bit_or
        (bit_or
          (bit_or (bit_or (bit_or high (shl (buffer (index + 2)) 40)) (shl (buffer (index + 3)) 32))
            (shl (buffer (index + 4)) 24))
          (shl (buffer (index + 5)) 16))
        (shl (buffer (index + 6)) 8))
      (buffer (index + 7))

unfoldable pub i64_at : Memory → ℕ → ℕ
unfolding join_low
i64_at buffer index =
    join_low buffer index (bit_or (u64 (shl (buffer index) 54)) (shl (buffer (index + 1)) 48))

unfoldable pub u64_at : Memory → ℕ → ℕ
unfolding join_low
u64_at buffer index =
    join_low buffer index (bit_or (u64 (shl (buffer index) 56)) (shl (buffer (index + 1)) 48))

-- SGL, on a machine that stores the least significant byte first.
unfoldable pub float_at : Memory → ℕ → ℕ
float_at buffer index =
    value (buffer (index + 3) ∷ buffer (index + 2) ∷ buffer (index + 1) ∷ buffer index ∷ [])

-- u64 of U16ArrayUtilities.
unfoldable pub u64_of_words : Memory → ℕ → ℕ
u64_of_words buffer index =
    bit_or
      (bit_or (bit_or (shl (buffer index) 48) (shl (buffer (index + 1)) 32))
        (shl (buffer (index + 2)) 16))
      (buffer (index + 3))
