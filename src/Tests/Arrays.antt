-- ===== src/Tests/Arrays.antt =====
-- Integers that are read from arrays.
use ts_c_riocpp.Common.{◌<◌, ◌^◌, ◌≡◌, refl, arith, value}
use ts_c_riocpp.Crio.ArrayUtilities.{Memory, i64_at, u64_at}
use ts_c_riocpp.Crio.ArrayUtilities.BigEndian.{eight_bytes, u64_at-i64_at_lem}

-- The bytes of -1.
abbrev ones : Memory
ones k = 255

u64_at-i64_at_example : (u64_at ones 3 ≡ value (eight_bytes ones 3)) × (i64_at ones 3 < 2 ^ 62)
u64_at-i64_at_example = u64_at-i64_at_lem ones 3 (λ k. omega arith)

minus_one : (u64_at ones 3 ≡ 0xFFFFFFFFFFFFFFFF) × (i64_at ones 3 ≡ 0x3FFFFFFFFFFFFFFF)
unfolding u64_at i64_at
minus_one = (refl, refl)
