-- ===== src/Crio/IntelHex.antt =====
-- class IntelHex of include/cRIO/IntelHex.h and src/LSST/cRIO/IntelHex.cpp: the memory image that getData
-- assembles from the lines of a file.
pub mod Image
pub mod Lines
use ts_c_riocpp.Common.{
  ℕ, zero, suc, ◌+◌, ◌-◌, ◌%◌, ◌^◌, List, [], ◌∷◌, ◌++◌, Option, none, some, u16, ltb, ◌==◌,
  if◌then◌else◌, length,
}

-- struct IntelHexLine.
pub record IntelHexLine : Type 0 where
  pub address : ℕ
  pub bytes : List ℕ

-- The byte for an address, or an index, that has no data: each fourth byte is not used.
abbrev pub filler : ℕ → ℕ
filler i = if i % 4 == 3 then 0x00 else 0xff

unfoldable pub filling : ℕ → ℕ → List ℕ
filling i zero = []
filling i (suc n) = filler i ∷ filling (i + 1) n

-- The loop over the lines, from lastCopied on: what is appended to the result.
unfoldable pub copy_lines : ℕ → List IntelHexLine → List ℕ
unfolding filling
copy_lines last [] = []
copy_lines last (h ∷ hs) =
    filling last (h.address - last) ++ (h.bytes ++ copy_lines (u16 (h.address + length h.bytes)) hs)

-- The start address and the data. `sort` is std::sort by the address, which leaves open the order of lines
-- whose addresses are equal. front() of no lines is undefined.
unfoldable pub get_data :
    (List IntelHexLine → List IntelHexLine) → List IntelHexLine → Option (ℕ × List ℕ)
unfolding copy_lines
get_data sort lines = elim (sort lines) [
  | [] ↦ none
  | h ∷ hs ↦ some (h.address, copy_lines h.address (h ∷ hs))
]
