-- ===== src/Tests/Firmware.antt =====
-- A small firmware image.
use ts_c_riocpp.Common.{
  ℕ, ◌+◌, ◌-◌, ◌/◌, ◌<◌, ◌≡◌, refl, List, [], ◌∷◌, arith, map, some, length, get_elem?, ltb,
  if◌then◌else◌,
}
use mathlib.Core.List.{Memᴰ, Permᴰ}
use ts_c_riocpp.Crio.IntelHex.{IntelHexLine, filler, get_data}
use ts_c_riocpp.Crio.IntelHex.Image.{Unused, end_of, get_data_lem}
use ts_c_riocpp.Crio.IntelHex.Lines.{byte_sum, process_line, load}
use ts_c_riocpp.Crio.IntelHex.Lines.Verdict.{line_text, process_line_lem}
use ts_c_riocpp.Crio.IntelHex.Lines.Load.{HexRecord, record_text, load_lem}
use ts_c_riocpp.Modbus.Exceptions.{ok, throw, load_error, checksum_mismatch}
use ts_c_riocpp.Crio.PrintIlc.{aligned, write_hex}
use ts_c_riocpp.Crio.PrintIlc.Pages.{program, sent, ArePages, write_hex_lem}

abbrev low : IntelHexLine
low = record { address = 0x100; bytes = 1 ∷ 2 ∷ [] }

abbrev high : IntelHexLine
high = record { address = 0x105; bytes = 3 ∷ [] }

-- Insertion behind the lines of the same address.
abbrev insert : IntelHexLine → List IntelHexLine → List IntelHexLine
insert h [] = h ∷ []
insert h (x ∷ xs) =
    let rest = insert h xs in if ltb h.address x.address then h ∷ x ∷ xs else x ∷ rest

abbrev sort_lines : List IntelHexLine → List IntelHexLine
sort_lines [] = []
sort_lines (x ∷ xs) = insert x (sort_lines xs)

get_data_example :
    (bytes : List ℕ) × (get_data sort_lines (high ∷ low ∷ []) ≡ some (0x100, bytes))
    × ((h : IntelHexLine) (j : ℕ)
        → Memᴰ h (high ∷ low ∷ [])
        → j < length h.bytes
        → get_elem? bytes (h.address - 0x100 + j) ≡ get_elem? h.bytes j)
    × ((k : ℕ)
        → Unused (0x100 + k) (low ∷ high ∷ [])
        → 0x100 + k < end_of 0x100 (low ∷ high ∷ [])
        → get_elem? bytes k ≡ some (filler (0x100 + k)))
get_data_example =
    get_data_lem sort_lines (high ∷ low ∷ []) low (high ∷ []) (Permᴰ.swap refl refl) refl
      (omega arith)

write_hex_example :
    let ps = (write_hex 0x100 (1 ∷ 2 ∷ 0xff ∷ 0 ∷ 0xff ∷ 3 ∷ [])).pages in
    (sent ps ≡ program (aligned (1 ∷ 2 ∷ 0xff ∷ 0 ∷ 0xff ∷ 3 ∷ [])))
    × (length ps ≡ (6 + 255) / 256)
    × ArePages 0x100 ps
write_hex_example = write_hex_lem 0x100 (1 ∷ 2 ∷ 0xff ∷ 0 ∷ 0xff ∷ 3 ∷ [])

-- ":02010000" with the bytes 1 and 2: its checksum is FA, so FB is refused.
process_line_lem_example :
    process_line {S = Unit {0}} 7 (line_text 0x01 0x00 0 (1 ∷ 2 ∷ []) 0xFB (13 ∷ [])) tt
    ≡ throw (load_error 7 0x100 (checksum_mismatch 0xFB 0xFA)) tt
unfolding byte_sum
process_line_lem_example =
    process_line_lem 7 0x01 0x00 0 0xFB (1 ∷ 2 ∷ []) (13 ∷ []) tt (omega arith) (omega arith)
      (omega arith) (omega arith) (omega arith) (omega arith)

abbrev upper : HexRecord
upper = record { hi = 0; lo = 0; record_type = 4; bytes = 0 ∷ 1 ∷ []; behind = [] }

abbrev lower : HexRecord
lower = record { hi = 0; lo = 0; record_type = 4; bytes = 0 ∷ 0 ∷ []; behind = 13 ∷ [] }

abbrev row : ℕ → HexRecord
row v = record { hi = 1; lo = 0; record_type = 0; bytes = v ∷ []; behind = [] }

abbrev last_row : HexRecord
last_row = record { hi = 0; lo = 0; record_type = 1; bytes = []; behind = [] }

load_lem_example :
    load
      (map record_text (row 3 ∷ upper ∷ row 4 ∷ lower ∷ row 5 ∷ last_row ∷ row 6 ∷ []))
      (record { hex_data = []; line_no = 9 })
    ≡ ok tt (record {
      hex_data =
          record { address = 0x100; bytes = 3 ∷ [] }
          ∷ record { address = 0x100; bytes = 5 ∷ [] }
          ∷ [];
      line_no = 6;
    })
load_lem_example =
    load_lem (row 3 ∷ upper ∷ row 4 ∷ lower ∷ row 5 ∷ last_row ∷ row 6 ∷ [])
      (record { hex_data = []; line_no = 9 }) (omega arith)
