-- ===== src/Crio/IntelHex/Lines/Load.antt =====
-- Which lines of a file are loaded.
use ts_c_riocpp.Common.{
  ℕ, ◌+◌, ◌-◌, ◌*◌, ◌%◌, ◌≡◌, refl, sym, ap, ap₂, ◌∙◌, List, [], ◌∷◌, ◌++◌, map, Bool, true, false,
  not, ◌&&◌, ◌==◌, if◌then◌else◌, arith, length, IsByte, All, Option, none, some, Bool-cases, inl,
  inr, append-nil, append_assoc,
}
use ts_c_riocpp.Modbus.Exceptions.{ok, M, ◌>>=◌, pure}
use ts_c_riocpp.Crio.IntelHex.{IntelHexLine}
use ts_c_riocpp.Crio.IntelHex.Lines.{
  byte_sum, process_line, IntelHex, data_record, end_of_file, extended_linear_address, above_64k,
  take_record, load_lines, load,
}
use ts_c_riocpp.Crio.IntelHex.Lines.Verdict.{total, line_text, process_line_lem}

-- A record of a file, with what stands behind its checksum, as a carriage return.
pub record HexRecord : Type 0 where
  pub hi : ℕ
  pub lo : ℕ
  pub record_type : ℕ
  pub bytes : List ℕ
  pub behind : List ℕ

pub record IsWritable (r : HexRecord) : Type 0 where
  pub short : IsByte (length r.bytes)
  pub hi_byte : IsByte r.hi
  pub lo_byte : IsByte r.lo
  pub type_byte : IsByte r.record_type
  pub all_bytes : All IsByte r.bytes
  pub extension_size : r.record_type ≡ extended_linear_address → length r.bytes ≡ 2

-- The two's complement of the sum of the other bytes.
unfoldable pub checksum : HexRecord → ℕ
unfolding byte_sum
checksum r = (256 - total (length r.bytes) r.hi r.lo r.record_type r.bytes 0 % 256) % 256

unfoldable pub record_text : HexRecord → List ℕ
unfolding line_text checksum
record_text r = line_text r.hi r.lo r.record_type r.bytes (checksum r) r.behind

abbrev pub line_of : HexRecord → IntelHexLine
line_of r = record { address = r.hi * 256 + r.lo; bytes = r.bytes }

-- The data records up to the end of the file that are in the first 64 KB. `above` says that the last
-- extended address has been another.
abbrev pub kept : Bool → List HexRecord → List IntelHexLine
kept above [] = []
kept above (r ∷ rs) =
    if r.record_type == end_of_file
    then []
    else (if r.record_type == extended_linear_address
        then kept (above_64k r.bytes) rs
        else (if (r.record_type == data_record) && not above
            then line_of r ∷ kept above rs
            else kept above rs))

-- The lines up to the end of the file.
abbrev pub lines_read : List HexRecord → ℕ
lines_read [] = 0
lines_read (r ∷ rs) = if r.record_type == end_of_file then 1 else 1 + lines_read rs

process_line-record_text :
    {S : Type 0} (line_no : ℕ) (r : HexRecord) (s : S)
    → IsWritable r
    → process_line line_no (record_text r) s ≡ ok (line_of r, r.record_type) s
unfolding record_text checksum
process_line-record_text line_no r s w =
    process_line_lem line_no r.hi r.lo r.record_type (checksum r) r.bytes r.behind s w.short
      w.hi_byte w.lo_byte w.type_byte (omega arith) w.all_bytes
    ∙ rw (complement) refl
  where
    complement :
        (total (length r.bytes) r.hi r.lo r.record_type r.bytes (checksum r) % 256 == 0) ≡ true
    complement = ground arith

abbrev stored : IntelHex → List IntelHexLine → ℕ → IntelHex
stored s hs n = record { hex_data = s.hex_data ++ hs; line_no = s.line_no + n }

-- What is stored for a record, and what `extensionData` is behind it.
one : Bool → HexRecord → List IntelHexLine
one above r = if (r.record_type == data_record) && not above then line_of r ∷ [] else []

going : Bool → HexRecord → Option Bool
going above r =
    if r.record_type == data_record
    then some above
    else (if r.record_type == extended_linear_address
        then some (above_64k r.bytes)
        else (if r.record_type == end_of_file then none else some above))

extension-two :
    (r : HexRecord)
    → IsWritable r
    → (r.record_type == extended_linear_address) ≡ true
    → (length r.bytes == 2) ≡ true
extension-two r w x = ground (arith, w.extension_size)

take_record_lem :
    (n : ℕ) (above : Bool) (r : HexRecord) (s : IntelHex)
    → IsWritable r
    → take_record n above (line_of r) r.record_type s
      ≡ ok (going above r) (record s { hex_data = s.hex_data ++ one above r })
unfolding take_record one going
take_record_lem n true r s w = elim (Bool-cases (r.record_type == data_record)) [
  | inl d ↦ rw (d, append-nil (s.hex_data)) refl
  | inr d ↦ elim (Bool-cases (r.record_type == extended_linear_address)) [
    | inl x ↦ rw (d, x, extension-two r w x, append-nil (s.hex_data)) refl
    | inr x ↦ elim (Bool-cases (r.record_type == end_of_file)) [
      | inl e ↦ rw (d, x, e, append-nil (s.hex_data)) refl
      | inr e ↦ rw (d, x, e, append-nil (s.hex_data)) refl
    ]
  ]
]
take_record_lem n false r s w = elim (Bool-cases (r.record_type == data_record)) [
  | inl d ↦ rw d refl
  | inr d ↦ elim (Bool-cases (r.record_type == extended_linear_address)) [
    | inl x ↦ rw (d, x, extension-two r w x, append-nil (s.hex_data)) refl
    | inr x ↦ elim (Bool-cases (r.record_type == end_of_file)) [
      | inl e ↦ rw (d, x, e, append-nil (s.hex_data)) refl
      | inr e ↦ rw (d, x, e, append-nil (s.hex_data)) refl
    ]
  ]
]

kept-cons :
    (above : Bool) (r : HexRecord) (rs : List HexRecord)
    → kept above (r ∷ rs) ≡ one above r ++ elim (going above r) [ none ↦ [] | some e ↦ kept e rs ]
unfolding one going
kept-cons above r rs = ground arith

lines_read-cons :
    (above : Bool) (r : HexRecord) (rs : List HexRecord)
    → lines_read (r ∷ rs) ≡ 1 + elim (going above r) [ none ↦ 0 | some e ↦ lines_read rs ]
unfolding one going
lines_read-cons above r rs = ground arith

module _ (above : Bool) (r : HexRecord) (rs : List HexRecord) (s : IntelHex) where
  behind_record : IntelHex
  behind_record = record { hex_data = s.hex_data ++ one above r; line_no = s.line_no + 1 }

  go_on :
      ((b : Bool)
        → load_lines b (map record_text rs) behind_record
          ≡ ok tt (stored behind_record (kept b rs) (lines_read rs)))
      → (g : Option Bool)
      → (elim g as (λ _. M IntelHex (Unit {0})) [
        | none ↦ pure tt
        | some e ↦ load_lines e (map record_text rs)
      ])
          behind_record
        ≡ ok tt (
            stored s
              (one above r ++ elim g [ none ↦ [] | some e ↦ kept e rs ])
              (1 + elim g [ none ↦ 0 | some e ↦ lines_read rs ]))
  unfolding behind_record
  go_on ih none =
      ap (λ hs. ok tt (record { hex_data = s.hex_data ++ hs; line_no = s.line_no + 1 }))
        (sym (append-nil (one above r)))
  go_on ih (some b) =
      ih b
      ∙ ap₂ (λ hs n. ok tt (record { hex_data = hs; line_no = n }))
          (append_assoc (s.hex_data) (one above r) (kept b rs)) (omega arith)

load_lines_lem :
    (rs : List HexRecord) (above : Bool) (s : IntelHex)
    → All IsWritable rs
    → load_lines above (map record_text rs) s ≡ ok tt (stored s (kept above rs) (lines_read rs))
unfolding load_lines behind_record
load_lines_lem [] above s w =
    ap₂ (λ hs n. ok tt (record { hex_data = hs; line_no = n })) (sym (append-nil (s.hex_data)))
      (omega arith)
load_lines_lem (r ∷ rs) above s w =
    let s1 : IntelHex = record s { line_no = s.line_no + 1 } in
    rw (process_line-record_text (s.line_no + 1) r s1 w.0, ◌>>=◌)
      (rw (take_record_lem (s.line_no + 1) above r s1 w.0, ◌>>=◌)
        (rw (kept-cons above r rs, lines_read-cons above r rs)
          (go_on above r rs s (λ b. load_lines_lem rs b (behind_record above r rs s) w.1)
            (going above r))))

-- load of the lines of records that are written with their checksums ends without an exception: the
-- lines that it keeps are the data records, in order, that stand before the end of the file and behind
-- no extended address but 0, each with its address and its data; and the lines up to the end of the file
-- have been read.
pub load_lem :
    (rs : List HexRecord) (s : IntelHex)
    → All IsWritable rs
    → load (map record_text rs) s
      ≡ ok tt (record { hex_data = kept false rs; line_no = lines_read rs })
unfolding load
load_lem rs s w =
    load_lines_lem rs false (record { hex_data = []; line_no = 0 }) w
    ∙ ap (λ n. ok tt (record { hex_data = kept false rs; line_no = n })) (omega arith)
