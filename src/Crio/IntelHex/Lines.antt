-- ===== src/Crio/IntelHex/Lines.antt =====
-- class IntelHex of include/cRIO/IntelHex.h and src/LSST/cRIO/IntelHex.cpp: the reading of a file.
-- A line is its characters; what stands at its end is the terminating zero of the C string, and nothing
-- may be read behind that. The conversion of sscanf is that of the C standard for "%nX": white space is
-- passed over, and then come a sign, a prefix 0x and digits, of n characters in all.
mod Print
pub mod Verdict
pub mod Lenient
pub mod Load
use ts_c_riocpp.Common.{
  ℕ, zero, suc, ◌+◌, ◌-◌, ◌*◌, ◌/◌, ◌%◌, ◌^◌, List, [], ◌∷◌, ◌++◌, Option, none, some, Bool, true,
  false, not, ◌&&◌, ◌||◌, u8, u16, u32, leb, ltb, ◌==◌, if◌then◌else◌, length,
}
use ts_c_riocpp.Modbus.Exceptions.{
  Error, load_error, LoadFault, no_start_code, no_heading, no_checksum, no_data_byte,
  invalid_extension, checksum_mismatch, Outcome, ok, throw, M, raise, throw_if, ◌>>=◌, ◌>>◌, pure,
}
use ts_c_riocpp.Crio.IntelHex.{IntelHexLine}

abbrev pub is_space : ℕ → Bool
is_space c = (leb 9 c && leb c 13) || (c == 32)

unfoldable pub digit_value : ℕ → Option ℕ
digit_value c =
    if leb b'0' c && leb c b'9'
    then some (c - b'0')
    else (if leb b'A' c && leb c b'F'
        then some (c - 55)
        else (if leb b'a' c && leb c b'f' then some (c - 87) else none))

-- A conversion finds the end of the text, or no number, or a number and the text behind it.
pub data Scan : Type 0 where
  at_end : Scan
  mismatch : Scan
  scanned : ℕ → List ℕ → Scan

-- The digits, of `width` characters at most, with the value of those before them.
unfoldable pub more_digits : ℕ → ℕ → List ℕ → Scan
unfolding digit_value
more_digits zero value cs = scanned value cs
more_digits (suc width) value [] = scanned value []
more_digits (suc width) value (c ∷ cs) = elim (digit_value c) [
  | none ↦ scanned value (c ∷ cs)
  | some d ↦ more_digits width (value * 16 + d) cs
]

unfoldable pub digits : ℕ → List ℕ → Scan
unfolding digit_value more_digits
digits zero cs = mismatch
digits (suc width) [] = mismatch
digits (suc width) (c ∷ cs) = elim (digit_value c) [
  | none ↦ mismatch
  | some d ↦ more_digits width d cs
]

-- The text behind a prefix 0x, if there is one.
unfoldable pub behind_prefix : List ℕ → Option (List ℕ)
behind_prefix (c ∷ x ∷ cs) = if (c == b'0') && ((x == b'x') || (x == b'X')) then some cs else none
behind_prefix cs = none

-- An item 0x that the width ends is no number.
unfoldable pub unsigned_item : ℕ → List ℕ → Scan
unfolding digits behind_prefix
unsigned_item (suc (suc width)) cs = elim (behind_prefix cs) [
  | some rest ↦ digits width rest
  | none ↦ digits (suc (suc width)) cs
]
unsigned_item width cs = digits width cs

-- The negative of an unsigned int.
unfoldable pub negated : Scan → Scan
negated (scanned value cs) = scanned (u32 (2 ^ 32 - value)) cs
negated r = r

unfoldable pub scan_hex : ℕ → List ℕ → Scan
unfolding unsigned_item negated
scan_hex width [] = at_end
scan_hex width (c ∷ cs) =
    let rest = scan_hex width cs in
    if is_space c
    then rest
    else (if c == b'-'
        then negated (unsigned_item (width - 1) cs)
        else (if c == b'+' then unsigned_item (width - 1) cs else unsigned_item width (c ∷ cs)))

-- `line + n`: none behind the terminating zero.
unfoldable pub skip : ℕ → List ℕ → Option (List ℕ)
skip zero cs = some cs
skip (suc n) [] = none
skip (suc n) (c ∷ cs) = skip n cs

pub record Heading : Type 0 where
  pub byte_count : ℕ
  pub address : ℕ
  pub record_type : ℕ

-- sscanf with "%2X%4X%2X", where it converts three numbers.
unfoldable pub scan_heading : List ℕ → Option Heading
unfolding scan_hex
scan_heading cs = elim (scan_hex 2 cs) [
  | scanned n rest ↦ elim (scan_hex 4 rest) [
    | scanned a rest' ↦ elim (scan_hex 2 rest') [
      | scanned t _ ↦ some (record { byte_count = n; address = a; record_type = t })
      | _ ↦ none
    ]
    | _ ↦ none
  ]
  | _ ↦ none
]

-- A data byte, where the code of sscanf is not negative: 0 where it converts nothing.
abbrev pub byte_of : Scan → Option ℕ
byte_of at_end = none
byte_of mismatch = some 0
byte_of (scanned value cs) = some (u8 value)

unfoldable pub byte_sum : List ℕ → ℕ
byte_sum [] = 0
byte_sum (b ∷ bs) = b + byte_sum bs

-- `checksum = ~checksum; checksum += 1;` of a uint8_t.
unfoldable pub checksum_of : Heading → List ℕ → ℕ
unfolding byte_sum
checksum_of h bytes =
    let sum = u8 (
      h.byte_count
      + u16 h.address / 2 ^ 8
      + u16 h.address % 2 ^ 8
      + h.record_type
      + byte_sum bytes) in
    u8 (255 - sum + 1)

module _ {S : Type 0} where
  -- The loop over the data bytes, `left` rounds from `i` on: the bytes, and the text behind them.
  unfoldable pub data_loop : ℕ → ℕ → ℕ → ℕ → List ℕ → M S (List ℕ × List ℕ)
  unfolding scan_hex skip
  data_loop line_no address zero i text = pure ([], text)
  data_loop line_no address (suc left) i text = elim (byte_of (scan_hex 2 text)) [
    | none ↦ raise (load_error line_no (u16 address) (no_data_byte i))
    | some b ↦ elim (skip 2 text) [
      | none ↦ raise Error.undefined
      | some rest ↦ do p ← data_loop line_no address left (i + 1) rest; pure (b ∷ p.0, p.1)
    ]
  ]

  unfoldable pub verify : ℕ → Heading → List ℕ × List ℕ → M S (IntelHexLine × ℕ)
  unfolding scan_hex checksum_of
  verify line_no h (bytes, text) = elim (scan_hex 2 text) [
    | scanned expected _ ↦ do
      throw_if (not (checksum_of h bytes == expected))
          (load_error line_no (u16 h.address) (checksum_mismatch expected (checksum_of h bytes)))
      pure (record { address = u16 h.address; bytes = bytes }, h.record_type)
    | _ ↦ raise (load_error line_no (u16 h.address) no_checksum)
  ]

  unfoldable pub read_data : ℕ → Heading → List ℕ → M S (IntelHexLine × ℕ)
  unfolding data_loop verify
  read_data line_no h text = do
    p ← data_loop line_no h.address h.byte_count 0 text
    verify line_no h p

  -- The line, and the type of its record. The first character of an empty line is the zero.
  unfoldable pub process_line : ℕ → List ℕ → M S (IntelHexLine × ℕ)
  unfolding scan_heading skip read_data
  process_line line_no [] = raise (load_error line_no 0xFFFF no_start_code)
  process_line line_no (c ∷ cs) =
      if not (c == b':')
      then raise (load_error line_no 0xFFFF no_start_code)
      else elim (scan_heading cs) [
        | none ↦ raise (load_error line_no 0xFFFF no_heading)
        | some h ↦ elim (skip 8 cs) [
          | none ↦ raise Error.undefined
          | some text ↦ read_data line_no h text
        ]
      ]

pub record IntelHex : Type 0 where
  pub hex_data : List IntelHexLine
  pub line_no : ℕ

-- enum IntelRecordType::Types.
abbrev pub data_record : ℕ
data_record = 0

abbrev pub end_of_file : ℕ
end_of_file = 1

abbrev pub extended_linear_address : ℕ
extended_linear_address = 4

-- *(reinterpret_cast<uint16_t *>(data)) > 0.
abbrev pub above_64k : List ℕ → Bool
above_64k (lo ∷ hi ∷ _) = ltb 0 (lo + hi * 2 ^ 8)
above_64k _ = false

abbrev pub next_line : M IntelHex ℕ
next_line s = ok (s.line_no + 1) (record s { line_no = s.line_no + 1 })

abbrev pub push_line : IntelHexLine → M IntelHex (Unit {0})
push_line h s = ok tt (record s { hex_data = s.hex_data ++ (h ∷ []) })

-- What a record does: none at the end of the file, and otherwise what `extensionData` is behind it.
unfoldable pub take_record : ℕ → Bool → IntelHexLine → ℕ → M IntelHex (Option Bool)
take_record line_no extension h record_type =
    if record_type == data_record
    then (if extension then pure (some extension) else (do push_line h; pure (some extension)))
    else (if record_type == extended_linear_address
        then (do
          throw_if (not (length h.bytes == 2))
              (load_error line_no 0xFFFF (invalid_extension (length h.bytes)))
          pure (some (above_64k h.bytes)))
        else (if record_type == end_of_file then pure none else pure (some extension)))

-- The loop over the lines of the stream.
unfoldable pub load_lines : Bool → List (List ℕ) → M IntelHex (Unit {0})
unfolding process_line take_record
load_lines extension [] = pure tt
load_lines extension (text ∷ texts) = do
  n ← next_line
  p ← process_line n text
  r ← take_record n extension p.0 p.1
  elim r [ none ↦ pure tt | some e ↦ load_lines e texts ]

unfoldable pub load : List (List ℕ) → M IntelHex (Unit {0})
unfolding load_lines
load texts s = load_lines false texts (record { hex_data = []; line_no = 0 })
