-- ===== src/Modbus/Parser.antt =====
-- class Parser of include/Modbus/Parser.h and src/Modbus/Parser.cpp: a received message and a position
-- in it. A position never passes the length of the message, so size_t does not wrap.
pub mod Reads
pub mod Check
pub mod RoundTrip
use ts_c_riocpp.Common.{
  ℕ, ◌+◌, ◌*◌, List, [], ◌∷◌, ◌++◌, Option, none, some, get_elem?, bit_and, bit_or, shr, shl, not,
  ltb, ◌==◌, if◌then◌else◌, length, take, drop, replicate, value, swap,
}
use ts_c_riocpp.Modbus.Crc.{crc_of}
use ts_c_riocpp.Modbus.Exceptions.{
  Error, out_of_range, small_buffer, crc_error, long_response, Outcome, ok, throw, M, ◌>>=◌, ◌>>◌,
  pure, throw_if,
}
use ts_c_riocpp.Modbus.Buffer.{Scalar, int24, int32, uint8, uint16, uint32, uint64, float32}

pub record Parser : Type 0 where
  pub bytes : List ℕ
  pub pos : ℕ

unfoldable pub parse : List ℕ → M Parser (Unit {0})
parse buffer p =
    if ltb (length buffer) 4
    then throw (small_buffer (length buffer)) p
    else ok tt (record { bytes = buffer; pos = 2 })

-- The constructor.
unfoldable pub new_parser : List ℕ → Outcome Parser (Unit {0})
new_parser buffer = parse buffer (record { bytes = []; pos = 0 })

unfoldable pub read_buffer : ℕ → M Parser (List ℕ)
read_buffer len p =
    if ltb (length p.bytes) (p.pos + len)
    then throw out_of_range p
    else ok (take len (drop p.pos p.bytes)) (record p { pos = p.pos + len })

-- The conversion at the end of the read of an int24_t: the sign is extended to 32 bits.
unfoldable pub to_i24 : ℕ → ℕ
to_i24 raw =
    let db = shr (swap 4 raw) 8 in
    if not (bit_and db 0x800000 == 0) then bit_or db 0xFF000000 else db

-- The specialisations of `read`. Three bytes of an int32_t that was 0 are the value of those bytes.
unfoldable pub read : Scalar → M Parser ℕ
read int24 = do bs ← read_buffer 3; pure (to_i24 (value bs))
read int32 = do bs ← read_buffer 4; pure (swap 4 (value bs))
read uint8 = do bs ← read_buffer 1; pure (value bs)
read uint16 = do bs ← read_buffer 2; pure (swap 2 (value bs))
read uint32 = do bs ← read_buffer 4; pure (swap 4 (value bs))
read uint64 = do bs ← read_buffer 8; pure (swap 8 (value bs))
read float32 = do bs ← read_buffer 4; pure (swap 4 (value bs))

-- The six bytes go to the upper end of a uint64_t.
unfoldable pub read_u48 : M Parser ℕ
read_u48 = do bs ← read_buffer 6; pure (swap 8 (shl (value bs) 16))

unfoldable pub read_string : ℕ → M Parser (List ℕ)
read_string len = read_buffer len

-- The data of the message up to here, as a uint8_t array.
abbrev pub received : Parser → List ℕ
received p = take p.pos p.bytes

-- The end of `check_crc`, behind the read of the CRC.
unfoldable pub compare_crc : ℕ → ℕ → M Parser (Unit {0})
compare_crc calculated stored p =
    if not (calculated == stored)
    then throw (crc_error calculated stored) p
    else (if ltb p.pos (length p.bytes)
        then throw (long_response (drop p.pos p.bytes)) p
        else ok tt p)

-- The CRC of the data is taken before the two bytes are read.
unfoldable pub check_crc : M Parser (Unit {0})
check_crc p =
    let calculated = crc_of (received p) in
    (do word ← read uint16; compare_crc calculated (swap 2 word)) p

unfoldable pub address : Parser → Option ℕ
address p = get_elem? p.bytes 0

unfoldable pub func : Parser → Option ℕ
func p = get_elem? p.bytes 1

unfoldable pub u8tou16 : ℕ → ℕ → ℕ
u8tou16 hb lb = swap 2 (bit_or (shl hb 8) lb)
