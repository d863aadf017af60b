-- ===== src/Tests/Modbus.antt =====
-- Runs of the classes of namespace Modbus.
use ts_c_riocpp.Common.{ℕ, ◌≡◌, ◌≢◌, refl, List, [], ◌∷◌, ◌++◌, arith, length}
use ts_c_riocpp.Modbus.Exceptions.{ok, ◌>>=◌, ◌>>◌, pure}
use ts_c_riocpp.Modbus.Crc.{reset, round, rounds, add, add_all, crc_of}
use ts_c_riocpp.Modbus.Crc.Detect.{crc_detects_byte}
use ts_c_riocpp.Modbus.Buffer.{int24, uint8, uint64, call_function}
use ts_c_riocpp.Modbus.Parser.{new_parser, check_crc}
use ts_c_riocpp.Modbus.Parser.Reads.{at}
use ts_c_riocpp.Modbus.Parser.Check.{check_crc-verdict, verdict}
use ts_c_riocpp.Modbus.Parser.RoundTrip.{
  read_all, Values, types, numbers, args_of, parse-call_function,
}

-- The check value of CRC-16/MODBUS: the CRC of the characters 1 to 9.
check_value : crc_of (49 ∷ 50 ∷ 51 ∷ 52 ∷ 53 ∷ 54 ∷ 55 ∷ 56 ∷ 57 ∷ []) ≡ 0x4B37
unfolding crc_of add_all add rounds round reset
check_value = refl

abbrev query : List ℕ
query = 0x12 ∷ 0x11 ∷ 3 ∷ []

crc_detects_byte_example : crc_of (1 ∷ 2 ∷ 3 ∷ []) ≢ crc_of (1 ∷ 7 ∷ 3 ∷ [])
crc_detects_byte_example =
    crc_detects_byte (1 ∷ []) (3 ∷ []) 2 7 (omega arith) (omega arith) (omega arith) (omega arith)
      (omega arith)

-- The second of two equal calls in one buffer ends in other bytes than the first.
second_crc_differs :
    crc_of (call_function [] 0x12 0x11 [] ++ (0x12 ∷ 0x11 ∷ [])) ≢ crc_of (0x12 ∷ 0x11 ∷ [])
unfolding crc_of add_all add rounds round reset call_function
second_crc_differs = omega arith

check_crc-verdict_example : check_crc (at query (5 ∷ 6 ∷ 7 ∷ [])) ≡ verdict query 5 6 (7 ∷ [])
check_crc-verdict_example = check_crc-verdict query (7 ∷ []) 5 6 (omega arith) (omega arith)

abbrev arguments : Values
arguments = (uint8, 7) ∷ (int24, 0xFFFF_FFFE) ∷ (uint64, 0x0102_0304_0506_0708) ∷ []

parse-call_function_example :
    let frame = call_function [] 18 65 (args_of arguments) in
    (new_parser frame ≡ ok tt (record { bytes = frame; pos = 2 }))
    × ((do values ← read_all (types arguments); check_crc; pure values)
          (record { bytes = frame; pos = 2 })
        ≡ ok (numbers arguments) (record { bytes = frame; pos = length frame }))
parse-call_function_example = parse-call_function 18 65 arguments (omega arith)
