-- ===== src/Tests/Mpu.antt =====
-- A reply to a read of two registers from 40 on.
use ts_c_riocpp.Common.{ℕ, ◌≡◌, refl, List, [], ◌∷◌, arith}
use ts_c_riocpp.Modbus.Exceptions.{crc_error, throw}
use ts_c_riocpp.Modbus.Crc.{reset, round, rounds, add, add_all, crc_of}
use ts_c_riocpp.Modbus.Buffer
use ts_c_riocpp.Modbus.BusList.{Node, new_bus_list, expected, expected_of, advance, parse_bytes}
use ts_c_riocpp.Crio.Mpu.{CommandedInfo, Mpu, new_mpu, mpu_functions}
use ts_c_riocpp.Crio.Mpu.Registers.{reply_body, after_reply}
use ts_c_riocpp.Crio.Mpu.Cache.{message, reply_refused}

abbrev asked : CommandedInfo
asked = record { address = 40; length = 2 }

abbrev waiting : Node Mpu
waiting = record {
  bus = record new_bus_list {
    commands = record { buffer = 12 ∷ 3 ∷ 0 ∷ 40 ∷ 0 ∷ 2 ∷ []; timing = 2000 } ∷ [];
  };
  self = record (new_mpu 12) { commanded_info = asked ∷ [] };
}

abbrev values : List ℕ
values = 0x1234 ∷ 7 ∷ []

reply_refused_example :
    parse_bytes mpu_functions (message 12 values (0 ∷ 0 ∷ [])) waiting
    ≡ throw
        (crc_error (crc_of (reply_body 12 values)) 0)
        (record (advance waiting) { self = after_reply waiting.self asked [] values })
unfolding expected expected_of Buffer.address Buffer.func crc_of add_all add rounds round reset
reply_refused_example =
    reply_refused waiting asked [] values refl refl (omega arith) (omega arith) (omega arith) 0 0
      (omega arith) (omega arith) (omega arith)

abbrev fresh : Node Mpu
fresh = record { bus = new_bus_list; self = new_mpu 12 }
