-- ===== src/Crio/ModbusBuffer.antt =====
-- class ModbusBuffer of include/cRIO/ModbusBuffer.h and src/LSST/cRIO/ModbusBuffer.cpp: the older
-- interface to the bus, in which the frames of many calls are words of one buffer.
-- Its class CRC has the code of Modbus::CRC, and Modbus/Crc stands for both. The conversions of `read`
-- are those of Modbus::Parser. Integers stand for their bit patterns. A subclass overrides how a byte
-- becomes a word and is read from one, and how the end of a frame and a wait are written: `Device` has
-- these virtual methods, as methods on the fields of ModbusBuffer.
pub mod Stream
pub mod Laws
pub mod Frames
pub mod Readback
pub mod Messages
pub mod Responses
pub mod Commanded
pub mod Step
pub mod Replies
pub mod Calls
pub mod Delays
pub mod ReadData
use ts_c_riocpp.Common.{
  ℕ, zero, suc, ◌+◌, ◌-◌, ◌*◌, ◌/◌, ◌%◌, ◌^◌, List, [], ◌∷◌, ◌++◌, Option, none, some, Bool, true,
  false, get_elem?, get_or, length, bit_and, bit_or, shr, shl, u8, u16, u64, not, ltb, leb, ◌==◌,
  ◌&&◌, ◌||◌, same_bytes, if◌then◌else◌, memory, value, swap,
}
use ts_c_riocpp.Modbus.Crc.{Crc, reset, add}
use ts_c_riocpp.Modbus.Exceptions.{
  Error, end_of_buffer as end_of_buffer_error, crc_error, runtime_error, undefined, Outcome, ok,
  throw, M, ◌>>=◌, ◌>>◌, pure,
}
use ts_c_riocpp.Modbus.Buffer.{Scalar, int24, int32, uint8, uint16, uint32, uint64, float32}
use ts_c_riocpp.Modbus.Parser.{to_i24}
use ts_c_riocpp.Crio.Fifo

pub record ModbusBuffer : Type 0 where
  pub buffer : List ℕ
  pub index : ℕ
  pub crc : Crc
  pub commanded : List (ℕ × ℕ)
  pub record_changes : Bool
  pub records : List ℕ

unfoldable pub start_next_message : ModbusBuffer → ModbusBuffer
start_next_message m = record m { index = 0; crc = reset; record_changes = false; records = [] }

unfoldable pub clear : Bool → ModbusBuffer → ModbusBuffer
unfolding start_next_message
clear only_buffers m =
    start_next_message
      (record m { buffer = []; commanded = if only_buffers then m.commanded else [] })

-- The constructor clears an object whose vectors and queue are empty.
abbrev pub new_modbus_buffer : ModbusBuffer
new_modbus_buffer = record {
  buffer = [];
  index = 0;
  crc = reset;
  commanded = [];
  record_changes = false;
  records = [];
}

unfoldable pub end_of_buffer : ModbusBuffer → Bool
end_of_buffer m = leb (length m.buffer) m.index

-- peek, and the `_buffer[_index]` of the other methods: behind the end there is no such word.
abbrev pub peek : M ModbusBuffer ℕ
peek m = elim (get_elem? m.buffer m.index) [ none ↦ throw undefined m | some w ↦ ok w m ]

unfoldable pub end_of_frame : M ModbusBuffer Bool
end_of_frame = do w ← peek; pure (w == Fifo.rx_endframe)

unfoldable pub inc_index : ModbusBuffer → ModbusBuffer
inc_index m = record m { index = m.index + 1 }

unfoldable pub next : M ModbusBuffer (Unit {0})
unfolding end_of_buffer inc_index
next m = if end_of_buffer m then throw end_of_buffer_error m else ok tt (inc_index m)

unfoldable pub push_buffer : ℕ → ModbusBuffer → ModbusBuffer
push_buffer w m = record m { buffer = m.buffer ++ (u16 w ∷ []) }

unfoldable pub process_data_crc : ℕ → ModbusBuffer → ModbusBuffer
process_data_crc d m = record m {
  crc = add m.crc d;
  records = if m.record_changes then m.records ++ (d ∷ []) else m.records;
}

-- The virtual methods.
pub record Device : Type 0 where
  pub get_byte_instruction : ℕ → ModbusBuffer → ℕ × ModbusBuffer
  pub read_instruction_byte : M ModbusBuffer ℕ
  pub write_end_of_frame : ModbusBuffer → ModbusBuffer
  pub write_wait_for_rx : ℕ → ModbusBuffer → ModbusBuffer

-- readInstructionByte, with what is done to the word.
unfoldable pub read_instruction : (ℕ → ℕ) → M ModbusBuffer ℕ
unfolding end_of_buffer inc_index
read_instruction byte_of m =
    if end_of_buffer m
    then throw end_of_buffer_error m
    else ok (byte_of (get_or m.buffer m.index 0)) (inc_index m)

-- ModbusBuffer::writeWaitForRx, which a subclass may call.
unfoldable pub write_wait : ℕ → ModbusBuffer → ModbusBuffer
unfolding push_buffer
write_wait timeout m =
    push_buffer
      (if ltb 0x0FFF timeout
        then bit_or (bit_and 0x0FFF (timeout / 1000 + 1)) Fifo.tx_wait_long_rx
        else bit_or timeout Fifo.tx_wait_rx)
      m

unfoldable pub write_delay : ℕ → ModbusBuffer → ModbusBuffer
unfolding push_buffer
write_delay delay m =
    push_buffer
      (if ltb 0x0FFF delay
        then bit_or (bit_and 0x0FFF (delay / 1000 + 1)) Fifo.long_delay
        else bit_or delay Fifo.delay)
      m

-- The methods of the base class, with the end of a frame of a subclass.
abbrev pub plain : (ModbusBuffer → ModbusBuffer) → Device
plain end_of_frame_word = record {
  get_byte_instruction = λ d m. (d, process_data_crc d m);
  read_instruction_byte = read_instruction u8;
  write_end_of_frame = end_of_frame_word;
  write_wait_for_rx = write_wait;
}

abbrev pub not_a_delay : ℕ → Error
not_a_delay w = runtime_error 60

unfoldable pub read_delay : M ModbusBuffer ℕ
unfolding inc_index
read_delay m = elim (get_elem? m.buffer m.index) [
  | none ↦ throw undefined m
  | some w ↦
      (let c = bit_and w 0xF000 in
        if c == Fifo.delay
        then ok (bit_and 0x0FFF w) (inc_index m)
        else (if c == Fifo.long_delay
            then ok (bit_and 0x0FFF w * 1000) (inc_index m)
            else throw (not_a_delay w) m))
]

unfoldable pub set_buffer : List ℕ → ModbusBuffer → ModbusBuffer
set_buffer words m = record m { buffer = words; index = 0; crc = reset }

unfoldable pub start_recording : ModbusBuffer → ModbusBuffer
start_recording m = record m { record_changes = true }

unfoldable pub pause_record_changes : ModbusBuffer → ModbusBuffer
pause_record_changes m = record m { record_changes = false }

-- The answer, and the cache behind the call.
unfoldable pub check_recording : List ℕ → ModbusBuffer → (Bool × List ℕ) × ModbusBuffer
check_recording cached m =
    let cleared = record m { record_changes = false; records = [] } in
    if same_bytes cached m.records then ((true, cached), cleared) else ((false, m.records), cleared)

-- Only the addresses of single devices, and 255, are expected to answer.
unfoldable pub push_commanded : ℕ → ℕ → ModbusBuffer → ModbusBuffer
push_commanded address function m =
    if (ltb 0 address && ltb address 248) || (address == 255)
    then record m { commanded = m.commanded ++ ((address, function) ∷ []) }
    else m
