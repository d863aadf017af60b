-- ===== src/Crio/SimulatedIlc.antt =====
-- class SimulatedILC of include/cRIO/SimulatedILC.h: words as the FPGA passes them on, in which a byte
-- stands one bit higher, over the command of a received byte.
use ts_c_riocpp.Common.{
  ℕ, zero, suc, ◌+◌, ◌*◌, ◌/◌, ◌≡◌, refl, ◌∙◌, sym, [], ◌∷◌, ◌++◌, append-nil, arith, bit_and,
  bit_or, bit_and_mask, bit_or_disjoint, shl, shr, u8, u16, IsByte,
}
use ts_c_riocpp.Crio.Fifo
use ts_c_riocpp.Crio.ModbusBuffer.{
  ModbusBuffer, Device, push_buffer, process_data_crc, read_instruction,
}
use ts_c_riocpp.Crio.ModbusBuffer.Laws.{DeviceLaws}

unfoldable pub instruction_word : ℕ → ℕ
instruction_word d = bit_or Fifo.rx_mask (shl d 1)

unfoldable pub instruction_byte : ℕ → ℕ
instruction_byte w = u8 (bit_and (shr w 1) 0xFF)

abbrev pub simulated_ilc : Device
simulated_ilc = record {
  get_byte_instruction = λ d m. (instruction_word d, process_data_crc d m);
  read_instruction_byte = read_instruction instruction_byte;
  write_end_of_frame = push_buffer Fifo.rx_endframe;
  write_wait_for_rx = λ timeout m. m;
}

unfoldable pub write_fpga_timestamp : ℕ → ℕ → ModbusBuffer → ModbusBuffer
unfolding push_buffer
write_fpga_timestamp zero timestamp m = m
write_fpga_timestamp (suc n) timestamp m =
    write_fpga_timestamp n (shr timestamp 16) (push_buffer (bit_and timestamp 0xFFFF) m)

unfoldable pub write_rx_timestamp : ℕ → ℕ → ModbusBuffer → ModbusBuffer
unfolding push_buffer
write_rx_timestamp zero timestamp m = m
write_rx_timestamp (suc n) timestamp m =
    write_rx_timestamp n (shr timestamp 8)
      (push_buffer (bit_or Fifo.rx_timestamp (bit_and timestamp 0xFF)) m)

instruction_word_lem : (d : ℕ) → IsByte d → instruction_word d ≡ 0x9200 + 2 * d
unfolding instruction_word
instruction_word_lem d h = bit_or_disjoint 9 0x49 (shl d 1) (omega arith) ∙ omega arith

pub instruction_word-range : (d : ℕ) → IsByte d → u16 (instruction_word d) ≡ instruction_word d
instruction_word-range d h = omega (arith, instruction_word_lem d h)

pub instruction_byte-word : (d : ℕ) → IsByte d → instruction_byte (instruction_word d) ≡ d
unfolding instruction_byte
instruction_byte-word d h =
    omega (arith, instruction_word_lem d h, bit_and_mask 8 (instruction_word d / 2))

pub push_endframe :
    (m : ModbusBuffer)
    → push_buffer Fifo.rx_endframe m ≡ record m { buffer = m.buffer ++ (0xA000 ∷ []) }
unfolding push_buffer
push_endframe m = refl

pub no_wait : (m : ModbusBuffer) → m ≡ record m { buffer = m.buffer ++ [] }
no_wait m = λ i. record m { buffer = sym (append-nil m.buffer) i }

-- SimulatedILC keeps the promises of the virtual methods.
abbrev pub simulated_ilc_laws : DeviceLaws simulated_ilc
simulated_ilc_laws = record {
  word_of = instruction_word;
  byte_of = instruction_byte;
  end_words = Fifo.rx_endframe ∷ [];
  wait_words = λ timeout. [];
  word_range = instruction_word-range;
  byte_word = instruction_byte-word;
  get_byte_lem = λ d m. refl;
  read_byte_lem = λ m. refl;
  end_of_frame_lem = push_endframe;
  wait_lem = λ timeout m. no_wait m;
}
