-- ===== src/Crio/ModbusBuffer/Laws.antt =====
-- What a subclass of ModbusBuffer promises of its virtual methods.
use ts_c_riocpp.Common.{ℕ, ◌≡◌, List, ◌++◌, u16, IsByte}
use ts_c_riocpp.Crio.ModbusBuffer.{ModbusBuffer, Device, process_data_crc, read_instruction}

-- A byte becomes a word of 16 bits, from which it is read back; the end of a frame and a wait are words
-- that are appended, and nothing else is changed.
pub record DeviceLaws (dev : Device) : Type 0 where
  pub word_of : ℕ → ℕ
  pub byte_of : ℕ → ℕ
  pub end_words : List ℕ
  pub wait_words : ℕ → List ℕ
  pub word_range : (d : ℕ) → IsByte d → u16 (word_of d) ≡ word_of d
  pub byte_word : (d : ℕ) → IsByte d → byte_of (word_of d) ≡ d
  pub get_byte_lem :
      (d : ℕ) (m : ModbusBuffer) → dev.get_byte_instruction d m ≡ (word_of d, process_data_crc d m)
  pub read_byte_lem : (m : ModbusBuffer) → dev.read_instruction_byte m ≡ read_instruction byte_of m
  pub end_of_frame_lem :
      (m : ModbusBuffer) → dev.write_end_of_frame m ≡ record m { buffer = m.buffer ++ end_words }
  pub wait_lem :
      (timeout : ℕ) (m : ModbusBuffer)
      → dev.write_wait_for_rx timeout m ≡ record m { buffer = m.buffer ++ wait_words timeout }
