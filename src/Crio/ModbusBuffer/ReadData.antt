-- ===== src/Crio/ModbusBuffer/ReadData.antt =====
-- getReadData.
use ts_c_riocpp.Common.{
  ℕ, zero, suc, ◌+◌, ◌-◌, ◌^◌, ◌<◌, ◌≤◌, ◌≡◌, refl, ◌∙◌, true, false, arith, length, leb, get_or,
  lt→ltb,
}
use ts_c_riocpp.Modbus.Exceptions.{
  end_of_buffer as end_of_buffer_error, ok, throw, >>=-ok, >>=-throw,
}
use ts_c_riocpp.Crio.ModbusBuffer.{ModbusBuffer, Device, end_of_buffer, read_instruction, inc_index}
use ts_c_riocpp.Crio.ModbusBuffer.Stream.{read_data_loop, get_read_data}
use ts_c_riocpp.Crio.ModbusBuffer.Laws.{DeviceLaws}

read_at_end :
    (byte_of : ℕ → ℕ) (m : ModbusBuffer)
    → m.index ≡ length m.buffer
    → read_instruction byte_of m ≡ throw end_of_buffer_error (record m { index = length m.buffer })
unfolding read_instruction end_of_buffer
read_at_end byte_of m e = rw at_end (λ i. throw end_of_buffer_error (record m { index = e i }))
  where
    at_end : leb (length m.buffer) m.index ≡ true
    at_end = ground (arith, e)

read_before_end :
    (byte_of : ℕ → ℕ) (m : ModbusBuffer)
    → m.index < length m.buffer
    → read_instruction byte_of m ≡ ok (byte_of (get_or m.buffer m.index 0)) (inc_index m)
unfolding read_instruction end_of_buffer
read_before_end byte_of m h = rw more refl
  where
    more : leb (length m.buffer) m.index ≡ false
    more = ground arith

module _ (dev : Device) (laws : DeviceLaws dev) where
  -- The position runs ahead of the loop's number, so the loop ends at the end of the buffer only.
  read_data_loop_ends :
      (left fuel i : ℕ) (m : ModbusBuffer)
      → left + m.index ≡ length m.buffer
      → left < fuel
      → i < m.index
      → read_data_loop dev fuel i m
        ≡ throw end_of_buffer_error (record m { index = length m.buffer })
  unfolding read_data_loop inc_index
  read_data_loop_ends left zero i m e enough h = absurd (omega arith)
  read_data_loop_ends zero (suc fuel) i m e enough h = rw (lt→ltb i m.index h) (
      >>=-throw dev.read_instruction_byte _ m
        (laws.read_byte_lem m ∙ read_at_end laws.byte_of m (omega arith)))
  read_data_loop_ends (suc left) (suc fuel) i m e enough h = rw (lt→ltb i m.index h) (
      >>=-ok dev.read_instruction_byte _ m
        (laws.read_byte_lem m ∙ read_before_end laws.byte_of m (omega arith))
      ∙ >>=-throw (read_data_loop dev fuel (i + 1)) _ _ (
          read_data_loop_ends left fuel (i + 1) (inc_index m) (omega arith) (omega arith)
            (omega arith)))

  -- Asked for one word or more, and no more than have been read, getReadData ends with EndOfBuffer: it
  -- reads all words that are left, and answers none. As many rounds as words are left, and one more,
  -- are enough.
  pub get_read_data_throws :
      (fuel len : ℕ) (m : ModbusBuffer)
      → 0 < len
      → len ≤ m.index
      → m.index ≤ length m.buffer
      → length m.buffer < 2 ^ 64
      → length m.buffer - m.index < fuel
      → get_read_data dev fuel len m
        ≡ throw end_of_buffer_error (record m { index = length m.buffer })
  unfolding get_read_data
  get_read_data_throws fuel len m some_data seen inside fits enough =
      read_data_loop_ends (length m.buffer - m.index) fuel _ m (omega arith) enough (omega arith)
