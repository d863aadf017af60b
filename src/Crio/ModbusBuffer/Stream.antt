-- ===== src/Crio/ModbusBuffer/Stream.antt =====
-- The methods of ModbusBuffer that write and read through the virtual methods: writeBuffer, write,
-- writeCRC, callFunction, broadcastFunction, readBuffer, read, checkCRC and getReadData.
use ts_c_riocpp.Common.{
  ℕ, zero, suc, ◌+◌, ◌-◌, ◌%◌, ◌^◌, List, [], ◌∷◌, bit_and, shr, shl, u8, not, ltb, ◌==◌,
  if◌then◌else◌, memory, value, swap,
}
use ts_c_riocpp.Modbus.Crc.{reset}
use ts_c_riocpp.Modbus.Exceptions.{crc_error, undefined, ok, throw, M, ◌>>=◌, pure}
use ts_c_riocpp.Modbus.Buffer.{Scalar, int24, int32, uint8, uint16, uint32, uint64, float32}
use ts_c_riocpp.Modbus.Parser.{to_i24}
use ts_c_riocpp.Crio.ModbusBuffer.{
  ModbusBuffer, Device, push_buffer, process_data_crc, pause_record_changes, push_commanded,
  write_delay,
}

-- The arguments of callFunction.
pub data Param : Type 0 where
  scalar : Scalar → ℕ → Param
  int8 int16 : ℕ → Param

module _ (dev : Device) where
  unfoldable pub put_byte : ℕ → ModbusBuffer → ModbusBuffer
  unfolding push_buffer
  put_byte d m = let made = dev.get_byte_instruction d m in push_buffer made.0 made.1

  unfoldable pub write_buffer : List ℕ → ModbusBuffer → ModbusBuffer
  unfolding put_byte
  write_buffer [] m = m
  write_buffer (d ∷ ds) m = write_buffer ds (put_byte d m)

  unfoldable pub write_i24 : ℕ → ModbusBuffer → ModbusBuffer
  unfolding put_byte
  write_i24 d m = put_byte (u8 d) (put_byte (u8 (shr d 8)) (put_byte (u8 (shr d 16)) m))

  -- The specialisations of `write` for the types that `read` has too.
  unfoldable pub write : Scalar → ℕ → ModbusBuffer → ModbusBuffer
  unfolding write_buffer write_i24 swap
  write int24 d m = write_i24 d m
  write int32 d m = write_buffer (memory 4 (swap 4 d)) m
  write uint8 d m = write_buffer (memory 1 d) m
  write uint16 d m = write_buffer (memory 2 (swap 2 d)) m
  write uint32 d m = write_buffer (memory 4 (swap 4 d)) m
  write uint64 d m = write_buffer (memory 8 (swap 8 d)) m
  write float32 d m = write_buffer (memory 4 (swap 4 d)) m

  unfoldable pub write_param : Param → ModbusBuffer → ModbusBuffer
  unfolding write write_buffer swap
  write_param (scalar t d) m = write t d m
  write_param (int8 d) m = write_buffer (memory 1 d) m
  write_param (int16 d) m = write_buffer (memory 2 (swap 2 d)) m

  unfoldable pub function_arguments : List Param → ModbusBuffer → ModbusBuffer
  unfolding write_param
  function_arguments [] m = m
  function_arguments (p ∷ ps) m = function_arguments ps (write_param p m)

  unfoldable pub write_crc : ModbusBuffer → ModbusBuffer
  unfolding put_byte
  write_crc m =
      let crc = m.crc in
      record (put_byte (bit_and (shr crc 8) 0xFF) (put_byte (bit_and crc 0xFF) m)) { crc = reset }

  unfoldable pub call_function : ℕ → ℕ → ℕ → List Param → ModbusBuffer → ModbusBuffer
  unfolding write function_arguments write_crc push_commanded
  call_function address function timeout params m =
      let called = function_arguments params (write uint8 function (write uint8 address m)) in
      push_commanded address function
        (dev.write_wait_for_rx timeout (dev.write_end_of_frame (write_crc called)))

  unfoldable pub broadcast_function : ℕ → ℕ → ℕ → ℕ → List ℕ → ModbusBuffer → ModbusBuffer
  unfolding write write_buffer write_crc write_delay
  broadcast_function address function counter delay bytes m =
      let called = write uint8 counter (write uint8 function (write uint8 address m)) in
      write_delay delay (dev.write_end_of_frame (write_crc (write_buffer bytes called)))

  -- The body of the loop of readBuffer.
  unfoldable pub read_crc_byte : M ModbusBuffer ℕ
  unfolding process_data_crc
  read_crc_byte = do d ← dev.read_instruction_byte; (λ m. ok d (process_data_crc d m))

  unfoldable pub read_buffer : ℕ → M ModbusBuffer (List ℕ)
  unfolding read_crc_byte
  read_buffer zero = pure []
  read_buffer (suc n) = do d ← read_crc_byte; ds ← read_buffer n; pure (d ∷ ds)

  -- The specialisations of `read`.
  unfoldable pub read : Scalar → M ModbusBuffer ℕ
  unfolding read_buffer
  read int24 = do bs ← read_buffer 3; pure (to_i24 (value bs))
  read int32 = do bs ← read_buffer 4; pure (swap 4 (value bs))
  read uint8 = do bs ← read_buffer 1; pure (value bs)
  read uint16 = do bs ← read_buffer 2; pure (swap 2 (value bs))
  read uint32 = do bs ← read_buffer 4; pure (swap 4 (value bs))
  read uint64 = do bs ← read_buffer 8; pure (swap 8 (value bs))
  read float32 = do bs ← read_buffer 4; pure (swap 4 (value bs))

  unfoldable pub read_u48 : M ModbusBuffer ℕ
  unfolding read_buffer
  read_u48 = do bs ← read_buffer 6; pure (swap 8 (shl (value bs) 16))

  unfoldable pub read_string : ℕ → M ModbusBuffer (List ℕ)
  unfolding read_buffer
  read_string len = read_buffer len

  -- The raw timestamp, from which readTimestamp makes seconds.
  unfoldable pub read_timestamp : M ModbusBuffer ℕ
  unfolding read_buffer
  read_timestamp = do bs ← read_buffer 8; pure (value bs)

  -- The end of checkCRC, behind the read of the CRC.
  unfoldable pub compare_crc : ℕ → ℕ → M ModbusBuffer (Unit {0})
  compare_crc calculated stored m =
      if not (stored == calculated)
      then throw (crc_error calculated stored) m
      else ok tt (record m { crc = reset })

  unfoldable pub check_crc : M ModbusBuffer (Unit {0})
  unfolding read_buffer compare_crc pause_record_changes
  check_crc m = (do bs ← read_buffer 2; compare_crc m.crc (value bs)) (pause_record_changes m)

  -- The loop of getReadData from the number `i` on. It has no more rounds than `fuel`.
  unfoldable pub read_data_loop : ℕ → ℕ → M ModbusBuffer (List ℕ)
  read_data_loop zero i m = throw undefined m
  read_data_loop (suc fuel) i m =
      (if ltb i m.index
          then (do d ← dev.read_instruction_byte; ds ← read_data_loop fuel (i + 1); pure (d ∷ ds))
          else pure [])
        m

  -- `_index - length`, of size_t, for a length that is not negative.
  unfoldable pub get_read_data : ℕ → ℕ → M ModbusBuffer (List ℕ)
  unfolding read_data_loop
  get_read_data fuel len m = read_data_loop fuel ((m.index + 2 ^ 64 - len) % 2 ^ 64) m
