-- ===== src/Transports/Serial.antt =====
-- class FPGASerialDevice of include/Transports/FPGASerialDevice.h and
-- src/Transports/FPGASerialDevice.cpp. The FIFOs of the National Instruments library are arguments: they
-- may throw NiError. So are the waits, of a thread or of std::this_thread, and the clock.
pub mod Waits
pub mod Telemetry
use ts_c_riocpp.Common.{
  ℕ, zero, suc, ◌+◌, ◌*◌, ◌^◌, List, [], ◌∷◌, ◌++◌, Bool, true, false, not, ◌&&◌, u8, ltb, leb,
  ◌==◌, if◌then◌else◌, length, take, drop, value, memory, swap, reverse,
}
use ts_c_riocpp.Modbus.Exceptions.{
  Error, runtime_error, communication_error, Outcome, ok, throw, M, ◌>>=◌, ◌>>◌, pure, raise,
  throw_if,
}
use ts_c_riocpp.Transports.{Line, BusMethods, World, on_line, commands}

-- enum PROTOCOL_CODE.
abbrev pub telemetry_code : ℕ
telemetry_code = 0

abbrev pub write_code : ℕ
write_code = 1

abbrev pub read_code : ℕ
read_code = 2

abbrev pub flush_code : ℕ
flush_code = 3

abbrev pub error_response : ℕ
error_response = 0xff

-- NiFpga_WriteFifoU8 and NiFpga_ReadFifoU8 on the FIFOs of the device, with the number of bytes that are
-- read; a wait until a time, and for a time; steady_clock::now.
pub record Fifos (T : Type 0) : Type 0 where
  pub write_fifo : List ℕ → M T (Unit {0})
  pub read_fifo : ℕ → M T (List ℕ)
  pub wait_until : ℕ → M T (Unit {0})
  pub sleep_for : ℕ → M T (Unit {0})
  pub now : M T ℕ

-- The std::runtime_errors for a reply with another code.
abbrev pub invalid_reply : Error
invalid_reply = runtime_error 62

-- The first byte that was read.
abbrev pub first_byte : {T : Type 0} → List ℕ → M T ℕ
first_byte [] = raise Error.undefined
first_byte (b ∷ _) = pure b

module _ {T : Type 0} (f : Fifos T) where
  -- `assert(len < 255)` only checks builds without NDEBUG.
  unfoldable pub write : List ℕ → M T (Unit {0})
  write buf = do f.write_fifo (write_code ∷ u8 (length buf) ∷ []); f.write_fifo buf

  -- be32toh of the four bytes.
  unfoldable pub report_error : ℕ → M T (Unit {0})
  report_error req = do
    bytes ← f.read_fifo 4
    raise (communication_error req (swap 4 (value bytes)))

  -- A request without data, and the code of its reply.
  unfoldable pub request : ℕ → M T (Unit {0})
  unfolding report_error
  request req = do
    f.write_fifo (req ∷ [])
    bytes ← f.read_fifo 1
    response ← first_byte bytes
    (if response == error_response then report_error req else pure tt)
    throw_if (not (response == req)) invalid_reply

  -- What is there: its length, and as many bytes.
  unfoldable pub read_chunk : M T (ℕ × List ℕ)
  unfolding request
  read_chunk = do
    request read_code
    bytes ← f.read_fifo 1
    n ← first_byte bytes
    bytes ← (if n == 0 then pure [] else f.read_fifo n)
    pure (n, bytes)

  -- The wait in front of a round: for 10 ms, but not behind the end.
  unfoldable pub wait_a_while : ℕ → M T (Unit {0})
  wait_a_while end = do t ← f.now; f.wait_until (if ltb (t + 10000) end then t + 10000 else end)

  -- The do loop of read. `not_run` is true at its first round, and is not made false.
  unfoldable pub read_loop : ℕ → ℕ → ℕ → Bool → List ℕ → M T (List ℕ)
  unfolding read_chunk wait_a_while
  read_loop zero end len not_run ret = raise Error.undefined
  read_loop (suc fuel) end len not_run ret = do
    (if not not_run then wait_a_while end else pure tt)
    chunk ← read_chunk
    if not (chunk.0 == 0) && leb len (length (ret ++ chunk.1)) then pure (ret ++ chunk.1) else (do
      t ← f.now
      if ltb t end
          then read_loop fuel end len (if not_run then true else not_run) (ret ++ chunk.1)
          else pure (ret ++ chunk.1))

  unfoldable pub read : ℕ → ℕ → ℕ → M T (List ℕ)
  unfolding read_loop
  read fuel len timeout = do t ← f.now; read_loop fuel (t + timeout) len true []

  unfoldable pub flush : M T (Unit {0})
  unfolding request
  flush = request flush_code

  -- write_bytes and read_bytes, be64toh of eight bytes each.
  unfoldable pub telemetry : M T (ℕ × ℕ)
  unfolding request
  telemetry = do
    request telemetry_code
    bytes ← f.read_fifo 16
    pure (swap 8 (value (take 8 bytes)), swap 8 (value (drop 8 bytes)))

  -- The device as the line of a Transport.
  unfoldable pub serial_line : ℕ → Line T
  unfolding write read
  serial_line fuel = record { write = write; read = read fuel; clock = f.now }

  -- commands, with the wait behind each command.
  unfoldable pub serial_commands :
      {S : Type 0} → BusMethods S → ℕ → ℕ → ℕ → M (World T S) (Unit {0})
  unfolding serial_line
  serial_commands b fuel quiet_time timeout =
      commands (serial_line fuel) b fuel timeout (on_line (f.sleep_for quiet_time))
