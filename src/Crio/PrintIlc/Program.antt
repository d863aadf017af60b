-- ===== src/Crio/PrintIlc/Program.antt =====
-- programILC and writeApplicationStats of class PrintILC.
-- The FPGA is a parameter: `send` is what FPGA::ilcCommands does with the bus list, whose callbacks keep
-- the mode that a controller reports. The image is what getData of the hex file answers, with `none`
-- for an exception. The texts that are printed are left out.
use ts_c_riocpp.Common.{
  ℕ, List, [], ◌∷◌, Option, none, some, Bool, true, false, not, ◌==◌, if◌then◌else◌, memory,
}
use ts_c_riocpp.Modbus.Crc.{reset}
use ts_c_riocpp.Modbus.Exceptions.{
  Error, out_of_range, undefined, runtime_error, ok, throw, M, ◌>>=◌, ◌>>◌, pure, throw_if,
}
use ts_c_riocpp.Modbus.Buffer.{scalar, uint16}
use ts_c_riocpp.Modbus.BusList.{Node, clear}
use ts_c_riocpp.Ilc.BusList.{
  Ilc, on_bus, report_server_status, change_ilc_mode, standby, bootloader,
}
use ts_c_riocpp.Crio.ModbusBuffer.{ModbusBuffer, new_modbus_buffer}
use ts_c_riocpp.Crio.ModbusBuffer.Stream.{write, write_buffer}
use ts_c_riocpp.Crio.SimulatedIlc.{simulated_ilc}
use ts_c_riocpp.Crio.PrintIlc.{Page, write_hex, page_args}

-- The fields of PrintILC that programILC uses.
pub record PrintIlc : Type 0 where
  pub crc : ℕ
  pub start_address : ℕ
  pub data_length : ℕ

-- enum ILC_CLI_CMD.
abbrev pub write_application_stats_command : ℕ
write_application_stats_command = 100

abbrev pub erase_application : ℕ
erase_application = 101

abbrev pub write_application_page_command : ℕ
write_application_page_command = 102

abbrev pub write_verify_application_command : ℕ
write_verify_application_command = 103

-- The other modes of enum Mode.
abbrev pub disabled : ℕ
disabled = 1

abbrev pub enabled : ℕ
enabled = 2

abbrev pub fault : ℕ
fault = 4

abbrev pub clear_faults : ℕ
clear_faults = 5

abbrev pub cannot_enter : Error
cannot_enter = runtime_error 90

abbrev pub cannot_transition : Error
cannot_transition = runtime_error 91

-- What `catch (std::runtime_error&)` catches: std::out_of_range is a std::logic_error.
abbrev pub is_runtime_error : Error → Bool
is_runtime_error out_of_range = false
is_runtime_error undefined = false
is_runtime_error _ = true

abbrev pub Program : Type 0
Program = M (Node (Ilc PrintIlc)) (Unit {0})

-- A method that throws nothing.
abbrev pub call : (Node (Ilc PrintIlc) → Node (Ilc PrintIlc)) → Program
call f n = ok tt (f n)

abbrev pub when : Bool → Program → Program
when true m = m
when false m = pure tt

abbrev pub clear_bus : Node (Ilc PrintIlc) → Node (Ilc PrintIlc)
clear_bus n = record n { bus = clear (n.bus) }

abbrev pub set_fields : PrintIlc → Node (Ilc PrintIlc) → Node (Ilc PrintIlc)
set_fields p n = record n { self = record (n.self) { self = p } }

unfoldable pub get_last_mode : ℕ → M (Node (Ilc PrintIlc)) ℕ
get_last_mode address n = elim (n.self.last_mode address) [
  | none ↦ throw out_of_range n
  | some mode ↦ ok mode n
]

-- The buffer over which the CRC of the stats is taken. A word in the byte order of the machine is its
-- bytes in memory.
unfoldable pub stats_buffer : ℕ → ℕ → ℕ → ModbusBuffer
unfolding write write_buffer
stats_buffer data_crc start_address data_length =
    let put : ℕ → ModbusBuffer → ModbusBuffer =
      λ v m. write simulated_ilc uint16 0 (write_buffer simulated_ilc (memory 2 v) m) in
    put data_length (put start_address (put data_crc new_modbus_buffer))

unfoldable pub write_application_stats : ℕ → ℕ → ℕ → ℕ → Node (Ilc PrintIlc) → Node (Ilc PrintIlc)
unfolding stats_buffer
write_application_stats address data_crc start_address data_length n =
    on_bus address write_application_stats_command 500000
      (scalar uint16 data_crc
        ∷ scalar uint16 start_address
        ∷ scalar uint16 data_length
        ∷ scalar uint16 ((stats_buffer data_crc start_address data_length).crc)
        ∷ [])
      n

unfoldable pub erase_ilc_application : ℕ → Node (Ilc PrintIlc) → Node (Ilc PrintIlc)
erase_ilc_application address n = on_bus address erase_application 500000 [] n

unfoldable pub write_application_page : ℕ → Page → Node (Ilc PrintIlc) → Node (Ilc PrintIlc)
unfolding page_args
write_application_page address p n =
    on_bus address write_application_page_command 500000 (page_args p) n

unfoldable pub write_verify_application : ℕ → Node (Ilc PrintIlc) → Node (Ilc PrintIlc)
write_verify_application address n = on_bus address write_verify_application_command 500000 [] n

-- The switch: Enabled falls through to Disabled.
unfoldable pub leave_mode : ℕ → ℕ → Node (Ilc PrintIlc) → Node (Ilc PrintIlc)
leave_mode address mode n =
    if mode == enabled
    then change_ilc_mode address standby (change_ilc_mode address disabled n)
    else (if mode == disabled
        then change_ilc_mode address standby n
        else (if mode == fault then change_ilc_mode address clear_faults n else n))

module _ (send : ℕ → Program) (address : ℕ) where
  abbrev pub exchange : Program
  exchange = do send 1000; call clear_bus

  unfoldable pub clear_fault : Program
  unfolding get_last_mode
  clear_fault = do
    mode ← get_last_mode address
    when (mode == fault) (do call (change_ilc_mode address clear_faults); exchange)

  -- The handler of a runtime_error on the way to the bootloader.
  unfoldable pub retry_bootloader : Program
  unfolding get_last_mode
  retry_bootloader = do
    call clear_bus
    call (report_server_status address)
    exchange
    mode ← get_last_mode address
    when (mode == fault) (do
      call (change_ilc_mode address clear_faults)
      exchange
      call (report_server_status address)
      exchange)
    mode' ← get_last_mode address
    throw_if (not (mode' == bootloader)) cannot_enter

  abbrev pub try_bootloader : Program
  try_bootloader n = elim ((do call (change_ilc_mode address bootloader); exchange) n) [
    | ok u n' ↦ ok tt n'
    | throw e n' ↦ (if is_runtime_error e then retry_bootloader n' else throw e n')
  ]

  unfoldable pub enter_bootloader : Program
  unfolding get_last_mode retry_bootloader
  enter_bootloader = do mode ← get_last_mode address; when (not (mode == bootloader)) try_bootloader

  -- programILC up to the last test of the mode.
  unfoldable pub reach_bootloader : Program
  unfolding get_last_mode leave_mode clear_fault enter_bootloader
  reach_bootloader = do
    call clear_bus
    call (report_server_status address)
    exchange
    mode ← get_last_mode address
    call (leave_mode address mode)
    exchange
    enter_bootloader
    clear_fault

  -- That test.
  unfoldable pub require_bootloader : Program
  unfolding get_last_mode
  require_bootloader = do
    mode ← get_last_mode address
    throw_if (not (mode == bootloader)) cannot_transition

  unfoldable pub send_pages : List Page → Program
  unfolding write_application_page
  send_pages [] = pure tt
  send_pages (p ∷ ps) = do
    call (write_application_page address p)
    send 5000
    call clear_bus
    send_pages ps

  -- _writeHex with the FPGA.
  unfoldable pub write_hex_to : ℕ → List ℕ → Program
  unfolding write_hex send_pages
  write_hex_to start bytes =
      let w = write_hex start bytes in
      do
        call (
            set_fields (record {
              crc = w.crc;
              start_address = w.start_address;
              data_length = w.data_length;
            }))
        send_pages (w.pages)

  abbrev write_image : Option (ℕ × List ℕ) → Program
  write_image none n = throw out_of_range n
  write_image (some (start, bytes)) n = write_hex_to start bytes n

  -- The rest of programILC.
  unfoldable pub flash : Option (ℕ × List ℕ) → Program
  unfolding erase_ilc_application write_hex_to write_application_stats write_verify_application
      clear_fault
  flash image = do
    call (erase_ilc_application address)
    exchange
    call (set_fields (record { crc = reset; start_address = 0; data_length = 0 }))
    write_image image
    call (λ n.
        write_application_stats address (n.self.self.crc) (n.self.self.start_address)
          (n.self.self.data_length) n)
    exchange
    call (write_verify_application address)
    exchange
    call (change_ilc_mode address standby)
    exchange
    clear_fault
    call (change_ilc_mode address disabled)
    exchange

  unfoldable pub program_ilc : Option (ℕ × List ℕ) → Program
  unfolding reach_bootloader require_bootloader flash
  program_ilc image = do reach_bootloader; require_bootloader; flash image
