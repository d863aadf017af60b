-- ===== src/Ilc/BusList.antt =====
-- class ILCBusList of include/ILC/ILCBusList.h and src/ILC/ILCBusList.cpp: the commands that every
-- inner loop controller knows, and the callbacks of their responses. The process… methods are pure
-- virtual: they are the fields of Processors.
pub mod Reports
pub mod Modes
use ts_c_riocpp.Common.{
  ℕ, zero, suc, ◌+◌, ◌-◌, ◌*◌, ◌%◌, ◌^◌, List, [], ◌∷◌, ◌++◌, Option, none, some, Bool, true, false,
  u8, ltb, ◌==◌, ◌||◌, ◌&&◌, not, if◌then◌else◌, length,
}
use ts_c_riocpp.Modbus.Exceptions.{
  Error, runtime_error, Outcome, ok, throw, M, ◌>>=◌, ◌>>◌, pure, throw_if,
}
use ts_c_riocpp.Modbus.Buffer.{Arg, scalar, uint8, uint16}
use ts_c_riocpp.Modbus.Parser.{read, read_u48, read_string, check_crc}
use ts_c_riocpp.Modbus.Handler.{Handler, reading, parser_address, call, callback}
use ts_c_riocpp.Modbus.BusList
use ts_c_riocpp.Modbus.BusList.{Functions, Node, add_response}

-- The fields of ILCBusList, with those of its subclass. A key that the map does not have reads as `none`.
pub record Ilc (S : Type 0) : Type 0 where
  pub bus_number : ℕ
  pub last_mode : ℕ → Option ℕ
  pub broadcast_counter : ℕ
  pub self : S

-- The virtual methods of the subclass.
pub record Processors (S : Type 0) : Type 0 where
  pub process_server_id : ℕ → ℕ → ℕ → ℕ → ℕ → ℕ → ℕ → ℕ → List ℕ → M (Ilc S) (Unit {0})
  pub process_server_status : ℕ → ℕ → ℕ → ℕ → M (Ilc S) (Unit {0})
  pub process_change_ilc_mode : ℕ → ℕ → M (Ilc S) (Unit {0})
  pub process_set_temp_ilc_address : ℕ → ℕ → M (Ilc S) (Unit {0})
  pub process_reset_server : ℕ → M (Ilc S) (Unit {0})

-- enum ILC_CMD.
abbrev pub server_id : ℕ
server_id = 17

abbrev pub server_status : ℕ
server_status = 18

abbrev pub change_mode : ℕ
change_mode = 65

abbrev pub set_temp_address : ℕ
set_temp_address = 72

abbrev pub reset_server_command : ℕ
reset_server_command = 107

-- enum Mode.
abbrev pub standby : ℕ
standby = 0

abbrev pub bootloader : ℕ
bootloader = 3

-- "invalid ILC function 17 response length".
abbrev pub invalid_server_id : Error
invalid_server_id = runtime_error 30

-- The timeout of changeILCMode: getLastMode of an address that has no mode yet is an exception, which
-- leaves the timeout as it is.
unfoldable pub change_mode_timeout : Option ℕ → ℕ → ℕ
change_mode_timeout last mode = if mode == bootloader then 100000 else elim last [
  | none ↦ 335
  | some m ↦ if m == bootloader && mode == standby then 100000 else 335
]

module _ {S : Type 0} where
  -- _lastMode[address] = mode
  unfoldable pub set_last_mode : ℕ → ℕ → Ilc S → Ilc S
  set_last_mode address mode s = record s {
    last_mode = λ a. if a == address then some (u8 mode) else s.last_mode a;
  }

  -- nextBroadcastCounter: the counter of the next broadcast, which is kept.
  unfoldable pub next_broadcast_counter : M (Ilc S) ℕ
  next_broadcast_counter s =
      let next = u8 (s.broadcast_counter + 1) in
      let counter = (if ltb 15 next then 0 else next) in
      ok counter (record s { broadcast_counter = counter })

  module _ (v : Processors S) where
    unfoldable pub on_server_id : M (Handler (Ilc S)) (Unit {0})
    on_server_id = do
      fn_len ← reading (read uint8)
      throw_if (ltb fn_len 12) invalid_server_id
      unique_id ← reading read_u48
      ilc_app_type ← reading (read uint8)
      network_node_type ← reading (read uint8)
      ilc_selected_options ← reading (read uint8)
      network_node_options ← reading (read uint8)
      major_rev ← reading (read uint8)
      minor_rev ← reading (read uint8)
      fw_name ← reading (read_string (fn_len - 12))
      reading check_crc
      a ← parser_address
      call (
          v.process_server_id a unique_id ilc_app_type network_node_type ilc_selected_options
            network_node_options major_rev minor_rev fw_name)

    unfoldable pub on_server_status : M (Handler (Ilc S)) (Unit {0})
    on_server_status = do
      mode ← reading (read uint8)
      status ← reading (read uint16)
      faults ← reading (read uint16)
      reading check_crc
      a ← parser_address
      call (λ s. v.process_server_status a mode status faults (set_last_mode a mode s))

    unfoldable pub on_change_mode : M (Handler (Ilc S)) (Unit {0})
    on_change_mode = do
      mode ← reading (read uint16)
      reading check_crc
      a ← parser_address
      call (λ s. v.process_change_ilc_mode a mode (set_last_mode a mode s))

    -- The callback of an error response to CHANGE_MODE only writes a warning to the log.
    unfoldable pub on_change_mode_error : ℕ → ℕ → M (Ilc S) (Unit {0})
    on_change_mode_error address called s = ok tt s

    unfoldable pub on_set_temp_address : M (Handler (Ilc S)) (Unit {0})
    on_set_temp_address = do
      new_address ← reading (read uint8)
      reading check_crc
      a ← parser_address
      call (v.process_set_temp_ilc_address a new_address)

    unfoldable pub on_reset_server : M (Handler (Ilc S)) (Unit {0})
    on_reset_server = do reading check_crc; a ← parser_address; call (v.process_reset_server a)

    -- The table that the constructor fills.
    unfoldable pub ilc_functions : Functions (Ilc S)
    unfolding add_response
    ilc_functions =
        let a : Functions (Ilc S) = add_response [] server_id (callback on_server_id) none in
        let b : Functions (Ilc S) = add_response a server_status (callback on_server_status) none in
        let c : Functions (Ilc S) =
          add_response b change_mode (callback on_change_mode) (some on_change_mode_error) in
        let d : Functions (Ilc S) =
          add_response c set_temp_address (callback on_set_temp_address) none in
        add_response d reset_server_command (callback on_reset_server) none

  -- A command of the bus list.
  abbrev pub on_bus : ℕ → ℕ → ℕ → List Arg → Node (Ilc S) → Node (Ilc S)
  on_bus address func timing args n = record n {
    bus = BusList.call_function n.bus address func timing args;
  }

  unfoldable pub report_server_id : ℕ → Node (Ilc S) → Node (Ilc S)
  report_server_id address n = on_bus address server_id 835 [] n

  unfoldable pub report_server_status : ℕ → Node (Ilc S) → Node (Ilc S)
  report_server_status address n = on_bus address server_status 270 [] n

  unfoldable pub set_temp_ilc_address : ℕ → Node (Ilc S) → Node (Ilc S)
  set_temp_ilc_address temporary n = on_bus 255 set_temp_address 250 (scalar uint8 temporary ∷ []) n

  unfoldable pub reset_server : ℕ → Node (Ilc S) → Node (Ilc S)
  reset_server address n = on_bus address reset_server_command 86840 [] n

  unfoldable pub change_ilc_mode : ℕ → ℕ → Node (Ilc S) → Node (Ilc S)
  unfolding change_mode_timeout
  change_ilc_mode address mode n =
      on_bus address change_mode (change_mode_timeout (n.self.last_mode address) mode)
        (scalar uint16 mode ∷ []) n

  -- Without data, and with a vector of them.
  unfoldable pub broadcast_function : ℕ → ℕ → ℕ → ℕ → List Arg → Node (Ilc S) → Node (Ilc S)
  broadcast_function address func delay counter payload n =
      on_bus address func delay (scalar uint8 counter ∷ payload) n
