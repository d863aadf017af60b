-- ===== src/Crio/ForceIlc.antt =====
-- class ElectromechanicalPneumaticILC of include/cRIO/ElectromechanicalPneumaticILC.h and
-- src/LSST/cRIO/ElectromechanicalPneumaticILC.cpp. A float is the bit pattern of its 32 bits; the
-- multiplication by 1000 and conversion to an int24_t of a float is a parameter, `scaled`. The process…
-- methods are pure virtual: they are the fields of Processors.
pub mod Reports
pub mod ForceStatus
use ts_c_riocpp.Common.{
  ℕ, zero, suc, ◌+◌, ◌%◌, ◌^◌, List, [], ◌∷◌, ◌++◌, Option, none, some, u8, Bool, true, false, ◌==◌,
  if◌then◌else◌,
}
use ts_c_riocpp.Modbus.Exceptions.{
  Error, runtime_error, Outcome, ok, throw, M, ◌>>=◌, ◌>>◌, pure, raise,
}
use ts_c_riocpp.Modbus.Buffer.{Arg, Scalar, scalar, int8, int8s, uint8, int24, int32, float32}
use ts_c_riocpp.Modbus.Parser.{Parser, read, check_crc}
use ts_c_riocpp.Modbus.Floats.{read_floats}
use ts_c_riocpp.Modbus.Handler.{Handler, reading, parser_address, parser_size, call, callback}
use ts_c_riocpp.Modbus.BusList.{Functions, Node, add_response}
use ts_c_riocpp.Ilc.BusList
use ts_c_riocpp.Ilc.BusList.{Ilc, ilc_functions, on_bus, broadcast_function}

pub record Processors (S : Type 0) : Type 0 where
  pub process_stepper_force_status : ℕ → ℕ → ℕ → ℕ → M (Ilc S) (Unit {0})
  pub process_dca_gain : ℕ → ℕ → ℕ → M (Ilc S) (Unit {0})
  pub process_hardpoint_lvdt : ℕ → ℕ → ℕ → M (Ilc S) (Unit {0})
  pub process_saa_force_status : ℕ → ℕ → ℕ → M (Ilc S) (Unit {0})
  pub process_daa_force_status : ℕ → ℕ → ℕ → ℕ → M (Ilc S) (Unit {0})
  pub process_calibration_data :
      ℕ → List ℕ → List ℕ → List ℕ → List ℕ → List ℕ → List ℕ → M (Ilc S) (Unit {0})
  pub process_mezzanine_pressure : ℕ → ℕ → ℕ → ℕ → ℕ → M (Ilc S) (Unit {0})

-- enum ILC_EM_CMD.
module _ where
  abbrev pub set_stepper_steps_command : ℕ
  set_stepper_steps_command = 66

  abbrev pub stepper_force_status_command : ℕ
  stepper_force_status_command = 67

  abbrev pub freeze_sensor_command : ℕ
  freeze_sensor_command = 68

  abbrev pub set_dca_gain_command : ℕ
  set_dca_gain_command = 73

  abbrev pub dca_gain_command : ℕ
  dca_gain_command = 74

  abbrev pub set_force_offset_command : ℕ
  set_force_offset_command = 75

  abbrev pub force_status_command : ℕ
  force_status_command = 76

  abbrev pub set_offset_command : ℕ
  set_offset_command = 81

  abbrev pub calibration_command : ℕ
  calibration_command = 110

  abbrev pub pressure_command : ℕ
  pressure_command = 119

  abbrev pub lvdt_command : ℕ
  lvdt_command = 122

abbrev pub ea_broadcast : ℕ
ea_broadcast = 248

-- "Invalid reply length - {}, expected 9 or 13".
abbrev pub invalid_reply_length : Error
invalid_reply_length = runtime_error 40

module _ {S : Type 0} where
  unfoldable pub on_done : M (Handler (Ilc S)) (Unit {0})
  on_done = reading check_crc

  module _ (w : Processors S) where
    unfoldable pub on_stepper_force_status : M (Handler (Ilc S)) (Unit {0})
    on_stepper_force_status = do
      status ← reading (read uint8)
      encoder_position ← reading (read int32)
      load_cell_force ← reading (read float32)
      reading check_crc
      a ← parser_address
      call (w.process_stepper_force_status a status encoder_position load_cell_force)

    unfoldable pub on_dca_gain : M (Handler (Ilc S)) (Unit {0})
    on_dca_gain = do
      primary_gain ← reading (read float32)
      secondary_gain ← reading (read float32)
      reading check_crc
      a ← parser_address
      call (w.process_dca_gain a primary_gain secondary_gain)

    unfoldable pub on_hardpoint_lvdt : M (Handler (Ilc S)) (Unit {0})
    on_hardpoint_lvdt = do
      breakaway_lvdt ← reading (read float32)
      displacement_lvdt ← reading (read float32)
      reading check_crc
      a ← parser_address
      call (w.process_hardpoint_lvdt a breakaway_lvdt displacement_lvdt)

    -- `case 9`, `case 13` and `default` of the size of the response.
    unfoldable pub saa_force_status : ℕ → ℕ → M (Handler (Ilc S)) (Unit {0})
    saa_force_status status primary = do
      reading check_crc
      a ← parser_address
      call (w.process_saa_force_status a status primary)

    unfoldable pub daa_force_status : ℕ → ℕ → M (Handler (Ilc S)) (Unit {0})
    daa_force_status status primary = do
      secondary ← reading (read float32)
      reading check_crc
      a ← parser_address
      call (w.process_daa_force_status a status primary secondary)

    unfoldable pub force_status_of_size : ℕ → ℕ → ℕ → M (Handler (Ilc S)) (Unit {0})
    force_status_of_size status primary size =
        if size == 9
        then saa_force_status status primary
        else (if size == 13 then daa_force_status status primary else raise invalid_reply_length)

    unfoldable pub on_force_status : M (Handler (Ilc S)) (Unit {0})
    on_force_status = do
      status ← reading (read uint8)
      primary ← reading (read float32)
      size ← parser_size
      force_status_of_size status primary size

    unfoldable pub on_calibration_data : M (Handler (Ilc S)) (Unit {0})
    on_calibration_data = do
      main_adck ← reading (read_floats 4)
      main_offset ← reading (read_floats 4)
      main_sensitivity ← reading (read_floats 4)
      backup_adck ← reading (read_floats 4)
      backup_offset ← reading (read_floats 4)
      backup_sensitivity ← reading (read_floats 4)
      reading check_crc
      a ← parser_address
      call (
          w.process_calibration_data a main_adck main_offset main_sensitivity backup_adck
            backup_offset backup_sensitivity)

    unfoldable pub on_pressure_data : M (Handler (Ilc S)) (Unit {0})
    on_pressure_data = do
      primary_push ← reading (read float32)
      primary_pull ← reading (read float32)
      secondary_pull ← reading (read float32)
      secondary_push ← reading (read float32)
      reading check_crc
      a ← parser_address
      call (w.process_mezzanine_pressure a primary_push primary_pull secondary_push secondary_pull)

    -- The table that the constructors of ILCBusList and ElectromechanicalPneumaticILC fill.
    unfoldable pub force_functions : BusList.Processors S → Functions (Ilc S)
    unfolding add_response
    force_functions v =
        let t0 : Functions (Ilc S) =
          add_response (ilc_functions v) set_stepper_steps_command
            (callback on_stepper_force_status) none in
        let t1 : Functions (Ilc S) =
          add_response t0 stepper_force_status_command (callback on_stepper_force_status) none in
        let t2 : Functions (Ilc S) = add_response t1 set_dca_gain_command (callback on_done) none in
        let t3 : Functions (Ilc S) = add_response t2 dca_gain_command (callback on_dca_gain) none in
        let t4 : Functions (Ilc S) =
          add_response t3 set_force_offset_command (callback on_force_status) none in
        let t5 : Functions (Ilc S) =
          add_response t4 force_status_command (callback on_force_status) none in
        let t6 : Functions (Ilc S) = add_response t5 set_offset_command (callback on_done) none in
        let t7 : Functions (Ilc S) =
          add_response t6 calibration_command (callback on_calibration_data) none in
        let t8 : Functions (Ilc S) =
          add_response t7 pressure_command (callback on_pressure_data) none in
        add_response t8 lvdt_command (callback on_hardpoint_lvdt) none

  unfoldable pub set_stepper_steps : ℕ → ℕ → Node (Ilc S) → Node (Ilc S)
  set_stepper_steps address steps n =
      on_bus address set_stepper_steps_command 1800 (int8 steps ∷ []) n

  unfoldable pub broadcast_stepper_steps : ℕ → List ℕ → Node (Ilc S) → Node (Ilc S)
  unfolding broadcast_function
  broadcast_stepper_steps counter steps n =
      broadcast_function ea_broadcast set_stepper_steps_command 1800 counter (int8s steps ∷ []) n

  unfoldable pub report_stepper_force_status : ℕ → Node (Ilc S) → Node (Ilc S)
  report_stepper_force_status address n = on_bus address stepper_force_status_command 1800 [] n

  unfoldable pub set_dca_gain : ℕ → ℕ → ℕ → Node (Ilc S) → Node (Ilc S)
  set_dca_gain address primary secondary n =
      on_bus address set_dca_gain_command 40000
        (scalar float32 primary ∷ scalar float32 secondary ∷ []) n

  unfoldable pub report_dca_gain : ℕ → Node (Ilc S) → Node (Ilc S)
  report_dca_gain address n = on_bus address dca_gain_command 2000 [] n

  unfoldable pub report_force_actuator_force_status : ℕ → Node (Ilc S) → Node (Ilc S)
  report_force_actuator_force_status address n = on_bus address force_status_command 1800 [] n

  unfoldable pub freeze_sensor : ℕ → Node (Ilc S) → Node (Ilc S)
  unfolding broadcast_function
  freeze_sensor counter n = broadcast_function ea_broadcast freeze_sensor_command 180 counter [] n

  unfoldable pub set_offset_and_sensitivity : ℕ → ℕ → ℕ → ℕ → Node (Ilc S) → Node (Ilc S)
  set_offset_and_sensitivity address channel offset sensitivity n =
      on_bus address set_offset_command 36500
        (scalar uint8 channel ∷ scalar float32 offset ∷ scalar float32 sensitivity ∷ []) n

  unfoldable pub report_calibration_data : ℕ → Node (Ilc S) → Node (Ilc S)
  report_calibration_data address n = on_bus address calibration_command 1800 [] n

  unfoldable pub report_mezzanine_pressure : ℕ → Node (Ilc S) → Node (Ilc S)
  report_mezzanine_pressure address n = on_bus address pressure_command 1800 [] n

  unfoldable pub report_hardpoint_lvdt : ℕ → Node (Ilc S) → Node (Ilc S)
  report_hardpoint_lvdt address n = on_bus address lvdt_command 400 [] n

  -- The force offsets are floats, which `scaled` multiplies by 1000 and converts to an int24_t.
  module _ (scaled : ℕ → ℕ) where
    unfoldable pub set_saa_force_offset : ℕ → Bool → ℕ → Node (Ilc S) → Node (Ilc S)
    set_saa_force_offset address slew_flag primary n =
        on_bus address set_force_offset_command 1800
          (scalar uint8 (if slew_flag then 0xFF else 0) ∷ scalar int24 (scaled primary) ∷ []) n

    unfoldable pub set_daa_force_offset : ℕ → Bool → ℕ → ℕ → Node (Ilc S) → Node (Ilc S)
    set_daa_force_offset address slew_flag primary secondary n =
        on_bus address set_force_offset_command 1800
          (scalar uint8 (if slew_flag then 0xFF else 0)
            ∷ scalar int24 (scaled primary)
            ∷ scalar int24 (scaled secondary)
            ∷ [])
          n
