-- ===== src/Crio/ThermalIlc.antt =====
-- class ThermalILC of include/cRIO/ThermalILC.h and src/LSST/cRIO/ThermalILC.cpp. A float is the bit
-- pattern of its 32 bits. The process… methods are pure virtual: they are the fields of Processors.
pub mod Reports
use ts_c_riocpp.Common.{ℕ, zero, suc, ◌+◌, ◌%◌, ◌^◌, List, [], ◌∷◌, ◌++◌, Option, none, some, u8}
use ts_c_riocpp.Modbus.Exceptions.{Error, Outcome, ok, throw, M, ◌>>=◌, ◌>>◌, pure, final}
use ts_c_riocpp.Modbus.Buffer.{Arg, Scalar, scalar, uint8s, uint8, float32}
use ts_c_riocpp.Modbus.Parser.{read, check_crc}
use ts_c_riocpp.Modbus.Handler.{Handler, reading, parser_address, call, callback}
use ts_c_riocpp.Modbus.BusList.{Functions, Node, add_response}
use ts_c_riocpp.Ilc.BusList
use ts_c_riocpp.Ilc.BusList.{Ilc, ilc_functions, on_bus, broadcast_function, next_broadcast_counter}

pub record Processors (S : Type 0) : Type 0 where
  pub process_thermal_status : ℕ → ℕ → ℕ → ℕ → ℕ → M (Ilc S) (Unit {0})
  pub process_reheater_gains : ℕ → ℕ → ℕ → M (Ilc S) (Unit {0})

-- enum ILC_THERMAL_CMD.
abbrev pub set_thermal_demand_command : ℕ
set_thermal_demand_command = 88

abbrev pub thermal_status_command : ℕ
thermal_status_command = 89

abbrev pub set_reheater_gains_command : ℕ
set_reheater_gains_command = 92

abbrev pub reheater_gains_command : ℕ
reheater_gains_command = 93

-- The loop over the controllers: the demands of heater and fan, one after the other.
unfoldable pub demand_params : List ℕ → List ℕ → List ℕ
demand_params [] fans = []
demand_params (h ∷ heaters) [] = []
demand_params (h ∷ heaters) (f ∷ fans) = h ∷ f ∷ demand_params heaters fans

module _ {S : Type 0} where
  -- The callback of a response that has no data.
  unfoldable pub on_done : M (Handler (Ilc S)) (Unit {0})
  on_done = reading check_crc

  module _ (w : Processors S) where
    unfoldable pub on_thermal_status : M (Handler (Ilc S)) (Unit {0})
    on_thermal_status = do
      status ← reading (read uint8)
      differential_temperature ← reading (read float32)
      fan_rpm ← reading (read uint8)
      absolute_temperature ← reading (read float32)
      reading check_crc
      a ← parser_address
      call (w.process_thermal_status a status differential_temperature fan_rpm absolute_temperature)

    unfoldable pub on_reheater_gains : M (Handler (Ilc S)) (Unit {0})
    on_reheater_gains = do
      proportional_gain ← reading (read float32)
      integral_gain ← reading (read float32)
      reading check_crc
      a ← parser_address
      call (w.process_reheater_gains a proportional_gain integral_gain)

    -- The table that the constructors of ILCBusList and ThermalILC fill.
    unfoldable pub thermal_functions : BusList.Processors S → Functions (Ilc S)
    unfolding add_response
    thermal_functions v =
        let a : Functions (Ilc S) =
          add_response (ilc_functions v) set_thermal_demand_command (callback on_thermal_status)
            none in
        let b : Functions (Ilc S) =
          add_response a thermal_status_command (callback on_thermal_status) none in
        let c : Functions (Ilc S) =
          add_response b set_reheater_gains_command (callback on_done) none in
        add_response c reheater_gains_command (callback on_reheater_gains) none

  unfoldable pub set_thermal_demand : ℕ → ℕ → ℕ → Node (Ilc S) → Node (Ilc S)
  set_thermal_demand address heater_pwm fan_rpm n =
      on_bus address set_thermal_demand_command 500
        (scalar uint8 heater_pwm ∷ scalar uint8 fan_rpm ∷ []) n

  unfoldable pub report_thermal_status : ℕ → Node (Ilc S) → Node (Ilc S)
  report_thermal_status address n = on_bus address thermal_status_command 500 [] n

  unfoldable pub set_reheater_gains : ℕ → ℕ → ℕ → Node (Ilc S) → Node (Ilc S)
  set_reheater_gains address proportional integral n =
      on_bus address set_reheater_gains_command 500000
        (scalar float32 proportional ∷ scalar float32 integral ∷ []) n

  unfoldable pub report_reheater_gains : ℕ → Node (Ilc S) → Node (Ilc S)
  report_reheater_gains address n = on_bus address reheater_gains_command 300 [] n

  unfoldable pub broadcast_thermal_demand : List ℕ → List ℕ → Node (Ilc S) → Node (Ilc S)
  unfolding broadcast_function next_broadcast_counter
  broadcast_thermal_demand heater_pwm fan_rpm n = elim (next_broadcast_counter n.self) [
    | ok counter s ↦
        broadcast_function 250 88 450 counter (uint8s (demand_params heater_pwm fan_rpm) ∷ [])
          (record n { self = s })
    | throw e s ↦ n
  ]
