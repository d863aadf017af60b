-- ===== src/Ilc/SensorMonitor.antt =====
-- class SensorMonitor of include/ILC/SensorMonitor.h and src/ILC/SensorMonitor.cpp. A float is the bit
-- pattern of its 32 bits; processSensorValues is pure virtual.
pub mod Reports
use ts_c_riocpp.Common.{ℕ, ◌-◌, ◌/◌, ◌%◌, List, [], ◌∷◌, Option, none, not, ◌==◌, if◌then◌else◌}
use ts_c_riocpp.Modbus.Exceptions.{
  Error, runtime_error, Outcome, ok, throw, M, ◌>>=◌, ◌>>◌, throw_if,
}
use ts_c_riocpp.Modbus.Floats.{read_floats}
use ts_c_riocpp.Modbus.Handler.{Handler, reading, parser_address, parser_size, call, callback}
use ts_c_riocpp.Modbus.BusList.{Functions, Node, add_response}
use ts_c_riocpp.Ilc.BusList.{Ilc, Processors, ilc_functions, on_bus}

abbrev pub sensor_values_command : ℕ
sensor_values_command = 84

-- "Invalid reponse length - expected 4*x".
abbrev pub invalid_response_length : Error
invalid_response_length = runtime_error 50

module _ {S : Type 0} where
  module _ (process_sensor_values : ℕ → List ℕ → M (Ilc S) (Unit {0})) where
    unfoldable pub on_sensor_values : M (Handler (Ilc S)) (Unit {0})
    on_sensor_values = do
      size ← parser_size
      throw_if (not (size % 4 == 0)) invalid_response_length
      values ← reading (read_floats (size / 4 - 1))
      a ← parser_address
      call (process_sensor_values a values)

    -- The table that the constructors of ILCBusList and SensorMonitor fill.
    unfoldable pub sensor_functions : Processors S → Functions (Ilc S)
    unfolding add_response
    sensor_functions v =
        add_response (ilc_functions v) sensor_values_command (callback on_sensor_values) none

  unfoldable pub report_sensor_values : ℕ → Node (Ilc S) → Node (Ilc S)
  report_sensor_values address n = on_bus address sensor_values_command 400 [] n
