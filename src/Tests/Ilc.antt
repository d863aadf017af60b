-- ===== src/Tests/Ilc.antt =====
-- Responses of inner loop controllers.
use ts_c_riocpp.Common.{ℕ, ◌^◌, ◌<◌, ◌≡◌, ◌≢◌, List, [], ◌∷◌, ◌++◌, arith, none, length}
use ts_c_riocpp.Modbus.Exceptions.{ok, throw, out_of_range, M}
use ts_c_riocpp.Modbus.Buffer.Frame.{network}
use ts_c_riocpp.Modbus.Parser.Reads.{at}
use ts_c_riocpp.Modbus.Handler.{callback}
use ts_c_riocpp.Modbus.Handler.Steps.{accepted}
use ts_c_riocpp.Modbus.BusList.{Node, new_bus_list}
use ts_c_riocpp.Ilc.BusList.{Ilc, Processors, set_last_mode, on_server_status}
use ts_c_riocpp.Ilc.BusList.Reports.{server_status_lem}
use ts_c_riocpp.Crio.ThermalIlc
use ts_c_riocpp.Crio.ThermalIlc.{on_thermal_status, demand_params}
use ts_c_riocpp.Crio.ForceIlc
use ts_c_riocpp.Crio.ForceIlc.{
  on_force_status, on_pressure_data, on_calibration_data, invalid_reply_length,
}
use ts_c_riocpp.Crio.ForceIlc.ForceStatus.{force_status_lem}

-- A subclass that keeps the reported numbers.
abbrev note : List ℕ → M (Ilc (List ℕ)) (Unit {0})
note ns s = ok tt (record s { self = ns })

abbrev keeper : Processors (List ℕ)
keeper = record {
  process_server_id = λ a u t n o p j i name. note (a ∷ u ∷ t ∷ n ∷ o ∷ p ∷ j ∷ i ∷ name);
  process_server_status = λ a m st fa. note (a ∷ m ∷ st ∷ fa ∷ []);
  process_change_ilc_mode = λ a m. note (a ∷ m ∷ []);
  process_set_temp_ilc_address = λ a n. note (a ∷ n ∷ []);
  process_reset_server = λ a. note (a ∷ []);
}

abbrev blank : Ilc (List ℕ)
blank = record { bus_number = 1; last_mode = λ a. none; broadcast_counter = 0; self = [] }

abbrev idle : Node (Ilc (List ℕ))
idle = record { bus = new_bus_list; self = blank }

server_status_example :
    callback (on_server_status keeper) (at (7 ∷ 18 ∷ []) (2 ∷ 0 ∷ 1 ∷ 0 ∷ 9 ∷ 5 ∷ 6 ∷ [])) blank
    ≡ accepted
        (λ a t. keeper.process_server_status a 2 1 9 (set_last_mode a 2 t))
        7
        (7 ∷ 18 ∷ 2 ∷ 0 ∷ 1 ∷ 0 ∷ 9 ∷ [])
        5
        6
        blank
server_status_example =
    server_status_lem keeper 7 18 blank 5 6 (omega arith) (omega arith) 2 1 9 (omega arith)
      (omega arith)

abbrev heater_keeper : ThermalIlc.Processors (List ℕ)
heater_keeper = record {
  process_thermal_status = λ a st d fan t. note (a ∷ st ∷ d ∷ fan ∷ t ∷ []);
  process_reheater_gains = λ a p i. note (a ∷ p ∷ i ∷ []);
}

abbrev force_keeper : ForceIlc.Processors (List ℕ)
force_keeper = record {
  process_stepper_force_status = λ a st e l. note (a ∷ st ∷ e ∷ l ∷ []);
  process_dca_gain = λ a p q. note (a ∷ p ∷ q ∷ []);
  process_hardpoint_lvdt = λ a p q. note (a ∷ p ∷ q ∷ []);
  process_saa_force_status = λ a st p. note (a ∷ st ∷ p ∷ []);
  process_daa_force_status = λ a st p q. note (a ∷ st ∷ p ∷ q ∷ []);
  process_calibration_data = λ a b c d e f g. note (a ∷ (b ++ (c ++ (d ++ (e ++ (f ++ g))))));
  process_mezzanine_pressure = λ a p q r t. note (a ∷ p ∷ q ∷ r ∷ t ∷ []);
}

force_status_example :
    ((lo hi : ℕ)
      → lo < 256
      → hi < 256
      → callback
          (on_force_status force_keeper)
          (at (7 ∷ 76 ∷ []) (1 ∷ 0 ∷ 0 ∷ 0 ∷ 2 ∷ lo ∷ hi ∷ []))
          blank
        ≡ accepted
            (λ a. force_keeper.process_saa_force_status a 1 2)
            7
            (7 ∷ 76 ∷ 1 ∷ 0 ∷ 0 ∷ 0 ∷ 2 ∷ [])
            lo
            hi
            blank)
    × ((secondary lo hi : ℕ)
        → secondary < 2 ^ 32
        → lo < 256
        → hi < 256
        → callback
            (on_force_status force_keeper)
            (at (7 ∷ 76 ∷ []) (1 ∷ 0 ∷ 0 ∷ 0 ∷ 2 ∷ (network 4 secondary ++ (lo ∷ hi ∷ []))))
            blank
          ≡ accepted
              (λ a. force_keeper.process_daa_force_status a 1 2 secondary)
              7
              (7 ∷ 76 ∷ 1 ∷ 0 ∷ 0 ∷ 0 ∷ 2 ∷ network 4 secondary)
              lo
              hi
              blank)
    × ((tail : List ℕ)
        → length tail ≢ 2
        → length tail ≢ 6
        → callback
            (on_force_status force_keeper)
            (at (7 ∷ 76 ∷ []) (1 ∷ 0 ∷ 0 ∷ 0 ∷ 2 ∷ tail))
            blank
          ≡ throw invalid_reply_length blank)
    × ((short : List ℕ)
        → length short < 5
        → callback (on_force_status force_keeper) (at (7 ∷ 76 ∷ []) short) blank
          ≡ throw out_of_range blank)
force_status_example = force_status_lem force_keeper 7 76 blank 1 2 (omega arith)

abbrev four : List ℕ
four = 1 ∷ 2 ∷ 3 ∷ 4 ∷ []

abbrev other_four : List ℕ
other_four = 5 ∷ 6 ∷ 7 ∷ 8 ∷ []
