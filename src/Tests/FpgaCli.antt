-- ===== src/Tests/FpgaCli.antt =====
-- Runs of the commands of FPGACliApp.
use ts_c_riocpp.Common.{ℕ, ◌≡◌, refl, List, [], ◌∷◌, ◌++◌, some, none, true, false, ◌&&◌, ◌||◌, not}
use ts_c_riocpp.Modbus.Exceptions.{ok, ◌>>=◌, ◌>>◌}
use ts_c_riocpp.Crio.CliApp.{starts_with}
use ts_c_riocpp.Crio.FpgaCliApp.{
  App, Buses, is_disabled, for_units, disable_ilc, enable_ilc, on_buses, clear_loop, ilc_command,
  get_mpu,
}
use ts_c_riocpp.Crio.FpgaCliApp.Actions.{on_enabled, ilc_command_lem}
use ts_c_riocpp.Crio.FpgaCliApp.Disabled.{Leaves, disabled_units_lem}

-- The state of the buses is what was done on them: 100 for a clear, 200 for the commands that are sent,
-- and the address of a unit that was acted on. getILCs answers the units 1 to 3 of the bus 9.
abbrev noting_buses : Buses (List ℕ)
noting_buses = record {
  clear = λ ilc log. ok tt (log ++ (100 ∷ []));
  is_empty = λ ilc log. false;
  send_commands = λ ilc timeout log. ok tt (log ++ (200 ∷ timeout ∷ []));
  get_ilcs = λ words log. ok ((9, 1) ∷ (9, 2) ∷ (9, 3) ∷ []) log;
}

abbrev console : App (List ℕ)
console = record {
  ilc_timeout = 5000;
  ilcs = 9 ∷ [];
  mpu = ((97 ∷ 98 ∷ []), 1) ∷ ((97 ∷ 99 ∷ []), 2) ∷ [];
  disabled_ilcs = (9, 2) ∷ [];
  world = [];
}

ilc_command_example :
    ilc_command noting_buses false (λ u. on_buses (λ log. ok tt (log ++ (u.1 ∷ [])))) [] console
    ≡ on_buses
        (do
          clear_loop noting_buses (9 ∷ [])
          units ← noting_buses.get_ilcs []
          on_enabled noting_buses (λ u log. ok tt (log ++ (u.1 ∷ []))) console units)
        console
ilc_command_example = ilc_command_lem noting_buses (λ u log. ok tt (log ++ (u.1 ∷ []))) [] console

-- Unit 2 is passed over.
two_acted :
    ilc_command noting_buses false (λ u. on_buses (λ log. ok tt (log ++ (u.1 ∷ [])))) [] console
    ≡ ok 0 (record console { world = 100 ∷ 1 ∷ 3 ∷ 200 ∷ 5000 ∷ [] })
unfolding ilc_command
two_acted = refl

one-Distinct : is_disabled (9, 2) [] ≡ false
unfolding is_disabled
one-Distinct = refl

disabled_units_example :
    Leaves
      (λ v. is_disabled v ((9, 2) ∷ []) || is_disabled v ((9, 1) ∷ (9, 2) ∷ []))
      console
      (for_units false disable_ilc ((9, 1) ∷ (9, 2) ∷ []) console)
    × Leaves
        (λ v. is_disabled v ((9, 2) ∷ []) && not (is_disabled v ((9, 1) ∷ (9, 2) ∷ [])))
        console
        (for_units true enable_ilc ((9, 1) ∷ (9, 2) ∷ []) console)
disabled_units_example = disabled_units_lem ((9, 1) ∷ (9, 2) ∷ []) console (one-Distinct, tt)

-- "a" is the start of two names, and "ab" of one.
mpu_names : (get_mpu (97 ∷ []) console ≡ none) × (get_mpu (97 ∷ 98 ∷ []) console ≡ some 1)
unfolding get_mpu starts_with
mpu_names = (refl, refl)
