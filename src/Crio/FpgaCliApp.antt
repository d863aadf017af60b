-- ===== src/Crio/FpgaCliApp.antt =====
-- class FPGACliApp of include/cRIO/FPGACliApp.h and src/LSST/cRIO/FPGACliApp.cpp: the commands of a
-- command line that act on ILCs, those that are disabled for them, and the MPUs by their names.
-- An ILC unit is a PrintILC object, by its address, and the address of a controller on its bus. An int is
-- its bit pattern. What is printed is left out. `S` is the state of the buses and of the FPGA, which is
-- open where a command that needs it runs. The map of MPUs is the list of its entries, by their names.
pub mod UnitSet
pub mod Disabled
pub mod Actions
pub mod Names
use ts_c_riocpp.Common.{
  ℕ, List, [], ◌∷◌, Option, none, some, Bool, true, false, ◌==◌, ◌&&◌, ◌||◌, not, if◌then◌else◌,
}
use ts_c_riocpp.Modbus.Exceptions.{Outcome, ok, throw, M, ◌>>=◌, ◌>>◌, pure}
use ts_c_riocpp.Crio.CliApp.{String, failed, starts_with}

abbrev pub IlcUnit : Type 0
IlcUnit = ℕ × ℕ

pub record App (S : Type 0) : Type 0 where
  pub ilc_timeout : ℕ
  pub ilcs : List ℕ
  pub mpu : List (String × ℕ)
  pub disabled_ilcs : List IlcUnit
  pub world : S

-- clear and empty of a PrintILC object, ilcCommands of the FPGA, and getILCs of the program.
pub record Buses (S : Type 0) : Type 0 where
  pub clear : ℕ → M S (Unit {0})
  pub is_empty : ℕ → S → Bool
  pub send_commands : ℕ → ℕ → M S (Unit {0})
  pub get_ilcs : List String → M S (List IlcUnit)

abbrev pub same_unit : IlcUnit → IlcUnit → Bool
same_unit u v = (u.0 == v.0) && (u.1 == v.1)

-- Whether std::find finds the unit.
unfoldable pub is_disabled : IlcUnit → List IlcUnit → Bool
is_disabled u [] = false
is_disabled u (v ∷ l) = same_unit v u || is_disabled u l

-- erase of the unit that std::find found, the first of the list.
unfoldable pub erase : IlcUnit → List IlcUnit → List IlcUnit
erase u [] = []
erase u (v ∷ l) = let rest = erase u l in if same_unit v u then l else v ∷ rest

-- push_back.
unfoldable pub push_back : IlcUnit → List IlcUnit → List IlcUnit
push_back u [] = u ∷ []
push_back u (v ∷ l) = v ∷ push_back u l

-- The loop of getMPU over the rest of the map, with `ret` found so far.
unfoldable pub mpu_loop : String → Option ℕ → List (String × ℕ) → Option ℕ
mpu_loop name ret [] = ret
mpu_loop name ret (m ∷ l) =
    let found = mpu_loop name (some m.1) l in
    let rest = mpu_loop name ret l in
    if starts_with name m.0 then elim ret [ some other ↦ none | none ↦ found ] else rest

module _ {S : Type 0} where
  unfoldable pub on_buses : {A : Type 0} → M S A → M (App S) A
  on_buses m c = elim (m c.world) [
    | ok a s ↦ ok a (record c { world = s })
    | throw e s ↦ throw e (record c { world = s })
  ]

  -- The answer of setIlcTimeout, and the timeout, which std::stoi reads.
  unfoldable pub set_ilc_timeout : (String → M S ℕ) → List String → M (App S) ℕ
  unfolding on_buses
  set_ilc_timeout stoi (word ∷ []) = do
    timeout ← on_buses (stoi word)
    (λ c. ok 0 (record c { ilc_timeout = timeout }))
  set_ilc_timeout stoi _ = pure 0

  unfoldable pub disable_ilc : IlcUnit → M (App S) (Unit {0})
  unfolding push_back
  disable_ilc u c = ok tt (record c { disabled_ilcs = push_back u c.disabled_ilcs })

  unfoldable pub enable_ilc : IlcUnit → M (App S) (Unit {0})
  unfolding is_disabled erase
  enable_ilc u c =
      if is_disabled u c.disabled_ilcs
      then ok tt (record c { disabled_ilcs = erase u c.disabled_ilcs })
      else ok tt c

  unfoldable pub get_mpu : String → App S → Option ℕ
  unfolding mpu_loop
  get_mpu name c = mpu_loop name none c.mpu

  -- The loop of an ILC command over its units, and its body; `disable_disabled` is set for the
  -- command @enable.
  unfoldable pub act_on : Bool → (IlcUnit → M (App S) (Unit {0})) → IlcUnit → M (App S) (Unit {0})
  unfolding is_disabled
  act_on disable_disabled action u c =
      if not (is_disabled u c.disabled_ilcs) || disable_disabled then action u c else ok tt c

  unfoldable pub for_units :
      Bool → (IlcUnit → M (App S) (Unit {0})) → List IlcUnit → M (App S) (Unit {0})
  unfolding act_on
  for_units disable_disabled action [] = pure tt
  for_units disable_disabled action (u ∷ units) = do
    act_on disable_disabled action u
    for_units disable_disabled action units

  module _ (b : Buses S) where
    unfoldable pub clear_loop : List ℕ → M S (Unit {0})
    clear_loop [] = pure tt
    clear_loop (ilc ∷ ilcs) = do b.clear ilc; clear_loop ilcs

    unfoldable pub clear_ilcs : M (App S) (Unit {0})
    unfolding clear_loop on_buses
    clear_ilcs c = on_buses (clear_loop c.ilcs) c

    unfoldable pub run_loop : ℕ → List ℕ → M S (Unit {0})
    run_loop timeout [] = pure tt
    run_loop timeout (ilc ∷ ilcs) = do
      (λ s. if not (b.is_empty ilc s) then b.send_commands ilc timeout s else ok tt s)
      run_loop timeout ilcs

    unfoldable pub run_ilc_commands : ℕ → M (App S) (Unit {0})
    unfolding run_loop on_buses
    run_ilc_commands timeout c = on_buses (run_loop timeout c.ilcs) c

    -- The units of a command, when there are any.
    unfoldable pub run_units : Bool → (IlcUnit → M (App S) (Unit {0})) → List IlcUnit → M (App S) ℕ
    unfolding for_units run_ilc_commands
    run_units disable_disabled action [] = pure failed
    run_units disable_disabled action (u ∷ units) = do
      for_units disable_disabled action (u ∷ units)
      (λ c. run_ilc_commands c.ilc_timeout c)
      pure 0

    -- The action of a command that addILCCommand adds.
    unfoldable pub ilc_command : Bool → (IlcUnit → M (App S) (Unit {0})) → List String → M (App S) ℕ
    unfolding clear_ilcs on_buses run_units
    ilc_command disable_disabled action cmds = do
      clear_ilcs
      units ← on_buses (b.get_ilcs cmds)
      run_units disable_disabled action units
