-- ===== src/Crio/FpgaCliApp/Actions.antt =====
-- The units that an ILC command acts on.
use ts_c_riocpp.Common.{
  ℕ, ◌≡◌, refl, sym, ap, ◌∙◌, List, [], ◌∷◌, true, false, ◌||◌, not, if◌then◌else◌,
}
use ts_c_riocpp.Modbus.Exceptions.{Outcome, ok, throw, M, ◌>>=◌, ◌>>◌, pure}
use ts_c_riocpp.Crio.CliApp.{String, failed}
use ts_c_riocpp.Crio.FpgaCliApp.{
  IlcUnit, App, Buses, is_disabled, on_buses, act_on, for_units, clear_loop, clear_ilcs, run_loop,
  run_ilc_commands, run_units, ilc_command,
}

-- The units of a list that are not disabled.
abbrev pub enabled_units : List IlcUnit → List IlcUnit → List IlcUnit
enabled_units disabled [] = []
enabled_units disabled (u ∷ units) =
    let rest = enabled_units disabled units in if is_disabled u disabled then rest else u ∷ rest

module _ {S : Type 0} where
  abbrev pub act_all : (IlcUnit → M S (Unit {0})) → List IlcUnit → M S (Unit {0})
  act_all act [] = pure tt
  act_all act (u ∷ units) = do act u; act_all act units

  abbrev at : App S → S → App S
  at c s = record c { world = s }

  abbrev lifted : {A : Type 0} → App S → Outcome S A → Outcome (App S) A
  lifted c (ok a s) = ok a (at c s)
  lifted c (throw e s) = throw e (at c s)

  on_buses_eq : {A : Type 0} (m : M S A) (c : App S) → on_buses m c ≡ lifted c (m c.world)
  unfolding on_buses
  on_buses_eq m c =
      elim (m c.world)
        as (λ r. (elim r [ ok a s ↦ ok a (at c s) | throw e s ↦ throw e (at c s) ]) ≡ lifted c r) [
          | ok a s ↦ refl
          | throw e s ↦ refl
        ]

  -- A chain whose steps change the buses only is a chain of the buses.
  bind_on :
      {A B : Type 0} (m : M S A) (f : A → M (App S) B) (g : A → M S B) (c : App S)
      → ((a : A) (s : S) → f a (at c s) ≡ on_buses (g a) (at c s))
      → ◌>>=◌ (on_buses m) f c ≡ on_buses (◌>>=◌ m g) c
  bind_on m f g c h =
      ap (λ (r : Outcome (App S) _). ◌>>=◌ (λ _. r) f c) (on_buses_eq m c)
      ∙ (elim (m c.world)
          as (λ r. ◌>>=◌ (λ _. lifted c r) f c ≡ lifted c (◌>>=◌ (λ _. r) g c.world)) [
            | ok a s ↦ h a s ∙ on_buses_eq (g a) (at c s)
            | throw e s ↦ refl
          ])
      ∙ sym (on_buses_eq (◌>>=◌ m g) c)

  then_on :
      {B : Type 0} (m : M S (Unit {0})) (f : M (App S) B) (g : M S B) (c : App S)
      → ((s : S) → f (at c s) ≡ on_buses g (at c s))
      → ◌>>◌ (on_buses m) f c ≡ on_buses (◌>>◌ m g) c
  then_on m f g c h = bind_on m (λ _. f) (λ _. g) c (λ _ s. h s)

  for_units_lem :
      (act : IlcUnit → M S (Unit {0})) (units : List IlcUnit) (c : App S)
      → for_units false (λ u. on_buses (act u)) units c
        ≡ on_buses (act_all act (enabled_units c.disabled_ilcs units)) c
  unfolding for_units act_on on_buses
  for_units_lem act [] c = refl
  for_units_lem act (u ∷ units) c =
      elim (is_disabled u c.disabled_ilcs)
        as (λ b.
          ◌>>◌ (λ _. if not b || false then on_buses (act u) c else ok tt c)
            (for_units false (λ v. on_buses (act v)) units) c
          ≡ on_buses
              (act_all act (
                if b
                then enabled_units c.disabled_ilcs units
                else u ∷ enabled_units c.disabled_ilcs units))
              c) [
                | true ↦ for_units_lem act units c
                | false ↦
                    then_on (act u) (for_units false (λ v. on_buses (act v)) units)
                      (act_all act (enabled_units c.disabled_ilcs units)) c
                      (λ s. for_units_lem act units (at c s))
              ]

  module _ (b : Buses S) where
    -- What a command is to do on the buses, of a program in the state `c`.
    abbrev pub on_enabled : (IlcUnit → M S (Unit {0})) → App S → List IlcUnit → M S ℕ
    on_enabled act c [] = pure failed
    on_enabled act c (u ∷ units) = do
      act_all act (enabled_units c.disabled_ilcs (u ∷ units))
      run_loop b c.ilc_timeout c.ilcs
      pure 0

    run_units_lem :
        (act : IlcUnit → M S (Unit {0})) (units : List IlcUnit) (c : App S)
        → run_units b false (λ u. on_buses (act u)) units c ≡ on_buses (on_enabled act c units) c
    unfolding run_units on_buses run_ilc_commands
    run_units_lem act [] c = refl
    run_units_lem act (u ∷ units) c =
        ap (λ (r : Outcome (App S) (Unit {0})). ◌>>◌ (λ _. r) send c)
          (for_units_lem act (u ∷ units) c)
        ∙ then_on (act_all act (enabled_units c.disabled_ilcs (u ∷ units))) send
            (do run_loop b c.ilc_timeout c.ilcs; pure 0) c
            (λ s. then_on (run_loop b c.ilc_timeout c.ilcs) (pure 0) (pure 0) (at c s) (λ t. refl))
      where
        send : M (App S) ℕ
        send = do (λ c'. run_ilc_commands b c'.ilc_timeout c'); pure 0

    -- A command whose action changes nothing but the buses, and is not @enable, clears the buses, acts on
    -- the units that getILCs answers and that are not disabled, in their order, and sends what is
    -- prepared then, until one of these throws, and answers 0; without any units it only clears the
    -- buses, and answers -1. It changes nothing but the buses.
    pub ilc_command_lem :
        (act : IlcUnit → M S (Unit {0})) (cmds : List String) (c : App S)
        → ilc_command b false (λ u. on_buses (act u)) cmds c
          ≡ on_buses (do clear_loop b c.ilcs; units ← b.get_ilcs cmds; on_enabled act c units) c
    unfolding ilc_command clear_ilcs
    ilc_command_lem act cmds c = then_on (clear_loop b c.ilcs) _ _ c (λ s.
        bind_on (b.get_ilcs cmds) (run_units b false (λ u. on_buses (act u))) _ (at c s)
          (λ units t. run_units_lem act units (at c t)))
