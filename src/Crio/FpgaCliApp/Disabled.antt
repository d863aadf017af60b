-- ===== src/Crio/FpgaCliApp/Disabled.antt =====
-- The list of disabled ILCs under @disable and @enable.
use ts_c_riocpp.Common.{
  ◌≡◌, refl, ap, ◌∙◌, List, [], ◌∷◌, Bool, true, false, ◌&&◌, ◌||◌, not, if◌then◌else◌,
}
use ts_c_riocpp.Modbus.Exceptions.{Outcome, ok, >>-ok}
use ts_c_riocpp.Crio.FpgaCliApp.{
  IlcUnit, App, same_unit, is_disabled, erase, push_back, disable_ilc, enable_ilc, act_on,
  for_units,
}
use ts_c_riocpp.Crio.FpgaCliApp.UnitSet.{
  Distinct, Holds, with_unit, without_unit, with_unit-Distinct, without_unit-Distinct,
  is_disabled-with_unit, is_disabled-without_unit, or_rest, and_rest, or_nothing, and_nothing,
}

module _ {S : Type 0} where
  -- The disabled units are replaced.
  abbrev pub with_disabled : App S → List IlcUnit → App S
  with_disabled c l = record c { disabled_ilcs = l }

  disable_step :
      (u : IlcUnit) (units : List IlcUnit) (c : App S)
      → for_units false disable_ilc (u ∷ units) c
        ≡ for_units false disable_ilc units (with_disabled c (with_unit u c.disabled_ilcs))
  unfolding for_units act_on disable_ilc
  disable_step u units c =
      >>-ok (act_on false disable_ilc u) (for_units false disable_ilc units) c
        (elim (is_disabled u c.disabled_ilcs)
          as (λ b.
            (if not b || false then disable_ilc u c else ok tt c)
            ≡ ok tt
                (with_disabled c (if b then c.disabled_ilcs else push_back u c.disabled_ilcs))) [
                  | true ↦ refl
                  | false ↦ refl
                ])

  enable_step :
      (u : IlcUnit) (units : List IlcUnit) (c : App S)
      → for_units true enable_ilc (u ∷ units) c
        ≡ for_units true enable_ilc units (with_disabled c (without_unit u c.disabled_ilcs))
  unfolding for_units act_on enable_ilc
  enable_step u units c =
      >>-ok (act_on true enable_ilc u) (for_units true enable_ilc units) c
        (elim (is_disabled u c.disabled_ilcs)
          as (λ b.
            (if not b || true
              then (if b then ok tt (with_disabled c (erase u c.disabled_ilcs)) else ok tt c)
              else ok tt c)
            ≡ ok tt (with_disabled c (if b then erase u c.disabled_ilcs else c.disabled_ilcs))) [
              | true ↦ refl
              | false ↦ refl
            ])

  -- The command returns, nothing is changed but the list of disabled units, no unit is twice in that
  -- list, and it has exactly the units of `left`.
  abbrev pub Leaves : (IlcUnit → Bool) → App S → Outcome (App S) (Unit {0}) → Type 0
  Leaves left c r = (l : List IlcUnit) × (r ≡ ok tt (with_disabled c l)) × Distinct l × Holds l left

  disable_units :
      (units : List IlcUnit) (c : App S)
      → Distinct c.disabled_ilcs
      → Leaves
          (λ v. is_disabled v c.disabled_ilcs || is_disabled v units)
          c
          (for_units false disable_ilc units c)
  unfolding for_units is_disabled
  disable_units [] c d = (c.disabled_ilcs, refl, d, λ v. or_nothing (is_disabled v c.disabled_ilcs))
  disable_units (u ∷ units) c d =
      let before = c.disabled_ilcs in
      let rest =
        disable_units units (with_disabled c (with_unit u before))
          (with_unit-Distinct u before d) in
      (
        rest.0,
        disable_step u units c ∙ rest.1,
        rest.2,
        λ v.
            rest.3 v
            ∙ ap (λ (b : Bool). b || is_disabled v units) (is_disabled-with_unit v u before)
            ∙ or_rest (is_disabled v before) (same_unit u v) (is_disabled v units),
      )

  enable_units :
      (units : List IlcUnit) (c : App S)
      → Distinct c.disabled_ilcs
      → Leaves
          (λ v. is_disabled v c.disabled_ilcs && not (is_disabled v units))
          c
          (for_units true enable_ilc units c)
  unfolding for_units is_disabled
  enable_units [] c d = (c.disabled_ilcs, refl, d, λ v. and_nothing (is_disabled v c.disabled_ilcs))
  enable_units (u ∷ units) c d =
      let before = c.disabled_ilcs in
      let rest =
        enable_units units (with_disabled c (without_unit u before))
          (without_unit-Distinct u before d) in
      (
        rest.0,
        enable_step u units c ∙ rest.1,
        rest.2,
        λ v.
            rest.3 v
            ∙ ap (λ (b : Bool). b && not (is_disabled v units))
                (is_disabled-without_unit v u before d)
            ∙ and_rest (is_disabled v before) (same_unit u v) (is_disabled v units),
      )

  -- If no unit is twice in the list of disabled units, the loops of @disable and @enable over any units
  -- return, and leave such a list and all else of the program as it was: after @disable, the disabled
  -- units are those that were and the ones of the command, after @enable those that were without the
  -- ones of the command, however often these are named.
  pub disabled_units_lem :
      (units : List IlcUnit) (c : App S)
      → Distinct c.disabled_ilcs
      → Leaves
          (λ v. is_disabled v c.disabled_ilcs || is_disabled v units)
          c
          (for_units false disable_ilc units c)
        × Leaves
            (λ v. is_disabled v c.disabled_ilcs && not (is_disabled v units))
            c
            (for_units true enable_ilc units c)
  disabled_units_lem units c d = (disable_units units c d, enable_units units c d)
