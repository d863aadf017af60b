-- ===== src/Crio/ThermalIlc/Reports.antt =====
-- What the responses of a thermal controller report, and what a broadcast demands of each of them.
use ts_c_riocpp.Common.{
  ℕ, zero, suc, ◌+◌, ◌*◌, ◌^◌, ◌<◌, ◌≡◌, refl, ap, ◌∙◌, List, [], ◌∷◌, ◌++◌, arith, length, IsByte,
  get_elem?,
}
use ts_c_riocpp.Modbus.Exceptions.{>>=-ok}
use ts_c_riocpp.Modbus.Buffer.{uint8, float32}
use ts_c_riocpp.Modbus.Buffer.Frame.{network}
use ts_c_riocpp.Modbus.Parser.{read}
use ts_c_riocpp.Modbus.Parser.Reads.{at}
use ts_c_riocpp.Modbus.Handler.{reading, callback, without_parser}
use ts_c_riocpp.Modbus.Handler.Steps.{byte_step, scalar_step, accepted, checked_call_lem}
use ts_c_riocpp.Ilc.BusList.{Ilc}
use ts_c_riocpp.Crio.ThermalIlc.{Processors, on_thermal_status, on_reheater_gains, demand_params}

module _ {S : Type 0} (w : Processors S) (a f : ℕ) (s : Ilc S) (lo hi : ℕ) (hlo : IsByte lo)
    (hhi : IsByte hi) where
  -- A thermal status, with temperatures of 32 bits, is reported with the status, the bit patterns
  -- of both temperatures and the speed of the fan exactly if the CRC is that of the message;
  -- otherwise CRCError is thrown and nothing changes.
  pub thermal_status_lem :
      (status differential fan absolute : ℕ)
      → differential < 2 ^ 32
      → absolute < 2 ^ 32
      → let body = status ∷ (network 4 differential ++ (fan ∷ network 4 absolute)) in
        callback (on_thermal_status w) (at (a ∷ f ∷ []) (body ++ (lo ∷ hi ∷ []))) s
        ≡ accepted
            (λ address. w.process_thermal_status address status differential fan absolute)
            a
            (a ∷ f ∷ body)
            lo
            hi
            s
  unfolding on_thermal_status callback
  thermal_status_lem status differential fan absolute hd ha =
      ap without_parser (
        >>=-ok (reading (read uint8)) _ _ (byte_step (a ∷ f ∷ []) _ status s)
        ∙ >>=-ok (reading (read float32)) _ _
            (scalar_step (a ∷ f ∷ status ∷ []) _ float32 differential s hd)
        ∙ >>=-ok (reading (read uint8)) _ _
            (byte_step (a ∷ f ∷ status ∷ network 4 differential) _ fan s)
        ∙ >>=-ok (reading (read float32)) _ _ (
            scalar_step (a ∷ f ∷ status ∷ (network 4 differential ++ (fan ∷ []))) _ float32 absolute
              s ha))
      ∙ checked_call_lem
          (λ address. w.process_thermal_status address status differential fan absolute) a _ lo hi s
          hlo hhi

  -- The same for the gains of the reheater.
  pub reheater_gains_lem :
      (proportional integral : ℕ)
      → proportional < 2 ^ 32
      → integral < 2 ^ 32
      → let body = network 4 proportional ++ network 4 integral in
        callback (on_reheater_gains w) (at (a ∷ f ∷ []) (body ++ (lo ∷ hi ∷ []))) s
        ≡ accepted
            (λ address. w.process_reheater_gains address proportional integral)
            a
            (a ∷ f ∷ body)
            lo
            hi
            s
  unfolding on_reheater_gains callback
  reheater_gains_lem proportional integral hp hi' =
      ap without_parser (
        >>=-ok (reading (read float32)) _ _ (scalar_step (a ∷ f ∷ []) _ float32 proportional s hp)
        ∙ >>=-ok (reading (read float32)) _ _
            (scalar_step (a ∷ f ∷ network 4 proportional) _ float32 integral s hi'))
      ∙ checked_call_lem (λ address. w.process_reheater_gains address proportional integral) a _ lo
          hi s hlo hhi

length-demand_params :
    (heaters fans : List ℕ)
    → length heaters ≡ length fans
    → length (demand_params heaters fans) ≡ 2 * length heaters
unfolding demand_params
length-demand_params [] fans e = refl
length-demand_params (h ∷ heaters) [] e = absurd (omega (arith, e))
length-demand_params (h ∷ heaters) (f ∷ fans) e =
    omega (arith, length-demand_params heaters fans (omega (arith, e)))

demand_at :
    (heaters fans : List ℕ) (i : ℕ)
    → length heaters ≡ length fans
    → (get_elem? (demand_params heaters fans) (2 * i) ≡ get_elem? heaters i)
      × (get_elem? (demand_params heaters fans) (2 * i + 1) ≡ get_elem? fans i)
unfolding demand_params
demand_at [] [] i e = (refl, refl)
demand_at [] (f ∷ fans) i e = absurd (omega (arith, e))
demand_at (h ∷ heaters) [] i e = absurd (omega (arith, e))
demand_at (h ∷ heaters) (f ∷ fans) zero e = (refl, refl)
demand_at (h ∷ heaters) (f ∷ fans) (suc i) e =
    let rest = demand_at heaters fans i (omega (arith, e)) in
    let even : 2 * suc i ≡ suc (suc (2 * i)) = omega arith in
    let odd : 2 * suc i + 1 ≡ suc (suc (2 * i + 1)) = omega arith in
    (
      ap (get_elem? (h ∷ f ∷ demand_params heaters fans)) even ∙ rest.0,
      ap (get_elem? (h ∷ f ∷ demand_params heaters fans)) odd ∙ rest.1,
    )

-- Where the demands of heaters and fans are as many, the demands of the controller i stand at 2 * i and
-- behind it, and there is nothing else.
pub demand_params_lem :
    (heaters fans : List ℕ)
    → length heaters ≡ length fans
    → (length (demand_params heaters fans) ≡ 2 * length heaters)
      × ((i : ℕ)
          → (get_elem? (demand_params heaters fans) (2 * i) ≡ get_elem? heaters i)
            × (get_elem? (demand_params heaters fans) (2 * i + 1) ≡ get_elem? fans i))
demand_params_lem heaters fans e =
    (length-demand_params heaters fans e, λ i. demand_at heaters fans i e)
