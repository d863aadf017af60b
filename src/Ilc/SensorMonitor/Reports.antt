-- ===== src/Ilc/SensorMonitor/Reports.antt =====
-- What a response with sensor values reports.
use ts_c_riocpp.Common.{
  ℕ, ◌+◌, ◌-◌, ◌*◌, ◌/◌, ◌%◌, ◌≡◌, refl, ap, ◌∙◌, List, [], ◌∷◌, ◌++◌, arith, length, length-append,
  All, not, ◌==◌,
}
use ts_c_riocpp.Modbus.Exceptions.{ok, M, throw_if, >>=-ok, >>-ok}
use ts_c_riocpp.Modbus.Parser.Reads.{at}
use ts_c_riocpp.Modbus.Buffer.Frame.{network}
use ts_c_riocpp.Modbus.Floats.{floats, IsFloat, read_floats, read_floats_lem}
use ts_c_riocpp.Modbus.Handler.{
  reading, parser_address, parser_size, callback, without_parser, reading-ok,
}
use ts_c_riocpp.Modbus.Handler.Steps.{handling, address_step, call_back}
use ts_c_riocpp.Ilc.BusList.{Ilc}
use ts_c_riocpp.Ilc.SensorMonitor.{on_sensor_values, invalid_response_length}

length-floats : (vs : List ℕ) → length (floats vs) ≡ 4 * length vs
length-floats [] = refl
length-floats (v ∷ vs) = omega (arith, length-append (network 4 v) (floats vs), length-floats vs)

module _ {S : Type 0} (process : ℕ → List ℕ → M (Ilc S) (Unit {0})) (a f : ℕ) (s : Ilc S) where
  size_step :
      (vs : List ℕ) (lo hi : ℕ)
      → parser_size (handling (a ∷ f ∷ []) (floats vs ++ (lo ∷ hi ∷ [])) s)
        ≡ ok (4 * (length vs + 1)) (handling (a ∷ f ∷ []) (floats vs ++ (lo ∷ hi ∷ [])) s)
  unfolding parser_size
  size_step vs lo hi =
      ap (λ n. ok n (handling (a ∷ f ∷ []) (floats vs ++ (lo ∷ hi ∷ [])) s))
        (omega (arith, length-append (floats vs) (lo ∷ hi ∷ []), length-floats vs))

  -- The values of a message of floats of 32 bits with two bytes behind them are reported, whatever these
  -- two bytes are.
  pub sensor_values_lem :
      (vs : List ℕ) (lo hi : ℕ)
      → All IsFloat vs
      → callback (on_sensor_values process) (at (a ∷ f ∷ []) (floats vs ++ (lo ∷ hi ∷ []))) s
        ≡ process a vs s
  unfolding on_sensor_values callback
  sensor_values_lem vs lo hi h =
      ap without_parser (
        >>=-ok parser_size _ _ (size_step vs lo hi)
        ∙ >>-ok (throw_if (not (4 * (length vs + 1) % 4 == 0)) invalid_response_length) _ _
            (rw multiple refl)
        ∙ >>=-ok (reading (read_floats (4 * (length vs + 1) / 4 - 1))) _ _ (values vs lo hi h)
        ∙ >>=-ok parser_address _ _ (address_step a (f ∷ floats vs) (lo ∷ hi ∷ []) s))
      ∙ call_back (process a vs) (at (a ∷ f ∷ floats vs) (lo ∷ hi ∷ [])) s
    where
      multiple : 4 * (length vs + 1) % 4 ≡ 0
      multiple = omega arith

      values :
          (vs : List ℕ) (lo hi : ℕ)
          → All IsFloat vs
          → reading
              (read_floats (4 * (length vs + 1) / 4 - 1))
              (handling (a ∷ f ∷ []) (floats vs ++ (lo ∷ hi ∷ [])) s)
            ≡ ok vs (handling (a ∷ f ∷ [] ++ floats vs) (lo ∷ hi ∷ []) s)
      values vs lo hi h =
          ap (λ n. reading (read_floats n) (handling (a ∷ f ∷ []) (floats vs ++ (lo ∷ hi ∷ [])) s))
            (omega arith)
          ∙ reading-ok (read_floats (length vs)) _ _ s vs
              (read_floats_lem (a ∷ f ∷ []) (lo ∷ hi ∷ []) vs h)
