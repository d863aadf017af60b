-- ===== src/Crio/ForceIlc/Reports.antt =====
-- What the responses of a force controller report.
use ts_c_riocpp.Common.{ℕ, ◌≡◌, sym, ap, ◌∙◌, List, [], ◌∷◌, ◌++◌, length, IsByte, All}
use ts_c_riocpp.Modbus.Exceptions.{ok, >>=-ok}
use ts_c_riocpp.Modbus.Buffer.{float32}
use ts_c_riocpp.Modbus.Buffer.Frame.{network}
use ts_c_riocpp.Modbus.Parser.{read}
use ts_c_riocpp.Modbus.Parser.Reads.{at}
use ts_c_riocpp.Modbus.Floats.{floats, IsFloat, read_floats, read_floats_lem}
use ts_c_riocpp.Modbus.Handler.{reading, callback, without_parser, reading-ok}
use ts_c_riocpp.Modbus.Handler.Steps.{
  handling, scalar_step, accepted, checked_call, checked_call_lem,
}
use ts_c_riocpp.Ilc.BusList.{Ilc}
use ts_c_riocpp.Crio.ForceIlc.{Processors, on_pressure_data, on_calibration_data}

-- Six blocks on the wire, with `tail` behind them, and what a handler has read once they are read.
abbrev pub sent : List ℕ → List ℕ → List ℕ → List ℕ → List ℕ → List ℕ → List ℕ → List ℕ
sent b1 b2 b3 b4 b5 b6 tail =
    floats b1 ++ (floats b2 ++ (floats b3 ++ (floats b4 ++ (floats b5 ++ (floats b6 ++ tail)))))

abbrev pub read_up : ℕ → ℕ → List ℕ → List ℕ → List ℕ → List ℕ → List ℕ → List ℕ → List ℕ
read_up a f b1 b2 b3 b4 b5 b6 =
    (((((a ∷ f ∷ [] ++ floats b1) ++ floats b2) ++ floats b3) ++ floats b4) ++ floats b5)
    ++ floats b6

abbrev pub IsBlock : List ℕ → Type 0
IsBlock b = (length b ≡ 4) × All IsFloat b

module _ {S : Type 0} (w : Processors S) (a f : ℕ) (s : Ilc S) (lo hi : ℕ) (hlo : IsByte lo)
    (hhi : IsByte hi) where
  -- A message of four pressures of 32 bits, with the pull of the secondary cylinder before its
  -- push: each is reported as what it is exactly if the CRC is that of the message; otherwise
  -- CRCError is thrown and nothing changes.
  pub pressure_lem :
      (primary_push primary_pull secondary_pull secondary_push : ℕ)
      → IsFloat primary_push
      → IsFloat primary_pull
      → IsFloat secondary_pull
      → IsFloat secondary_push
      → let body =
          network 4 primary_push
          ++ (network 4 primary_pull ++ (network 4 secondary_pull ++ network 4 secondary_push)) in
        callback (on_pressure_data w) (at (a ∷ f ∷ []) (body ++ (lo ∷ hi ∷ []))) s
        ≡ accepted
            (λ address.
              w.process_mezzanine_pressure address primary_push primary_pull secondary_push
                secondary_pull)
            a
            (a ∷ f ∷ body)
            lo
            hi
            s
  unfolding on_pressure_data callback
  pressure_lem p q r t hp hq hr ht =
      ap without_parser (
        >>=-ok (reading (read float32)) _ _ (scalar_step (a ∷ f ∷ []) _ float32 p s hp)
        ∙ >>=-ok (reading (read float32)) _ _ (scalar_step (a ∷ f ∷ network 4 p) _ float32 q s hq)
        ∙ >>=-ok (reading (read float32)) _ _
            (scalar_step (a ∷ f ∷ (network 4 p ++ network 4 q)) _ float32 r s hr)
        ∙ >>=-ok (reading (read float32)) _ _
            (scalar_step (a ∷ f ∷ (network 4 p ++ (network 4 q ++ network 4 r))) _ float32 t s ht))
      ∙ checked_call_lem (λ address. w.process_mezzanine_pressure address p q t r) a _ lo hi s hlo
          hhi

  floats_step :
      (front back vs : List ℕ)
      → length vs ≡ 4
      → All IsFloat vs
      → reading (read_floats 4) (handling front (floats vs ++ back) s)
        ≡ ok vs (handling (front ++ floats vs) back s)
  floats_step front back vs e h = reading-ok (read_floats 4) _ _ s vs (
      ap (λ n. read_floats n (at front (floats vs ++ back))) (sym e)
      ∙ read_floats_lem front back vs h)

  blocks_lem :
      (b1 b2 b3 b4 b5 b6 tail : List ℕ)
      → IsBlock b1
      → IsBlock b2
      → IsBlock b3
      → IsBlock b4
      → IsBlock b5
      → IsBlock b6
      → on_calibration_data w (handling (a ∷ f ∷ []) (sent b1 b2 b3 b4 b5 b6 tail) s)
        ≡ checked_call
            (λ address. w.process_calibration_data address b1 b2 b3 b4 b5 b6)
            (handling (read_up a f b1 b2 b3 b4 b5 b6) tail s)
  unfolding on_calibration_data
  blocks_lem b1 b2 b3 b4 b5 b6 tail h1 h2 h3 h4 h5 h6 =
      >>=-ok (reading (read_floats 4)) _ _ (
        floats_step (a ∷ f ∷ [])
          (floats b2 ++ (floats b3 ++ (floats b4 ++ (floats b5 ++ (floats b6 ++ tail))))) b1 h1.0
          h1.1)
      ∙ >>=-ok (reading (read_floats 4)) _ _ (
          floats_step ((a ∷ f ∷ []) ++ floats b1)
            (floats b3 ++ (floats b4 ++ (floats b5 ++ (floats b6 ++ tail)))) b2 h2.0 h2.1)
      ∙ >>=-ok (reading (read_floats 4)) _ _ (
          floats_step (((a ∷ f ∷ []) ++ floats b1) ++ floats b2)
            (floats b4 ++ (floats b5 ++ (floats b6 ++ tail))) b3 h3.0 h3.1)
      ∙ >>=-ok (reading (read_floats 4)) _ _ (
          floats_step ((((a ∷ f ∷ []) ++ floats b1) ++ floats b2) ++ floats b3)
            (floats b5 ++ (floats b6 ++ tail)) b4 h4.0 h4.1)
      ∙ >>=-ok (reading (read_floats 4)) _ _ (
          floats_step (((((a ∷ f ∷ []) ++ floats b1) ++ floats b2) ++ floats b3) ++ floats b4)
            (floats b6 ++ tail) b5 h5.0 h5.1)
      ∙ >>=-ok (reading (read_floats 4)) _ _ (
          floats_step
            ((((((a ∷ f ∷ []) ++ floats b1) ++ floats b2) ++ floats b3) ++ floats b4) ++ floats b5)
            tail b6 h6.0 h6.1)

  -- Calibration data are six blocks of four floats of 32 bits: the blocks are reported in their
  -- order exactly if the CRC is that of the message; otherwise CRCError is thrown and nothing
  -- changes.
  pub calibration_lem :
      (b1 b2 b3 b4 b5 b6 : List ℕ)
      → IsBlock b1
      → IsBlock b2
      → IsBlock b3
      → IsBlock b4
      → IsBlock b5
      → IsBlock b6
      → callback (on_calibration_data w) (at (a ∷ f ∷ []) (sent b1 b2 b3 b4 b5 b6 (lo ∷ hi ∷ []))) s
        ≡ accepted
            (λ address. w.process_calibration_data address b1 b2 b3 b4 b5 b6)
            a
            (read_up a f b1 b2 b3 b4 b5 b6)
            lo
            hi
            s
  unfolding callback
  calibration_lem b1 b2 b3 b4 b5 b6 h1 h2 h3 h4 h5 h6 =
      ap without_parser (blocks_lem b1 b2 b3 b4 b5 b6 (lo ∷ hi ∷ []) h1 h2 h3 h4 h5 h6)
      ∙ checked_call_lem (λ address. w.process_calibration_data address b1 b2 b3 b4 b5 b6) a _ lo hi
          s hlo hhi
