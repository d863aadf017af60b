-- ===== src/Modbus/Floats.antt =====
-- The loops of callbacks that read several floats: read4 of ElectromechanicalPneumaticILC, and the loop of
-- SensorMonitor.
use ts_c_riocpp.Common.{
  ℕ, zero, suc, ◌^◌, ◌<◌, ◌≡◌, refl, ap, ◌∙◌, List, [], ◌∷◌, ◌++◌, append-nil, append_assoc, length,
  All,
}
use ts_c_riocpp.Modbus.Exceptions.{ok, M, ◌>>=◌, pure, >>=-ok}
use ts_c_riocpp.Modbus.Buffer.{float32}
use ts_c_riocpp.Modbus.Buffer.Frame.{network}
use ts_c_riocpp.Modbus.Parser.{Parser, read}
use ts_c_riocpp.Modbus.Parser.Reads.{at, read-encoded}

unfoldable pub read_floats : ℕ → M Parser (List ℕ)
read_floats zero = pure []
read_floats (suc n) = do v ← read float32; vs ← read_floats n; pure (v ∷ vs)

-- Floats on the wire.
abbrev pub floats : List ℕ → List ℕ
floats [] = []
floats (v ∷ vs) = network 4 v ++ floats vs

abbrev pub IsFloat : ℕ → Type 0
IsFloat v = v < 2 ^ 32

pub read_floats_lem :
    (front back vs : List ℕ)
    → All IsFloat vs
    → read_floats (length vs) (at front (floats vs ++ back)) ≡ ok vs (at (front ++ floats vs) back)
unfolding read_floats
read_floats_lem front back [] h = rw append-nil refl
read_floats_lem front back (v ∷ vs) h =
    >>=-ok (read float32) _ _ (
      ap (λ r. read float32 (at front r)) (append_assoc (network 4 v) (floats vs) back)
      ∙ read-encoded front (floats vs ++ back) float32 v h.0)
    ∙ >>=-ok (read_floats (length vs)) _ _ (read_floats_lem (front ++ network 4 v) back vs h.1)
    ∙ ap (λ f. ok (v ∷ vs) (at f back)) (append_assoc front (network 4 v) (floats vs))
