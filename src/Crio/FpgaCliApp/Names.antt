-- ===== src/Crio/FpgaCliApp/Names.antt =====
-- getMPU against the MPUs whose names start with the one that is given.
use ts_c_riocpp.Common.{ℕ, ◌≡◌, refl, List, [], ◌∷◌, Option, none, some, true, false, if◌then◌else◌}
use ts_c_riocpp.Crio.CliApp.{String, starts_with}
use ts_c_riocpp.Crio.FpgaCliApp.{App, mpu_loop, get_mpu}

abbrev pub named : String → List (String × ℕ) → List ℕ
named name [] = []
named name (m ∷ l) = let rest = named name l in if starts_with name m.0 then m.1 ∷ rest else rest

abbrev pub only : List ℕ → Option ℕ
only (m ∷ []) = some m
only _ = none

mpu_loop_more :
    (name : String) (ret : ℕ) (l : List (String × ℕ))
    → mpu_loop name (some ret) l ≡ only (ret ∷ named name l)
unfolding mpu_loop
mpu_loop_more name ret [] = refl
mpu_loop_more name ret (m ∷ l) =
    elim (starts_with name m.0)
      as (λ b.
        (if b then none else mpu_loop name (some ret) l)
        ≡ only (ret ∷ (if b then m.1 ∷ named name l else named name l))) [
          | true ↦ refl
          | false ↦ mpu_loop_more name ret l
        ]

mpu_loop_lem : (name : String) (l : List (String × ℕ)) → mpu_loop name none l ≡ only (named name l)
unfolding mpu_loop
mpu_loop_lem name [] = refl
mpu_loop_lem name (m ∷ l) =
    elim (starts_with name m.0)
      as (λ b.
        (if b then mpu_loop name (some m.1) l else mpu_loop name none l)
        ≡ only (if b then m.1 ∷ named name l else named name l)) [
          | true ↦ mpu_loop_more name m.1 l
          | false ↦ mpu_loop_lem name l
        ]

-- getMPU answers the MPU whose name starts with the one that is given if there is exactly one such MPU,
-- and none otherwise.
get_mpu_lem : {S : Type 0} (name : String) (c : App S) → get_mpu name c ≡ only (named name c.mpu)
unfolding get_mpu
get_mpu_lem name c = mpu_loop_lem name c.mpu
