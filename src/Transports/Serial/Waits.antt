-- ===== src/Transports/Serial/Waits.antt =====
-- That read does not wait.
use ts_c_riocpp.Common.{
  ℕ, zero, suc, ◌+◌, ◌≡◌, refl, ap, List, [], ◌++◌, true, not, ◌&&◌, ltb, leb, ◌==◌, if◌then◌else◌,
  length,
}
use ts_c_riocpp.Modbus.Exceptions.{Outcome, M, ◌>>=◌, ◌>>◌, pure}
use mathlib.Core.Path.{fun_ext}
use ts_c_riocpp.Transports.Serial.{Fifos, read_chunk, read_loop, read, request, report_error}

module _ {T : Type 0} (f : Fifos T) (wait : ℕ → M T (Unit {0})) where
  abbrev other_waits : Fifos T
  other_waits = record f { wait_until = wait }

  read_loop_waits :
      (fuel end len : ℕ) → read_loop f fuel end len true ≡ read_loop other_waits fuel end len true
  unfolding read_loop read_chunk request report_error
  read_loop_waits zero end len = refl
  read_loop_waits (suc fuel) end len =
      let round : (List ℕ → M T (List ℕ)) → List ℕ → M T (List ℕ) = λ loop ret. (do
        pure tt
        chunk ← read_chunk f
        if not (chunk.0 == 0) && leb len (length (ret ++ chunk.1))
            then pure (ret ++ chunk.1)
            else (do
              t ← f.now
              if ltb t end then loop (ret ++ chunk.1) else pure (ret ++ chunk.1))) in
      ap round (read_loop_waits fuel end len)

  -- read does the same whatever a wait does, also where it throws, or brings the time to its end: however
  -- little the device has, read asks it again at once.
  pub read_waits :
      (fuel len timeout : ℕ) (s : T)
      → read f fuel len timeout s ≡ read other_waits fuel len timeout s
  unfolding read
  read_waits fuel len timeout s =
      let started : (ℕ → List ℕ → M T (List ℕ)) → Outcome T (List ℕ) =
        λ loop. (do t ← f.now; loop (t + timeout) []) s in
      ap started (fun_ext (λ (end : ℕ). read_loop_waits fuel end len))
