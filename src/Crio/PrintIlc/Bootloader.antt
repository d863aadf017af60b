-- ===== src/Crio/PrintIlc/Bootloader.antt =====
-- When programILC erases a controller, and what the command for its stats holds.
use ts_c_riocpp.Common.{
  ℕ, ◌≡◌, ◌⊎◌, inl, inr, refl, ap, ◌∙◌, List, [], ◌∷◌, ◌++◌, Option, none, some, ◌==◌, memory,
  ==_iff, Bool-cases,
}
use ts_c_riocpp.Modbus.Crc.{crc_of, add_all}
use ts_c_riocpp.Modbus.Exceptions.{
  Error, out_of_range, Outcome, ok, throw, ◌>>◌, >>=-ok, >>=-throw, >>-ok, >>-throw,
}
use ts_c_riocpp.Modbus.Buffer.{scalar, uint16, call_function}
use ts_c_riocpp.Modbus.BusList
use ts_c_riocpp.Modbus.BusList.{Node}
use ts_c_riocpp.Ilc.BusList.{Ilc, bootloader}
use ts_c_riocpp.Crio.ModbusBuffer.{push_buffer, process_data_crc}
use ts_c_riocpp.Crio.ModbusBuffer.Stream.{put_byte}
use ts_c_riocpp.Crio.PrintIlc.Program.{
  PrintIlc, Program, get_last_mode, cannot_transition, stats_buffer, write_application_stats,
  reach_bootloader, require_bootloader, flash, program_ilc,
}

abbrev pub LastMode : ℕ → Node (Ilc PrintIlc) → ℕ → Type 0
LastMode address n mode = n.self.last_mode address ≡ some mode

module _ (address : ℕ) (n : Node (Ilc PrintIlc)) where
  pub mode_known : (mode : ℕ) → LastMode address n mode → get_last_mode address n ≡ ok mode n
  unfolding get_last_mode
  mode_known mode e = rw (e, get_last_mode) refl

  pub mode_unknown :
      n.self.last_mode address ≡ none → get_last_mode address n ≡ throw out_of_range n
  unfolding get_last_mode
  mode_unknown e = rw (e, get_last_mode) refl

module _ (send : ℕ → Program) (address : ℕ) where
  -- The test passes in the bootloader only.
  passes :
      (n : Node (Ilc PrintIlc)) (found : Option ℕ)
      → n.self.last_mode address ≡ found
      → ((e : Error) × (require_bootloader send address n ≡ throw e n))
        ⊎ ((require_bootloader send address n ≡ ok tt n) × LastMode address n bootloader)
  unfolding require_bootloader
  passes n none e =
      inl (out_of_range, >>=-throw (get_last_mode address) _ n (mode_unknown address n e))
  passes n (some mode) e = elim (Bool-cases (mode == bootloader)) [
    | inl same ↦ inr (
      >>=-ok (get_last_mode address) _ n (mode_known address n mode e) ∙ rw same refl,
      e ∙ ap some ((==_iff mode bootloader).0 same),
    )
    | inr other ↦ inl (
      cannot_transition,
      >>=-ok (get_last_mode address) _ n (mode_known address n mode e) ∙ rw other refl,
    )
  ]

  -- programILC before it erases.
  abbrev pub before_erase : Program
  before_erase = do reach_bootloader send address; require_bootloader send address

  -- Either what comes before the erasure throws, and that is all; or it ends in the state `n'`, in
  -- which the last mode is Bootloader, and the erasure starts from there.
  abbrev pub Guarded : Option (ℕ × List ℕ) → Node (Ilc PrintIlc) → Type 0
  Guarded image n =
      ((e : Error) × (n' : Node (Ilc PrintIlc)) × (before_erase n ≡ throw e n')
        × (program_ilc send address image n ≡ throw e n'))
      ⊎ ((n' : Node (Ilc PrintIlc)) × (before_erase n ≡ ok tt n')
          × LastMode address n' bootloader
          × (program_ilc send address image n ≡ flash send address image n'))

  reached :
      (image : Option (ℕ × List ℕ)) (n : Node (Ilc PrintIlc))
      (o : Outcome (Node (Ilc PrintIlc)) (Unit {0}))
      → reach_bootloader send address n ≡ o
      → Guarded image n
  unfolding program_ilc
  reached image n (throw e m) h = inl (
    e,
    m,
    >>-throw (reach_bootloader send address) _ n h,
    >>-throw (reach_bootloader send address) _ n h,
  )
  reached image n (ok u m) h = elim (passes m (m.self.last_mode address) refl) [
    | inl (e, failed) ↦ inl (
      e,
      m,
      >>-ok (reach_bootloader send address) _ n h ∙ failed,
      >>-ok (reach_bootloader send address) _ n h
          ∙ >>-throw (require_bootloader send address) _ m failed,
    )
    | inr (passed, mode) ↦ inr (
      m,
      >>-ok (reach_bootloader send address) _ n h ∙ passed,
      mode,
      >>-ok (reach_bootloader send address) _ n h
          ∙ >>-ok (require_bootloader send address) _ m passed,
    )
  ]

  -- Whatever the FPGA and the controller do, what programILC does before it erases ends with an
  -- exception, and so does programILC then; or it ends in a state in which the last mode that the
  -- controller reported is Bootloader, and programILC erases and writes from there.
  pub program_ilc-Guarded :
      (image : Option (ℕ × List ℕ)) (n : Node (Ilc PrintIlc)) → Guarded image n
  program_ilc-Guarded image n = reached image n (reach_bootloader send address n) refl

-- The bytes under the CRC of the stats: each word low byte first, and two zeros behind it.
abbrev pub stats_bytes : ℕ → ℕ → ℕ → List ℕ
stats_bytes data_crc start len =
    memory 2 data_crc ++ (0 ∷ 0 ∷ memory 2 start) ++ (0 ∷ 0 ∷ memory 2 len) ++ (0 ∷ 0 ∷ [])

stats_buffer_crc :
    (data_crc start len : ℕ)
    → (stats_buffer data_crc start len).crc ≡ crc_of (stats_bytes data_crc start len)
unfolding stats_buffer put_byte push_buffer process_data_crc crc_of add_all
stats_buffer_crc data_crc start len = refl

-- writeApplicationStats queues one command behind those that are there: the frame of function 100 with the
-- CRC, the address and the length of the data, and the CRC of these, each as two bytes of low order
-- first with two zeros behind them.
pub write_application_stats_lem :
    (address data_crc start len : ℕ) (n : Node (Ilc PrintIlc))
    → (write_application_stats address data_crc start len n).bus.commands
      ≡ n.bus.commands
        ++ (record {
          buffer = call_function [] address 100 (
              scalar uint16 data_crc
              ∷ scalar uint16 start
              ∷ scalar uint16 len
              ∷ scalar uint16 (crc_of (stats_bytes data_crc start len))
              ∷ []);
          timing = 500000;
        }
            ∷ [])
unfolding write_application_stats BusList.call_function
write_application_stats_lem address data_crc start len n =
    rw (stats_buffer_crc data_crc start len) refl
