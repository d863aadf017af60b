-- ===== src/Ilc/BusList/Modes.antt =====
-- The mode changes and the broadcast counter.
use ts_c_riocpp.Common.{
  ℕ, zero, suc, ◌+◌, ◌%◌, ◌<◌, ◌≡◌, ◌⊎◌, ◌↔◌, ap, ◌∙◌, List, [], ◌∷◌, ◌++◌, arith, Option, none,
  some,
}
use ts_c_riocpp.Modbus.Exceptions.{final}
use ts_c_riocpp.Modbus.Buffer.{Arg, scalar, uint16}
use ts_c_riocpp.Modbus.Buffer.Frame.{body_of, crc_bytes, call_function_frame}
use ts_c_riocpp.Modbus.BusList.{BusList, Node, call_function}
use ts_c_riocpp.Ilc.BusList.{Ilc, next_broadcast_counter, change_mode_timeout, change_ilc_mode}

timeout_long :
    (last : Option ℕ) (mode : ℕ)
    → (change_mode_timeout last mode ≡ 100000) ↔ ((mode ≡ 3) ⊎ ((last ≡ some 3) × (mode ≡ 0)))
unfolding change_mode_timeout
timeout_long none mode = ground arith
timeout_long (some m) mode = ground arith

timeout_cases :
    (last : Option ℕ) (mode : ℕ)
    → (change_mode_timeout last mode ≡ 100000) ⊎ (change_mode_timeout last mode ≡ 335)
unfolding change_mode_timeout
timeout_cases none mode = ground arith
timeout_cases (some m) mode = ground arith

queued :
    (b : BusList) (address func timing : ℕ) (args : List Arg)
    → (call_function b address func timing args).commands
      ≡ b.commands
        ++ (record {
          buffer = body_of address func args ++ crc_bytes (body_of address func args);
          timing = timing;
        }
            ∷ [])
unfolding call_function
queued b address func timing args =
    ap (λ f. b.commands ++ (record { buffer = f; timing = timing } ∷ []))
      (call_function_frame address func args)

module _ {S : Type 0} where
  abbrev pub broadcasts : ℕ → Ilc S → Ilc S
  broadcasts zero s = s
  broadcasts (suc n) s = broadcasts n (final (next_broadcast_counter s))

  next_counter :
      (s : Ilc S)
      → s.broadcast_counter < 16
      → (final (next_broadcast_counter s)).broadcast_counter ≡ (s.broadcast_counter + 1) % 16
  unfolding next_broadcast_counter
  next_counter s h = ground arith

  -- From a counter below 16 on, which 0 is, the counter after n broadcasts is n higher modulo 16.
  pub broadcasts_counter :
      (n : ℕ) (s : Ilc S)
      → s.broadcast_counter < 16
      → (broadcasts n s).broadcast_counter ≡ (s.broadcast_counter + n) % 16
  broadcasts_counter zero s h = omega arith
  broadcasts_counter (suc n) s h =
      broadcasts_counter n (final (next_broadcast_counter s)) (omega (arith, next_counter s h))
      ∙ omega (arith, next_counter s h)

  -- changeILCMode queues one command behind those that are there: the frame of function 65 with the mode,
  -- and a timeout of 100 ms exactly if the bootloader is entered, or left for standby by a controller
  -- whose last mode it was; otherwise the timeout is 335 us.
  pub change_ilc_mode_lem :
      (address mode : ℕ) (n : Node (Ilc S))
      → let m = change_ilc_mode address mode n in
        (t : ℕ) × (m.bus.commands
          ≡ n.bus.commands
            ++ (record {
              buffer =
                  body_of address 65 (scalar uint16 mode ∷ [])
                  ++ crc_bytes (body_of address 65 (scalar uint16 mode ∷ []));
              timing = t;
            }
                ∷ []))
        × ((t ≡ 100000) ↔ ((mode ≡ 3) ⊎ ((n.self.last_mode address ≡ some 3) × (mode ≡ 0))))
        × ((t ≡ 100000) ⊎ (t ≡ 335))
  unfolding change_ilc_mode
  change_ilc_mode_lem address mode n = (
    change_mode_timeout (n.self.last_mode address) mode,
    queued n.bus address 65 (change_mode_timeout (n.self.last_mode address) mode)
        (scalar uint16 mode ∷ []),
    timeout_long (n.self.last_mode address) mode,
    timeout_cases (n.self.last_mode address) mode,
  )
