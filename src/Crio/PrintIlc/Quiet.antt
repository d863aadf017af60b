-- ===== src/Crio/PrintIlc/Quiet.antt =====
-- What programILC sends before it erases.
use ts_c_riocpp.Common.{ℕ, ◌≡◌, refl, ap, Bool, true, false, not, ◌==◌, if◌then◌else◌}
use ts_c_riocpp.Modbus.Exceptions.{Outcome, ok, throw, ◌>>=◌, ◌>>◌, throw_if}
use ts_c_riocpp.Modbus.BusList.{Node, clear}
use ts_c_riocpp.Ilc.BusList.{Ilc, report_server_status, change_ilc_mode, bootloader}
use ts_c_riocpp.Crio.PrintIlc.Program.{
  PrintIlc, Program, is_runtime_error, call, exchange, clear_bus, get_last_mode, leave_mode,
  clear_fault, retry_bootloader, try_bootloader, enter_bootloader, reach_bootloader, fault,
  clear_faults, cannot_enter,
}
use ts_c_riocpp.Crio.PrintIlc.Steady.{
  QuietOutcome, Steady, Steady-bind, Steady-then, Steady-call, Steady-when, Steady-mode, Quiet-mode,
  Quiet-status, Quiet-clear, Quiet-leave, Quiet,
}

module _ (send send' : ℕ → Program)
    (agree : (t : ℕ) (n : Node (Ilc PrintIlc)) → Quiet n → send t n ≡ send' t n) (address : ℕ) where
  Steady-exchange : Steady (exchange send address) (exchange send' address)
  Steady-exchange n h = (ap cleared (agree 1000 n h), quiet (send 1000 n))
    where
      cleared : Outcome (Node (Ilc PrintIlc)) (Unit {0}) → Outcome (Node (Ilc PrintIlc)) (Unit {0})
      cleared o = elim o [ ok u m ↦ ok tt (clear_bus m) | throw e m ↦ throw e m ]

      quiet : (o : Outcome (Node (Ilc PrintIlc)) (Unit {0})) → QuietOutcome (cleared o)
      quiet (ok u m) = Quiet-clear m
      quiet (throw e m) = tt

  -- A command, and its exchange.
  Steady-command :
      (f : Node (Ilc PrintIlc) → Node (Ilc PrintIlc)) (k k' : Program)
      → ((n : Node (Ilc PrintIlc)) → Quiet n → Quiet (f n))
      → Steady k k'
      → Steady (do call f; exchange send address; k) (do call f; exchange send' address; k')
  Steady-command f k k' q s =
      Steady-then (call f) (call f) _ _ (Steady-call f q)
        (Steady-then (exchange send address) (exchange send' address) k k' Steady-exchange s)

  Steady-last :
      (f : Node (Ilc PrintIlc) → Node (Ilc PrintIlc))
      → ((n : Node (Ilc PrintIlc)) → Quiet n → Quiet (f n))
      → Steady (do call f; exchange send address) (do call f; exchange send' address)
  Steady-last f q =
      Steady-then (call f) (call f) (exchange send address) (exchange send' address)
        (Steady-call f q) Steady-exchange

  Steady-clear_fault : Steady (clear_fault send address) (clear_fault send' address)
  unfolding clear_fault
  Steady-clear_fault =
      Steady-bind (get_last_mode address) (get_last_mode address) _ _ (Steady-mode address) (λ mode.
        Steady-when (mode == fault) _ _
          (Steady-last (change_ilc_mode address clear_faults) (Quiet-mode address clear_faults)))

  -- The test behind a failed change to the bootloader.
  Steady-test :
      Steady
        (do mode ← get_last_mode address; throw_if (not (mode == bootloader)) cannot_enter)
        (do mode ← get_last_mode address; throw_if (not (mode == bootloader)) cannot_enter)
  Steady-test =
      Steady-bind (get_last_mode address) (get_last_mode address) _ _ (Steady-mode address)
        (λ mode n h. (refl, quiet_throw (not (mode == bootloader)) n h))
    where
      quiet_throw :
          (b : Bool) (n : Node (Ilc PrintIlc)) → Quiet n → QuietOutcome (throw_if b cannot_enter n)
      quiet_throw true n h = tt
      quiet_throw false n h = h

  Steady-retry : Steady (retry_bootloader send address) (retry_bootloader send' address)
  unfolding retry_bootloader
  Steady-retry =
      Steady-then (call clear_bus) (call clear_bus) _ _
        (Steady-call clear_bus (λ n h. Quiet-clear n))
        (Steady-command (report_server_status address) _ _ (Quiet-status address) (
          Steady-bind (get_last_mode address) (get_last_mode address) _ _ (Steady-mode address)
            (λ mode.
              Steady-then _ _ _ _
                (Steady-when (mode == fault) _ _ (
                  Steady-command (change_ilc_mode address clear_faults) _ _
                    (Quiet-mode address clear_faults)
                    (Steady-last (report_server_status address) (Quiet-status address))))
                Steady-test)))

  -- It clears the commands first, so they may be any.
  retry_any :
      (n : Node (Ilc PrintIlc))
      → (retry_bootloader send address n ≡ retry_bootloader send' address n)
        × QuietOutcome (retry_bootloader send address n)
  unfolding retry_bootloader clear
  retry_any n = Steady-retry (clear_bus n) (Quiet-clear n)

  -- The catch clause behind the same outcome of the try block.
  caught :
      (o o' : Outcome (Node (Ilc PrintIlc)) (Unit {0}))
      → o ≡ o'
      → QuietOutcome o
      → let handled : (ℕ → Program)
            → Outcome (Node (Ilc PrintIlc)) (Unit {0})
            → Outcome (Node (Ilc PrintIlc)) (Unit {0}) =
          λ s x. elim x [
            | ok u n ↦ ok tt n
            | throw e n ↦ (if is_runtime_error e then retry_bootloader s address n else throw e n)
          ] in
        (handled send o ≡ handled send' o') × QuietOutcome (handled send o)
  caught (ok u n) o' e h = rw (← e) (refl, h)
  caught (throw x n) o' e h = rw (← e) (branch (is_runtime_error x))
    where
      branch :
          (b : Bool)
          → ((if b then retry_bootloader send address n else throw x n)
              ≡ (if b then retry_bootloader send' address n else throw x n))
            × QuietOutcome (if b then retry_bootloader send address n else throw x n)
      branch true = retry_any n
      branch false = (refl, tt)

  Steady-try : Steady (try_bootloader send address) (try_bootloader send' address)
  Steady-try n h =
      let change =
        Steady-last (change_ilc_mode address bootloader) (Quiet-mode address bootloader) n h in
      caught _ _ (change.0) (change.1)

  Steady-enter : Steady (enter_bootloader send address) (enter_bootloader send' address)
  unfolding enter_bootloader
  Steady-enter =
      Steady-bind (get_last_mode address) (get_last_mode address) _ _ (Steady-mode address)
        (λ mode. Steady-when (not (mode == bootloader)) _ _ Steady-try)

  -- What programILC does up to its last test of the mode, behind which it erases, depends only on what
  -- the FPGA does in states in which no command with a function from 100 to 103 is queued: with two FPGAs that do the same in these, its
  -- outcome is the same. It sends no such command, whatever modes the controller reports.
  pub reach_bootloader_lem :
      (n : Node (Ilc PrintIlc)) → reach_bootloader send address n ≡ reach_bootloader send' address n
  unfolding reach_bootloader clear
  reach_bootloader_lem n = (steps (clear_bus n) (Quiet-clear n)).0
    where
      steps : Steady (reach_bootloader send address) (reach_bootloader send' address)
      steps =
          unfold reach_bootloader in
          Steady-then (call clear_bus) (call clear_bus) _ _
            (Steady-call clear_bus (λ m h. Quiet-clear m))
            (Steady-command (report_server_status address) _ _ (Quiet-status address) (
              Steady-bind (get_last_mode address) (get_last_mode address) _ _ (Steady-mode address)
                (λ mode.
                  Steady-command (leave_mode address mode) _ _ (Quiet-leave address mode)
                    (Steady-then _ _ _ _ Steady-enter Steady-clear_fault))))
