-- ===== src/Crio/PrintIlc/Steady.antt =====
-- Programs that do the same on two FPGAs while no command for the flash memory is queued.
use ts_c_riocpp.Common.{
  ℕ, ◌≡◌, ◌<◌, ◌⊎◌, inl, refl, sym, ap, ◌∙◌, List, [], Option, none, some, Bool, true, false, arith,
  All, All-append, ◌==◌, if◌then◌else◌, u8, get_elem?,
}
use mathlib.Core.Path.{subst}
use ts_c_riocpp.Modbus.Exceptions.{Outcome, ok, throw, M, ◌>>=◌, ◌>>◌}
use ts_c_riocpp.Modbus.Buffer
use ts_c_riocpp.Modbus.Buffer.{Arg, scalar, uint16, call_function}
use ts_c_riocpp.Modbus.Buffer.Frame.{call_function_frame}
use ts_c_riocpp.Modbus.BusList
use ts_c_riocpp.Modbus.BusList.{Node, CommandRecord, clear}
use ts_c_riocpp.Ilc.BusList.{Ilc, on_bus, report_server_status, change_ilc_mode, standby}
use ts_c_riocpp.Crio.PrintIlc.Bootloader.{mode_known, mode_unknown}
use ts_c_riocpp.Crio.PrintIlc.Program.{
  PrintIlc, Program, call, when, clear_bus, get_last_mode, leave_mode, disabled, enabled, fault,
  clear_faults,
}

-- A command for the flash memory has one of the functions 100 to 103.
abbrev pub Harmless : CommandRecord → Type 0
Harmless c = (f : ℕ) → Buffer.func c.buffer ≡ some f → (f < 100) ⊎ (103 < f)

abbrev pub Quiet : Node (Ilc PrintIlc) → Type 0
Quiet n = All Harmless n.bus.commands

module _ {A : Type 0} where
  abbrev pub QuietOutcome : Outcome (Node (Ilc PrintIlc)) A → Type 0
  QuietOutcome (ok a n) = Quiet n
  QuietOutcome (throw e n) = Unit

  -- From a state without a flash command on, both do the same, and queue none.
  abbrev pub Steady : M (Node (Ilc PrintIlc)) A → M (Node (Ilc PrintIlc)) A → Type 0
  Steady p p' = (n : Node (Ilc PrintIlc)) → Quiet n → (p n ≡ p' n) × QuietOutcome (p n)

pub bind_outcome :
    {A B : Type 0} (o o' : Outcome (Node (Ilc PrintIlc)) A) (k k' : A → M (Node (Ilc PrintIlc)) B)
    → o ≡ o'
    → QuietOutcome o
    → ((a : A) → Steady (k a) (k' a))
    → ((elim o [ ok a n ↦ k a n | throw e n ↦ throw e n ])
        ≡ (elim o' [ ok a n ↦ k' a n | throw e n ↦ throw e n ]))
      × QuietOutcome (elim o [ ok a n ↦ k a n | throw e n ↦ throw e n ])
bind_outcome (ok a n) o' k k' e h s = rw (← e) (s a n h)
bind_outcome (throw e n) o' k k' eq h s = rw (← eq) (refl, tt)

pub Steady-bind :
    {A B : Type 0} (m m' : M (Node (Ilc PrintIlc)) A) (k k' : A → M (Node (Ilc PrintIlc)) B)
    → Steady m m'
    → ((a : A) → Steady (k a) (k' a))
    → Steady (◌>>=◌ m k) (◌>>=◌ m' k')
Steady-bind m m' k k' s t n h = bind_outcome (m n) (m' n) k k' (s n h).0 (s n h).1 t

pub Steady-then : (m m' k k' : Program) → Steady m m' → Steady k k' → Steady (◌>>◌ m k) (◌>>◌ m' k')
Steady-then m m' k k' s t n h =
    bind_outcome (m n) (m' n) (λ u. k) (λ u. k') (s n h).0 (s n h).1 (λ u. t)

pub Steady-call :
    (f : Node (Ilc PrintIlc) → Node (Ilc PrintIlc))
    → ((n : Node (Ilc PrintIlc)) → Quiet n → Quiet (f n))
    → Steady (call f) (call f)
Steady-call f q n h = (refl, q n h)

pub Steady-when : (b : Bool) (m m' : Program) → Steady m m' → Steady (when b m) (when b m')
Steady-when true m m' s = s
Steady-when false m m' s = λ n h. (refl, h)

pub Steady-mode : (address : ℕ) → Steady (get_last_mode address) (get_last_mode address)
Steady-mode address n h = (refl, unmoved (n.self.last_mode address) refl)
  where
    unmoved :
        (found : Option ℕ)
        → n.self.last_mode address ≡ found
        → QuietOutcome (get_last_mode address n)
    unmoved none e = subst QuietOutcome (sym (mode_unknown address n e)) tt
    unmoved (some mode) e = subst QuietOutcome (sym (mode_known address n mode e)) h

pub func-call_function :
    (address function : ℕ) (args : List Arg)
    → Buffer.func (call_function [] address function args) ≡ some (u8 function)
unfolding Buffer.func
func-call_function address function args =
    ap (λ b. get_elem? b 1) (call_function_frame address function args)

pub some_inj : (x y : ℕ) → some x ≡ some y → x ≡ y
some_inj x y e = cc

pub Harmless-call :
    (address function : ℕ) (args : List Arg) (t : ℕ)
    → (u8 function < 100) ⊎ (103 < u8 function)
    → Harmless (record { buffer = call_function [] address function args; timing = t })
Harmless-call address function args t h f e =
    subst (λ x. (x < 100) ⊎ (103 < x))
      (some_inj (u8 function) f (sym (func-call_function address function args) ∙ e)) h

pub Quiet-bus :
    (address function t : ℕ) (args : List Arg) (n : Node (Ilc PrintIlc))
    → (u8 function < 100) ⊎ (103 < u8 function)
    → Quiet n
    → Quiet (on_bus address function t args n)
unfolding BusList.call_function
Quiet-bus address function t args n h q =
    All-append Harmless n.bus.commands _ q (Harmless-call address function args t h, tt)

pub Quiet-mode :
    (address mode : ℕ) (n : Node (Ilc PrintIlc)) → Quiet n → Quiet (change_ilc_mode address mode n)
unfolding change_ilc_mode
Quiet-mode address mode n q = Quiet-bus address 65 _ _ n (inl (omega arith)) q

pub Quiet-status :
    (address : ℕ) (n : Node (Ilc PrintIlc)) → Quiet n → Quiet (report_server_status address n)
unfolding report_server_status
Quiet-status address n q = Quiet-bus address 18 _ _ n (inl (omega arith)) q

pub Quiet-clear : (n : Node (Ilc PrintIlc)) → Quiet (clear_bus n)
unfolding clear
Quiet-clear n = tt

pub Quiet-if :
    (b : Bool) (x y : Node (Ilc PrintIlc)) → Quiet x → Quiet y → Quiet (if b then x else y)
Quiet-if true x y hx hy = hx
Quiet-if false x y hx hy = hy

pub Quiet-leave :
    (address mode : ℕ) (n : Node (Ilc PrintIlc)) → Quiet n → Quiet (leave_mode address mode n)
unfolding leave_mode
Quiet-leave address mode n h =
    Quiet-if (mode == enabled) _ _ (Quiet-mode address standby _ (Quiet-mode address disabled n h))
      (Quiet-if (mode == disabled) _ _ (Quiet-mode address standby n h)
        (Quiet-if (mode == fault) _ _ (Quiet-mode address clear_faults n h) h))
