-- ===== src/Tests/Programming.antt =====
-- Runs of PrintILC, with an FPGA whose controller goes to the bootloader at once.
use ts_c_riocpp.Common.{
  ℕ, ◌≡◌, inl, inr, refl, List, [], ◌∷◌, Option, none, some, Option-cases, Bool, false, leb, ◌&&◌,
  ◌||◌, if◌then◌else◌, All, arith,
}
use ts_c_riocpp.Modbus.Exceptions.{ok, throw, undefined}
use ts_c_riocpp.Modbus.Buffer.{scalar, uint16, call_function}
use ts_c_riocpp.Modbus.Buffer
use ts_c_riocpp.Modbus.BusList.{Node, CommandRecord, new_bus_list}
use ts_c_riocpp.Ilc.BusList.{Ilc, set_last_mode}
use ts_c_riocpp.Crio.PrintIlc.Program.{PrintIlc, Program, reach_bootloader}
use ts_c_riocpp.Crio.PrintIlc.Quiet.{reach_bootloader_lem}
use ts_c_riocpp.Crio.PrintIlc.Steady.{Harmless, Quiet}
use ts_c_riocpp.Crio.PrintIlc.Bootloader.{Guarded, program_ilc-Guarded}

abbrev new_print_ilc : Node (Ilc PrintIlc)
new_print_ilc = record {
  bus = new_bus_list;
  self = record {
    bus_number = 1;
    last_mode = λ a. none;
    broadcast_counter = 0;
    self = record { crc = 0xFFFF; start_address = 0; data_length = 0 };
  };
}

abbrev obedient : ℕ → Program
obedient timeout n = ok tt (record n { self = set_last_mode 7 3 (n.self) })

program_ilc-Guarded_example : Guarded obedient 7 (some (0x100, 1 ∷ 2 ∷ [])) new_print_ilc
program_ilc-Guarded_example =
    program_ilc-Guarded obedient 7 (some (0x100, 1 ∷ 2 ∷ [])) new_print_ilc

-- The FPGA that fails where a command for the flash memory is queued.
abbrev is_flash : Option ℕ → Bool
is_flash none = false
is_flash (some f) = leb 100 f && leb f 103

abbrev any_flash : List CommandRecord → Bool
any_flash [] = false
any_flash (c ∷ cs) = is_flash (Buffer.func c.buffer) || any_flash cs

abbrev reluctant : ℕ → Program
reluctant timeout n = if any_flash n.bus.commands then throw undefined n else obedient timeout n

Harmless-no_flash : (c : CommandRecord) → Harmless c → is_flash (Buffer.func c.buffer) ≡ false
Harmless-no_flash c h = elim (Option-cases (Buffer.func c.buffer)) [
  | inl e ↦ rw e refl
  | inr (f, e) ↦ rw e (ground (arith, h f e))
]

Harmless-any_flash : (cs : List CommandRecord) → All Harmless cs → any_flash cs ≡ false
Harmless-any_flash [] h = refl
Harmless-any_flash (c ∷ cs) (hc, hs) = rw (Harmless-no_flash c hc, Harmless-any_flash cs hs) refl

both_obey : (t : ℕ) (n : Node (Ilc PrintIlc)) → Quiet n → obedient t n ≡ reluctant t n
both_obey t n h = rw (Harmless-any_flash n.bus.commands h) refl

reach_bootloader_example :
    reach_bootloader obedient 7 new_print_ilc ≡ reach_bootloader reluctant 7 new_print_ilc
reach_bootloader_example = reach_bootloader_lem obedient reluctant both_obey 7 new_print_ilc
