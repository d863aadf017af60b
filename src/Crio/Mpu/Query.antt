-- ===== src/Crio/Mpu/Query.antt =====
-- From a read of holding registers to what getRegister answers.
use ts_c_riocpp.Common.{
  ℕ, ◌+◌, ◌^◌, ◌≤◌, ◌<◌, ◌≡◌, refl, ap, ap₂, ◌∙◌, List, [], ◌∷◌, ◌++◌, arith, length, All, IsByte,
  some, get_elem?, u8,
}
use ts_c_riocpp.Modbus.Exceptions.{ok, final}
use ts_c_riocpp.Modbus.Buffer
use ts_c_riocpp.Modbus.Buffer.{Arg, scalar, uint16}
use ts_c_riocpp.Modbus.Buffer.Frame.{call_function_frame}
use ts_c_riocpp.Modbus.BusList
use ts_c_riocpp.Modbus.BusList.{CommandRecord, BusList, Node, expected, expected_of, parse_bytes}
use ts_c_riocpp.Crio.Mpu.{Mpu, mpu_functions, command, send_read_holding_registers, get_register}
use ts_c_riocpp.Crio.Mpu.Registers.{IsWord, reply}
use ts_c_riocpp.Crio.Mpu.Cache.{reply_cached}

-- The only command of a bus list is the one whose response is expected.
expected_call :
    (b : BusList) (address func timing : ℕ) (args : List Arg)
    → b.commands ≡ []
    → b.parsed_index ≡ 0
    → expected (BusList.call_function b address func timing args) ≡ some (u8 address, u8 func)
unfolding expected expected_of BusList.call_function Buffer.address Buffer.func
expected_call b address func timing args none_yet first =
    rw (none_yet, first, call_function_frame address func args) refl

-- On an MPU that waits for no response, a read of holding registers, and then the reply of its node with
-- fewer than 128 values of 16 bits of registers below 2 ^ 16: the reply is accepted, and getRegister
-- answers each value under its own address.
pub read_reply :
    (n : Node Mpu) (start count timing : ℕ) (vs : List ℕ)
    → n.bus.commands ≡ []
    → n.bus.parsed_index ≡ 0
    → n.self.commanded_info ≡ []
    → IsByte n.self.node_address
    → All IsWord vs
    → length vs < 128
    → start + length vs ≤ 2 ^ 16
    → let asked = send_read_holding_registers start count timing n in
      let after = parse_bytes mpu_functions (reply n.self.node_address vs) asked in
      (after ≡ ok tt (final after))
      × ((j : ℕ) → j < length vs → get_register (final after).self (start + j) ≡ get_elem? vs j)
unfolding send_read_holding_registers command
read_reply n start count timing vs idle first waiting node values short fits =
    let args : List Arg = scalar uint16 start ∷ scalar uint16 count ∷ [] in
    let answer =
      reply_cached (send_read_holding_registers start count timing n)
        (record { address = start; length = count }) [] vs
        (expected_call n.bus n.self.node_address 3 timing args idle first
          ∙ ap₂ (λ (a f : ℕ). some (a, f)) (omega arith) (omega arith))
        (ap (λ l. l ++ (record { address = start; length = count } ∷ [])) waiting) node values short
        fits in
    (answer.0, answer.3)
