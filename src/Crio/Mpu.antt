-- ===== src/Crio/Mpu.antt =====
-- class MPU of include/cRIO/MPU.h and src/LSST/cRIO/MPU.cpp: the commands to a Modbus processing unit,
-- and the cache of the inputs and registers that its replies report.
-- The mutex of the registers only orders accesses of threads; each of these methods is one step.
pub mod Registers
pub mod Cache
pub mod Query
use ts_c_riocpp.Common.{
  ℕ, zero, suc, ◌+◌, ◌*◌, ◌/◌, ◌%◌, ◌^◌, List, [], ◌∷◌, ◌++◌, Option, none, some, Bool, bit_and,
  shr, u8, u16, not, ◌||◌, ◌==◌, if◌then◌else◌, length, get_elem?, ltb,
}
use ts_c_riocpp.Modbus.Exceptions.{
  Error, runtime_error, Outcome, ok, throw, M, ◌>>=◌, ◌>>◌, pure, throw_if,
}
use ts_c_riocpp.Modbus.Buffer.{Arg, scalar, uint16s, uint8, uint16}
use ts_c_riocpp.Modbus.Parser.{Parser, read, check_crc}
use ts_c_riocpp.Modbus.Handler.{Handler, reading, parser_address, get_self, modify, callback}
use ts_c_riocpp.Modbus.BusList
use ts_c_riocpp.Modbus.BusList.{BusList, Functions, Node, add_response}

pub record CommandedInfo : Type 0 where
  pub address : ℕ
  pub length : ℕ

-- The fields that MPU adds to BusList. A key that a map does not have reads as `none`.
pub record Mpu : Type 0 where
  pub node_address : ℕ
  pub commanded_info : List CommandedInfo
  pub input_status : ℕ → Option Bool
  pub registers : ℕ → Option ℕ

abbrev pub new_mpu : ℕ → Mpu
new_mpu node = record {
  node_address = node;
  commanded_info = [];
  input_status = λ a. none;
  registers = λ a. none;
}

-- enum MODBUS_CMD.
abbrev pub read_input_status : ℕ
read_input_status = 2

abbrev pub read_holding_registers : ℕ
read_holding_registers = 3

abbrev pub preset_holding_register : ℕ
preset_holding_register = 6

abbrev pub preset_holding_registers : ℕ
preset_holding_registers = 16

-- The std::runtime_errors of this class.
abbrev pub empty_status : Error
empty_status = runtime_error 20

abbrev pub invalid_address : Error
invalid_address = runtime_error 21

abbrev pub invalid_length : Error
invalid_length = runtime_error 22

abbrev pub invalid_register : Error
invalid_register = runtime_error 23

abbrev pub put {ℓ} : {A : Type ℓ} → (ℕ → Option A) → ℕ → A → ℕ → Option A
put m k v x = if x == k then some v else m x

-- front() and pop_front() of the list of commands; front() of an empty list is undefined.
unfoldable pub next_commanded : M (Handler Mpu) CommandedInfo
next_commanded h = elim (h.self.commanded_info) [
  | [] ↦ throw Error.undefined h
  | c ∷ cs ↦ ok c (record h { self = record (h.self) { commanded_info = cs } })
]

unfoldable pub check_node : M (Handler Mpu) (Unit {0})
unfolding parser_address
check_node = do
  a ← parser_address
  m ← get_self
  throw_if (not (a == m.node_address)) invalid_address

-- The loop over the bits of a reply: `left` rounds from `i` on, with the bits of `bits` that are left.
unfoldable pub status_loop : ℕ → ℕ → ℕ → CommandedInfo → M (Handler Mpu) (Unit {0})
status_loop zero i bits c = pure tt
status_loop (suc left) i bits c = do
  b ← (if i % 8 == 0 then reading (read uint8) else pure bits)
  modify (λ m. record m {
    input_status = put m.input_status (u16 (c.address + i)) (not (bit_and b 0x01 == 0));
  })
  status_loop left (i + 1) (shr b 1) c

unfoldable pub on_input_status : M (Handler Mpu) (Unit {0})
unfolding next_commanded check_node reading
on_input_status = do
  c ← next_commanded
  throw_if (c.address == 0 || c.length == 0) empty_status
  check_node
  len ← reading (read uint8)
  throw_if (not (c.length / 8 + (if c.length % 8 == 0 then 0 else 1) == len)) invalid_length
  status_loop c.length 0 0 c
  reading check_crc

unfoldable pub register_loop : ℕ → ℕ → CommandedInfo → M (Handler Mpu) (Unit {0})
register_loop zero i c = pure tt
register_loop (suc left) i c = do
  val ← reading (read uint16)
  modify (λ m. record m { registers = put m.registers (u16 (c.address + i)) val })
  register_loop left (i + 1) c

unfoldable pub on_holding_registers : M (Handler Mpu) (Unit {0})
on_holding_registers = do
  c ← next_commanded
  check_node
  bytes ← reading (read uint8)
  register_loop (bytes / 2) 0 c
  reading check_crc

unfoldable pub on_preset_register : M (Handler Mpu) (Unit {0})
on_preset_register = do
  c ← next_commanded
  check_node
  reg ← reading (read uint16)
  val ← reading (read uint16)
  throw_if (not (reg == c.address)) invalid_register
  modify (λ m. record m { registers = put m.registers c.address val })
  reading check_crc

unfoldable pub on_preset_registers : M (Handler Mpu) (Unit {0})
on_preset_registers = do
  c ← next_commanded
  check_node
  reg ← reading (read uint16)
  len ← reading (read uint16)
  throw_if (not (reg == c.address)) invalid_register
  throw_if (not (len == c.length)) invalid_length
  reading check_crc

-- The table that the constructor fills.
unfoldable pub mpu_functions : Functions Mpu
unfolding add_response
mpu_functions =
    let a : Functions Mpu = add_response [] read_input_status (callback on_input_status) none in
    let b : Functions Mpu =
      add_response a read_holding_registers (callback on_holding_registers) none in
    let c : Functions Mpu =
      add_response b preset_holding_register (callback on_preset_register) none in
    add_response c preset_holding_registers (callback on_preset_registers) none

-- What responseLength answers: -1 for a response that is too short to tell, or a length; another
-- function is a std::runtime_error.
pub data ResponseLength : Type 0 where
  unknown_length : ResponseLength
  total : ℕ → ResponseLength
  invalid_function : ResponseLength

unfoldable pub length_of_function : ℕ → List ℕ → ResponseLength
length_of_function f response =
    if f == read_input_status || f == read_holding_registers
    then elim (get_elem? response 2) [ none ↦ unknown_length | some n ↦ total (5 + n) ]
    else (if f == preset_holding_register || f == preset_holding_registers
        then total 8
        else (if bit_and f 0x80 == 0x80 then total 5 else invalid_function))

unfoldable pub response_length : List ℕ → ResponseLength
unfolding length_of_function
response_length response = elim (get_elem? response 1) [
  | none ↦ unknown_length
  | some f ↦ length_of_function f response
]

-- pop_front() of an empty list is undefined.
unfoldable pub missing_response : M (Node Mpu) (Unit {0})
missing_response n = elim (n.self.commanded_info) [
  | [] ↦ throw Error.undefined n
  | c ∷ cs ↦ ok tt (record {
    bus = BusList.missing_response n.bus;
    self = record (n.self) { commanded_info = cs };
  })
]

unfoldable pub command : ℕ → ℕ → List Arg → CommandedInfo → Node Mpu → Node Mpu
command func timing args info n = record {
  bus = BusList.call_function n.bus n.self.node_address func timing args;
  self = record (n.self) { commanded_info = n.self.commanded_info ++ (info ∷ []) };
}

unfoldable pub send_read_input_status : ℕ → ℕ → ℕ → Node Mpu → Node Mpu
unfolding command
send_read_input_status start count timing =
    command read_input_status timing (scalar uint16 start ∷ scalar uint16 count ∷ [])
      (record { address = start; length = count })

unfoldable pub send_read_holding_registers : ℕ → ℕ → ℕ → Node Mpu → Node Mpu
unfolding command
send_read_holding_registers start count timing =
    command read_holding_registers timing (scalar uint16 start ∷ scalar uint16 count ∷ [])
      (record { address = start; length = count })

unfoldable pub send_preset_holding_register : ℕ → ℕ → ℕ → Node Mpu → Node Mpu
unfolding command
send_preset_holding_register register val timing =
    command preset_holding_register timing (scalar uint16 register ∷ scalar uint16 val ∷ [])
      (record { address = register; length = 0 })

unfoldable pub send_preset_holding_registers : ℕ → List ℕ → ℕ → Node Mpu → Node Mpu
unfolding command
send_preset_holding_registers start vals timing =
    command preset_holding_registers timing
      (scalar uint16 start
        ∷ scalar uint16 (u16 (length vals))
        ∷ scalar uint8 (u8 (length vals * 2))
        ∷ uint16s vals
        ∷ [])
      (record { address = start; length = u16 (length vals) })

-- `none` is the exception that the cache has no such input, or no such register.
unfoldable pub get_input_status : Mpu → ℕ → Option Bool
get_input_status m a = m.input_status a

unfoldable pub get_register : Mpu → ℕ → Option ℕ
get_register m a = m.registers a
