-- ===== src/Modbus/BusList.antt =====
-- class BusList of include/Modbus/BusList.h and src/Modbus/BusList.cpp: the commands of a bus, and the
-- dispatch of their responses.
-- A subclass adds fields, which its callbacks change: `S` is the state that they have. The table of
-- the callbacks is filled by constructors and is not part of the state. A missing key of the map of
-- errors reads as a new ErrorRecord, as operator[] of std::map has it. The index of the next response
-- is a size_t that a run of any length does not bring to its end.
pub mod Step
pub mod Wrong
use ts_c_riocpp.Common.{
  ℕ, suc, ◌+◌, ◌%◌, ◌^◌, List, [], ◌∷◌, ◌++◌, Option, none, some, Bool, get_elem?, bit_and, not,
  ◌||◌, ◌==◌, if◌then◌else◌, length,
}
use ts_c_riocpp.Modbus.Exceptions.{
  Error, out_of_range, wrong_response, error_response, Outcome, ok, throw, M,
}
use ts_c_riocpp.Modbus.Buffer
use ts_c_riocpp.Modbus.Buffer.{Buffer, Arg, call_function as frame_of}
use ts_c_riocpp.Modbus.Parser
use ts_c_riocpp.Modbus.Parser.{Parser}

pub record CommandRecord : Type 0 where
  pub buffer : Buffer
  pub timing : ℕ

pub record ErrorRecord : Type 0 where
  pub last_error_function : ℕ
  pub last_error_code : ℕ
  pub error_count : ℕ

abbrev pub new_error_record : ErrorRecord
new_error_record = record { last_error_function = 0; last_error_code = 0; error_count = 0 }

unfoldable pub record_error : ErrorRecord → ℕ → ℕ → ErrorRecord
record_error r function error = record {
  last_error_function = function;
  last_error_code = error;
  error_count = (r.error_count + 1) % 2 ^ 64;
}

pub record BusList : Type 0 where
  pub commands : List CommandRecord
  pub errors : ℕ → ErrorRecord
  pub parsed_index : ℕ

abbrev pub new_bus_list : BusList
new_bus_list = record { commands = []; errors = λ a. new_error_record; parsed_index = 0 }

-- A callback without a value is the nullptr of an error action.
pub record ResponseRecord (S : Type 0) : Type 0 where
  pub action : Parser → M S (Unit {0})
  pub error_action : Option (ℕ → ℕ → M S (Unit {0}))

abbrev pub Functions : Type 0 → Type 0
Functions S = List (ℕ × ResponseRecord S)

module _ {S : Type 0} where
  unfoldable pub find_response : Functions S → ℕ → Option (ResponseRecord S)
  find_response [] k = none
  find_response ((j, r) ∷ fs) k = if j == k then some r else find_response fs k

  -- emplace of std::map: a key that is there keeps its value.
  unfoldable pub add_response :
      Functions S → ℕ → (Parser → M S (Unit {0})) → Option (ℕ → ℕ → M S (Unit {0})) → Functions S
  unfolding find_response
  add_response fs k act error_act = elim (find_response fs k) [
    | some r ↦ fs
    | none ↦ fs ++ ((k, record { action = act; error_action = error_act }) ∷ [])
  ]

  replace_error : Functions S → ℕ → Option (ℕ → ℕ → M S (Unit {0})) → Functions S
  replace_error [] k error_act = []
  replace_error ((j, r) ∷ fs) k error_act =
      (j, if j == k then record r { error_action = error_act } else r)
      ∷ replace_error fs k error_act

  -- `none` is the std::out_of_range of at().
  unfoldable pub set_error_response :
      Functions S → ℕ → Option (ℕ → ℕ → M S (Unit {0})) → Option (Functions S)
  unfolding find_response replace_error
  set_error_response fs k error_act = elim (find_response fs k) [
    | some r ↦ some (replace_error fs k error_act)
    | none ↦ none
  ]

unfoldable pub next_message : BusList → BusList
next_message b = record b { parsed_index = 0 }

unfoldable pub call_function : BusList → ℕ → ℕ → ℕ → List Arg → BusList
call_function b address func timing args = record b {
  commands =
      b.commands ++ (record { buffer = frame_of [] address func args; timing = timing } ∷ []);
}

unfoldable pub missing_response : BusList → BusList
missing_response b = record b { parsed_index = b.parsed_index + 1 }

-- clear() of the vector of commands, which BusList inherits.
unfoldable pub clear : BusList → BusList
clear b = record b { commands = [] }

unfoldable pub get_error_record : BusList → ℕ → ErrorRecord
get_error_record b address = b.errors address

abbrev pub error_mask : ℕ
error_mask = 0x80

-- func & ~MODBUS_ERROR_MASK, of a uint8_t.
abbrev pub without_error : ℕ → ℕ
without_error called = bit_and called 0x7F

-- The bus list with the fields of its subclass.
pub record Node (S : Type 0) : Type 0 where
  pub bus : BusList
  pub self : S

abbrev pub update_errors : (ℕ → ErrorRecord) → ℕ → ErrorRecord → ℕ → ErrorRecord
update_errors errors a r x = if x == a then r else errors x

-- The address and the function that the response to a command is expected to have.
unfoldable pub expected_of : CommandRecord → Option (ℕ × ℕ)
expected_of c = elim (Buffer.address c.buffer) [
  | none ↦ none
  | some a ↦ elim (Buffer.func c.buffer) [ none ↦ none | some f ↦ some (a, f) ]
]

unfoldable pub expected : BusList → Option (ℕ × ℕ)
expected b = elim (get_elem? b.commands b.parsed_index) [ none ↦ none | some c ↦ expected_of c ]

-- The address and the function of the response.
unfoldable pub heading : Parser → Option (ℕ × ℕ)
heading p = elim (Parser.address p) [
  | none ↦ none
  | some a ↦ elim (Parser.func p) [ none ↦ none | some f ↦ some (a, f) ]
]

module _ {S : Type 0} where
  unfoldable pub advance : Node S → Node S
  advance n = record n { bus = record (n.bus) { parsed_index = n.bus.parsed_index + 1 } }

  -- A callback works on the fields of the subclass.
  unfoldable pub on_self : M S (Unit {0}) → M (Node S) (Unit {0})
  on_self m n = elim (m n.self) [
    | ok u s ↦ ok tt (record n { self = s })
    | throw e s ↦ throw e (record n { self = s })
  ]

  unfoldable pub parse_mismatch : ℕ → ℕ → ℕ → ℕ → M (Node S) (Unit {0})
  unfolding advance
  parse_mismatch address called exp_address exp_func n =
      let m = advance n in
      let r = record_error (m.bus.errors exp_address) called 0xff in
      throw (wrong_response address exp_address called exp_func)
        (record m { bus = record (m.bus) { errors = update_errors m.bus.errors exp_address r } })

  unfoldable pub parse_error : Functions S → ℕ → ℕ → M (Node S) (Unit {0})
  unfolding advance on_self
  parse_error fs address called n = elim (find_response fs (without_error called)) [
    | none ↦ throw out_of_range n
    | some r ↦ elim r.error_action [
      | none ↦ throw (error_response address called) (advance n)
      | some act ↦ elim (on_self (act address called) n) [
        | ok u n' ↦ ok tt (advance n')
        | throw e n' ↦ throw e n'
      ]
    ]
  ]

  unfoldable pub parse_action : Functions S → Parser → ℕ → M (Node S) (Unit {0})
  unfolding advance on_self
  parse_action fs p called n = elim (find_response fs called) [
    | none ↦ throw out_of_range (advance n)
    | some r ↦ on_self (r.action p) (advance n)
  ]

  unfoldable pub dispatch : Functions S → Parser → ℕ → ℕ → ℕ → ℕ → M (Node S) (Unit {0})
  dispatch fs p exp_address exp_func address called n =
      if not (address == exp_address) || not (without_error called == exp_func)
      then parse_mismatch address called exp_address exp_func n
      else (if not (bit_and called error_mask == 0)
          then parse_error fs address called n
          else parse_action fs p called n)

  unfoldable pub parse : Functions S → Parser → M (Node S) (Unit {0})
  parse fs p n = elim (expected n.bus) [
    | none ↦ throw out_of_range n
    | some (exp_address, exp_func) ↦ elim (heading p) [
      | none ↦ throw out_of_range n
      | some (address, called) ↦ dispatch fs p exp_address exp_func address called n
    ]
  ]

  -- parse of the bytes of a response, from which a Parser is constructed first.
  unfoldable pub parse_bytes : Functions S → List ℕ → M (Node S) (Unit {0})
  parse_bytes fs bytes n = elim (Parser.new_parser bytes) [
    | throw e p ↦ throw e n
    | ok u p ↦ parse fs p n
  ]
