-- ===== src/Tests/Bus.antt =====
-- Runs of BusList, and of the loop of ilcCommands around it, on a bus with two commands.
use ts_c_riocpp.Common.{ℕ, ◌+◌, ◌≤◌, ◌≡◌, inl, refl, List, [], ◌∷◌, arith, some, none, false}
use ts_c_riocpp.Modbus.Exceptions.{Outcome, ok, M, final, throws_wrong}
use ts_c_riocpp.Modbus.Buffer
use ts_c_riocpp.Modbus.Parser
use ts_c_riocpp.Modbus.Parser.{Parser}
use ts_c_riocpp.Modbus.BusList.{
  next_message, parse_bytes, parse_action, BusList, Functions, Node, new_bus_list, find_response,
  parse, parse_action, dispatch, expected, expected_of, heading,
}
use ts_c_riocpp.Modbus.BusList.Step.{IsValid, parse-IsValid}
use ts_c_riocpp.Modbus.BusList.Wrong.{Quiet}
use ts_c_riocpp.Crio.Fpga.{retry, ilc_commands}
use ts_c_riocpp.Crio.Fpga.Response.{one_frame, one_frame_lem}
use ts_c_riocpp.Crio.Fpga.Retry.{opened, retry_ends}
use ts_c_riocpp.Crio.Fpga.Skip.{respond, passed_over, retry_finds}

-- A bus with commands to the addresses 8 and 9; the callback of function 18 keeps the message.
abbrev two_commands : BusList
two_commands = record new_bus_list {
  commands =
      record { buffer = 8 ∷ 18 ∷ 1 ∷ 2 ∷ []; timing = 270 }
      ∷ record { buffer = 9 ∷ 18 ∷ 3 ∷ 4 ∷ []; timing = 270 }
      ∷ [];
}

abbrev start : Node (List ℕ)
start = record { bus = two_commands; self = [] }

abbrev keep : Parser → M (List ℕ) (Unit {0})
keep p s = ok tt p.bytes

abbrev callbacks : Functions (List ℕ)
callbacks = (18, record { action = keep; error_action = none }) ∷ []

callbacks-Quiet : Quiet callbacks
unfolding find_response
callbacks-Quiet k r act a c s found e = ground (arith, found, e)

-- The response of the address 9.
abbrev answer : List ℕ
answer = 9 ∷ 18 ∷ 5 ∷ 6 ∷ 7 ∷ []

parse-IsValid_example :
    let b = (final (parse callbacks (opened answer) start)).bus in
    IsValid b
    × (b.commands ≡ two_commands.commands)
    × (0 ≤ b.parsed_index)
    × (b.parsed_index ≤ 0 + 1)
parse-IsValid_example = parse-IsValid callbacks (opened answer) start (omega arith)

retry_ends_example :
    (o : Outcome (Node (List ℕ)) (Unit {0})) × (retry callbacks 3 answer start ≡ some o)
    × (throws_wrong o ≡ false)
retry_ends_example = retry_ends callbacks callbacks-Quiet 3 answer start (omega arith) (omega arith)

retry_finds_example :
    retry callbacks 3 answer start
    ≡ some (
        respond callbacks answer 9 18
          (passed_over (record { buffer = 8 ∷ 18 ∷ 1 ∷ 2 ∷ []; timing = 270 } ∷ []) 18 start))
unfolding parse_action find_response expected_of heading Parser.address Parser.func Buffer.address
    Buffer.func
retry_finds_example =
    retry_finds callbacks answer 9 18 (omega arith) refl
      (record { buffer = 8 ∷ 18 ∷ 1 ∷ 2 ∷ []; timing = 270 } ∷ [])
      (record { buffer = 9 ∷ 18 ∷ 3 ∷ 4 ∷ []; timing = 270 }) [] 3 start refl
      ((8, 18, refl, inl (omega arith)), tt) refl (omega arith) refl

-- The response of the address 8, with the times of the FPGA.
abbrev answered : Node (List ℕ)
answered = record { bus = record two_commands { parsed_index = 1 }; self = 8 ∷ 18 ∷ 5 ∷ 6 ∷ [] }

one_frame_example :
    ilc_commands callbacks
      (one_frame 1 0 0 0 (8 ∷ 18 ∷ 5 ∷ 6 ∷ []) (3 ∷ 0 ∷ 0 ∷ 0 ∷ 0 ∷ 0 ∷ 0 ∷ 0 ∷ []))
      (record { node = start; times = [] })
    ≡ ok tt (record { node = answered; times = (1, 0) ∷ (0, 3) ∷ [] })
unfolding retry next_message parse_bytes Parser.new_parser Parser.parse parse expected expected_of
    Buffer.address Buffer.func heading Parser.address Parser.func dispatch parse_action
    find_response
one_frame_example =
    one_frame_lem callbacks 1 0 0 0 8 (18 ∷ 5 ∷ 6 ∷ []) (3 ∷ 0 ∷ 0 ∷ 0 ∷ 0 ∷ 0 ∷ 0 ∷ 0 ∷ [])
      (record { node = start; times = [] }) (record { buffer = 8 ∷ 18 ∷ 1 ∷ 2 ∷ []; timing = 270 })
      (record { buffer = 9 ∷ 18 ∷ 3 ∷ 4 ∷ []; timing = 270 } ∷ []) answered refl (omega arith)
      (omega arith) refl refl
