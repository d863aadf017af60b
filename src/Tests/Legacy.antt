-- ===== src/Tests/Legacy.antt =====
-- Runs of ModbusBuffer and SimulatedILC.
use ts_c_riocpp.Common.{
  ℕ, ◌≡◌, length, refl, arith, List, [], ◌∷◌, ◌++◌, none, some, map, ◌==◌, if◌then◌else◌,
}
use ts_c_riocpp.Modbus.Crc.{reset}
use ts_c_riocpp.Modbus.Buffer.{uint8, uint16, float32, Scalar}
use ts_c_riocpp.Modbus.Buffer as Queue
use ts_c_riocpp.Modbus.Exceptions.{ok, throw, end_of_buffer as end_of_buffer_error}
use ts_c_riocpp.Crio.ModbusBuffer.{ModbusBuffer, new_modbus_buffer}
use ts_c_riocpp.Crio.ModbusBuffer.Stream.{scalar, get_read_data}
use ts_c_riocpp.Crio.ModbusBuffer.Calls.{Call, call_all, words_of, call_all-frames}
use ts_c_riocpp.Crio.ModbusBuffer.Responses.{Actions, process_response, no_processing}
use ts_c_riocpp.Crio.ModbusBuffer.Step.{Reply, reading, frames_of}
use ts_c_riocpp.Crio.ModbusBuffer.Replies.{process_response-replies}
use ts_c_riocpp.Crio.ModbusBuffer.Commanded.{noting}
use ts_c_riocpp.Crio.ModbusBuffer.ReadData.{get_read_data_throws}
use ts_c_riocpp.Crio.SimulatedIlc.{simulated_ilc, simulated_ilc_laws, instruction_word}

-- A call of function 17 at the address 5, with one argument, and a broadcast.
abbrev two_calls : List Call
two_calls =
    record { address = 5; function = 17; timeout = 100; params = scalar uint16 0x1234 ∷ [] }
    ∷ record { address = 248; function = 65; timeout = 200; params = [] }
    ∷ []

call_all-frames_example :
    call_all simulated_ilc two_calls new_modbus_buffer ≡ record new_modbus_buffer {
      buffer = words_of simulated_ilc simulated_ilc_laws two_calls;
      commanded = (5, 17) ∷ [];
    }
call_all-frames_example =
    call_all-frames simulated_ilc simulated_ilc_laws two_calls new_modbus_buffer refl refl

abbrev reply_words : List ℕ
reply_words = map instruction_word (Queue.call_function [] 5 17 (Queue.scalar uint16 0x1234 ∷ []))

get_read_data_throws_example :
    let m = record new_modbus_buffer { buffer = 0x9202 ∷ 0x9204 ∷ 0x9206 ∷ []; index = 2 } in
    get_read_data simulated_ilc 2 2 m ≡ throw end_of_buffer_error (record m { index = 3 })
get_read_data_throws_example =
    get_read_data_throws simulated_ilc simulated_ilc_laws 2 2 _ (omega arith) (omega arith)
      (omega arith) (omega arith) (omega arith)

-- Function 17 answers a number of 16 bits, and function 18 two bytes.
abbrev report : ℕ → ℕ → List ℕ → List (ℕ × List ℕ) → List (ℕ × List ℕ)
report function address vs s = s ++ ((address, function ∷ vs) ∷ [])

abbrev table : Actions (List (ℕ × List ℕ))
table = record {
  actions = λ f.
      if f == 17
      then some (reading simulated_ilc (uint16 ∷ []) (report 17))
      else (if f == 18
          then some (reading simulated_ilc (uint8 ∷ uint8 ∷ []) (report 18))
          else none);
  error_actions = λ f. none;
}

abbrev replies : List Reply
replies =
    record { address = 5; function = 17; values = (uint16, 0x1234) ∷ [] }
    ∷ record { address = 6; function = 18; values = (uint8, 7) ∷ (uint8, 9) ∷ [] }
    ∷ []

abbrev asked : ModbusBuffer
asked = record new_modbus_buffer { commanded = (5, 17) ∷ (6, 18) ∷ (7, 17) ∷ [] }

process_response-replies_example :
    let words = map instruction_word (frames_of replies) in
    process_response simulated_ilc table
      (noting (λ a f s. s))
      3
      no_processing
      no_processing
      words
      (record { modbus = asked; self = [] })
    ≡ ok tt (record {
      modbus = record asked {
        buffer = words;
        index = length words;
        crc = reset;
        commanded = (7, 17) ∷ [];
      };
      self = (5, 17 ∷ 0x1234 ∷ []) ∷ (6, 18 ∷ 7 ∷ 9 ∷ []) ∷ [];
    })
process_response-replies_example =
    process_response-replies simulated_ilc simulated_ilc_laws table (noting (λ a f s. s)) report
      replies ((7, 17) ∷ []) asked [] 3 refl refl
      (
        (omega arith, omega arith, (omega arith, tt), refl, refl),
        ((omega arith, omega arith, (omega arith, (omega arith, tt)), refl, refl), tt),
      )
      (omega arith)
