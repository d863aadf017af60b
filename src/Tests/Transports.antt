-- ===== src/Tests/Transports.antt =====
-- Commands on a simulated transport, and requests to a serial device.
use ts_c_riocpp.Common.{
  ℕ, ◌+◌, ◌<◌, ◌≡◌, ◌⊎◌, inl, inr, refl, List, [], ◌∷◌, ◌++◌, arith, true, ◌==◌, if◌then◌else◌,
  get_elem?, take, drop, length,
}
use ts_c_riocpp.Modbus.Exceptions.{Error, communication_error, ok, throw, pure, final, throws_wrong}
use ts_c_riocpp.Modbus.Buffer
use ts_c_riocpp.Modbus.Buffer.Frame.{network}
use ts_c_riocpp.Modbus.Parser
use ts_c_riocpp.Modbus.BusList
use ts_c_riocpp.Modbus.BusList.{
  BusList, CommandRecord, Node, new_bus_list, expected, expected_of, heading, parse_bytes,
}
use ts_c_riocpp.Crio.Mpu.{
  Mpu, new_mpu, mpu_functions, send_read_holding_registers, get_register, response_length,
  length_of_function, unknown_length, total,
}
use ts_c_riocpp.Crio.Mpu.Registers.{reply}
use ts_c_riocpp.Crio.Mpu.Cache.{reply_cached}
use ts_c_riocpp.Crio.Fpga.Skip.{pass}
use ts_c_riocpp.Transports.{World, each_command}
use ts_c_riocpp.Transports.Simulated.{SimulatedTransport, simulated_line, simulated_commands}
use ts_c_riocpp.Transports.Gather.{IsFramed}
use ts_c_riocpp.Transports.Registers.{mpu_methods, reply-IsFramed, commands_read}
use ts_c_riocpp.Transports.Order.{second_command_wrong}
use ts_c_riocpp.Transports.Serial.{
  Fifos, error_response, telemetry_code, flush_code, read_code, read, flush, telemetry,
}
use ts_c_riocpp.Transports.Serial.Waits.{read_waits}
use ts_c_riocpp.Transports.Serial.Telemetry.{Refuses, error_response_lem}

abbrev values : List ℕ
values = 0x1234 ∷ 7 ∷ []

-- The reply to a preset of the register 40.
abbrev preset_reply : List ℕ
preset_reply = 12 ∷ 6 ∷ 0 ∷ 40 ∷ 0 ∷ 9 ∷ 0 ∷ 0 ∷ []

-- The device answers by the function.
abbrev answer : List ℕ → List ℕ
answer (a ∷ f ∷ rest) = if f == 3 then reply 12 values else preset_reply
answer other = []

abbrev generate : List ℕ → Unit {0} × List ℕ → Unit {0} × List ℕ
generate buf (d, response) = (d, response ++ answer buf)

abbrev clock : Unit {0} → ℕ × Unit {0}
clock d = (5, d)

abbrev line : SimulatedTransport (Unit {0})
line = record { device = tt; response = []; bytes_written = 0; bytes_read = 0 }

abbrev fresh : Node Mpu
fresh = record { bus = new_bus_list; self = new_mpu 12 }

commands_read_example :
    let asked = send_read_holding_registers 40 2 2000 fresh in
    (w : World (SimulatedTransport (Unit {0})) Mpu) × (simulated_commands generate clock mpu_methods
        9 1000
        (record { line = line; node = asked })
      ≡ ok tt w)
    × ((j : ℕ) → j < 2 → get_register w.node.self (40 + j) ≡ get_elem? values j)
    × (w.node.bus.commands ≡ [])
    × (w.node.bus.parsed_index ≡ 0)
unfolding Buffer.call_function
commands_read_example =
    commands_read generate clock answer (λ buf d. refl) 9 1000 40 2 2000 values line fresh
      (λ d. omega arith) refl refl refl refl (omega arith) (omega arith) (omega arith) (omega arith)
      refl (omega arith)

abbrev read_two : CommandRecord
read_two = record { buffer = 12 ∷ 3 ∷ 0 ∷ 40 ∷ 0 ∷ 2 ∷ []; timing = 2000 }

abbrev preset_one : CommandRecord
preset_one = record { buffer = 12 ∷ 6 ∷ 0 ∷ 40 ∷ 0 ∷ 9 ∷ []; timing = 2000 }

abbrev two_asked : Node Mpu
two_asked = record {
  bus = record new_bus_list { commands = read_two ∷ preset_one ∷ [] };
  self = record (new_mpu 12) {
    commanded_info = record { address = 40; length = 2 } ∷ record { address = 40; length = 0 } ∷ [];
  };
}

abbrev two_world : World (SimulatedTransport (Unit {0})) Mpu
two_world = record { line = line; node = two_asked }

preset-IsFramed : IsFramed response_length preset_reply
unfolding response_length length_of_function
preset-IsFramed = record { part = part; whole = refl }
  where
    part :
        (p q : List ℕ)
        → preset_reply ≡ p ++ q
        → 0 < length p
        → (response_length p ≡ unknown_length) ⊎ (response_length p ≡ total 8)
    part [] q e h = absurd (omega arith)
    part (a ∷ []) q e h = inl refl
    part (a ∷ f ∷ p) q e h = let second : ◌≡◌ {A = ℕ} 6 f = cc in rw (← second) (inr refl)

abbrev accepted : Node Mpu
accepted = final (parse_bytes mpu_functions (reply 12 values) two_asked)

second_command_wrong_example :
    let o =
      each_command
        (simulated_line generate clock)
        mpu_methods
        9
        1000
        (pure tt)
        (read_two ∷ preset_one ∷ [])
        two_world in
    (throws_wrong o ≡ true)
    × ((final o).node
        ≡ pass read_two 6 (record accepted { bus = BusList.next_message accepted.bus }))
unfolding expected expected_of Buffer.address Buffer.func heading Parser.address Parser.func
second_command_wrong_example =
    second_command_wrong generate clock mpu_methods 1000 (λ d. omega arith) answer (λ buf d. refl) 9
      12 6 read_two preset_one [] two_world accepted refl refl refl
      (record { framed = reply-IsFramed 12 values; long = omega arith; enough = omega arith })
      (reply_cached two_asked (record { address = 40; length = 2 })
        (record { address = 40; length = 0 } ∷ []) values refl refl (omega arith) (omega arith)
        (omega arith) (omega arith)).0
      (record { framed = preset-IsFramed; long = omega arith; enough = omega arith }) refl
      (12, 3, refl, inr (omega arith))

-- A device that has bytes to be read, takes every byte, and throws when it has to wait.
abbrev bytes_of : Fifos (List ℕ)
bytes_of = record {
  write_fifo = λ bytes s. ok tt s;
  read_fifo = λ n s. ok (take n s) (drop n s);
  wait_until = λ t s. throw Error.undefined s;
  sleep_for = λ t s. ok tt s;
  now = λ s. ok (length s) s;
}

-- Two rounds, with one byte and with two.
read_waits_example :
    read bytes_of 3 3 100 (2 ∷ 1 ∷ 7 ∷ 2 ∷ 2 ∷ 8 ∷ 9 ∷ [])
    ≡ read
        (record bytes_of { wait_until = λ t s. ok tt s })
        3
        3
        100
        (2 ∷ 1 ∷ 7 ∷ 2 ∷ 2 ∷ 8 ∷ 9 ∷ [])
read_waits_example = read_waits bytes_of (λ t s. ok tt s) 3 3 100 (2 ∷ 1 ∷ 7 ∷ 2 ∷ 2 ∷ 8 ∷ 9 ∷ [])

-- A device that keeps the bytes that were written, and the bytes to be read. It refuses every request.
abbrev refusing : Fifos (List ℕ × List ℕ)
refusing = record {
  write_fifo = λ bytes s. ok tt (s.0 ++ bytes, s.1 ++ (error_response ∷ network 4 17));
  read_fifo = λ n s. ok (take n s.1) (s.0, drop n s.1);
  wait_until = λ t s. ok tt s;
  sleep_for = λ t s. ok tt s;
  now = λ s. ok 5 s;
}

refuses : (req : ℕ) → Refuses refusing (9 ∷ [], []) req 17 (9 ∷ req ∷ [], [])
refuses req = record {
  fits = omega arith;
  asked = (9 ∷ req ∷ [], error_response ∷ network 4 17);
  answered = (9 ∷ req ∷ [], network 4 17);
  writes = refl;
  response = refl;
  reports = refl;
}

error_response_lem_example :
    (telemetry refusing (9 ∷ [], [])
      ≡ throw (communication_error telemetry_code 17) (9 ∷ telemetry_code ∷ [], []))
    × (flush refusing (9 ∷ [], [])
        ≡ throw (communication_error flush_code 17) (9 ∷ flush_code ∷ [], []))
    × (read refusing 1 8 100 (9 ∷ [], [])
        ≡ throw (communication_error read_code 17) (9 ∷ read_code ∷ [], []))
error_response_lem_example =
    error_response_lem refusing (9 ∷ [], []) (λ req. 17) (λ req. (9 ∷ req ∷ [], [])) (9 ∷ [], []) 5
      0 8 100 (refuses telemetry_code) (refuses flush_code) (refuses read_code) refl
