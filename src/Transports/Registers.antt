-- ===== src/Transports/Registers.antt =====
-- Registers of an MPU that are read through a simulated transport.
use ts_c_riocpp.Common.{
  ℕ, ◌+◌, ◌*◌, ◌^◌, ◌≤◌, ◌<◌, ◌≡◌, ◌⊎◌, inl, inr, refl, sym, ap, ◌∙◌, List, [], ◌∷◌, ◌++◌, arith,
  length, length-append, get_elem?, All, IsByte,
}
use ts_c_riocpp.Modbus.Exceptions.{ok, M, ◌>>◌, pure, final}
use ts_c_riocpp.Modbus.Buffer
use ts_c_riocpp.Modbus.Buffer.{scalar, uint16}
use ts_c_riocpp.Modbus.Buffer.Frame.{crc_bytes}
use ts_c_riocpp.Modbus.BusList
use ts_c_riocpp.Modbus.BusList.{BusList, CommandRecord, Node, parse_bytes}
use ts_c_riocpp.Crio.Mpu
use ts_c_riocpp.Crio.Mpu.{
  Mpu, mpu_functions, response_length, length_of_function, unknown_length, total, command,
  send_read_holding_registers, get_register,
}
use ts_c_riocpp.Crio.Mpu.Registers.{IsWord, words, reply, reply_body, length-words}
use ts_c_riocpp.Crio.Mpu.Query.{read_reply}
use ts_c_riocpp.Transports.{
  BusMethods, World, on_line, on_node, execute_command, each_command, commands,
}
use ts_c_riocpp.Transports.Simulated.{SimulatedTransport, simulated_line, simulated_commands}
use ts_c_riocpp.Transports.Gather.{IsFramed}
use ts_c_riocpp.Transports.Execute.{execute_answer, answered-ok}

abbrev pub mpu_methods : BusMethods Mpu
mpu_methods = record {
  functions = mpu_functions;
  response_length = response_length;
  missing_response = Mpu.missing_response;
}

length-reply : (node : ℕ) (vs : List ℕ) → length (reply node vs) ≡ 5 + 2 * length vs
length-reply node vs =
    omega (arith, length-append (words vs) (crc_bytes (reply_body node vs)), length-words vs)

-- From three bytes on, the length of a reply to a read of holding registers is known.
three_bytes : (a n : ℕ) (rest : List ℕ) → response_length (a ∷ 3 ∷ n ∷ rest) ≡ total (5 + n)
unfolding response_length length_of_function
three_bytes a n rest = refl

heads : {a b : ℕ} {xs ys : List ℕ} → ◌≡◌ {A = List ℕ} (a ∷ xs) (b ∷ ys) → (a ≡ b) × (xs ≡ ys)
heads e = (cc, cc)

pub reply-IsFramed : (node : ℕ) (vs : List ℕ) → IsFramed response_length (reply node vs)
unfolding response_length
reply-IsFramed node vs = record {
  part = part;
  whole =
      three_bytes node (2 * length vs) (words vs ++ crc_bytes (reply_body node vs))
      ∙ ap total (sym (length-reply node vs));
}
  where
    part :
        (p q : List ℕ)
        → reply node vs ≡ p ++ q
        → 0 < length p
        → (response_length p ≡ unknown_length)
          ⊎ (response_length p ≡ total (length (reply node vs)))
    part [] q e h = absurd (omega arith)
    part (a ∷ []) q e h = inl refl
    part (a ∷ f ∷ []) q e h = inl (rw (← (heads (heads e).1).0) refl)
    part (a ∷ f ∷ n ∷ p) q e h = inr (
        rw (← (heads (heads e).1).0, ← (heads (heads (heads e).1).1).0)
          (three_bytes a (2 * length vs) p ∙ ap total (sym (length-reply node vs))))

-- The command that readHoldingRegisters queues.
abbrev pub read_command : ℕ → ℕ → ℕ → ℕ → CommandRecord
read_command node start count timing = record {
  buffer = Buffer.call_function [] node 3 (scalar uint16 start ∷ scalar uint16 count ∷ []);
  timing = timing;
}

queued :
    (n : Node Mpu) (start count timing : ℕ)
    → n.bus.commands ≡ []
    → (send_read_holding_registers start count timing n).bus.commands
      ≡ read_command n.self.node_address start count timing ∷ []
unfolding send_read_holding_registers command BusList.call_function
queued n start count timing none_yet =
    ap (λ l. l ++ (read_command n.self.node_address start count timing ∷ [])) none_yet

module _ {D : Type 0} (generate_response : List ℕ → D × List ℕ → D × List ℕ) (clock : D → ℕ × D)
    (answer : List ℕ → List ℕ)
    (answers : (buf : List ℕ) (d : D) → (generate_response buf (d, [])).1 ≡ answer buf) where
  abbrev transport : ℕ → ℕ → M (World (SimulatedTransport D) Mpu) (Unit {0})
  transport fuel timeout = simulated_commands generate_response clock mpu_methods fuel timeout

  each_one :
      (fuel end : ℕ) (c : CommandRecord) (w v : World (SimulatedTransport D) Mpu)
      → execute_command (simulated_line generate_response clock) mpu_methods fuel c.buffer end w
        ≡ ok tt v
      → each_command
          (simulated_line generate_response clock)
          mpu_methods
          fuel
          end
          (pure tt)
          (c ∷ [])
          w
        ≡ ok tt v
  unfolding each_command
  each_one fuel end c w v e = rw (e, ◌>>◌) refl

  -- commands on the list of the bus.
  on_commands :
      (fuel end : ℕ) (cs : List CommandRecord) (w v : World (SimulatedTransport D) Mpu)
      → each_command (simulated_line generate_response clock) mpu_methods fuel end (pure tt) cs w
        ≡ ok tt v
      → (do
        each_command (simulated_line generate_response clock) mpu_methods fuel end (pure tt) cs
        on_node (λ n. ok tt (record n { bus = BusList.clear n.bus })))
          w
        ≡ ok tt (record v { node = record (v.node) { bus = BusList.clear v.node.bus } })
  unfolding on_node
  on_commands fuel end cs w v e = rw (e, ◌>>◌) refl

  -- What commands does with one command that is answered.
  one_command :
      (fuel timeout : ℕ) (c : CommandRecord) (w : World (SimulatedTransport D) Mpu) (n' : Node Mpu)
      → ((d : D) → (clock d).0 < (clock w.line.device).0 + timeout)
      → w.node.bus.commands ≡ c ∷ []
      → w.line.response ≡ []
      → IsFramed response_length (answer c.buffer)
      → 0 < length (answer c.buffer)
      → length (answer c.buffer) ≤ fuel
      → parse_bytes mpu_functions (answer c.buffer) w.node ≡ ok tt n'
      → (t : SimulatedTransport D) × (transport fuel timeout w
          ≡ ok tt (record {
            line = t;
            node = record n' { bus = BusList.clear (BusList.next_message n'.bus) };
          }))
  unfolding simulated_commands commands on_line
  one_command fuel timeout c w n' in_time one idle framed some_bytes enough parsed =
      let end = (clock w.line.device).0 + timeout in
      let w0 : World (SimulatedTransport D) Mpu = record w {
        line = record (w.line) { device = (clock w.line.device).1 };
      } in
      let e =
        execute_answer generate_response clock mpu_methods end in_time answer answers fuel c.buffer
          w0 framed some_bytes enough idle in
      let v : World (SimulatedTransport D) Mpu = record {
        line = e.line;
        node = record n' { bus = BusList.next_message n'.bus };
      } in
      let one_done =
        each_one fuel end c w0 v
          (e.outcome ∙ answered-ok mpu_functions (answer c.buffer) e.line w.node n' parsed) in
      (
        e.line,
        ap
              (λ cs.
                (do
                  each_command (simulated_line generate_response clock) mpu_methods fuel end
                      (pure tt) cs
                  on_node (λ n. ok tt (record n { bus = BusList.clear n.bus })))
                  w0)
              one
            ∙ on_commands fuel end (c ∷ []) w0 v one_done,
      )

  -- readHoldingRegisters of an MPU with no commands, whose device answers with the values, fewer than 128
  -- of 16 bits and of registers below 2 ^ 16, and then commands of a simulated transport with nothing
  -- left to be read, while the time is not over: commands returns, with as many rounds for the reply as
  -- it has bytes; getRegister answers each value under its own address; and the bus list is empty again,
  -- and waits for the response of its first command.
  pub commands_read :
      (fuel timeout start count timing : ℕ) (vs : List ℕ) (t : SimulatedTransport D) (n : Node Mpu)
      → ((d : D) → (clock d).0 < (clock t.device).0 + timeout)
      → t.response ≡ []
      → n.bus.commands ≡ []
      → n.bus.parsed_index ≡ 0
      → n.self.commanded_info ≡ []
      → IsByte n.self.node_address
      → All IsWord vs
      → length vs < 128
      → start + length vs ≤ 2 ^ 16
      → answer (read_command n.self.node_address start count timing).buffer
        ≡ reply n.self.node_address vs
      → length (reply n.self.node_address vs) ≤ fuel
      → let asked = send_read_holding_registers start count timing n in
        (w : World (SimulatedTransport D) Mpu) × (transport fuel timeout
            (record { line = t; node = asked })
          ≡ ok tt w)
        × ((j : ℕ) → j < length vs → get_register w.node.self (start + j) ≡ get_elem? vs j)
        × (w.node.bus.commands ≡ [])
        × (w.node.bus.parsed_index ≡ 0)
  unfolding BusList.clear BusList.next_message
  commands_read fuel timeout start count timing vs t n in_time idle none_yet first waiting node
        values short fits replies enough =
      let c = read_command n.self.node_address start count timing in
      let asked = send_read_holding_registers start count timing n in
      let after = parse_bytes mpu_functions (reply n.self.node_address vs) asked in
      let read = read_reply n start count timing vs none_yet first waiting node values short fits in
      let done =
        one_command fuel timeout c (record { line = t; node = asked }) (final after) in_time
          (queued n start count timing none_yet) idle
          (rw replies (reply-IsFramed n.self.node_address vs))
          (rw replies (omega (arith, length-reply n.self.node_address vs))) (rw replies enough)
          (rw replies read.0) in
      (_, done.1, read.1, refl, refl)
