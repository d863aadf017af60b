-- ===== src/Transports/Order.antt =====
-- Several commands on one transport.
use ts_c_riocpp.Common.{
  ℕ, ◌≤◌, ◌<◌, ◌≡◌, refl, sym, ap, ◌∙◌, List, [], ◌∷◌, true, some, arith, length,
}
use ts_c_riocpp.Modbus.Exceptions.{
  Error, Outcome, ok, throw, M, ◌>>◌, >>-throw, pure, final, throws_wrong,
}
use ts_c_riocpp.Modbus.Parser.{Parser, new_parser}
use ts_c_riocpp.Modbus.BusList
use ts_c_riocpp.Modbus.BusList.{
  BusList, CommandRecord, Functions, Node, heading, parse, parse_bytes,
}
use ts_c_riocpp.Modbus.BusList.Step.{IsValid, parse-IsValid}
use ts_c_riocpp.Crio.Fpga.Retry.{opened}
use ts_c_riocpp.Crio.Fpga.Skip.{Misses, pass, missed}
use ts_c_riocpp.Transports.{BusMethods, World, execute_command, each_command}
use ts_c_riocpp.Transports.Simulated.{SimulatedTransport, simulated_line}
use ts_c_riocpp.Transports.Gather.{IsFramed}
use ts_c_riocpp.Transports.Execute.{execute_answer, answered-ok, answered_wrong, thrown}

module _ {S : Type 0} (fs : Functions S) where
  after_new_parser :
      (o : Outcome Parser (Unit {0})) (n : Node S)
      → IsValid n.bus
      → (final (elim o as (λ _. Outcome (Node S) (Unit {0})) [
        | throw e p ↦ throw e n
        | ok u p ↦ parse fs p n
      ])).bus.commands
        ≡ n.bus.commands
  after_new_parser (throw e p) n v = refl
  after_new_parser (ok u p) n v = (parse-IsValid fs p n v).1

  commands-parse_bytes :
      (bytes : List ℕ) (n : Node S)
      → IsValid n.bus
      → (final (parse_bytes fs bytes n)).bus.commands ≡ n.bus.commands
  unfolding parse_bytes
  commands-parse_bytes bytes n v = after_new_parser (new_parser bytes) n v

module _ {D S : Type 0} (generate_response : List ℕ → D × List ℕ → D × List ℕ) (clock : D → ℕ × D)
    (b : BusMethods S) (end : ℕ) (in_time : (d : D) → (clock d).0 < end) (answer : List ℕ → List ℕ)
    (answers : (buf : List ℕ) (d : D) → (generate_response buf (d, [])).1 ≡ answer buf) where
  abbrev execute : ℕ → List ℕ → M (World (SimulatedTransport D) S) (Unit {0})
  execute fuel buf = execute_command (simulated_line generate_response clock) b fuel buf end

  abbrev each : ℕ → List CommandRecord → M (World (SimulatedTransport D) S) (Unit {0})
  each fuel = each_command (simulated_line generate_response clock) b fuel end (pure tt)

  -- A reply that execute_command collects within `fuel` rounds.
  pub record IsAnswer (fuel : ℕ) (r : List ℕ) : Type 0 where
    pub framed : IsFramed b.response_length r
    pub long : 4 ≤ length r
    pub enough : length r ≤ fuel

  each-cons :
      (fuel : ℕ) (c : CommandRecord) (cs : List CommandRecord)
      (w v : World (SimulatedTransport D) S)
      → execute fuel c.buffer w ≡ ok tt v
      → each fuel (c ∷ cs) w ≡ each fuel cs v
  unfolding each_command
  each-cons fuel c cs w v e = rw (e, ◌>>◌) refl

  each-throw :
      (fuel : ℕ) (c : CommandRecord) (cs : List CommandRecord)
      (w v : World (SimulatedTransport D) S) (e : Error)
      → execute fuel c.buffer w ≡ throw e v
      → each fuel (c ∷ cs) w ≡ throw e v
  unfolding each_command
  each-throw fuel c cs w v e h = >>-throw (execute fuel c.buffer) _ w h

  each-throws :
      (fuel : ℕ) (c : CommandRecord) (cs : List CommandRecord) (w : World (SimulatedTransport D) S)
      → throws_wrong (execute fuel c.buffer w) ≡ true
      → (throws_wrong (each fuel (c ∷ cs) w) ≡ true)
        × (final (each fuel (c ∷ cs) w) ≡ final (execute fuel c.buffer w))
  each-throws fuel c cs w h =
      let (e, x, q) = thrown (execute fuel c.buffer w) h in
      rw (each-throw fuel c cs w (final (execute fuel c.buffer w)) e x) (q, refl)

  -- Where the first of several commands has been answered and its reply was accepted, and the reply to
  -- the second does not have the address and the function of the first, WrongResponse is thrown, although
  -- the reply is that to its command: parse compares it with the first command again, and records the
  -- error at the address of that.
  pub second_command_wrong :
      (fuel a called : ℕ) (c0 c1 : CommandRecord) (cs : List CommandRecord)
      (w : World (SimulatedTransport D) S) (n' : Node S)
      → w.node.bus.commands ≡ c0 ∷ c1 ∷ cs
      → w.node.bus.parsed_index ≡ 0
      → w.line.response ≡ []
      → IsAnswer fuel (answer c0.buffer)
      → parse_bytes b.functions (answer c0.buffer) w.node ≡ ok tt n'
      → IsAnswer fuel (answer c1.buffer)
      → heading (opened (answer c1.buffer)) ≡ some (a, called)
      → Misses a called c0
      → (throws_wrong (each fuel (c0 ∷ c1 ∷ cs) w) ≡ true)
        × ((final (each fuel (c0 ∷ c1 ∷ cs) w)).node
            ≡ pass c0 called (record n' { bus = BusList.next_message n'.bus }))
  unfolding BusList.next_message
  second_command_wrong fuel a called c0 c1 cs w n' listed first idle r0 parsed r1 head misses =
      let e0 =
        execute_answer generate_response clock b end in_time answer answers fuel c0.buffer w
          r0.framed (omega (arith, r0.long)) r0.enough idle in
      let n1 : Node S = record n' { bus = BusList.next_message n'.bus } in
      let v : World (SimulatedTransport D) S = record { line = e0.line; node = n1 } in
      let done : execute fuel c0.buffer w ≡ ok tt v =
        e0.outcome ∙ answered-ok b.functions (answer c0.buffer) e0.line w.node n' parsed in
      let e1 =
        execute_answer generate_response clock b end in_time answer answers fuel c1.buffer v
          r1.framed (omega (arith, r1.long)) r1.enough e0.response in
      let kept : n1.bus.commands ≡ c0 ∷ c1 ∷ cs =
        ap (λ (o : Outcome (Node S) (Unit {0})). (final o).bus.commands) (sym parsed)
        ∙ commands-parse_bytes b.functions (answer c0.buffer) w.node (omega (arith, first))
        ∙ listed in
      let miss =
        missed b.functions (answer c1.buffer) a called r1.long head n1 c0 misses (c1 ∷ cs) kept in
      let wrong =
        answered_wrong b.functions (answer c1.buffer) (record v { line = e1.line }) miss.0 in
      let throws = each-throws fuel c1 cs v (rw e1.outcome wrong.0) in
      rw (each-cons fuel c0 (c1 ∷ cs) w v done) (
        throws.0,
        ap (λ (x : World (SimulatedTransport D) S). x.node) throws.1
            ∙ ap (λ (o : Outcome (World (SimulatedTransport D) S) (Unit {0})). (final o).node)
                e1.outcome
            ∙ wrong.1
            ∙ miss.1,
      )
