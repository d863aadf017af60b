-- ===== src/Transports/Execute.antt =====
-- A command on a simulated transport.
use ts_c_riocpp.Common.{
  ℕ, ◌+◌, ◌≤◌, ◌<◌, ◌≡◌, refl, sym, ap, ◌∙◌, List, [], ◌∷◌, ◌++◌, append-nil, true, false, u64, leb,
  arith, length,
}
use ts_c_riocpp.Modbus.Exceptions.{
  Error, Outcome, ok, throw, M, ◌>>=◌, ◌>>◌, >>=-ok, >>-ok, >>-throw, is_wrong, throws_wrong, final,
}
use ts_c_riocpp.Modbus.BusList
use ts_c_riocpp.Modbus.BusList.{BusList, Functions, Node, parse_bytes}
use ts_c_riocpp.Transports.{BusMethods, World, on_line, on_node, gather, finish, execute_command}
use ts_c_riocpp.Transports.Simulated.{SimulatedTransport, write, simulated_line}
use ts_c_riocpp.Transports.Gather.{IsFramed, gather_more, ticked}

-- What throws WrongResponse throws.
pub thrown :
    {S : Type 0} (o : Outcome S (Unit {0}))
    → throws_wrong o ≡ true
    → (e : Error) × (o ≡ throw e (final o)) × (is_wrong e ≡ true)
thrown (ok u n) h = absurd (cc)
thrown (throw e n) h = (e, refl, h)

module _ {T S : Type 0} (fs : Functions S) where
  -- What is done with a reply: parse, and then next_message.
  abbrev pub answered : List ℕ → M (World T S) (Unit {0})
  answered r = do
    on_node (parse_bytes fs r)
    on_node (λ n. ok tt (record n { bus = BusList.next_message n.bus }))

  parsed-ok :
      (r : List ℕ) (t : T) (n n' : Node S)
      → parse_bytes fs r n ≡ ok tt n'
      → on_node (parse_bytes fs r) (record { line = t; node = n })
        ≡ ok tt (record { line = t; node = n' })
  unfolding on_node
  parsed-ok r t n n' e = rw (e, on_node) refl

  pub answered-ok :
      (r : List ℕ) (t : T) (n n' : Node S)
      → parse_bytes fs r n ≡ ok tt n'
      → answered r (record { line = t; node = n })
        ≡ ok tt (record { line = t; node = record n' { bus = BusList.next_message n'.bus } })
  unfolding on_node
  answered-ok r t n n' e =
      >>-ok (on_node (parse_bytes fs r)) _ (record { line = t; node = n }) (parsed-ok r t n n' e)

  parsed-throw :
      (r : List ℕ) (w : World T S) (e : Error) (m : Node S)
      → parse_bytes fs r w.node ≡ throw e m
      → on_node (parse_bytes fs r) w ≡ throw e (record w { node = m })
  unfolding on_node
  parsed-throw r w e m h = rw (h, on_node) refl

  answered-throw :
      (r : List ℕ) (w : World T S) (e : Error) (m : Node S)
      → parse_bytes fs r w.node ≡ throw e m
      → answered r w ≡ throw e (record w { node = m })
  answered-throw r w e m h = >>-throw (on_node (parse_bytes fs r)) _ w (parsed-throw r w e m h)

  -- A WrongResponse of parse is thrown, with the bus list as parse has left it.
  pub answered_wrong :
      (r : List ℕ) (w : World T S)
      → throws_wrong (parse_bytes fs r w.node) ≡ true
      → (throws_wrong (answered r w) ≡ true)
        × ((final (answered r w)).node ≡ final (parse_bytes fs r w.node))
  answered_wrong r w h =
      let (e, x, q) = thrown (parse_bytes fs r w.node) h in
      rw (answered-throw r w e (final (parse_bytes fs r w.node)) x) (q, refl)

module _ {D S : Type 0} (generate_response : List ℕ → D × List ℕ → D × List ℕ) (clock : D → ℕ × D)
    (b : BusMethods S) (end : ℕ) (in_time : (d : D) → (clock d).0 < end) where
  -- What a command leaves: parse has the reply, and the index is then that of the first command.
  pub record Executed (r later command : List ℕ) (w : World (SimulatedTransport D) S)
      (o : Outcome (World (SimulatedTransport D) S) (Unit {0})) : Type 0 where
    pub line : SimulatedTransport D
    pub outcome : o ≡ answered b.functions r (record w { line = line })
    pub response : line.response ≡ later
    pub bytes_written : line.bytes_written ≡ u64 (w.line.bytes_written + length command)
    pub bytes_read : line.bytes_read ≡ u64 (w.line.bytes_read + length r)

  finish-cons :
      (r command : List ℕ)
      → 0 < length r
      → finish (simulated_line generate_response clock) b command r ≡ answered b.functions r
  unfolding finish
  finish-cons [] command h = absurd (omega arith)
  finish-cons (x ∷ r) command h = refl

  -- The line behind a write.
  written : List ℕ → SimulatedTransport D → SimulatedTransport D
  written command t =
      let g = generate_response command (t.device, t.response) in
      record t {
        device = g.0;
        response = g.1;
        bytes_written = u64 (t.bytes_written + length command);
      }

  in_time_leb : (n : ℕ) → n < end → leb end n ≡ false
  in_time_leb n h = ground arith

  execute_steps :
      (fuel : ℕ) (command : List ℕ) (w : World (SimulatedTransport D) S)
      → let t = written command (ticked generate_response clock b end in_time w.line) in
        execute_command (simulated_line generate_response clock) b fuel command end w
        ≡ (do
          answer ←
              gather
                (simulated_line generate_response clock)
                b
                fuel
                end
                (clock w.line.device).0
                0
                []
          finish (simulated_line generate_response clock) b command answer)
            (record w { line = t })
  unfolding execute_command on_line simulated_line write written
  execute_steps fuel command w =
      rw (in_time_leb (clock w.line.device).0 (in_time w.line.device)) refl

  pub execute_reply :
      (fuel : ℕ) (r later command : List ℕ) (w : World (SimulatedTransport D) S)
      → IsFramed b.response_length r
      → 0 < length r
      → length r ≤ fuel
      → (generate_response command ((clock w.line.device).1, w.line.response)).1 ≡ r ++ later
      → Executed r later command w
          (execute_command (simulated_line generate_response clock) b fuel command end w)
  unfolding written
  execute_reply fuel r later command w framed some_bytes enough answers =
      let t = written command (ticked generate_response clock b end in_time w.line) in
      let w1 : World (SimulatedTransport D) S = record w { line = t } in
      let g =
        gather_more generate_response clock b end in_time r framed fuel (clock w.line.device).0 [] r
          later w1 answers some_bytes enough (in_time w.line.device) refl in
      record {
        line = g.last.line;
        outcome =
            execute_steps fuel command w
            ∙ >>=-ok
                (gather (simulated_line generate_response clock) b fuel end (clock w.line.device).0
                  0 [])
                (finish (simulated_line generate_response clock) b command) w1 g.is_ok
            ∙ rw (finish-cons r command some_bytes)
                (ap (λ n. answered b.functions r (record { line = g.last.line; node = n })) g.node);
        response = g.response;
        bytes_written = g.bytes_written;
        bytes_read = g.bytes_read;
      }

  -- A device whose answer to a command does not depend on its state, with nothing left to be read.
  module _ (answer : List ℕ → List ℕ)
      (answers : (buf : List ℕ) (d : D) → (generate_response buf (d, [])).1 ≡ answer buf) where
    pub execute_answer :
        (fuel : ℕ) (command : List ℕ) (w : World (SimulatedTransport D) S)
        → IsFramed b.response_length (answer command)
        → 0 < length (answer command)
        → length (answer command) ≤ fuel
        → w.line.response ≡ []
        → Executed
            (answer command)
            []
            command
            w
            (execute_command (simulated_line generate_response clock) b fuel command end w)
    execute_answer fuel command w framed some_bytes enough idle =
        execute_reply fuel (answer command) [] command w framed some_bytes enough
          (rw idle (answers command (clock w.line.device).1) ∙ sym (append-nil (answer command)))
