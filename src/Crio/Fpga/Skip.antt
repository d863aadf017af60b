-- ===== src/Crio/Fpga/Skip.antt =====
-- Which command a response is matched with, when some nodes of the bus do not answer.
use ts_c_riocpp.Common.{
  ℕ, zero, suc, ◌+◌, ◌≤◌, ◌<◌, ◌≡◌, ◌≢◌, ◌⊎◌, refl, ap, ◌∙◌, List, [], ◌∷◌, ◌++◌, arith, length,
  drop, none, some, true, false, not, ◌==◌, if◌then◌else◌, bit_and, All, get_elem?-drop, drop_next,
  ==_self,
}
use ts_c_riocpp.Modbus.Exceptions.{M, final, throws_wrong}
use ts_c_riocpp.Modbus.Parser.{new_parser, parse as parse_buffer}
use ts_c_riocpp.Modbus.BusList.{
  CommandRecord, Functions, Node, expected_of, expected, heading, record_error, update_errors,
  without_error, error_mask, advance, parse_mismatch, parse_error, parse_action, dispatch, parse,
  parse_bytes,
}
use native.Mathlib.Numerals.{add-one}
use ts_c_riocpp.Crio.Fpga.{retry}
use ts_c_riocpp.Crio.Fpga.Retry.{opened, retry_stops, retry_again}

-- The response is not that to the command: another address, or another function.
abbrev pub Misses : ℕ → ℕ → CommandRecord → Type 0
Misses a called c =
    (ea : ℕ) × (ef : ℕ) × (expected_of c ≡ some (ea, ef)) × ((a ≢ ea) ⊎ (without_error called ≢ ef))

abbrev expected_address : CommandRecord → ℕ
expected_address c = elim (expected_of c) [ none ↦ 0 | some (a, f) ↦ a ]

module _ {S : Type 0} where
  -- A command that had no answer: one error is recorded at its address.
  abbrev pub pass : CommandRecord → ℕ → Node S → Node S
  pass c called n = record n {
    bus = record (n.bus) {
      errors =
          update_errors n.bus.errors (expected_address c)
            (record_error (n.bus.errors (expected_address c)) called 0xff);
      parsed_index = n.bus.parsed_index + 1;
    };
  }

  abbrev pub passed_over : List CommandRecord → ℕ → Node S → Node S
  passed_over [] called n = n
  passed_over (c ∷ cs) called n = passed_over cs called (pass c called n)

  -- What is done with the response to the command at the index.
  abbrev pub respond : Functions S → List ℕ → ℕ → ℕ → M (Node S) (Unit {0})
  respond fs bytes a called n =
      if not (bit_and called error_mask == 0)
      then parse_error fs a called n
      else parse_action fs (opened bytes) called n

  module _ (fs : Functions S) (bytes : List ℕ) (a called : ℕ) (long : 4 ≤ length bytes)
      (head : heading (opened bytes) ≡ some (a, called)) where
    at_command :
        (n : Node S) (c : CommandRecord) (rest : List CommandRecord) (ea ef : ℕ)
        → drop n.bus.parsed_index n.bus.commands ≡ c ∷ rest
        → expected_of c ≡ some (ea, ef)
        → parse_bytes fs bytes n ≡ dispatch fs (opened bytes) ea ef a called n
    unfolding parse_bytes parse new_parser parse_buffer expected
    at_command n c rest ea ef d e =
        ground (arith, head, get_elem?-drop n.bus.commands n.bus.parsed_index c rest d)

    matched :
        (n : Node S)
        → dispatch fs (opened bytes) a (without_error called) a called n
          ≡ respond fs bytes a called n
    unfolding dispatch
    matched n = rw (==_self a, ==_self (without_error called)) refl

    pub missed :
        (n : Node S) (c : CommandRecord)
        → Misses a called c
        → (rest : List CommandRecord) → drop n.bus.parsed_index n.bus.commands ≡ c ∷ rest
        → (throws_wrong (parse_bytes fs bytes n) ≡ true)
          × (final (parse_bytes fs bytes n) ≡ pass c called n)
    unfolding dispatch parse_mismatch advance
    missed n c (ea, ef, e, d) rest at_index =
        rw (at_command n c rest ea ef at_index e) (ground (arith, e))

    -- A response of four bytes or more is matched with the first command, from the index on, that
    -- has its address and its function, if there is one, within one more round than there are
    -- commands before it: those are passed over, with one error recorded at each of their
    -- addresses, and the callback of the function has the response. The callback is one that throws
    -- no WrongResponse.
    pub retry_finds :
        (skipped : List CommandRecord) (c : CommandRecord) (rest : List CommandRecord) (fuel : ℕ)
        (n : Node S)
        → drop n.bus.parsed_index n.bus.commands ≡ skipped ++ (c ∷ rest)
        → All (Misses a called) skipped
        → expected_of c ≡ some (a, without_error called)
        → length skipped < fuel
        → throws_wrong (respond fs bytes a called (passed_over skipped called n)) ≡ false
        → retry fs fuel bytes n ≡ some (respond fs bytes a called (passed_over skipped called n))
    retry_finds [] c rest zero n d m e f q = absurd (omega arith)
    retry_finds (s ∷ skipped) c rest zero n d m e f q = absurd (omega arith)
    retry_finds [] c rest (suc fuel) n d m e f q =
        let found = at_command n c rest a (without_error called) d e ∙ matched n in
        retry_stops fs fuel bytes n (rw found q) ∙ ap some found
    retry_finds (s ∷ skipped) c rest (suc fuel) n d m e f q =
        let miss = missed n s m.0 (skipped ++ (c ∷ rest)) d in
        retry_again fs fuel bytes n miss.0
        ∙ ap (retry fs fuel bytes) miss.1
        ∙ retry_finds skipped c rest fuel (pass s called n) next m.1 e (omega arith) q
      where
        next : drop (n.bus.parsed_index + 1) n.bus.commands ≡ skipped ++ (c ∷ rest)
        next = rw add-one (drop_next n.bus.commands n.bus.parsed_index s _ d)
