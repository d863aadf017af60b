-- ===== src/Crio/Fpga/Retry.antt =====
-- The loop of ilcCommands that parses a response again after a WrongResponse.
use ts_c_riocpp.Common.{
  ℕ, zero, suc, ◌+◌, ◌<◌, ◌≡◌, refl, List, arith, length, some, true, false, inl, inr, Bool-cases,
}
use ts_c_riocpp.Modbus.Exceptions.{Outcome, final, throws_wrong}
use ts_c_riocpp.Modbus.Parser.{Parser, new_parser, parse as parse_buffer}
use ts_c_riocpp.Modbus.BusList.{Functions, Node, parse, parse_bytes}
use ts_c_riocpp.Modbus.BusList.Step.{IsValid, parse-IsValid}
use ts_c_riocpp.Modbus.BusList.Wrong.{Quiet, parse_wrong}
use ts_c_riocpp.Crio.Fpga.{retry}

-- The Parser of a message of four bytes or more.
abbrev pub opened : List ℕ → Parser
opened bytes = record { bytes = bytes; pos = 2 }

module _ {S : Type 0} (fs : Functions S) where
  pub retry_stops :
      (fuel : ℕ) (bytes : List ℕ) (n : Node S)
      → throws_wrong (parse_bytes fs bytes n) ≡ false
      → retry fs (suc fuel) bytes n ≡ some (parse_bytes fs bytes n)
  unfolding retry
  retry_stops fuel bytes n h = rw (h, retry) refl

  pub retry_again :
      (fuel : ℕ) (bytes : List ℕ) (n : Node S)
      → throws_wrong (parse_bytes fs bytes n) ≡ true
      → retry fs (suc fuel) bytes n ≡ retry fs fuel bytes (final (parse_bytes fs bytes n))
  unfolding retry
  retry_again fuel bytes n h = rw (h, retry) refl

  -- A wrong response comes from parse, behind a constructed Parser.
  parse_bytes_wrong :
      (bytes : List ℕ) (n : Node S)
      → throws_wrong (parse_bytes fs bytes n) ≡ true
      → parse_bytes fs bytes n ≡ parse fs (opened bytes) n
  unfolding parse_bytes new_parser parse_buffer
  parse_bytes_wrong bytes n h = ground arith

  module _ (quiet : Quiet fs) where
    used_up :
        (bytes : List ℕ) (n : Node S)
        → IsValid n.bus
        → throws_wrong (parse_bytes fs bytes n) ≡ true
        → let b = (final (parse_bytes fs bytes n)).bus in
          IsValid b × (b.commands ≡ n.bus.commands) × (b.parsed_index ≡ n.bus.parsed_index + 1)
    used_up bytes n v h =
        let e = parse_bytes_wrong bytes n h in
        let kept = parse-IsValid fs (opened bytes) n v in
        rw e (kept.0, kept.1, parse_wrong fs quiet (opened bytes) n (rw e at h))

    -- While no callback for error responses throws WrongResponse, the loop of ilcCommands ends: after at
    -- most one round for each command that is left, and one more, there is an outcome, which is no
    -- WrongResponse.
    pub retry_ends :
        (fuel : ℕ) (bytes : List ℕ) (n : Node S)
        → IsValid n.bus
        → length n.bus.commands < fuel + n.bus.parsed_index
        → (o : Outcome (Node S) (Unit {0})) × (retry fs fuel bytes n ≡ some o)
          × (throws_wrong o ≡ false)
    retry_ends zero bytes n v h = absurd (omega arith)
    retry_ends (suc fuel) bytes n v h = elim (Bool-cases (throws_wrong (parse_bytes fs bytes n))) [
      | inl wrong ↦ rw (retry_again fuel bytes n wrong) (
          retry_ends fuel bytes (final (parse_bytes fs bytes n)) (used_up bytes n v wrong).0
            (ground (arith, used_up bytes n v wrong)))
      | inr fine ↦ (parse_bytes fs bytes n, retry_stops fuel bytes n fine, fine)
    ]
