-- ===== src/Modbus/BusList/Step.antt =====
-- What parse does to the bus list.
use ts_c_riocpp.Common.{
  ℕ, ◌+◌, ◌≤◌, ◌<◌, ◌≡◌, ◌⊎◌, refl, arith, length, get_elem?, none, some, inl, inr, Option-cases,
  lt_of_get_elem?,
}
use ts_c_riocpp.Modbus.Exceptions.{out_of_range, throw, M, final}
use ts_c_riocpp.Modbus.Parser.{Parser}
use ts_c_riocpp.Modbus.BusList.{
  BusList, Functions, Node, expected, heading, on_self, parse_mismatch, parse_error, parse_action,
  dispatch, parse,
}

-- The index is that of a command, or one behind the last.
abbrev pub IsValid : BusList → Type 0
IsValid b = b.parsed_index ≤ length b.commands

-- The bus after a response: it was not used, or the index went on by one.
record Moved (b c : BusList) : Type 0 where
  same_commands : c.commands ≡ b.commands
  index : (c.parsed_index ≡ b.parsed_index) ⊎ (c.parsed_index ≡ b.parsed_index + 1)

pub expected_in :
    (b : BusList) {x : ℕ × ℕ} → expected b ≡ some x → b.parsed_index < length b.commands
unfolding expected
expected_in b {x} e = elim (Option-cases (get_elem? b.commands b.parsed_index)) [
  | inl h ↦ ground (arith, h)
  | inr (c, h) ↦ lt_of_get_elem? b.commands b.parsed_index c h
]

module _ {S : Type 0} (fs : Functions S) where
  bus-on_self : (m : M S (Unit {0})) (n : Node S) → (final (on_self m n)).bus ≡ n.bus
  unfolding on_self
  bus-on_self m n = ground arith

  parse_mismatch-Moved :
      (a c ea ef : ℕ) (n : Node S) → Moved n.bus (final (parse_mismatch a c ea ef n)).bus
  unfolding parse_mismatch
  parse_mismatch-Moved a c ea ef n = ground arith

  parse_error-Moved : (a c : ℕ) (n : Node S) → Moved n.bus (final (parse_error fs a c n)).bus
  unfolding parse_error
  parse_error-Moved a c n = ground arith

  parse_action-Moved :
      (p : Parser) (c : ℕ) (n : Node S) → Moved n.bus (final (parse_action fs p c n)).bus
  unfolding parse_action
  parse_action-Moved p c n = ground arith

  dispatch-Moved :
      (p : Parser) (ea ef a c : ℕ) (n : Node S)
      → Moved n.bus (final (dispatch fs p ea ef a c n)).bus
  unfolding dispatch
  dispatch-Moved p ea ef a c n =
      ground
        (arith, parse_mismatch-Moved a c ea ef n, parse_error-Moved a c n, parse_action-Moved p c n)

  parse-Moved : (p : Parser) (n : Node S) → Moved n.bus (final (parse fs p n)).bus
  unfolding parse
  parse-Moved p n = elim (Option-cases (expected n.bus)) [
    | inl e ↦ ground (arith, e)
    | inr ((ea, ef), e) ↦ elim (Option-cases (heading p)) [
      | inl h ↦ ground (arith, e, h)
      | inr ((a, c), h) ↦ ground (arith, e, h, dispatch-Moved p ea ef a c n)
    ]
  ]

  -- Without a command at the index, parse throws std::out_of_range and changes nothing.
  pub parse_past_end :
      (p : Parser) (n : Node S) → expected n.bus ≡ none → parse fs p n ≡ throw out_of_range n
  unfolding parse
  parse_past_end p n e = ground (arith, e)

  -- parse keeps the commands, and whatever it throws it moves the index by one at most and not past the
  -- end of the commands.
  pub parse-IsValid :
      (p : Parser) (n : Node S)
      → IsValid n.bus
      → let b = (final (parse fs p n)).bus in
        IsValid b
        × (b.commands ≡ n.bus.commands)
        × (n.bus.parsed_index ≤ b.parsed_index)
        × (b.parsed_index ≤ n.bus.parsed_index + 1)
  parse-IsValid p n v = elim (Option-cases (expected n.bus)) [
    | inl e ↦ rw (parse_past_end p n e) (v, refl, omega arith, omega arith)
    | inr (x, e) ↦ ground (arith, parse-Moved p n, expected_in n.bus e)
  ]
