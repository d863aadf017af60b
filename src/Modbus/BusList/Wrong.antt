-- ===== src/Modbus/BusList/Wrong.antt =====
-- When parse throws WrongResponse.
use ts_c_riocpp.Common.{ℕ, ◌+◌, ◌≡◌, arith, some, true, false, inl, inr, Option-cases}
use ts_c_riocpp.Modbus.Exceptions.{M, final, throws_wrong}
use ts_c_riocpp.Modbus.Parser.{Parser}
use ts_c_riocpp.Modbus.BusList.{
  Functions, ResponseRecord, Node, expected, heading, without_error, find_response, parse_mismatch,
  parse_error, parse_action, dispatch, parse,
}

-- No callback for error responses throws WrongResponse.
abbrev pub Quiet : {S : Type 0} → Functions S → Type 0
Quiet {S} fs =
    (k : ℕ) (r : ResponseRecord S) (act : ℕ → ℕ → M S (Unit {0})) (a c : ℕ) (s : S)
    → find_response fs k ≡ some r
    → r.error_action ≡ some act
    → throws_wrong (act a c s) ≡ false

module _ {S : Type 0} (fs : Functions S) (quiet : Quiet fs) where
  parse_error_wrong :
      (a c : ℕ) (n : Node S)
      → throws_wrong (parse_error fs a c n) ≡ true
      → (final (parse_error fs a c n)).bus.parsed_index ≡ n.bus.parsed_index + 1
  unfolding parse_error
  parse_error_wrong a c n h = elim (Option-cases (find_response fs (without_error c))) [
    | inl e ↦ ground (arith, e)
    | inr (r, e) ↦ elim (Option-cases r.error_action) [
      | inl e' ↦ ground (arith, e, e')
      | inr (act, e') ↦ ground (arith, e, e', quiet (without_error c) r act a c n.self e e')
    ]
  ]

  parse_action_wrong :
      (p : Parser) (c : ℕ) (n : Node S)
      → (final (parse_action fs p c n)).bus.parsed_index ≡ n.bus.parsed_index + 1
  unfolding parse_action
  parse_action_wrong p c n = ground arith

  dispatch_wrong :
      (p : Parser) (ea ef a c : ℕ) (n : Node S)
      → throws_wrong (dispatch fs p ea ef a c n) ≡ true
      → (final (dispatch fs p ea ef a c n)).bus.parsed_index ≡ n.bus.parsed_index + 1
  unfolding dispatch parse_mismatch
  dispatch_wrong p ea ef a c n h = ground (arith, parse_error_wrong a c n, parse_action_wrong p c n)

  -- If no callback for error responses throws WrongResponse, a parse that throws it has moved the
  -- index by one.
  pub parse_wrong :
      (p : Parser) (n : Node S)
      → throws_wrong (parse fs p n) ≡ true
      → (final (parse fs p n)).bus.parsed_index ≡ n.bus.parsed_index + 1
  unfolding parse
  parse_wrong p n h = elim (Option-cases (expected n.bus)) [
    | inl e ↦ ground (arith, e)
    | inr ((ea, ef), e) ↦ elim (Option-cases (heading p)) [
      | inl k ↦ ground (arith, e, k)
      | inr ((a, c), k) ↦ ground (arith, e, k, dispatch_wrong p ea ef a c n)
    ]
  ]
