-- ===== src/Modbus/Handler/Steps.antt =====
-- The steps of a handler on a message: what its reads leave, and its check of the CRC.
use ts_c_riocpp.Common.{
  ℕ, ◌+◌, ◌*◌, ◌≡◌, refl, ap, ◌∙◌, List, [], ◌∷◌, ◌++◌, arith, IsByte, ◌==◌, if◌then◌else◌,
  Bool-cases, inl, inr,
}
use ts_c_riocpp.Modbus.Exceptions.{crc_error, ok, throw, M, ◌>>=◌, ◌>>◌, >>=-ok, >>-ok, >>-throw}
use ts_c_riocpp.Modbus.Crc.{crc_of}
use ts_c_riocpp.Modbus.Buffer.{Scalar, uint8}
use ts_c_riocpp.Modbus.Buffer.Frame.{encoded}
use ts_c_riocpp.Modbus.Parser.{Parser, read, check_crc, address}
use ts_c_riocpp.Modbus.Parser.Reads.{at, InRange, read-encoded, read_byte}
use ts_c_riocpp.Modbus.Parser.Check.{check_crc-verdict}
use ts_c_riocpp.Modbus.Handler.{
  Handler, reading, parser_address, call, without_parser, reading-ok, reading-throw,
}

module _ {S : Type 0} where
  -- A handler that has read `front`, with `rest` before it.
  abbrev pub handling : List ℕ → List ℕ → S → Handler S
  handling front rest s = record { parser = at front rest; self = s }

  pub byte_step :
      (front back : List ℕ) (b : ℕ) (s : S)
      → reading (read uint8) (handling front (b ∷ back) s)
        ≡ ok b (handling (front ++ (b ∷ [])) back s)
  byte_step front back b s = reading-ok (read uint8) _ _ s b (read_byte front back b)

  pub scalar_step :
      (front back : List ℕ) (t : Scalar) (d : ℕ) (s : S)
      → InRange t d
      → reading (read t) (handling front (encoded t d ++ back) s)
        ≡ ok d (handling (front ++ encoded t d) back s)
  scalar_step front back t d s h = reading-ok (read t) _ _ s d (read-encoded front back t d h)

  -- The end of a handler: the CRC is checked, then a method has the address of the response.
  abbrev pub checked_call : (ℕ → M S (Unit {0})) → M (Handler S) (Unit {0})
  checked_call k = do reading check_crc; a ← parser_address; call (k a)

  -- What it does with a message `body` whose CRC bytes are `lo` and `hi`.
  abbrev pub accepted : (ℕ → M S (Unit {0})) → ℕ → List ℕ → ℕ → ℕ → M S (Unit {0})
  accepted k a body lo hi s =
      if crc_of body == lo + 256 * hi
      then k a s
      else throw (crc_error (crc_of body) (lo + 256 * hi)) s

  pub call_back :
      (m : M S (Unit {0})) (p : Parser) (s : S)
      → without_parser (call m (record { parser = p; self = s })) ≡ m s
  unfolding call
  call_back m p s = ground arith

  pub address_step :
      (a : ℕ) (front rest : List ℕ) (s : S)
      → parser_address (handling (a ∷ front) rest s) ≡ ok a (handling (a ∷ front) rest s)
  unfolding parser_address address
  address_step a front rest s = refl

  pub checked_call_lem :
      (k : ℕ → M S (Unit {0})) (a : ℕ) (front : List ℕ) (lo hi : ℕ) (s : S)
      → IsByte lo
      → IsByte hi
      → without_parser (checked_call k (handling (a ∷ front) (lo ∷ hi ∷ []) s))
        ≡ accepted k a (a ∷ front) lo hi s
  checked_call_lem k a front lo hi s hlo hhi =
      elim (Bool-cases (crc_of (a ∷ front) == lo + 256 * hi)) [
        | inl same ↦
            let fine : check_crc (at (a ∷ front) (lo ∷ hi ∷ []))
                ≡ ok tt (at (a ∷ front ++ (lo ∷ hi ∷ [])) []) =
              check_crc-verdict (a ∷ front) [] lo hi hlo hhi ∙ rw same refl in
            ap without_parser (
              >>-ok (reading check_crc) _ _ (reading-ok check_crc _ _ s tt fine)
              ∙ >>=-ok parser_address _ _ (address_step a (front ++ (lo ∷ hi ∷ [])) [] s))
            ∙ call_back (k a) _ s
            ∙ rw same refl
        | inr other ↦
            let bad : check_crc (at (a ∷ front) (lo ∷ hi ∷ []))
                ≡ throw (crc_error (crc_of (a ∷ front)) (lo + 256 * hi))
                    (at (a ∷ front ++ (lo ∷ hi ∷ [])) []) =
              check_crc-verdict (a ∷ front) [] lo hi hlo hhi ∙ rw other refl in
            ap without_parser
              (>>-throw (reading check_crc) _ _ (reading-throw check_crc _ _ s _ bad))
            ∙ rw other refl
      ]
