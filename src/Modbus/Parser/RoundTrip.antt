-- ===== src/Modbus/Parser/RoundTrip.antt =====
-- What callFunction of Buffer writes, Parser reads back.
use ts_c_riocpp.Common.{
  ℕ, ◌≤◌, ◌≡◌, refl, ap, ◌∙◌, List, [], ◌∷◌, ◌++◌, append-nil, append_assoc, arith, length,
  length-append, u8,
}
use ts_c_riocpp.Modbus.Exceptions.{ok, M, ◌>>=◌, ◌>>◌, pure, >>=-ok, >>-ok}
use ts_c_riocpp.Modbus.Buffer.{Scalar, Arg, scalar, call_function}
use ts_c_riocpp.Modbus.Buffer.Frame.{
  encoded, encoded_args, body_of, crc_bytes, call_function_frame, body_of-IsByte,
}
use ts_c_riocpp.Modbus.Parser.{Parser, new_parser, parse, read, check_crc}
use ts_c_riocpp.Modbus.Parser.Reads.{at, InRange, read-encoded}
use ts_c_riocpp.Modbus.Parser.Check.{check_crc_frame}

-- A handler that reads values of these types, one after the other.
pub read_all : List Scalar → M Parser (List ℕ)
read_all [] = pure []
read_all (t ∷ ts) = do v ← read t; vs ← read_all ts; pure (v ∷ vs)

abbrev pub Values : Type 0
Values = List (Scalar × ℕ)

abbrev pub types : Values → List Scalar
types [] = []
types ((t, d) ∷ vs) = t ∷ types vs

abbrev pub numbers : Values → List ℕ
numbers [] = []
numbers ((t, d) ∷ vs) = d ∷ numbers vs

abbrev pub args_of : Values → List Arg
args_of [] = []
args_of ((t, d) ∷ vs) = scalar t d ∷ args_of vs

abbrev pub FitsAll : Values → Type 0
FitsAll [] = Unit
FitsAll ((t, d) ∷ vs) = InRange t d × FitsAll vs

pub read_all-encoded :
    (front back : List ℕ) (vs : Values)
    → FitsAll vs
    → read_all (types vs) (at front (encoded_args (args_of vs) ++ back))
      ≡ ok (numbers vs) (at (front ++ encoded_args (args_of vs)) back)
unfolding read_all
read_all-encoded front back [] h = rw append-nil refl
read_all-encoded front back ((t, d) ∷ vs) (hd, hs) =
    >>=-ok (read t) _ _ (
      ap (λ r. read t (at front r)) (append_assoc (encoded t d) more back)
      ∙ read-encoded front (more ++ back) t d hd)
    ∙ >>=-ok (read_all (types vs)) _ _ (read_all-encoded (front ++ encoded t d) back vs hs)
    ∙ ap (λ f. ok (d ∷ numbers vs) (at f back)) (append_assoc front (encoded t d) more)
  where
    more : List ℕ
    more = encoded_args (args_of vs)

pub new_parser_lem :
    (a f : ℕ) (rest : List ℕ)
    → 2 ≤ length rest
    → new_parser (a ∷ f ∷ rest) ≡ ok tt (at (a ∷ f ∷ []) rest)
unfolding new_parser parse
new_parser_lem a f rest h = ground arith

-- The frame of a call is parsed, its arguments are read back by their types, in order, and checkCRC
-- then accepts the frame, with nothing left.
pub parse-call_function :
    (address func : ℕ) (vs : Values)
    → FitsAll vs
    → let frame = call_function [] address func (args_of vs) in
      (new_parser frame ≡ ok tt (record { bytes = frame; pos = 2 }))
      × ((do values ← read_all (types vs); check_crc; pure values)
            (record { bytes = frame; pos = 2 })
          ≡ ok (numbers vs) (record { bytes = frame; pos = length frame }))
parse-call_function address func vs h = rw (call_function_frame address func (args_of vs)) (
  new_parser_lem (u8 address) (u8 func) (args ++ crc_bytes body) long_enough,
  >>=-ok (read_all (types vs)) _ _ (read_all-encoded front (crc_bytes body) vs h)
      ∙ >>-ok check_crc _ _ (check_crc_frame body (body_of-IsByte address func (args_of vs)))
      ∙ ap (λ b. ok (numbers vs) (record { bytes = b; pos = length (body ++ crc_bytes body) }))
          (append-nil (body ++ crc_bytes body)),
)
  where
    args : List ℕ
    args = encoded_args (args_of vs)

    front : List ℕ
    front = u8 address ∷ u8 func ∷ []

    body : List ℕ
    body = body_of address func (args_of vs)

    long_enough : 2 ≤ length (args ++ crc_bytes body)
    long_enough = omega (arith, length-append args (crc_bytes body))
