-- ===== src/Modbus/Parser/Check.antt =====
-- What checkCRC accepts.
use ts_c_riocpp.Common.{
  ℕ, ◌+◌, ◌*◌, ◌/◌, ◌%◌, ◌<◌, ◌≡◌, ◌≢◌, refl, sym, ap, ap₂, ◌∙◌, List, [], ◌∷◌, ◌++◌, arith, length,
  length-append, take_front, drop_front, All, All-append, IsByte, ◌==◌, if◌then◌else◌, ==_false,
  ==_self, swap, swap-swap, lt→ltb,
}
use ts_c_riocpp.Modbus.Crc.{crc_of}
use ts_c_riocpp.Modbus.Crc.Detect.{crc_of-IsCrc, crc_detects_byte}
use ts_c_riocpp.Modbus.Exceptions.{
  out_of_range, crc_error, long_response, Outcome, ok, throw, >>=-ok, >>=-throw,
}
use ts_c_riocpp.Modbus.Buffer.{uint16}
use ts_c_riocpp.Modbus.Buffer.Frame.{crc_bytes}
use ts_c_riocpp.Modbus.Parser.{Parser, read_buffer, read, compare_crc, check_crc}
use ts_c_riocpp.Modbus.Parser.Reads.{at, read_buffer_block}

-- The answer of checkCRC behind `body`, where two bytes and `rest` are left.
abbrev at_end : List ℕ → Parser → Outcome Parser (Unit {0})
at_end [] q = ok tt q
at_end (x ∷ xs) q = throw (long_response (x ∷ xs)) q

abbrev pub verdict : List ℕ → ℕ → ℕ → List ℕ → Outcome Parser (Unit {0})
verdict body lo hi rest =
    let q = at (body ++ (lo ∷ hi ∷ [])) rest in
    if crc_of body == lo + 256 * hi
    then at_end rest q
    else throw (crc_error (crc_of body) (lo + 256 * hi)) q

compare_crc_lem :
    (c s : ℕ) (front rest : List ℕ)
    → compare_crc c s (at front rest)
      ≡ (if c == s then at_end rest (at front rest) else throw (crc_error c s) (at front rest))
unfolding compare_crc
compare_crc_lem c s front [] = ground (arith, length-append front [])
compare_crc_lem c s front (x ∷ xs) =
    ground (arith, length-append front (x ∷ xs), drop_front front (x ∷ xs) (length front) refl)

read_word :
    (front rest : List ℕ) (lo hi : ℕ)
    → read uint16 (at front (lo ∷ hi ∷ rest))
      ≡ ok (swap 2 (lo + 256 * hi)) (at (front ++ (lo ∷ hi ∷ [])) rest)
unfolding read
read_word front rest lo hi =
    >>=-ok (read_buffer 2) _ _ (read_buffer_block front (lo ∷ hi ∷ []) rest 2 refl)
    ∙ ap (λ v. ok (swap 2 v) (at (front ++ (lo ∷ hi ∷ [])) rest)) (omega arith)

-- checkCRC, behind `body`, with the bytes `lo` and `hi` and then `rest` before it: it returns exactly
-- if the CRC of `body` is `lo + 256 * hi` and nothing is left. With another CRC it throws CRCError with
-- both values, and where only data is left over it throws LongResponse with that data.
pub check_crc-verdict :
    (body rest : List ℕ) (lo hi : ℕ)
    → IsByte lo
    → IsByte hi
    → check_crc (at body (lo ∷ hi ∷ rest)) ≡ verdict body lo hi rest
unfolding check_crc
check_crc-verdict body rest lo hi hlo hhi =
    >>=-ok (read uint16) _ _ (read_word body rest lo hi)
    ∙ compare_crc_lem _ _ (body ++ (lo ∷ hi ∷ [])) rest
    ∙ ap₂
        (λ c s.
          if c == s
          then at_end rest (at (body ++ (lo ∷ hi ∷ [])) rest)
          else throw (crc_error c s) (at (body ++ (lo ∷ hi ∷ [])) rest))
        (ap crc_of (take_front body (lo ∷ hi ∷ rest) (length body) refl))
        (swap-swap 2 (lo + 256 * hi) (omega arith))

-- With fewer than two bytes left checkCRC throws std::out_of_range and moves nothing.
check_crc_short : (p : Parser) → length p.bytes < p.pos + 2 → check_crc p ≡ throw out_of_range p
unfolding check_crc
check_crc_short p h = >>=-throw (read uint16) _ p short
  where
    refused : read_buffer 2 p ≡ throw out_of_range p
    refused = unfold read_buffer in rw (lt→ltb _ _ h) refl

    short : read uint16 p ≡ throw out_of_range p
    short = unfold read in >>=-throw (read_buffer 2) _ p refused

stored_crc :
    (msg : List ℕ) → All IsByte msg → crc_of msg % 256 + 256 * (crc_of msg / 256 % 256) ≡ crc_of msg
stored_crc msg h = omega (arith, crc_of-IsCrc msg h)

-- The frame of a message and its CRC is accepted.
pub check_crc_frame :
    (body : List ℕ)
    → All IsByte body
    → check_crc (at body (crc_bytes body)) ≡ ok tt (at (body ++ crc_bytes body) [])
check_crc_frame body h =
    check_crc-verdict body [] _ _ (omega arith) (omega arith)
    ∙ rw (stored_crc body h, ==_self (crc_of body)) refl

-- A frame with another CRC is refused.
pub check_crc_refused :
    (body : List ℕ) (lo hi : ℕ)
    → IsByte lo
    → IsByte hi
    → crc_of body ≢ lo + 256 * hi
    → check_crc (at body (lo ∷ hi ∷ []))
      ≡ throw (crc_error (crc_of body) (lo + 256 * hi)) (at (body ++ (lo ∷ hi ∷ [])) [])
check_crc_refused body lo hi hlo hhi ne =
    check_crc-verdict body [] lo hi hlo hhi ∙ rw (==_false _ _ ne) refl

-- A frame in which one byte of the message was replaced by another is refused with CRCError, which
-- has the CRC of what was received and that of what was sent.
pub check_crc_corrupted :
    (front back : List ℕ) (x y : ℕ)
    → All IsByte front
    → All IsByte back
    → IsByte x
    → IsByte y
    → x ≢ y
    → let sent = front ++ (x ∷ back) in
      let got = front ++ (y ∷ back) in
      check_crc (at got (crc_bytes sent))
      ≡ throw (crc_error (crc_of got) (crc_of sent)) (at (got ++ crc_bytes sent) [])
check_crc_corrupted front back x y hf hb hx hy ne =
    check_crc-verdict (front ++ (y ∷ back)) [] _ _ (omega arith) (omega arith)
    ∙ rw
        (
          stored_crc (front ++ (x ∷ back)) (All-append IsByte front _ hf (hx, hb)),
          ==_false _ _ differs,
        )
        refl
  where
    differs : crc_of (front ++ (y ∷ back)) ≢ crc_of (front ++ (x ∷ back))
    differs = crc_detects_byte front back y x hf hb hy hx (λ e. ne (sym e))
