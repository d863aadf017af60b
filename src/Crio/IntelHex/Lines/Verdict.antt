-- ===== src/Crio/IntelHex/Lines/Verdict.antt =====
-- Which lines are accepted.
use ts_c_riocpp.Common.{
  ℕ, suc, ◌+◌, ◌-◌, ◌*◌, ◌/◌, ◌%◌, ◌≡◌, ◌≢◌, refl, ap, ◌∙◌, List, [], ◌∷◌, map, some, u16, ◌==◌,
  ==_self, ==_false, ==_iff, Bool-cases, inl, inr, if◌then◌else◌, arith, length, IsByte, All,
}
use ts_c_riocpp.Modbus.Exceptions.{Error, load_error, checksum_mismatch, ok, throw, pure, >>=-ok}
use ts_c_riocpp.Crio.IntelHex.{IntelHexLine}
use ts_c_riocpp.Crio.IntelHex.Lines.{
  scan_hex, byte_of, skip, Heading, data_loop, byte_sum, checksum_of, verify, read_data,
  process_line,
}
use ts_c_riocpp.Crio.IntelHex.Lines.Print.{
  digit_char, print_byte, print_bytes, scan_byte, scan_heading_lem,
}

-- Two characters of a line, and the byte that they are taken for.
pub record Field : Type 0 where
  pub first : ℕ
  pub second : ℕ
  pub value : ℕ

abbrev pub IsRead : Field → Type 0
IsRead f = (rest : List ℕ) → byte_of (scan_hex 2 (f.first ∷ f.second ∷ rest)) ≡ some f.value

abbrev pub field_text : List Field → List ℕ → List ℕ
field_text [] rest = rest
field_text (f ∷ fs) rest = f.first ∷ f.second ∷ field_text fs rest

abbrev pub values : List Field → List ℕ
values [] = []
values (f ∷ fs) = f.value ∷ values fs

module _ {S : Type 0} (line_no address : ℕ) where
  data_loop_lem :
      (fs : List Field) (i : ℕ) (rest : List ℕ) (s : S)
      → All IsRead fs
      → data_loop line_no address (length fs) i (field_text fs rest) s ≡ ok (values fs, rest) s
  unfolding data_loop skip
  data_loop_lem [] i rest s h = refl
  data_loop_lem (f ∷ fs) i rest s h =
      rw (h.0 (field_text fs rest), data_loop)
        (>>=-ok (data_loop line_no address (length fs) (i + 1) (field_text fs rest))
          (λ p. pure (f.value ∷ p.0, p.1)) s (data_loop_lem fs (i + 1) rest s h.1))

-- The sum of the bytes of a line, from the count to the checksum.
abbrev pub total : ℕ → ℕ → ℕ → ℕ → List ℕ → ℕ → ℕ
total n hi lo t bytes sum = n + hi + lo + t + byte_sum bytes + sum

abbrev pub line_heading : ℕ → ℕ → ℕ → ℕ → Heading
line_heading n hi lo t = record { byte_count = n; address = hi * 256 + lo; record_type = t }

checksum_of_lem :
    (n hi lo t : ℕ) (bytes : List ℕ)
    → IsByte hi
    → IsByte lo
    → checksum_of (line_heading n hi lo t) bytes
      ≡ (256 - (n + hi + lo + t + byte_sum bytes) % 256) % 256
unfolding checksum_of
checksum_of_lem n hi lo t bytes hh hl = omega arith

-- The text behind the colon.
abbrev pub body : ℕ → ℕ → ℕ → ℕ → List Field → ℕ → List ℕ → List ℕ
body n hi lo t fs sum rest =
    print_bytes (n ∷ hi ∷ lo ∷ t ∷ []) (field_text fs (print_byte sum rest))

abbrev accepted : ℕ → ℕ → List ℕ → IntelHexLine
accepted hi lo bytes = record { address = hi * 256 + lo; bytes = bytes }

abbrev pub wrong_checksum : ℕ → ℕ → ℕ → ℕ → ℕ → List ℕ → ℕ → Error
wrong_checksum line_no n hi lo t bytes sum =
    load_error line_no (hi * 256 + lo)
      (checksum_mismatch sum ((256 - (n + hi + lo + t + byte_sum bytes) % 256) % 256))

module _ {S : Type 0} (line_no n hi lo t sum : ℕ) (bytes rest : List ℕ) (s : S) (hh : IsByte hi)
    (hl : IsByte lo) (hs : IsByte sum) where
  u16_address : u16 (hi * 256 + lo) ≡ hi * 256 + lo
  u16_address = omega arith

  verify_ok :
      total n hi lo t bytes sum % 256 ≡ 0
      → verify line_no (line_heading n hi lo t) (bytes, print_byte sum rest) s
        ≡ ok (accepted hi lo bytes, t) s
  unfolding verify
  verify_ok e =
      let same : checksum_of (line_heading n hi lo t) bytes ≡ sum =
        checksum_of_lem n hi lo t bytes hh hl ∙ omega arith in
      rw (scan_byte sum rest hs, verify)
        (rw same (
          rw (==_self sum) (ap (λ a. ok (record { address = a; bytes = bytes }, t) s) u16_address)))

  verify_throws :
      total n hi lo t bytes sum % 256 ≢ 0
      → verify line_no (line_heading n hi lo t) (bytes, print_byte sum rest) s
        ≡ throw (wrong_checksum line_no n hi lo t bytes sum) s
  unfolding verify
  verify_throws ne =
      rw (scan_byte sum rest hs, verify)
        (rw (checksum_of_lem n hi lo t bytes hh hl) (
          rw (==_false ((256 - (n + hi + lo + t + byte_sum bytes) % 256) % 256) sum (omega arith)) (
            ap
              (λ a.
                throw
                  (load_error line_no a (
                    checksum_mismatch sum ((256 - (n + hi + lo + t + byte_sum bytes) % 256) % 256)))
                  s)
              u16_address)))

pub process_line-body :
    {S : Type 0} (line_no hi lo t sum : ℕ) (fs : List Field) (rest : List ℕ) (s : S)
    → IsByte (length fs)
    → IsByte hi
    → IsByte lo
    → IsByte t
    → All IsRead fs
    → process_line line_no (b':' ∷ body (length fs) hi lo t fs sum rest) s
      ≡ verify line_no (line_heading (length fs) hi lo t) (values fs, print_byte sum rest) s
unfolding process_line read_data skip print_bytes print_byte
process_line-body line_no hi lo t sum fs rest s hn hh hl ht h =
    rw
      (
        scan_heading_lem (length fs) hi lo t (field_text fs (print_byte sum rest)) hn hh hl ht,
        process_line,
      )
      (>>=-ok
        (data_loop line_no (hi * 256 + lo) (length fs) 0 (field_text fs (print_byte sum rest)))
        (verify line_no (line_heading (length fs) hi lo t)) s
        (data_loop_lem line_no (hi * 256 + lo) fs 0 (print_byte sum rest) s h))

abbrev pub byte_field : ℕ → Field
byte_field b = record { first = digit_char (b / 16); second = digit_char (b % 16); value = b }

pub byte_field-IsRead : (b : ℕ) → IsByte b → IsRead (byte_field b)
unfolding print_byte
byte_field-IsRead b h rest = rw (scan_byte b rest h) (ap some (omega arith))

pub map-IsRead : (bs : List ℕ) → All IsByte bs → All IsRead (map byte_field bs)
map-IsRead [] h = tt
map-IsRead (b ∷ bs) h = (byte_field-IsRead b h.0, map-IsRead bs h.1)

values-map : (bs : List ℕ) → values (map byte_field bs) ≡ bs
values-map [] = refl
values-map (b ∷ bs) = ap (λ l. b ∷ l) (values-map bs)

length-map : (bs : List ℕ) → length (map byte_field bs) ≡ length bs
length-map [] = refl
length-map (b ∷ bs) = ap suc (length-map bs)

field_text-map : (bs rest : List ℕ) → field_text (map byte_field bs) rest ≡ print_bytes bs rest
unfolding print_bytes print_byte
field_text-map [] rest = refl
field_text-map (b ∷ bs) rest =
    ap (λ l. digit_char (b / 16) ∷ digit_char (b % 16) ∷ l) (field_text-map bs rest)

-- A line of the file: the colon, the line_heading, the data and the checksum, and what stands behind it.
unfoldable pub line_text : ℕ → ℕ → ℕ → List ℕ → ℕ → List ℕ → List ℕ
unfolding print_bytes print_byte
line_text hi lo t bytes sum rest =
    b':' ∷ print_bytes (length bytes ∷ hi ∷ lo ∷ t ∷ []) (print_bytes bytes (print_byte sum rest))

-- A line of fewer than 256 data bytes is accepted, with its address, its data and its type, exactly if
-- the sum of all its bytes, with the checksum, is 0 modulo 256, whatever stands behind the checksum. It
-- is a LoadError with the number of the line, the address, the checksum and that which was expected
-- otherwise.
pub process_line_lem :
    {S : Type 0} (line_no hi lo t sum : ℕ) (bytes rest : List ℕ) (s : S)
    → IsByte (length bytes)
    → IsByte hi
    → IsByte lo
    → IsByte t
    → IsByte sum
    → All IsByte bytes
    → process_line line_no (line_text hi lo t bytes sum rest) s ≡ (
        if total (length bytes) hi lo t bytes sum % 256 == 0
        then ok (record { address = hi * 256 + lo; bytes = bytes }, t) s
        else throw (wrong_checksum line_no (length bytes) hi lo t bytes sum) s)
unfolding line_text
process_line_lem {S} line_no hi lo t sum bytes rest s hn hh hl ht hs hb =
    let fs = map byte_field bytes in
    let n = length bytes in
    let read : process_line line_no (line_text hi lo t bytes sum rest) s
        ≡ verify line_no (line_heading n hi lo t) (bytes, print_byte sum rest) s =
      rw (← field_text-map bytes (print_byte sum rest)) (
        rw (← length-map bytes) (
          process_line-body line_no hi lo t sum fs rest s (rw (length-map bytes) hn) hh hl ht
            (map-IsRead bytes hb)
          ∙ rw (values-map bytes) refl)) in
    read ∙ elim (Bool-cases (total n hi lo t bytes sum % 256 == 0)) [
      | inl e ↦ rw e (
          verify_ok line_no n hi lo t sum bytes rest s hh hl hs
            ((==_iff (total n hi lo t bytes sum % 256) 0).0 e))
      | inr e ↦ rw e (verify_throws line_no n hi lo t sum bytes rest s hh hl hs (λ z. ground arith))
    ]
