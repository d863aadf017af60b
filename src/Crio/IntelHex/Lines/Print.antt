-- ===== src/Crio/IntelHex/Lines/Print.antt =====
-- A line of an Intel hex file, as it is written: two capital digits for each byte; and how sscanf reads
-- its parts.
use ts_c_riocpp.Common.{
  ℕ, ◌+◌, ◌*◌, ◌/◌, ◌%◌, ◌<◌, ◌≡◌, refl, ap, ◌∙◌, List, [], ◌∷◌, none, some, false, ltb, ◌==◌,
  if◌then◌else◌, arith, IsByte,
}
use ts_c_riocpp.Crio.IntelHex.Lines.{
  is_space, digit_value, scanned, digits, behind_prefix, scan_hex, unsigned_item, scan_heading,
  more_digits,
}

unfoldable pub digit_char : ℕ → ℕ
digit_char d = if ltb d 10 then d + 48 else d + 55

unfoldable pub print_byte : ℕ → List ℕ → List ℕ
print_byte b rest = digit_char (b / 16) ∷ digit_char (b % 16) ∷ rest

-- The digits of the bytes, and then the text.
unfoldable pub print_bytes : List ℕ → List ℕ → List ℕ
print_bytes [] rest = rest
print_bytes (b ∷ bs) rest = print_byte b (print_bytes bs rest)

digit_char_value : (d : ℕ) → d < 16 → digit_value (digit_char d) ≡ some d
unfolding digit_char digit_value
digit_char_value d h = ground arith

-- A digit is no white space, no sign and no letter of a prefix.
digit_char_plain :
    (d : ℕ)
    → d < 16
    → (is_space (digit_char d) ≡ false)
      × ((digit_char d == b'-') ≡ false)
      × ((digit_char d == b'+') ≡ false)
      × ((digit_char d == b'x') ≡ false)
      × ((digit_char d == b'X') ≡ false)
unfolding digit_char
digit_char_plain d h = ground arith

digits_behind :
    (a b : ℕ) (rest : List ℕ) → b < 16 → behind_prefix (digit_char a ∷ digit_char b ∷ rest) ≡ none
unfolding behind_prefix
digits_behind a b rest h = ground (arith, digit_char_plain b)

item_two :
    (a b : ℕ) (rest : List ℕ)
    → a < 16
    → b < 16
    → unsigned_item 2 (digit_char a ∷ digit_char b ∷ rest) ≡ scanned (a * 16 + b) rest
unfolding unsigned_item digits more_digits
item_two a b rest ha hb =
    rw (digits_behind a b rest hb, unsigned_item)
      (rw (digit_char_value a ha, digits) (rw (digit_char_value b hb, more_digits) refl))

scan_two :
    (a b : ℕ) (rest : List ℕ)
    → a < 16
    → b < 16
    → scan_hex 2 (digit_char a ∷ digit_char b ∷ rest) ≡ scanned (a * 16 + b) rest
unfolding scan_hex
scan_two a b rest ha hb =
    let p = digit_char_plain a ha in rw (p.0, p.1, p.2) (item_two a b rest ha hb)

item_four :
    (a b c d : ℕ) (rest : List ℕ)
    → a < 16
    → b < 16
    → c < 16
    → d < 16
    → unsigned_item 4 (digit_char a ∷ digit_char b ∷ digit_char c ∷ digit_char d ∷ rest)
      ≡ scanned (((a * 16 + b) * 16 + c) * 16 + d) rest
unfolding unsigned_item digits more_digits
item_four a b c d rest ha hb hc hd =
    rw (digits_behind a b (digit_char c ∷ digit_char d ∷ rest) hb, unsigned_item)
      (rw (digit_char_value a ha, digits)
        (rw (digit_char_value b hb, more_digits)
          (rw (digit_char_value c hc, more_digits) (rw (digit_char_value d hd, more_digits) refl))))

scan_four :
    (a b c d : ℕ) (rest : List ℕ)
    → a < 16
    → b < 16
    → c < 16
    → d < 16
    → scan_hex 4 (digit_char a ∷ digit_char b ∷ digit_char c ∷ digit_char d ∷ rest)
      ≡ scanned (((a * 16 + b) * 16 + c) * 16 + d) rest
unfolding scan_hex
scan_four a b c d rest ha hb hc hd =
    let p = digit_char_plain a ha in rw (p.0, p.1, p.2) (item_four a b c d rest ha hb hc hd)

pub scan_byte : (b : ℕ) (rest : List ℕ) → IsByte b → scan_hex 2 (print_byte b rest) ≡ scanned b rest
unfolding print_byte
scan_byte b rest h =
    scan_two (b / 16) (b % 16) rest (omega arith) (omega arith)
    ∙ ap (λ v. scanned v rest) (omega arith)

pub scan_word :
    (hi lo : ℕ) (rest : List ℕ)
    → IsByte hi
    → IsByte lo
    → scan_hex 4 (print_byte hi (print_byte lo rest)) ≡ scanned (hi * 256 + lo) rest
unfolding print_byte
scan_word hi lo rest h k =
    scan_four (hi / 16) (hi % 16) (lo / 16) (lo % 16) rest (omega arith) (omega arith) (omega arith)
      (omega arith)
    ∙ ap (λ v. scanned v rest) (omega arith)

scan_heading_of :
    (cs r s t : List ℕ) (n a k : ℕ)
    → scan_hex 2 cs ≡ scanned n r
    → scan_hex 4 r ≡ scanned a s
    → scan_hex 2 s ≡ scanned k t
    → scan_heading cs ≡ some (record { byte_count = n; address = a; record_type = k })
unfolding scan_heading
scan_heading_of cs r s t n a k e f g =
    rw (e, scan_heading) (rw (f, scan_heading) (rw (g, scan_heading) refl))

pub scan_heading_lem :
    (n hi lo t : ℕ) (rest : List ℕ)
    → IsByte n
    → IsByte hi
    → IsByte lo
    → IsByte t
    → scan_heading (print_bytes (n ∷ hi ∷ lo ∷ t ∷ []) rest)
      ≡ some (record { byte_count = n; address = hi * 256 + lo; record_type = t })
unfolding scan_heading print_bytes
scan_heading_lem n hi lo t rest hn hh hl ht =
    scan_heading_of (print_byte n (print_byte hi (print_byte lo (print_byte t rest))))
      (print_byte hi (print_byte lo (print_byte t rest))) (print_byte t rest) rest n (hi * 256 + lo)
      t (scan_byte n (print_byte hi (print_byte lo (print_byte t rest))) hn)
      (scan_word hi lo (print_byte t rest) hh hl) (scan_byte t rest ht)
