-- ===== src/Crio/IntelHex/Lines/Lenient.antt =====
-- What a data byte that is no number is taken for.
use ts_c_riocpp.Common.{ℕ, ◌≡◌, none, false, ◌==◌}
use ts_c_riocpp.Crio.IntelHex.Lines.{is_space, digit_value}
use ts_c_riocpp.Crio.IntelHex.Lines.Verdict.{Field}

-- A character with which no number begins.
pub record IsNoNumber (c : ℕ) : Type 0 where
  pub no_digit : digit_value c ≡ none
  pub no_space : is_space c ≡ false
  pub no_minus : (c == b'-') ≡ false
  pub no_plus : (c == b'+') ≡ false
  pub no_zero : (c == b'0') ≡ false

abbrev pub junk_field : ℕ → ℕ → Field
junk_field c d = record { first = c; second = d; value = 0 }
