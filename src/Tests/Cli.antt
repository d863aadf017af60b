-- ===== src/Tests/Cli.antt =====
-- Runs of CliApp.
use ts_c_riocpp.Common.{ℕ, ◌+◌, ◌≡◌, refl, false, [], ◌∷◌, none, some, arith}
use ts_c_riocpp.Modbus.Exceptions.{ok}
use ts_c_riocpp.Crio.CliApp.{String, Command, tokenize, process_buffer, Host}
use ts_c_riocpp.Crio.CliApp.Tokens.{tokenize_lem}

-- "a  bc ", with two words and an empty one.
abbrev line : String
line = 97 ∷ 32 ∷ 32 ∷ 98 ∷ 99 ∷ 32 ∷ []

tokenize_example : tokenize 7 line (32 ∷ []) ≡ some ((97 ∷ []) ∷ [] ∷ (98 ∷ 99 ∷ []) ∷ [])
tokenize_example = tokenize_lem 7 32 line (omega arith)

abbrev stop : Command ℕ
stop = record {
  command = 115 ∷ 116 ∷ 111 ∷ 112 ∷ [];
  action = λ args s. ok 1 (s + 1);
  args = [];
  flags = 0;
}

abbrev start : Command ℕ
start = record {
  command = 115 ∷ 116 ∷ 97 ∷ [];
  action = λ args s. ok 2 s;
  args = 105 ∷ [];
  flags = 0;
}

abbrev host : Host
host = record { stod = λ s. none; stoi = λ s. none; stoi_hex = λ s. none; stat = λ s. false }

-- "STO" runs the command stop.
a_command : process_buffer host (start ∷ stop ∷ []) (λ ws s. ok 9 s) (83 ∷ 84 ∷ 79 ∷ []) 5 ≡ ok 1 6
unfolding process_buffer
a_command = refl

-- "st" is ambiguous.
two_commands :
    process_buffer host (start ∷ stop ∷ []) (λ ws s. ok 9 s) (115 ∷ 116 ∷ []) 5 ≡ ok 0xFFFFFFFF 5
unfolding process_buffer
two_commands = refl
