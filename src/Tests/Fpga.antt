-- ===== src/Tests/Fpga.antt =====
-- The request of ilcCommands for a bus with one command.
use ts_c_riocpp.Common.{◌≤◌, ◌<◌, ◌≡◌, ◌↔◌, refl, List, [], ◌∷◌, arith, some}
use ts_c_riocpp.Modbus.BusList.{CommandRecord}
use ts_c_riocpp.Crio.Fpga.{command_words, wait_word}
use ts_c_riocpp.Crio.Fpga.Request.{
  wait_time, wait_word_covers, read_commands, calls, read_commands-command_words,
}

abbrev one_command : List CommandRecord
one_command = record { buffer = 18 ∷ 17 ∷ 77 ∷ 28 ∷ []; timing = 835 } ∷ []

-- The wait of 5 s is encoded as one of 905 ms.
wait_word_wraps : wait_time (wait_word 5000000) ≡ 905000
unfolding wait_word
wait_word_wraps = refl

wait_word_covers_example : (5000000 ≤ wait_time (wait_word 5000000)) ↔ (5000000 < 4095000)
wait_word_covers_example = wait_word_covers 5000000

read_commands-command_words_example :
    read_commands [] (command_words one_command) ≡ some (calls one_command)
read_commands-command_words_example = read_commands-command_words one_command (omega arith)
