-- ===== src/Crio/Fpga/Request.antt =====
-- The words of the command FIFO tell the FPGA what the commands of the bus list are.
use ts_c_riocpp.Common.{
  ℕ, suc, ◌+◌, ◌-◌, ◌*◌, ◌/◌, ◌%◌, ◌^◌, ◌≤◌, ◌<◌, ◌≡◌, ◌≢◌, ◌↔◌, refl, ap, ap₂, ◌∙◌, List, [], ◌∷◌,
  ◌++◌, append-nil, append_assoc, arith, length, length-append, All, IsByte, Option, none, some,
  bit_and, bit_and_mask, bit_or_disjoint, bit_or_comm, bit_and_comm, u16, ◌==◌, if◌then◌else◌,
  ==_false,
}
use mathlib.Core.Option
use native.Mathlib.Decide.{dec_le}
use ts_c_riocpp.Modbus.BusList.{CommandRecord, BusList}
use ts_c_riocpp.Crio.Fifo
use ts_c_riocpp.Crio.Fpga.{
  FpgaType, modbus_software_trigger, data_word, wait_word, data_words, command_words, ilc_request,
}

-- The time in microseconds that a wait word asks for: units of a millisecond behind 0x9, of a
-- microsecond behind 0x6.
abbrev pub wait_time : ℕ → ℕ
wait_time w = if w / 4096 == 9 then w % 4096 * 1000 else w % 4096

-- A reading of the commands in a stream of words: the bytes up to an end of frame, and the wait
-- behind it. `none` is a stream that breaks off.
abbrev pub read_commands : List ℕ → List ℕ → Option (List (List ℕ × ℕ))
read_commands [] [] = some []
read_commands (b ∷ bs) [] = none
read_commands acc (w ∷ []) = none
read_commands acc (w ∷ t ∷ ws) =
    if w == Fifo.tx_frameend
    then Option.map (λ cs. (acc, wait_time t) ∷ cs) (read_commands [] ws)
    else read_commands (acc ++ (w / 2 % 256 ∷ [])) (t ∷ ws)

data_word_lem : (b : ℕ) → IsByte b → data_word b ≡ 0x1200 + b * 2
unfolding data_word
data_word_lem b h = omega (arith, bit_or_disjoint 9 9 (b * 2) (omega arith))

wait_word_short : (t : ℕ) → t ≤ 0x0FFF → wait_word t ≡ 0x6000 + t
unfolding wait_word
wait_word_short t h = ground (arith, bit_or_comm t 0x6000, bit_or_disjoint 12 6 t (omega arith))

wait_word_long : (t : ℕ) → 0x0FFF < t → wait_word t ≡ 0x9000 + (t / 1000 + 1) % 4096
unfolding wait_word
wait_word_long t h = ground (
  arith,
  masked,
  bit_or_comm ((t / 1000 + 1) % 4096) 0x9000,
  bit_or_disjoint 12 9 ((t / 1000 + 1) % 4096) (omega arith),
)
  where
    masked : bit_and 0x0FFF (t / 1000 + 1) ≡ (t / 1000 + 1) % 4096
    masked = bit_and_comm 0x0FFF (t / 1000 + 1) ∙ bit_and_mask 12 (t / 1000 + 1)

-- The wait that ilcCommands asks for is as long as the timing of the command exactly if the timing
-- is below 4.095 s.
pub wait_word_covers : (t : ℕ) → (t ≤ wait_time (wait_word t)) ↔ (t < 4095000)
wait_word_covers t = elim (dec_le t 0x0FFF) [
  | yes short ↦ ground (arith, wait_word_short t short)
  | no long ↦ ground (arith, wait_word_long t (omega arith))
]

abbrev pub calls : List CommandRecord → List (List ℕ × ℕ)
calls [] = []
calls (c ∷ cs) = (c.buffer, wait_time (wait_word c.timing)) ∷ calls cs

read_byte :
    (acc : List ℕ) (b t : ℕ) (ws : List ℕ)
    → IsByte b
    → read_commands acc (data_word b ∷ t ∷ ws) ≡ read_commands (acc ++ (b ∷ [])) (t ∷ ws)
read_byte acc b t ws h = rw (data_word_lem b h, ==_false _ _ other, same) refl
  where
    other : 0x1200 + b * 2 ≢ Fifo.tx_frameend
    other = omega arith

    same : (0x1200 + b * 2) / 2 % 256 ≡ b
    same = omega arith

read_frame :
    (acc bs : List ℕ) (t : ℕ) (ws : List ℕ)
    → All IsByte bs
    → read_commands acc (data_words bs ++ (Fifo.tx_frameend ∷ t ∷ ws))
      ≡ Option.map (λ cs. (acc ++ bs, wait_time t) ∷ cs) (read_commands [] ws)
unfolding data_words
read_frame acc [] t ws h = rw append-nil refl
read_frame acc (b ∷ []) t ws h = read_byte acc b Fifo.tx_frameend (t ∷ ws) h.0
read_frame acc (b ∷ c ∷ bs) t ws h =
    read_byte acc b (data_word c) (data_words bs ++ (Fifo.tx_frameend ∷ t ∷ ws)) h.0
    ∙ read_frame (acc ++ (b ∷ [])) (c ∷ bs) t ws h.1
    ∙ ap (λ a. Option.map (λ cs. (a, wait_time t) ∷ cs) (read_commands [] ws))
        (append_assoc acc (b ∷ []) (c ∷ bs))

-- From the words that ilcCommands writes for the commands, a reader gets back every command in order,
-- byte for byte, with the wait of its wait word.
pub read_commands-command_words :
    (cs : List CommandRecord)
    → All (λ (c : CommandRecord). All IsByte c.buffer) cs
    → read_commands [] (command_words cs) ≡ some (calls cs)
unfolding command_words
read_commands-command_words [] h = refl
read_commands-command_words (c ∷ cs) h =
    read_frame [] c.buffer (wait_word c.timing) (command_words cs) h.0
    ∙ ap (Option.map (λ r. (c.buffer, wait_time (wait_word c.timing)) ∷ r))
        (read_commands-command_words cs h.1)

-- The request of ilcCommands is the command word, the length, the two words that start the
-- transmission, the words of the commands and the interrupt request, and the software trigger. The
-- length counts the words behind it up to the interrupt request, if they are below 2 ^ 16.
pub ilc_request_layout :
    (tx : ℕ) (type : FpgaType) (ilc : BusList)
    → length (command_words ilc.commands) + 3 < 2 ^ 16
    → let inner = command_words ilc.commands in
      ilc_request tx type ilc
      ≡ (tx ∷ (length inner + 3) ∷ Fifo.tx_wait_trigger ∷ Fifo.tx_timestamp ∷ inner)
        ++ (Fifo.tx_irqtrigger ∷ modbus_software_trigger type ∷ [])
unfolding ilc_request
ilc_request_layout tx type ilc h =
    ap₂ (λ n ws. tx ∷ n ∷ Fifo.tx_wait_trigger ∷ Fifo.tx_timestamp ∷ ws) count
      (append_assoc inner (Fifo.tx_irqtrigger ∷ []) (modbus_software_trigger type ∷ []))
  where
    inner : List ℕ
    inner = command_words ilc.commands

    count :
        u16 (suc (suc (suc (suc (length (inner ++ (Fifo.tx_irqtrigger ∷ [])))))) - 2)
        ≡ length inner + 3
    count = omega (arith, length-append inner (Fifo.tx_irqtrigger ∷ []))
