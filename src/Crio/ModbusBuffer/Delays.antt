-- ===== src/Crio/ModbusBuffer/Delays.antt =====
-- writeDelay and readDelay.
use ts_c_riocpp.Common.{
  ℕ, ◌+◌, ◌*◌, ◌/◌, ◌%◌, ◌<◌, ◌≤◌, ◌≡◌, ◌↔◌, ap, ◌∙◌, List, [], ◌∷◌, ◌++◌, if◌then◌else◌, ltb,
  arith, bit_and, bit_or, bit_and_mask, bit_and_field, bit_or_comm, bit_or_disjoint, length,
  get_elem?_front, u16, ◌==◌, bit_and_comm, ltb-false, lt→ltb,
}
use ts_c_riocpp.Modbus.Exceptions.{ok, throw}
use ts_c_riocpp.Crio.Fifo
use native.Mathlib.Decide.{dec_le}
use ts_c_riocpp.Crio.ModbusBuffer.{
  ModbusBuffer, push_buffer, write_delay, read_delay, not_a_delay, inc_index,
}

-- What comes back for a delay.
abbrev pub carried : ℕ → ℕ
carried delay = if ltb 0x0FFF delay then (delay / 1000 + 1) % 4096 * 1000 else delay

abbrev delay_word : ℕ → ℕ
delay_word delay =
    if ltb 0x0FFF delay
    then bit_or (bit_and 0x0FFF (delay / 1000 + 1)) Fifo.long_delay
    else bit_or delay Fifo.delay

short_word : (n : ℕ) → n < 4096 → bit_or n Fifo.delay ≡ 0x4000 + n
short_word n h = bit_or_comm n 0x4000 ∙ bit_or_disjoint 12 4 n (omega arith) ∙ omega arith

long_word : (n : ℕ) → n < 4096 → bit_or n Fifo.long_delay ≡ 0x5000 + n
long_word n h = bit_or_comm n 0x5000 ∙ bit_or_disjoint 12 5 n (omega arith) ∙ omega arith

top_bits : (c n : ℕ) → n < 4096 → bit_and (c * 4096 + n) 0xF000 ≡ (c % 16) * 4096
top_bits c n h =
    bit_and_field 12 (c * 4096 + n) 0xF
    ∙ ap (λ x. bit_and x 0xF * 4096) {y = c} (omega arith)
    ∙ ap (λ x. x * 4096) (bit_and_mask 4 c)

low_bits : (c n : ℕ) → n < 4096 → bit_and 0x0FFF (c * 4096 + n) ≡ n
low_bits c n h = bit_and_comm 0x0FFF (c * 4096 + n) ∙ bit_and_mask 12 (c * 4096 + n) ∙ omega arith

-- Reading a word whose command is `c`.
read_delay_word :
    (m : ModbusBuffer) (back : List ℕ) (c n : ℕ)
    → n < 4096
    → c < 16
    → m.index ≡ length m.buffer
    → let written = record m { buffer = m.buffer ++ ((c * 4096 + n) ∷ back) } in
      read_delay written ≡ (
        if c == 4
        then ok n (inc_index written)
        else (if c == 5
            then ok (n * 1000) (inc_index written)
            else throw (not_a_delay (c * 4096 + n)) written))
unfolding read_delay
read_delay_word m back c n h hc e =
    rw
      (
        get_elem?_front m.buffer (c * 4096 + n) back m.index e,
        read_delay,
        top_bits c n h,
        low_bits c n h,
      )
      (ground arith)

delay_word_lem :
    (delay : ℕ)
    → u16 (delay_word delay)
      ≡ (if ltb 0x0FFF delay then 0x5000 + (delay / 1000 + 1) % 4096 else 0x4000 + delay)
delay_word_lem delay = elim (dec_le delay 0x0FFF) [
  | yes short ↦ rw (ltb-false 0x0FFF delay short) (omega (arith, short_word delay (omega arith)))
  | no long ↦
      rw
        (
          lt→ltb 0x0FFF delay (omega arith),
          bit_and_comm 0x0FFF (delay / 1000 + 1),
          bit_and_mask 12 (delay / 1000 + 1),
        )
        (omega (arith, long_word ((delay / 1000 + 1) % 4096) (omega arith)))
]

appended : ModbusBuffer → ℕ → ModbusBuffer
appended m w = record m { buffer = m.buffer ++ (w ∷ []) }

short_delay :
    (delay : ℕ) (m : ModbusBuffer)
    → delay ≤ 0x0FFF
    → m.index ≡ length m.buffer
    → read_delay (appended m (u16 (delay_word delay)))
      ≡ ok (carried delay) (inc_index (appended m (u16 (delay_word delay))))
unfolding appended
short_delay delay m short e =
    rw (delay_word_lem delay, ltb-false 0x0FFF delay short)
      (read_delay_word m [] 4 delay (omega arith) (omega arith) e)

long_delay :
    (delay : ℕ) (m : ModbusBuffer)
    → 0x0FFF < delay
    → m.index ≡ length m.buffer
    → read_delay (appended m (u16 (delay_word delay)))
      ≡ ok (carried delay) (inc_index (appended m (u16 (delay_word delay))))
unfolding appended
long_delay delay m long e =
    rw (delay_word_lem delay, lt→ltb 0x0FFF delay long)
      (read_delay_word m [] 5 ((delay / 1000 + 1) % 4096) (omega arith) (omega arith) e)

-- A delay that writeDelay appends, is read by readDelay at its place: below 4.096 ms it is read as it
-- was, and otherwise as whole milliseconds. What is read is as long as what was asked for exactly if
-- that is below 4.095 s.
read_delay-write_delay :
    (delay : ℕ) (m : ModbusBuffer)
    → m.index ≡ length m.buffer
    → (read_delay (write_delay delay m) ≡ ok (carried delay) (inc_index (write_delay delay m)))
      × ((delay ≤ carried delay) ↔ (delay < 4095000))
unfolding write_delay push_buffer appended
read_delay-write_delay delay m e = elim (dec_le delay 0x0FFF) [
  | yes short ↦ (short_delay delay m short e, ground arith)
  | no long ↦ (long_delay delay m (omega arith) e, ground arith)
]
