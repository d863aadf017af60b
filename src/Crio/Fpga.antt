-- ===== src/Crio/Fpga.antt =====
-- class FPGA of include/cRIO/FPGA.h and src/LSST/cRIO/FPGA.cpp: ilcCommands, that is the words that are
-- written to the command FIFO, and what is done with the words of the response FIFO. The transfers
-- (writeCommandFIFO, waitOnIrqs, readU16ResponseFIFO) and getTxCommand are virtual functions that the
-- subclasses of the programs define: the response and the command word are arguments here.
pub mod Request
pub mod Retry
pub mod Skip
pub mod Response
use ts_c_riocpp.Common.{
  ℕ, zero, suc, ◌+◌, ◌-◌, ◌*◌, ◌/◌, ◌%◌, ◌^◌, List, [], ◌∷◌, ◌++◌, Option, none, some, Bool, true,
  false, bit_and, bit_or, shl, shr, u8, u16, u64, ltb, ◌==◌, not, if◌then◌else◌, length, set, take,
  drop,
}
use ts_c_riocpp.Modbus.Exceptions.{
  Error, out_of_range, wrong_response, missing_response, runtime_error, Outcome, ok, throw, M,
  final, throws_wrong,
}
use ts_c_riocpp.Modbus.Buffer
use ts_c_riocpp.Modbus.BusList
use ts_c_riocpp.Modbus.BusList.{CommandRecord, BusList, Functions, Node, parse_bytes}
use ts_c_riocpp.Crio.Fifo

pub data FpgaType : Type 0 where
  ss m2 ts vms : FpgaType

-- _modbusSoftwareTrigger, as the constructor sets it.
unfoldable pub modbus_software_trigger : FpgaType → ℕ
modbus_software_trigger ss = 252
modbus_software_trigger ts = 252
modbus_software_trigger m2 = 0
modbus_software_trigger vms = 0

-- The word for a byte of a command.
unfoldable pub data_word : ℕ → ℕ
data_word b = u16 (bit_or Fifo.tx_mask (shl b 1))

-- The word that tells how long to wait for a response, from microseconds.
unfoldable pub wait_word : ℕ → ℕ
wait_word timing =
    if ltb 0x0FFF timing
    then u16 (bit_or (bit_and 0x0FFF (timing / 1000 + 1)) Fifo.tx_wait_long_rx)
    else u16 (bit_or timing Fifo.tx_wait_rx)

unfoldable pub data_words : List ℕ → List ℕ
unfolding data_word
data_words [] = []
data_words (b ∷ bs) = data_word b ∷ data_words bs

unfoldable pub command_words : List CommandRecord → List ℕ
unfolding data_words wait_word
command_words [] = []
command_words (c ∷ cs) =
    data_words c.buffer ++ (Fifo.tx_frameend ∷ wait_word c.timing ∷ command_words cs)

-- What ilcCommands writes to the command FIFO: `tx_command` is the value of getTxCommand.
unfoldable pub ilc_request : ℕ → FpgaType → BusList → List ℕ
unfolding command_words modbus_software_trigger
ilc_request tx_command type ilc =
    let words =
      (tx_command ∷ 0 ∷ Fifo.tx_wait_trigger ∷ Fifo.tx_timestamp ∷ command_words ilc.commands)
      ++ (Fifo.tx_irqtrigger ∷ []) in
    set words 1 (u16 (length words - 2)) ++ (modbus_software_trigger type ∷ [])

-- The bus with its node, and the times that reportTime was called with.
pub record Run (S : Type 0) : Type 0 where
  pub node : Node S
  pub times : List (ℕ × ℕ)

-- The variables of the loop over the words of the response.
pub record Decoding (S : Type 0) : Type 0 where
  pub run : Run S
  pub decoded : List ℕ
  pub begin_ts : ℕ
  pub end_ts : ℕ
  pub end_ts_shift : ℕ

abbrev pub bad_reply : ℕ
bad_reply = 1

abbrev pub end_timestamp_twice : ℕ
end_timestamp_twice = 2

module _ {S : Type 0} (fs : Functions S) where
  -- `while (true) { try { ilc.parse(decoded); break; } catch (WrongResponse) {} }`, on fuel. `none` is a
  -- loop that is not over yet.
  unfoldable pub retry : ℕ → List ℕ → Node S → Option (Outcome (Node S) (Unit {0}))
  retry zero decoded n = none
  retry (suc fuel) decoded n =
      let o = parse_bytes fs decoded n in
      elim (throws_wrong o) [ true ↦ retry fuel decoded (final o) | false ↦ some o ]

  -- The end of a frame: what was decoded is parsed. A loop of `retry` that this fuel does not end is
  -- `undefined`: it is one that an error callback which throws WrongResponse keeps going (see Retry).
  unfoldable pub end_frame : M (Decoding S) (Unit {0})
  end_frame d = elim d.decoded [
    | [] ↦ ok tt d
    | b ∷ bs ↦
        let n = d.run.node in
        elim (retry (length n.bus.commands + 1) d.decoded n) [
          | none ↦ throw Error.undefined d
          | some (throw e n') ↦ throw e (record d { run = record (d.run) { node = n' } })
          | some (ok u n') ↦ ok tt (record {
            run = record { node = n'; times = d.run.times ++ ((d.begin_ts, d.end_ts) ∷ []) };
            decoded = [];
            begin_ts = d.end_ts;
            end_ts = 0;
            end_ts_shift = 0;
          })
        ]
  ]

  -- One word of the response. A word of the end timestamp goes on as an end of frame does.
  unfoldable pub word_step : ℕ → M (Decoding S) (Unit {0})
  word_step w d =
      let command = bit_and w Fifo.cmd_mask in
      if command == bit_and Fifo.rx_mask 0xF000
      then ok tt (record d { decoded = d.decoded ++ (u8 (bit_and (shr w 1) 0xFF) ∷ []) })
      else (if command == Fifo.rx_timestamp
          then (if d.end_ts_shift == 64
              then throw (runtime_error end_timestamp_twice) d
              else end_frame (record d {
                end_ts = bit_or d.end_ts (u64 (shl (bit_and w 0x00FF) d.end_ts_shift));
                end_ts_shift = d.end_ts_shift + 8;
              }))
          else (if command == Fifo.rx_endframe
              then end_frame d
              else throw (runtime_error bad_reply) d))

  unfoldable pub words_loop : List ℕ → M (Decoding S) (Unit {0})
  words_loop [] d = ok tt d
  words_loop (w ∷ ws) d = elim (word_step w d) [
    | ok u d' ↦ words_loop ws d'
    | throw e d' ↦ throw e d'
  ]

  abbrev word_at : List ℕ → ℕ → ℕ
  word_at [] i = 0
  word_at (w ∷ ws) zero = w
  word_at (w ∷ ws) (suc i) = word_at ws i

  -- Four words of the response are a uint64_t, lowest word first.
  abbrev pub begin_timestamp : List ℕ → ℕ
  begin_timestamp ws =
      word_at ws 0 + 2 ^ 16 * word_at ws 1 + 2 ^ 32 * word_at ws 2 + 2 ^ 48 * word_at ws 3

  abbrev pub start : List ℕ → Run S → Decoding S
  start response r = record {
    run = record r { node = record (r.node) { bus = BusList.next_message r.node.bus } };
    decoded = [];
    begin_ts = begin_timestamp response;
    end_ts = 0;
    end_ts_shift = 0;
  }

  -- ilcCommands, from the words of the response FIFO on.
  unfoldable pub ilc_commands : List ℕ → M (Run S) (Unit {0})
  ilc_commands response r = elim r.node.bus.commands [
    | [] ↦ ok tt r
    | c ∷ cs ↦
        if ltb (length response) 8
        then elim (BusList.expected_of c) [
          | none ↦ throw out_of_range r
          | some (a, f) ↦ throw (missing_response a f) r
        ]
        else elim (words_loop (drop 4 response) (start response r)) [
          | throw e d ↦ throw e d.run
          | ok u d ↦ ok tt (record (d.run) { times = d.run.times ++ ((d.begin_ts, d.end_ts) ∷ []) })
        ]
  ]
