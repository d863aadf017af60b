-- ===== src/Crio/Fpga/Response.antt =====
-- What ilcCommands does with a response of one frame.
use ts_c_riocpp.Common.{
  ℕ, suc, ◌+◌, ◌*◌, ◌/◌, ◌%◌, ◌^◌, ◌≤◌, ◌<◌, ◌≡◌, refl, ap, ap₂, ◌∙◌, List, [], ◌∷◌, ◌++◌,
  append-nil, append_assoc, arith, length, length-append, All, IsByte, some, bit_and, bit_or,
  bit_and_mask, bit_and_field, bit_or_disjoint, bit_or_comm, shl, shr, u8, u64, value, ltb-false,
  ==_false,
}
use native.Mathlib.Nat.{pow-suc, mul-le-mul_right, pow-le-pow_right}
use ts_c_riocpp.Modbus.Exceptions.{ok}
use ts_c_riocpp.Modbus.BusList
use ts_c_riocpp.Modbus.BusList.{CommandRecord, BusList, Functions, Node}
use ts_c_riocpp.Crio.Fifo
use ts_c_riocpp.Crio.Fpga.{
  Run, Decoding, retry, end_frame, word_step, words_loop, start, ilc_commands,
}
use ts_c_riocpp.Common.{drop}

-- The words of the response FIFO for a byte of a frame, and for a byte of the end timestamp.
abbrev pub rx_byte : ℕ → ℕ
rx_byte b = Fifo.rx_mask + b * 2

abbrev pub rx_time : ℕ → ℕ
rx_time t = Fifo.rx_timestamp + t

abbrev pub rx_bytes : List ℕ → List ℕ
rx_bytes [] = []
rx_bytes (b ∷ bs) = rx_byte b ∷ rx_bytes bs

abbrev pub rx_times : List ℕ → List ℕ
rx_times [] = []
rx_times (t ∷ ts) = rx_time t ∷ rx_times ts

-- A response of one frame: four words of a timestamp, the bytes, the end, and the end timestamp.
abbrev pub one_frame : ℕ → ℕ → ℕ → ℕ → List ℕ → List ℕ → List ℕ
one_frame t0 t1 t2 t3 bs ts = t0 ∷ t1 ∷ t2 ∷ t3 ∷ (rx_bytes bs ++ (Fifo.rx_endframe ∷ rx_times ts))

length-rx_times : (ts : List ℕ) → length (rx_times ts) ≡ length ts
length-rx_times [] = refl
length-rx_times (t ∷ ts) = ap suc (length-rx_times ts)

command_of : (w : ℕ) → bit_and w 0xF000 ≡ w / 4096 % 16 * 4096
command_of w = bit_and_field 12 w 15 ∙ ap (λ (t : ℕ). t * 4096) (bit_and_mask 4 (w / 4096))

two_more : (k : ℕ) → 2 ^ suc (suc k) ≡ 4 * 2 ^ k
two_more k = omega (arith, pow-suc 2 k, pow-suc 2 (suc k))

eight_more : (k : ℕ) → 2 ^ suc (suc (suc (suc (suc (suc (suc (suc k))))))) ≡ 256 * 2 ^ k
eight_more k = omega (
  arith,
  two_more k,
  two_more (suc (suc k)),
  two_more (suc (suc (suc (suc k)))),
  two_more (suc (suc (suc (suc (suc (suc k)))))),
)

module _ {S : Type 0} (fs : Functions S) where
  byte_step :
      (b : ℕ) (d : Decoding S)
      → IsByte b
      → word_step fs (rx_byte b) d ≡ ok tt (record d { decoded = d.decoded ++ (b ∷ []) })
  unfolding word_step
  byte_step b d h =
      rw (command) (ap (λ (v : ℕ). ok tt (record d { decoded = d.decoded ++ (v ∷ []) })) same)
    where
      command : bit_and (rx_byte b) 0xF000 ≡ 0x9000
      command = omega (arith, command_of (rx_byte b))

      same : u8 (bit_and (shr (rx_byte b) 1) 0xFF) ≡ b
      same = omega (arith, bit_and_mask 8 (rx_byte b / 2))

  next_word :
      (w : ℕ) (ws : List ℕ) (d d' : Decoding S)
      → word_step fs w d ≡ ok tt d'
      → words_loop fs (w ∷ ws) d ≡ words_loop fs ws d'
  unfolding words_loop
  next_word w ws d d' e = rw (e, words_loop) refl

  bytes_loop :
      (bs ws : List ℕ) (d : Decoding S)
      → All IsByte bs
      → words_loop fs (rx_bytes bs ++ ws) d
        ≡ words_loop fs ws (record d { decoded = d.decoded ++ bs })
  bytes_loop [] ws d h = rw append-nil refl
  bytes_loop (b ∷ bs) ws d h =
      next_word (rx_byte b) (rx_bytes bs ++ ws) d (record d { decoded = d.decoded ++ (b ∷ []) })
        (byte_step b d h.0)
      ∙ bytes_loop bs ws (record d { decoded = d.decoded ++ (b ∷ []) }) h.1
      ∙ ap (λ l. words_loop fs ws (record d { decoded = l })) (append_assoc d.decoded (b ∷ []) bs)

  -- Between two frames, after `i` bytes of the end timestamp, which are `e`.
  abbrev timing : Run S → ℕ → ℕ → ℕ → Decoding S
  timing run begin e i = record {
    run = run;
    decoded = [];
    begin_ts = begin;
    end_ts = e;
    end_ts_shift = 8 * i;
  }

  time_step :
      (t : ℕ) (run : Run S) (begin e i : ℕ)
      → IsByte t
      → i < 8
      → e < 2 ^ (8 * i)
      → word_step fs (rx_time t) (timing run begin e i)
        ≡ ok tt (timing run begin (e + t * 2 ^ (8 * i)) (i + 1))
  unfolding word_step end_frame
  time_step t run begin e i h short lt =
      rw (command, ==_false (8 * i) 64 (omega arith))
        (ap
            (λ (v : ℕ).
              ok tt (record (timing run begin 0 i) { end_ts = v; end_ts_shift = 8 * i + 8 }))
            joined
          ∙ ap
              (λ (n : ℕ).
                ok tt (record (timing run begin (e + t * 2 ^ (8 * i)) i) { end_ts_shift = n }))
              (omega arith))
    where
      command : bit_and (rx_time t) 0xF000 ≡ 0xB000
      command = omega (arith, command_of (rx_time t))

      low : bit_and (rx_time t) 0x00FF ≡ t
      low = omega (arith, bit_and_mask 8 (rx_time t))

      bound : 2 ^ (8 * i) ≤ 2 ^ 56
      bound = pow-le-pow_right {n = 2} (omega arith) {i = 8 * i} {j = 56} (omega arith)

      product : t * 2 ^ (8 * i) ≤ 255 * 2 ^ (8 * i)
      product = mul-le-mul_right (2 ^ (8 * i)) (omega arith)

      fits : t * 2 ^ (8 * i) % 2 ^ 64 ≡ t * 2 ^ (8 * i)
      fits = omega (arith, bound, product)

      joined : bit_or e (u64 (shl (bit_and (rx_time t) 0x00FF) (8 * i))) ≡ e + t * 2 ^ (8 * i)
      joined =
          rw (low, fits)
            (omega (arith, bit_or_comm e (t * 2 ^ (8 * i)), bit_or_disjoint (8 * i) t e lt))

  -- The bytes of the end timestamp come lowest first.
  times_loop :
      (ts : List ℕ) (run : Run S) (begin e i : ℕ)
      → All IsByte ts
      → i + length ts ≤ 8
      → e < 2 ^ (8 * i)
      → words_loop fs (rx_times ts) (timing run begin e i)
        ≡ ok tt (timing run begin (e + 2 ^ (8 * i) * value ts) (i + length ts))
  unfolding words_loop
  times_loop [] run begin e i h short lt =
      ap (λ (v : ℕ). ok tt (timing run begin v i)) (omega arith)
      ∙ ap (λ (n : ℕ). ok tt (timing run begin (e + 2 ^ (8 * i) * 0) n)) (omega arith)
  times_loop (t ∷ ts) run begin e i h short lt =
      next_word (rx_time t) (rx_times ts) (timing run begin e i) _
        (time_step t run begin e i h.0 (omega arith) lt)
      ∙ times_loop ts run begin (e + t * 2 ^ (8 * i)) (i + 1) h.1 (omega arith)
          (omega (arith, wider, product, lt))
      ∙ ap (λ (v : ℕ). ok tt (timing run begin v (i + 1 + length ts))) total
      ∙ ap (λ (n : ℕ). ok tt (timing run begin (e + 2 ^ (8 * i) * value (t ∷ ts)) n)) (omega arith)
    where
      wider : 2 ^ (8 * (i + 1)) ≡ 256 * 2 ^ (8 * i)
      wider =
          ap (λ n. 2 ^ n) {y = suc (suc (suc (suc (suc (suc (suc (suc (8 * i))))))))} (omega arith)
          ∙ eight_more (8 * i)

      product : t * 2 ^ (8 * i) ≤ 255 * 2 ^ (8 * i)
      product = mul-le-mul_right (2 ^ (8 * i)) (omega arith)

      total : e + t * 2 ^ (8 * i) + 2 ^ (8 * (i + 1)) * value ts ≡ e + 2 ^ (8 * i) * value (t ∷ ts)
      total = rw wider (omega arith)

  -- A frame of at least one byte, whose parse ends with the node `after`.
  module _ (bs : List ℕ) (b : ℕ) (after : Node S) (run : Run S) (begin : ℕ) where
    abbrev in_frame : Decoding S
    in_frame = record {
      run = run;
      decoded = b ∷ bs;
      begin_ts = begin;
      end_ts = 0;
      end_ts_shift = 0;
    }

    frame_step :
        retry fs (length run.node.bus.commands + 1) (b ∷ bs) run.node ≡ some (ok tt after)
        → word_step fs Fifo.rx_endframe in_frame
          ≡ ok tt (timing (record { node = after; times = run.times ++ ((begin, 0) ∷ []) }) 0 0 0)
    unfolding word_step end_frame
    frame_step e = rw (e, end_frame) refl

  -- The bus list that parses a response.
  abbrev pub at_start : Node S → Node S
  at_start n = record n { bus = BusList.next_message n.bus }

  accepted_words :
      (response : List ℕ) (r : Run S) (c : CommandRecord) (cs : List CommandRecord) (d : Decoding S)
      → r.node.bus.commands ≡ c ∷ cs
      → 8 ≤ length response
      → words_loop fs (drop 4 response) (start fs response r) ≡ ok tt d
      → ilc_commands fs response r
        ≡ ok tt (record (d.run) { times = d.run.times ++ ((d.begin_ts, d.end_ts) ∷ []) })
  unfolding ilc_commands
  accepted_words response r c cs d e long h =
      rw (e, ltb-false (length response) 8 long, h, ilc_commands) refl

  -- With commands on the bus list and a response of one frame of one byte or more, where the retried parse
  -- of the bytes ends without an exception, ilcCommands ends with the node that the parse leaves, and
  -- reportTime is called twice: with the begin timestamp and 0, then with 0 and the end timestamp.
  pub one_frame_lem :
      (t0 t1 t2 t3 b : ℕ) (bs ts : List ℕ) (r : Run S) (c : CommandRecord) (cs : List CommandRecord)
      (after : Node S)
      → r.node.bus.commands ≡ c ∷ cs
      → All IsByte (b ∷ bs)
      → All IsByte ts
      → length ts ≡ 8
      → retry fs (length (at_start r.node).bus.commands + 1) (b ∷ bs) (at_start r.node)
        ≡ some (ok tt after)
      → ilc_commands fs (one_frame t0 t1 t2 t3 (b ∷ bs) ts) r
        ≡ ok tt (record {
          node = after;
          times =
              r.times ++ ((t0 + 2 ^ 16 * t1 + 2 ^ 32 * t2 + 2 ^ 48 * t3, 0) ∷ (0, value ts) ∷ []);
        })
  one_frame_lem t0 t1 t2 t3 b bs ts r c cs after e hb ht e8 parsed =
      accepted_words (one_frame t0 t1 t2 t3 (b ∷ bs) ts) r c cs (timing behind 0 (value ts) 8) e
        (omega
          (arith, length-append (rx_bytes bs) (Fifo.rx_endframe ∷ rx_times ts), length-rx_times ts))
        (bytes_loop (b ∷ bs) (Fifo.rx_endframe ∷ rx_times ts) first hb
          ∙ next_word Fifo.rx_endframe (rx_times ts) (in_frame bs b after begun begin)
              (timing behind 0 0 0) (frame_step bs b after begun begin parsed)
          ∙ times_loop ts behind 0 0 0 ht (omega arith) (omega arith)
          ∙ ap₂ (λ (v n : ℕ). ok tt (timing behind 0 v n)) whole count)
      ∙ ap (λ l. ok tt (record { node = after; times = l })) (append_assoc r.times _ _)
    where
      begin : ℕ
      begin = t0 + 2 ^ 16 * t1 + 2 ^ 32 * t2 + 2 ^ 48 * t3

      begun : Run S
      begun = record r { node = at_start r.node }

      behind : Run S
      behind = record { node = after; times = r.times ++ ((begin, 0) ∷ []) }

      first : Decoding S
      first = record { run = begun; decoded = []; begin_ts = begin; end_ts = 0; end_ts_shift = 0 }

      whole : 0 + 2 ^ (8 * 0) * value ts ≡ value ts
      whole = omega arith

      count : 0 + length ts ≡ 8
      count = omega (arith, e8)
