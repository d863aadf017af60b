-- ===== src/Crio/ModbusBuffer/Frames.antt =====
-- The words that callFunction of ModbusBuffer appends, against the frame that Buffer makes.
use ts_c_riocpp.Common.{
  ℕ, ◌/◌, ◌%◌, ◌≡◌, refl, sym, ap, ap₂, ◌∙◌, List, [], ◌∷◌, ◌++◌, append-nil, append_assoc, arith,
  All, IsByte, Bool, true, false, if◌then◌else◌, map, u8, bit_and, bit_and_mask, memory,
  memory-IsByte, memory-swap, swap,
}
use ts_c_riocpp.Modbus.Crc.{crc_of, add_all, reset}
use ts_c_riocpp.Modbus.Crc.Residue.{add_all-append}
use ts_c_riocpp.Modbus.Buffer as Queue
use ts_c_riocpp.Modbus.Buffer.{Scalar, int24, int32, uint8, uint16, uint32, uint64, float32}
use ts_c_riocpp.Modbus.Buffer.Frame.{
  network, network-IsByte, encoded, encoded-IsByte, encoded_args, body_of, body_of-IsByte,
  crc_bytes, call_function_frame,
}
use ts_c_riocpp.Crio.ModbusBuffer.{
  ModbusBuffer, Device, push_buffer, process_data_crc, push_commanded,
}
use ts_c_riocpp.Crio.ModbusBuffer.Stream.{
  Param, scalar, int8, int16, put_byte, write_buffer, write_i24, write, write_param,
  function_arguments, write_crc, call_function,
}
use ts_c_riocpp.Crio.ModbusBuffer.Laws.{DeviceLaws}

abbrev pub recorded : ModbusBuffer → List ℕ → List ℕ
recorded m bytes = if m.record_changes then m.records ++ bytes else m.records

-- The object with `bytes` written: their words in the buffer, and they in the CRC and in the records.
abbrev pub written : (ℕ → ℕ) → ModbusBuffer → List ℕ → ModbusBuffer
written word_of m bytes = record m {
  buffer = m.buffer ++ map word_of bytes;
  crc = add_all m.crc bytes;
  records = recorded m bytes;
}

abbrev pub arg_of : Param → Queue.Arg
arg_of (scalar t d) = Queue.scalar t d
arg_of (int8 d) = Queue.int8 d
arg_of (int16 d) = Queue.int16 d

abbrev pub args_of : List Param → List Queue.Arg
args_of [] = []
args_of (p ∷ ps) = arg_of p ∷ args_of ps

pub map-append : (f : ℕ → ℕ) (xs ys : List ℕ) → map f (xs ++ ys) ≡ map f xs ++ map f ys
map-append f [] ys = refl
map-append f (x ∷ xs) ys = ap (λ t. f x ∷ t) (map-append f xs ys)

pub frame_words :
    (f : ℕ → ℕ) (front : List ℕ) (a b : ℕ) (args crc : List ℕ)
    → (((front ++ (f a ∷ [])) ++ (f b ∷ [])) ++ map f args) ++ map f crc
      ≡ front ++ map f (a ∷ b ∷ (args ++ crc))
frame_words f front a b args crc =
    ap (λ t. (t ++ map f args) ++ map f crc) (append_assoc front (f a ∷ []) (f b ∷ []))
    ∙ append_assoc (front ++ (f a ∷ f b ∷ [])) (map f args) (map f crc)
    ∙ append_assoc front (f a ∷ f b ∷ []) (map f args ++ map f crc)
    ∙ ap (λ t. front ++ (f a ∷ f b ∷ t)) (sym (map-append f args crc))

pub frame_split :
    (f : ℕ → ℕ) (a b : ℕ) (args crc back : List ℕ)
    → map f (a ∷ b ∷ (args ++ crc)) ++ back ≡ f a ∷ f b ∷ (map f args ++ (map f crc ++ back))
frame_split f a b args crc back =
    ap (λ t. f a ∷ f b ∷ t)
      (ap (λ t. t ++ back) (map-append f args crc) ∙ append_assoc (map f args) (map f crc) back)

pub recorded-append :
    (on : Bool) (records xs ys : List ℕ)
    → (if on
        then (if on then records ++ xs else records) ++ ys
        else (if on then records ++ xs else records))
      ≡ (if on then records ++ (xs ++ ys) else records)
recorded-append true records xs ys = append_assoc records xs ys
recorded-append false records xs ys = refl

pub written-append :
    (word_of : ℕ → ℕ) (m : ModbusBuffer) (xs ys : List ℕ)
    → written word_of (written word_of m xs) ys ≡ written word_of m (xs ++ ys)
written-append word_of m xs ys = λ i. record m {
  buffer = words i;
  crc = sym (add_all-append m.crc xs ys) i;
  records = recorded-append m.record_changes m.records xs ys i;
}
  where
    words : (m.buffer ++ map word_of xs) ++ map word_of ys ≡ m.buffer ++ map word_of (xs ++ ys)
    words =
        append_assoc m.buffer (map word_of xs) (map word_of ys)
        ∙ ap (λ t. m.buffer ++ t) (sym (map-append word_of xs ys))

module _ (dev : Device) (laws : DeviceLaws dev) where
  put_byte_lem :
      (d : ℕ) (m : ModbusBuffer) → IsByte d → put_byte dev d m ≡ written laws.word_of m (d ∷ [])
  unfolding put_byte push_buffer process_data_crc add_all
  put_byte_lem d m h = rw (laws.get_byte_lem d m, laws.word_range d h) refl

  written-nil : (m : ModbusBuffer) → m ≡ written laws.word_of m []
  unfolding add_all
  written-nil m =
      λ i. record m { buffer = sym (append-nil m.buffer) i; records = same m.record_changes i }
    where
      same : (on : Bool) → m.records ≡ (if on then m.records ++ [] else m.records)
      same true = sym (append-nil m.records)
      same false = refl

  pub write_buffer_lem :
      (bs : List ℕ) (m : ModbusBuffer)
      → All IsByte bs
      → write_buffer dev bs m ≡ written laws.word_of m bs
  unfolding write_buffer
  write_buffer_lem [] m h = written-nil m
  write_buffer_lem (b ∷ bs) m (hb, hs) =
      ap (write_buffer dev bs) (put_byte_lem b m hb)
      ∙ write_buffer_lem bs (written laws.word_of m (b ∷ [])) hs
      ∙ written-append laws.word_of m (b ∷ []) bs

  -- An integer in network order is what the bytes of the swapped one are.
  write_network :
      (n d : ℕ) (m : ModbusBuffer)
      → write_buffer dev (memory n (swap n d)) m ≡ written laws.word_of m (network n d)
  write_network n d m =
      ap (λ bs. write_buffer dev bs m) (memory-swap n d)
      ∙ write_buffer_lem (network n d) m (network-IsByte n d)

  pub write_lem :
      (t : Scalar) (d : ℕ) (m : ModbusBuffer)
      → write dev t d m ≡ written laws.word_of m (encoded t d)
  unfolding write write_i24 write_buffer
  write_lem int24 d m = write_buffer_lem (encoded int24 d) m (encoded-IsByte int24 d)
  write_lem int32 d m = write_network 4 d m
  write_lem uint8 d m = write_buffer_lem (memory 1 d) m (memory-IsByte 1 d)
  write_lem uint16 d m = write_network 2 d m
  write_lem uint32 d m = write_network 4 d m
  write_lem uint64 d m = write_network 8 d m
  write_lem float32 d m = write_network 4 d m

  write_param_lem :
      (p : Param) (m : ModbusBuffer)
      → write_param dev p m ≡ written laws.word_of m (Queue.Frame.encoded_arg (arg_of p))
  unfolding write_param
  write_param_lem (scalar t d) m = write_lem t d m
  write_param_lem (int8 d) m = write_buffer_lem (memory 1 d) m (memory-IsByte 1 d)
  write_param_lem (int16 d) m = write_network 2 d m

  function_arguments_lem :
      (ps : List Param) (m : ModbusBuffer)
      → function_arguments dev ps m ≡ written laws.word_of m (encoded_args (args_of ps))
  unfolding function_arguments
  function_arguments_lem [] m = written-nil m
  function_arguments_lem (p ∷ ps) m =
      ap (function_arguments dev ps) (write_param_lem p m)
      ∙ function_arguments_lem ps _
      ∙ written-append laws.word_of m _ (encoded_args (args_of ps))

  body_lem :
      (address function : ℕ) (ps : List Param) (m : ModbusBuffer)
      → function_arguments dev ps (write dev uint8 function (write dev uint8 address m))
        ≡ written laws.word_of m (body_of address function (args_of ps))
  body_lem address function ps m =
      ap (λ x. function_arguments dev ps (write dev uint8 function x)) (write_lem uint8 address m)
      ∙ ap (function_arguments dev ps) (
          write_lem uint8 function _
          ∙ written-append laws.word_of m (u8 address ∷ []) (u8 function ∷ []))
      ∙ function_arguments_lem ps _
      ∙ written-append laws.word_of m (u8 address ∷ u8 function ∷ []) (encoded_args (args_of ps))

  write_crc_lem :
      (m : ModbusBuffer)
      → write_crc dev m
        ≡ record (written laws.word_of m ((m.crc % 256) ∷ (m.crc / 256 % 256) ∷ [])) { crc = reset }
  unfolding write_crc write_buffer
  write_crc_lem m =
      ap restart (
        write_buffer_lem (bit_and m.crc 0xFF ∷ bit_and (m.crc / 256) 0xFF ∷ []) m
          (omega (arith, low), (omega (arith, high), tt)))
      ∙ ap₂ (λ l h. restart (written laws.word_of m (l ∷ h ∷ []))) low high
    where
      restart : ModbusBuffer → ModbusBuffer
      restart x = record x { crc = reset }

      low : bit_and m.crc 0xFF ≡ m.crc % 256
      low = omega (arith, bit_and_mask 8 m.crc)

      high : bit_and (m.crc / 256) 0xFF ≡ m.crc / 256 % 256
      high = omega (arith, bit_and_mask 8 (m.crc / 256))

  -- The object behind a call: the words of the frame, of its end and of the wait are appended.
  abbrev pub called : ℕ → ℕ → ℕ → List Param → ModbusBuffer → ModbusBuffer
  called address function timeout ps m =
      let frame = Queue.call_function [] address function (args_of ps) in
      let words = map laws.word_of frame ++ (laws.end_words ++ laws.wait_words timeout) in
      push_commanded address function
        (record m { buffer = m.buffer ++ words; crc = reset; records = recorded m frame })

  -- With a CRC that has been reset, callFunction of ModbusBuffer writes the bytes of the frame that
  -- callFunction of Buffer makes, whatever the buffer holds, then the end of the frame and the wait. The
  -- CRC is reset again, the frame is among the records if they are kept, and the call is queued if its
  -- address is one that answers.
  pub call_function-frame :
      (address function timeout : ℕ) (ps : List Param) (m : ModbusBuffer)
      → m.crc ≡ reset
      → call_function dev address function timeout ps m ≡ called address function timeout ps m
  unfolding call_function
  call_function-frame address function timeout ps m fresh =
      ap
        (λ x.
          push_commanded address function
            (dev.write_wait_for_rx timeout (dev.write_end_of_frame x)))
        framed
      ∙ ap (λ x. push_commanded address function (dev.write_wait_for_rx timeout x))
          (laws.end_of_frame_lem _)
      ∙ ap (push_commanded address function) (laws.wait_lem timeout _)
      ∙ ap (λ b. push_commanded address function (rewritten b)) words
    where
      body : List ℕ
      body = body_of address function (args_of ps)

      frame : List ℕ
      frame = Queue.call_function [] address function (args_of ps)

      rewritten : List ℕ → ModbusBuffer
      rewritten b = record m { buffer = b; crc = reset; records = recorded m frame }

      restart : ModbusBuffer → ModbusBuffer
      restart x = record x { crc = reset }

      crc_of_body : add_all m.crc body ≡ crc_of body
      crc_of_body = unfold crc_of in ap (λ c. add_all c body) fresh

      framed :
          write_crc dev
            (function_arguments dev ps (write dev uint8 function (write dev uint8 address m)))
          ≡ restart (written laws.word_of m frame)
      framed =
          ap (write_crc dev) (body_lem address function ps m)
          ∙ write_crc_lem _
          ∙ ap
              (λ c. restart (
                written laws.word_of (written laws.word_of m body)
                  ((c % 256) ∷ (c / 256 % 256) ∷ [])))
              crc_of_body
          ∙ ap restart (written-append laws.word_of m body (crc_bytes body))
          ∙ ap (λ f. restart (written laws.word_of m f))
              (sym (call_function_frame address function (args_of ps)))

      words :
          ((m.buffer ++ map laws.word_of frame) ++ laws.end_words) ++ laws.wait_words timeout
          ≡ m.buffer ++ (map laws.word_of frame ++ (laws.end_words ++ laws.wait_words timeout))
      words =
          append_assoc (m.buffer ++ map laws.word_of frame) laws.end_words (laws.wait_words timeout)
          ∙ append_assoc m.buffer (map laws.word_of frame) _
