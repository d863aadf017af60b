-- ===== src/Crio/ModbusBuffer/Readback.antt =====
-- Reading the words of bytes back through the virtual methods.
use ts_c_riocpp.Common.{
  ℕ, zero, suc, ◌+◌, ◌<◌, ◌^◌, ◌≡◌, refl, sym, ap, ◌∙◌, List, [], ◌∷◌, ◌++◌, append-nil,
  append_assoc, arith, All, IsByte, Bool, true, false, if◌then◌else◌, map, length, length-append,
  get_or, leb, value, swap, value-memory,
}
use ts_c_riocpp.Modbus.Exceptions.{ok, M, ◌>>=◌, pure, >>=-ok}
use ts_c_riocpp.Modbus.Crc.{add_all}
use ts_c_riocpp.Modbus.Crc.Residue.{add_all-append}
use ts_c_riocpp.Modbus.Buffer.{Scalar, int24, int32, uint8, uint16, uint32, uint64, float32}
use ts_c_riocpp.Modbus.Buffer.Frame.{network, network-IsByte, encoded, encoded-IsByte, encoded_args}
use ts_c_riocpp.Modbus.Parser.{to_i24}
use ts_c_riocpp.Modbus.Parser.Reads.{InRange, length-network, swap-network, to_i24_lem}
use ts_c_riocpp.Modbus.Parser.RoundTrip.{Values, types, numbers, args_of, FitsAll}
use ts_c_riocpp.Crio.ModbusBuffer.{
  ModbusBuffer, Device, read_instruction, end_of_buffer, inc_index, process_data_crc,
}
use ts_c_riocpp.Crio.ModbusBuffer.Stream.{read_crc_byte, read_buffer, read}
use ts_c_riocpp.Crio.ModbusBuffer.Laws.{DeviceLaws}
use ts_c_riocpp.Crio.ModbusBuffer.Frames.{recorded, map-append, recorded-append}

-- The object that stands behind the words `front`, with `back` to be read.
abbrev pub at : ModbusBuffer → List ℕ → List ℕ → ModbusBuffer
at m front back = record m { buffer = front ++ back; index = length front }

-- The object with `bytes` read, but for the position.
abbrev pub absorbed : ModbusBuffer → List ℕ → ModbusBuffer
absorbed m bytes = record m { crc = add_all m.crc bytes; records = recorded m bytes }

pub absorbed-append :
    (m : ModbusBuffer) (xs ys : List ℕ) → absorbed (absorbed m xs) ys ≡ absorbed m (xs ++ ys)
absorbed-append m xs ys = λ i. record m {
  crc = sym (add_all-append m.crc xs ys) i;
  records = recorded-append m.record_changes m.records xs ys i;
}

absorbed-nil : (m : ModbusBuffer) → m ≡ absorbed m []
unfolding add_all
absorbed-nil m = λ i. record m { records = same m.record_changes i }
  where
    same : (on : Bool) → m.records ≡ (if on then m.records ++ [] else m.records)
    same true = sym (append-nil m.records)
    same false = refl

get_or_front :
    (front : List ℕ) (w : ℕ) (back : List ℕ) → get_or (front ++ (w ∷ back)) (length front) 0 ≡ w
get_or_front [] w back = refl
get_or_front (x ∷ front) w back = get_or_front front w back

read_instruction_lem :
    (byte_of : ℕ → ℕ) (m : ModbusBuffer) (front : List ℕ) (w : ℕ) (back : List ℕ)
    → read_instruction byte_of (at m front (w ∷ back))
      ≡ ok (byte_of w) (at m (front ++ (w ∷ [])) back)
unfolding read_instruction end_of_buffer inc_index
read_instruction_lem byte_of m front w back =
    rw (more, get_or_front front w back)
      (λ i.
        ok (byte_of w)
          (record m { buffer = sym (append_assoc front (w ∷ []) back) i; index = moved i }))
  where
    more : leb (length (front ++ (w ∷ back))) (length front) ≡ false
    more = ground (arith, length-append front (w ∷ back))

    moved : length front + 1 ≡ length (front ++ (w ∷ []))
    moved = omega (arith, length-append front (w ∷ []))

-- A handler that reads values of these types, one after the other.
unfoldable pub read_all : Device → List Scalar → M ModbusBuffer (List ℕ)
read_all dev [] = pure []
read_all dev (t ∷ ts) = do v ← read dev t; vs ← read_all dev ts; pure (v ∷ vs)

module _ (dev : Device) (laws : DeviceLaws dev) where
  read_crc_byte_lem :
      (m : ModbusBuffer) (front : List ℕ) (b : ℕ) (back : List ℕ)
      → IsByte b
      → read_crc_byte dev (at m front (laws.word_of b ∷ back))
        ≡ ok b (at (absorbed m (b ∷ [])) (front ++ (laws.word_of b ∷ [])) back)
  unfolding read_crc_byte process_data_crc add_all
  read_crc_byte_lem m front b back h = >>=-ok dev.read_instruction_byte _ _ (
      laws.read_byte_lem _
      ∙ read_instruction_lem laws.byte_of m front (laws.word_of b) back
      ∙ ap (λ d. ok d (at m (front ++ (laws.word_of b ∷ [])) back)) (laws.byte_word b h))

  pub read_buffer_lem :
      (m : ModbusBuffer) (front bs back : List ℕ) (n : ℕ)
      → n ≡ length bs
      → All IsByte bs
      → read_buffer dev n (at m front (map laws.word_of bs ++ back))
        ≡ ok bs (at (absorbed m bs) (front ++ map laws.word_of bs) back)
  unfolding read_buffer
  read_buffer_lem m front [] back zero e h =
      λ i. ok [] (at (absorbed-nil m i) (sym (append-nil front) i) back)
  read_buffer_lem m front [] back (suc n) e h = absurd (omega arith)
  read_buffer_lem m front (b ∷ bs) back zero e h = absurd (omega arith)
  read_buffer_lem m front (b ∷ bs) back (suc n) e (hb, hs) =
      >>=-ok (read_crc_byte dev) _ _ (read_crc_byte_lem m front b _ hb)
      ∙ >>=-ok (read_buffer dev n) _ _ (
          read_buffer_lem (absorbed m (b ∷ [])) (front ++ (laws.word_of b ∷ [])) bs back n
            (omega arith) hs)
      ∙ (λ i. ok (b ∷ bs) (
          at (absorbed-append m (b ∷ []) bs i)
            (append_assoc front (laws.word_of b ∷ []) (map laws.word_of bs) i) back))

  read_block :
      (m : ModbusBuffer) (front block back : List ℕ) (n : ℕ) (convert : List ℕ → ℕ) (d : ℕ)
      → n ≡ length block
      → All IsByte block
      → convert block ≡ d
      → ◌>>=◌
          (read_buffer dev n)
          (λ bs. pure (convert bs))
          (at m front (map laws.word_of block ++ back))
        ≡ ok d (at (absorbed m block) (front ++ map laws.word_of block) back)
  read_block m front block back n convert d e h c =
      >>=-ok (read_buffer dev n) _ _ (read_buffer_lem m front block back n e h)
      ∙ ap (λ v. ok v (at (absorbed m block) (front ++ map laws.word_of block) back)) c

  read_network :
      (m : ModbusBuffer) (front back : List ℕ) (n d : ℕ)
      → d < 256 ^ n
      → ◌>>=◌
          (read_buffer dev n)
          (λ bs. pure (swap n (value bs)))
          (at m front (map laws.word_of (network n d) ++ back))
        ≡ ok d (at (absorbed m (network n d)) (front ++ map laws.word_of (network n d)) back)
  read_network m front back n d h =
      read_block m front (network n d) back n _ d (sym (length-network n d)) (network-IsByte n d)
        (swap-network n d h)

  pub read-encoded :
      (m : ModbusBuffer) (front back : List ℕ) (t : Scalar) (d : ℕ)
      → InRange t d
      → read dev t (at m front (map laws.word_of (encoded t d) ++ back))
        ≡ ok d (at (absorbed m (encoded t d)) (front ++ map laws.word_of (encoded t d)) back)
  unfolding read
  read-encoded m front back int24 d h =
      read_block m front (encoded int24 d) back 3 (λ x. to_i24 (value x)) d refl
        (encoded-IsByte int24 d) (to_i24_lem d h)
  read-encoded m front back int32 d h = read_network m front back 4 d h
  read-encoded m front back uint8 d h =
      read_block m front (encoded uint8 d) back 1 (λ x. value x) d refl (encoded-IsByte uint8 d)
        (value-memory 1 d h)
  read-encoded m front back uint16 d h = read_network m front back 2 d h
  read-encoded m front back uint32 d h = read_network m front back 4 d h
  read-encoded m front back uint64 d h = read_network m front back 8 d h
  read-encoded m front back float32 d h = read_network m front back 4 d h

  pub read_all-encoded :
      (m : ModbusBuffer) (front back : List ℕ) (vs : Values)
      → FitsAll vs
      → let args = encoded_args (args_of vs) in
        read_all dev (types vs) (at m front (map laws.word_of args ++ back))
        ≡ ok (numbers vs) (at (absorbed m args) (front ++ map laws.word_of args) back)
  unfolding read_all
  read_all-encoded m front back [] h =
      λ i. ok [] (at (absorbed-nil m i) (sym (append-nil front) i) back)
  read_all-encoded m front back ((t, d) ∷ vs) (hd, hs) =
      >>=-ok (read dev t) _ _ (
        ap (λ r. read dev t (at m front r)) (split back)
        ∙ read-encoded m front (map laws.word_of more ++ back) t d hd)
      ∙ >>=-ok (read_all dev (types vs)) _ _
          (read_all-encoded (absorbed m first) (front ++ map laws.word_of first) back vs hs)
      ∙ (λ i. ok (d ∷ numbers vs) (at (absorbed-append m first more i) (joined i) back))
    where
      first : List ℕ
      first = encoded t d

      more : List ℕ
      more = encoded_args (args_of vs)

      split :
          (r : List ℕ)
          → map laws.word_of (first ++ more) ++ r
            ≡ map laws.word_of first ++ (map laws.word_of more ++ r)
      split r =
          ap (λ t. t ++ r) (map-append laws.word_of first more)
          ∙ append_assoc (map laws.word_of first) (map laws.word_of more) r

      joined :
          (front ++ map laws.word_of first) ++ map laws.word_of more
          ≡ front ++ map laws.word_of (first ++ more)
      joined =
          append_assoc front (map laws.word_of first) (map laws.word_of more)
          ∙ ap (λ t. front ++ t) (sym (map-append laws.word_of first more))
