-- ===== src/Crio/ModbusBuffer/Messages.antt =====
-- Messages read from a buffer, with their CRC.
use ts_c_riocpp.Common.{
  ℕ, ◌+◌, ◌*◌, ◌/◌, ◌%◌, ◌≡◌, refl, ap, ◌∙◌, List, [], ◌∷◌, ◌++◌, arith, IsByte, All, false,
  if◌then◌else◌, map, u8, ◌==◌, ==_self, value,
}
use ts_c_riocpp.Modbus.Exceptions.{crc_error, ok, throw, M, ◌>>=◌, ◌>>◌, pure, >>=-ok, >>-ok}
use ts_c_riocpp.Modbus.Crc.{crc_of, add_all, reset}
use ts_c_riocpp.Modbus.Crc.Detect.{crc_of-IsCrc}
use ts_c_riocpp.Modbus.Buffer as Queue
use ts_c_riocpp.Modbus.Buffer.{Scalar, uint8}
use ts_c_riocpp.Modbus.Buffer.Frame.{
  encoded_args, body_of, body_of-IsByte, crc_bytes, call_function_frame,
}
use ts_c_riocpp.Modbus.Parser.RoundTrip.{Values, types, numbers, args_of, FitsAll}
use ts_c_riocpp.Crio.ModbusBuffer.{ModbusBuffer, Device, pause_record_changes}
use ts_c_riocpp.Crio.ModbusBuffer.Stream.{read_buffer, read, check_crc, compare_crc}
use ts_c_riocpp.Crio.ModbusBuffer.Laws.{DeviceLaws}
use ts_c_riocpp.Crio.ModbusBuffer.Frames.{frame_words, frame_split}
use ts_c_riocpp.Crio.ModbusBuffer.Readback.{
  at, absorbed, absorbed-append, read_buffer_lem, read-encoded, read_all, read_all-encoded,
}

compare_crc_lem :
    (dev : Device) (calculated stored : ℕ) (m : ModbusBuffer)
    → compare_crc dev calculated stored m ≡ (
        if stored == calculated
        then ok tt (record m { crc = reset })
        else throw (crc_error calculated stored) m)
unfolding compare_crc
compare_crc_lem dev calculated stored m = ground arith

module _ (dev : Device) (laws : DeviceLaws dev) where
  -- Behind the reading of a message, whose first byte was read with a CRC that had been reset, checkCRC
  -- stops the recording, and accepts the two bytes before it exactly if they are the CRC of the message,
  -- low byte first: then the CRC is reset, and otherwise CRCError is thrown with both values.
  pub check_crc-verdict :
      (m : ModbusBuffer) (front body back : List ℕ) (lo hi : ℕ)
      → IsByte lo
      → IsByte hi
      → m.crc ≡ crc_of body
      → let stored = lo + 256 * hi in
        let behind =
          at
            (absorbed (record m { record_changes = false }) (lo ∷ hi ∷ []))
            (front ++ map laws.word_of (lo ∷ hi ∷ []))
            back in
        check_crc dev (at m front (map laws.word_of (lo ∷ hi ∷ []) ++ back)) ≡ (
          if stored == crc_of body
          then ok tt (record behind { crc = reset })
          else throw (crc_error (crc_of body) stored) behind)
  unfolding check_crc pause_record_changes
  check_crc-verdict m front body back lo hi hlo hhi e =
      >>=-ok (read_buffer dev 2) _ _ (
        read_buffer_lem dev laws (record m { record_changes = false }) front (lo ∷ hi ∷ []) back 2
          refl (hlo, (hhi, tt)))
      ∙ ap (λ c. compare_crc dev c (value (lo ∷ hi ∷ [])) behind) e
      ∙ ap (λ s. compare_crc dev (crc_of body) s behind) {y = lo + 256 * hi} (omega arith)
      ∙ compare_crc_lem dev (crc_of body) (lo + 256 * hi) behind
    where
      behind : ModbusBuffer
      behind =
          at (absorbed (record m { record_changes = false }) (lo ∷ hi ∷ []))
            (front ++ map laws.word_of (lo ∷ hi ∷ [])) back

  -- A message, and its CRC behind it.
  abbrev pub framed : List ℕ → List ℕ
  framed body = body ++ crc_bytes body

  pub check_crc_frame :
      (m : ModbusBuffer) (front body back : List ℕ)
      → All IsByte body
      → m.crc ≡ crc_of body
      → check_crc dev (at m front (map laws.word_of (crc_bytes body) ++ back))
        ≡ ok tt (
            at
              (record m { crc = reset; record_changes = false })
              (front ++ map laws.word_of (crc_bytes body))
              back)
  check_crc_frame m front body back h e =
      check_crc-verdict m front body back _ _ (omega arith) (omega arith) e
      ∙ rw (stored, ==_self (crc_of body)) refl
    where
      stored : crc_of body % 256 + 256 * (crc_of body / 256 % 256) ≡ crc_of body
      stored = omega (arith, crc_of-IsCrc body h)

  -- What callFunction wrote, is read: address, function, arguments by their types, and the CRC.
  abbrev pub read_call : List Scalar → M ModbusBuffer (ℕ × (ℕ × List ℕ))
  read_call ts = do
    a ← read dev uint8
    f ← read dev uint8
    vs ← read_all dev ts
    check_crc dev
    pure (a, (f, vs))

  -- The words of a frame are read as its address, its function and its arguments, which are in the ranges
  -- of their types, wherever the frame stands in a buffer, if the CRC had been reset: checkCRC accepts
  -- the frame, which ends at the position behind it, the CRC is reset again, and the message without its
  -- CRC is among the records, if they were kept.
  read_call-frame :
      (m : ModbusBuffer) (front back : List ℕ) (address function : ℕ) (vs : Values)
      → m.crc ≡ reset
      → IsByte address
      → IsByte function
      → FitsAll vs
      → let words = map laws.word_of (Queue.call_function [] address function (args_of vs)) in
        let body = body_of address function (args_of vs) in
        let behind = record (absorbed m body) { crc = reset; record_changes = false } in
        read_call (types vs) (at m front (words ++ back))
        ≡ ok (address, (function, numbers vs)) (at behind (front ++ words) back)
  read_call-frame m front back address function vs fresh ha hf h =
      rw (call_function_frame address function (args_of vs)) (
        ap (λ r. read_call (types vs) (at m front r))
          (frame_split laws.word_of (u8 address) (u8 function) args (crc_bytes body) back)
        ∙ >>=-ok (read dev uint8) _ _ (read-encoded dev laws m front _ uint8 address ha)
        ∙ >>=-ok (read dev uint8) _ _ (read-encoded dev laws m1 front1 _ uint8 function hf)
        ∙ >>=-ok (read_all dev (types vs)) _ _ (read_all-encoded dev laws m2 front2 _ vs h)
        ∙ >>-ok (check_crc dev) _ _ (
            check_crc_frame m3 front3 body back (body_of-IsByte address function (args_of vs))
              summed)
        ∙ (λ i.
            ok (address, (function, numbers vs))
              (at (record (sum i) { crc = reset; record_changes = false }) (words i) back)))
    where
      args : List ℕ
      args = encoded_args (args_of vs)

      body : List ℕ
      body = body_of address function (args_of vs)

      w : List ℕ → List ℕ
      w bs = map laws.word_of bs

      m1 : ModbusBuffer
      m1 = absorbed m (u8 address ∷ [])

      m2 : ModbusBuffer
      m2 = absorbed m1 (u8 function ∷ [])

      m3 : ModbusBuffer
      m3 = absorbed m2 args

      front1 : List ℕ
      front1 = front ++ w (u8 address ∷ [])

      front2 : List ℕ
      front2 = front1 ++ w (u8 function ∷ [])

      front3 : List ℕ
      front3 = front2 ++ w args

      sum : m3 ≡ absorbed m body
      sum =
          ap (λ x. absorbed x args) (absorbed-append m (u8 address ∷ []) (u8 function ∷ []))
          ∙ absorbed-append m (u8 address ∷ u8 function ∷ []) args

      summed : m3.crc ≡ crc_of body
      summed = ap (λ x. x.crc) sum ∙ (unfold crc_of in ap (λ c. add_all c body) fresh)

      words : front3 ++ w (crc_bytes body) ≡ front ++ w (framed body)
      words = frame_words laws.word_of front (u8 address) (u8 function) args (crc_bytes body)
