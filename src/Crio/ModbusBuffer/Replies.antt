-- ===== src/Crio/ModbusBuffer/Replies.antt =====
-- processResponse on the replies to the calls that were queued.
use ts_c_riocpp.Common.{
  ℕ, zero, suc, ◌<◌, ◌≡◌, sym, ap, ◌∙◌, List, [], ◌∷◌, ◌++◌, append-nil, append_assoc, arith, All,
  true, false, map, length, length-append, u8,
}
use ts_c_riocpp.Modbus.Exceptions.{ok, M, >>-ok}
use ts_c_riocpp.Modbus.Crc.{reset}
use ts_c_riocpp.Modbus.Buffer.Frame.{call_function_frame}
use ts_c_riocpp.Modbus.Parser.RoundTrip.{args_of}
use ts_c_riocpp.Crio.ModbusBuffer.{ModbusBuffer, Device, set_buffer, end_of_buffer}
use ts_c_riocpp.Crio.ModbusBuffer.Laws.{DeviceLaws}
use ts_c_riocpp.Crio.ModbusBuffer.Frames.{map-append}
use ts_c_riocpp.Crio.ModbusBuffer.Readback.{at}
use ts_c_riocpp.Crio.ModbusBuffer.Responses.{
  Actions, process_one, process_loop, process_response, no_processing,
}
use ts_c_riocpp.Crio.ModbusBuffer.Step.{
  Reply, calls_of, frame_of, frames_of, reported, Answered, idle, process_one-reply,
}

at_end : (m : ModbusBuffer) (front : List ℕ) → end_of_buffer (at m front []) ≡ true
unfolding end_of_buffer
at_end m front = ground (arith, length-append front (nothing))
  where
    nothing : List ℕ
    nothing = []

more_words :
    (m : ModbusBuffer) (front : List ℕ) (w : ℕ) (back : List ℕ)
    → end_of_buffer (at m front (w ∷ back)) ≡ false
unfolding end_of_buffer
more_words m front w back = ground (arith, length-append front (w ∷ back))

module _ {S : Type 0} (dev : Device) (laws : DeviceLaws dev) (table : Actions S)
    (missing : ℕ → ℕ → M S (Unit {0})) (report : ℕ → ℕ → List ℕ → S → S) where
  process_loop-replies :
      (rs : List Reply) (q : List (ℕ × ℕ)) (m : ModbusBuffer) (front : List ℕ) (s : S) (fuel : ℕ)
      → All (Answered dev table report) rs
      → length rs < fuel
      → let words = map laws.word_of (frames_of rs) in
        process_loop dev table missing fuel
          (record { modbus = at (idle m (calls_of rs ++ q)) front words; self = s })
        ≡ ok tt (record { modbus = at (idle m q) (front ++ words) []; self = reported report rs s })
  unfolding process_loop
  process_loop-replies rs q m front s zero h enough = absurd (omega arith)
  process_loop-replies [] q m front s (suc fuel) h enough =
      rw (at_end (idle m q) front, process_loop)
        (λ i. ok tt (record { modbus = at (idle m q) (sym (append-nil front) i) []; self = s }))
  process_loop-replies (r ∷ rs) q m front s (suc fuel) (hr, hs) enough =
      rw (going_on, process_loop)
        (>>-ok (process_one dev table missing) _ _ (
            ap
              (λ t.
                process_one dev table missing
                  (record { modbus = at (idle m queue) front t; self = s }))
              split
            ∙ process_one-reply dev laws table missing report r (calls_of rs ++ q) m front _ s hr)
          ∙ process_loop-replies rs q m (front ++ words) _ fuel hs (omega arith)
          ∙ ap
              (λ f.
                ok tt (record { modbus = at (idle m q) f []; self = reported report (r ∷ rs) s }))
              (append_assoc front words more ∙ ap (λ t. front ++ t) (sym split)))
    where
      queue : List (ℕ × ℕ)
      queue = calls_of (r ∷ rs) ++ q

      words : List ℕ
      words = map laws.word_of (frame_of r)

      more : List ℕ
      more = map laws.word_of (frames_of rs)

      split : map laws.word_of (frames_of (r ∷ rs)) ≡ words ++ more
      split = map-append laws.word_of (frame_of r) (frames_of rs)

      going_on :
          end_of_buffer (at (idle m queue) front (map laws.word_of (frames_of (r ∷ rs)))) ≡ false
      going_on =
          ap (λ f. end_of_buffer (at (idle m queue) front (map laws.word_of (f ++ frames_of rs))))
            (call_function_frame r.address r.function (args_of r.values))
          ∙ more_words (idle m queue) front (laws.word_of (u8 r.address)) _

  -- A response of replies to the commands at the front of the queue, in their order and with
  -- bytes and values in range, on a buffer that keeps no records: each is read by the action of its
  -- function, which reads values of its types, checks the CRC and reports them, and all is reported in
  -- order. The commands behind are left on the queue, and the whole response has been read. As many
  -- rounds as there are replies, and one more, are enough.
  pub process_response-replies :
      (rs : List Reply) (q : List (ℕ × ℕ)) (m : ModbusBuffer) (s : S) (fuel : ℕ)
      → m.record_changes ≡ false
      → m.commanded ≡ calls_of rs ++ q
      → All (Answered dev table report) rs
      → length rs < fuel
      → let words = map laws.word_of (frames_of rs) in
        process_response dev table missing fuel no_processing no_processing words
          (record { modbus = m; self = s })
        ≡ ok tt (record {
          modbus = record m { buffer = words; index = length words; crc = reset; commanded = q };
          self = reported report rs s;
        })
  unfolding process_response set_buffer
  process_response-replies rs q m s fuel off queued h enough =
      >>-ok (process_loop dev table missing fuel) no_processing _ (
        ap (λ x. process_loop dev table missing fuel (record { modbus = x; self = s })) begun
        ∙ process_loop-replies rs q m [] s fuel h enough)
      ∙ (λ i. ok tt (record { modbus = ended i; self = reported report rs s }))
    where
      words : List ℕ
      words = map laws.word_of (frames_of rs)

      begun : set_buffer words m ≡ at (idle m (calls_of rs ++ q)) [] words
      begun = λ i. record m {
        buffer = words;
        index = 0;
        crc = reset;
        record_changes = off i;
        commanded = queued i;
      }

      ended :
          at (idle m q) words []
          ≡ record m { buffer = words; index = length words; crc = reset; commanded = q }
      ended = λ i. record m {
        buffer = append-nil words i;
        index = length words;
        crc = reset;
        record_changes = sym off i;
        commanded = q;
      }
