-- ===== src/Crio/ModbusBuffer/Step.antt =====
-- One round of processResponse, on the reply to the call at the front of the queue.
use ts_c_riocpp.Common.{
  ℕ, ◌≡◌, refl, ap, ◌∙◌, List, [], ◌∷◌, ◌++◌, some, none, IsByte, false, map, u8, ==_self,
}
use ts_c_riocpp.Modbus.Exceptions.{ok, M, ◌>>=◌, ◌>>◌, >>=-ok, >>-ok}
use ts_c_riocpp.Modbus.Crc.{crc_of, add_all, reset}
use ts_c_riocpp.Modbus.Buffer as Queue
use ts_c_riocpp.Modbus.Buffer.{Scalar, uint8}
use ts_c_riocpp.Modbus.Buffer.Frame.{
  encoded_args, body_of, body_of-IsByte, crc_bytes, call_function_frame,
}
use ts_c_riocpp.Modbus.Parser.RoundTrip.{Values, types, numbers, args_of, FitsAll}
use ts_c_riocpp.Crio.ModbusBuffer.{ModbusBuffer, Device}
use ts_c_riocpp.Crio.ModbusBuffer.Stream.{read, check_crc}
use ts_c_riocpp.Crio.ModbusBuffer.Laws.{DeviceLaws}
use ts_c_riocpp.Crio.ModbusBuffer.Frames.{frame_words, frame_split}
use ts_c_riocpp.Crio.ModbusBuffer.Readback.{at, absorbed, read_all, read-encoded, read_all-encoded}
use ts_c_riocpp.Crio.ModbusBuffer.Messages.{check_crc_frame}
use ts_c_riocpp.Crio.ModbusBuffer.Responses.{
  Owner, Actions, on_modbus, on_self, with_commanded, match_commanded, check_commanded,
  check_function, catch_out_of_range, call_action, process_one,
}

summed :
    (address function : ℕ) (args : List ℕ)
    → add_all (add_all (add_all reset (u8 address ∷ [])) (u8 function ∷ [])) args
      ≡ crc_of (u8 address ∷ u8 function ∷ args)
unfolding crc_of add_all
summed address function args = refl

pub record Reply : Type 0 where
  pub address : ℕ
  pub function : ℕ
  pub values : Values

-- The commands that expect such replies, and the words of these.
abbrev pub calls_of : List Reply → List (ℕ × ℕ)
calls_of [] = []
calls_of (r ∷ rs) = (r.address, r.function) ∷ calls_of rs

abbrev pub frame_of : Reply → List ℕ
frame_of r = Queue.call_function [] r.address r.function (args_of r.values)

abbrev pub frames_of : List Reply → List ℕ
frames_of [] = []
frames_of (r ∷ rs) = frame_of r ++ frames_of rs

-- A buffer between two messages.
abbrev pub idle : ModbusBuffer → List (ℕ × ℕ) → ModbusBuffer
idle m q = record m { crc = reset; record_changes = false; commanded = q }

module _ {S : Type 0} where
  -- An action that reads values of these types, checks the CRC, and reports the values.
  abbrev pub reading : Device → List Scalar → (ℕ → List ℕ → S → S) → ℕ → M (Owner S) (Unit {0})
  reading dev ts report address = do
    vs ← on_modbus (read_all dev ts)
    on_modbus (check_crc dev)
    on_self (λ s. ok tt (report address vs s))

  -- The reports of the replies, one after the other.
  abbrev pub reported : (ℕ → ℕ → List ℕ → S → S) → List Reply → S → S
  reported report [] s = s
  reported report (r ∷ rs) s = reported report rs (report r.function r.address (numbers r.values) s)

  -- A reply with bytes and values in range, to whose function an action of its types belongs.
  abbrev pub Answered : Device → Actions S → (ℕ → ℕ → List ℕ → S → S) → Reply → Type 0
  Answered dev table report r =
      IsByte r.address
      × IsByte r.function
      × FitsAll r.values
      × (table.error_actions r.function ≡ none)
      × (table.actions r.function ≡ some (reading dev (types r.values) (report r.function)))

  on_modbus-ok :
      {A : Type 0} (m : M ModbusBuffer A) (x : ModbusBuffer) (s : S) {a : A} {b : ModbusBuffer}
      → m x ≡ ok a b
      → on_modbus m (record { modbus = x; self = s }) ≡ ok a (record { modbus = b; self = s })
  on_modbus-ok m x s e = rw (e, on_modbus) refl

  -- The reply to the command at the front of the queue takes it off.
  check_commanded-front :
      (missing : ℕ → ℕ → M S (Unit {0})) (address function : ℕ) (q : List (ℕ × ℕ)) (o : Owner S)
      → o.modbus.commanded ≡ (address, function) ∷ q
      → check_commanded missing address function o ≡ ok tt (with_commanded q o)
  unfolding check_commanded match_commanded
  check_commanded-front missing address function [] o e =
      rw (e, ==_self address, ==_self function) refl
  check_commanded-front missing address function (c ∷ q) o e =
      rw (e, ==_self address, ==_self function) refl

  catch_out_of_range-ok :
      (m handler : M (Owner S) (Unit {0})) (o : Owner S) {o' : Owner S}
      → m o ≡ ok tt o'
      → catch_out_of_range m handler o ≡ ok tt o'
  catch_out_of_range-ok m handler o e = rw (e, catch_out_of_range) refl

  module _ (dev : Device) (laws : DeviceLaws dev) (table : Actions S)
      (missing : ℕ → ℕ → M S (Unit {0})) (report : ℕ → ℕ → List ℕ → S → S) where
    call_action-reply :
        (r : Reply) (m : ModbusBuffer) (front back : List ℕ) (s : S)
        → Answered dev table report r
        → let args = encoded_args (args_of r.values) in
          let body = body_of r.address r.function (args_of r.values) in
          let w : List ℕ → List ℕ = λ bs. map laws.word_of bs in
          m.crc ≡ add_all (add_all reset (u8 r.address ∷ [])) (u8 r.function ∷ [])
          → call_action dev table missing r.address r.function
              (record { modbus = at m front (w args ++ (w (crc_bytes body) ++ back)); self = s })
            ≡ ok tt (record {
              modbus =
                  at
                    (record (absorbed m args) { crc = reset; record_changes = false })
                    ((front ++ w args) ++ w (crc_bytes body))
                    back;
              self = report r.function r.address (numbers r.values) s;
            })
    unfolding call_action
    call_action-reply r m front back s (ha, hf, hv, no_error, has_action) e =
        rw (has_action, call_action)
          (>>=-ok (on_modbus (read_all dev (types r.values))) _ _ (
              on_modbus-ok (read_all dev (types r.values)) _ s (
                read_all-encoded dev laws m front (map laws.word_of (crc_bytes body) ++ back)
                  r.values hv))
            ∙ >>-ok (on_modbus (check_crc dev)) _ _ (
                on_modbus-ok (check_crc dev) _ s (
                  check_crc_frame dev laws (absorbed m args) (front ++ map laws.word_of args) body
                    back (body_of-IsByte r.address r.function (args_of r.values))
                    (ap (λ c. add_all c args) e ∙ summed r.address r.function args))))
      where
        args : List ℕ
        args = encoded_args (args_of r.values)

        body : List ℕ
        body = body_of r.address r.function (args_of r.values)

    pub process_one-reply :
        (r : Reply) (q : List (ℕ × ℕ)) (m : ModbusBuffer) (front back : List ℕ) (s : S)
        → Answered dev table report r
        → let words = map laws.word_of (frame_of r) in
          process_one dev table missing (record {
            modbus = at (idle m ((r.address, r.function) ∷ q)) front (words ++ back);
            self = s;
          })
          ≡ ok tt (record {
            modbus = at (idle m q) (front ++ words) back;
            self = report r.function r.address (numbers r.values) s;
          })
    unfolding process_one check_function
    process_one-reply r q m front back s h =
        rw (call_function_frame r.address r.function (args_of r.values)) (
          ap (λ t. process_one dev table missing (own (at (idle m queue) front t)))
            (frame_split laws.word_of (u8 r.address) (u8 r.function) args (crc_bytes body) back)
          ∙ >>=-ok (on_modbus (read dev uint8)) _ _ (
              on_modbus-ok (read dev uint8) _ s
                (read-encoded dev laws (idle m queue) front _ uint8 r.address h.0))
          ∙ >>=-ok (on_modbus (read dev uint8)) _ _ (
              on_modbus-ok (read dev uint8) _ s
                (read-encoded dev laws m1 front1 _ uint8 r.function h.1))
          ∙ >>-ok (check_function dev table missing r.address r.function) _ _ matched
          ∙ catch_out_of_range-ok (call_action dev table missing r.address r.function) _ _ (
              call_action-reply r
                (absorbed (absorbed (idle m q) (u8 r.address ∷ [])) (u8 r.function ∷ [])) front2
                back s h refl)
          ∙ ap
              (λ f. ok tt (record {
                modbus = at (idle m q) f back;
                self = report r.function r.address (numbers r.values) s;
              }))
              (frame_words laws.word_of front (u8 r.address) (u8 r.function) args (crc_bytes body)))
      where
        own : ModbusBuffer → Owner S
        own x = record { modbus = x; self = s }

        queue : List (ℕ × ℕ)
        queue = (r.address, r.function) ∷ q

        args : List ℕ
        args = encoded_args (args_of r.values)

        body : List ℕ
        body = body_of r.address r.function (args_of r.values)

        w : List ℕ → List ℕ
        w bs = map laws.word_of bs

        m1 : ModbusBuffer
        m1 = absorbed (idle m queue) (u8 r.address ∷ [])

        front1 : List ℕ
        front1 = front ++ w (u8 r.address ∷ [])

        front2 : List ℕ
        front2 = front1 ++ w (u8 r.function ∷ [])

        m2 : ModbusBuffer
        m2 = at (absorbed m1 (u8 r.function ∷ [])) front2 (w args ++ (w (crc_bytes body) ++ back))

        matched :
            check_function dev table missing r.address r.function (own m2)
            ≡ ok tt (with_commanded q (own m2))
        matched =
            rw (h.3, check_function)
              (check_commanded-front missing r.address r.function q (own m2) refl)
