-- ===== src/Transports/Serial/Telemetry.antt =====
-- What the device answers to a request.
use ts_c_riocpp.Common.{
  ℕ, suc, ◌^◌, ◌<◌, ◌≡◌, refl, ap, ap₂, [], ◌∷◌, ◌++◌, arith, ◌==◌, ==_self, false,
}
use ts_c_riocpp.Modbus.Exceptions.{communication_error, ok, throw, ◌>>=◌, ◌>>◌, >>-throw}
use ts_c_riocpp.Modbus.Buffer.Frame.{network}
use ts_c_riocpp.Modbus.Parser.Reads.{swap-network}
use ts_c_riocpp.Transports.Serial.{
  Fifos, error_response, read_code, flush_code, telemetry_code, request, report_error, read_chunk,
  read_loop, read, flush, telemetry,
}

module _ {T : Type 0} (f : Fifos T) (s s1 s2 s3 : T) where
  request_ok :
      (req : ℕ)
      → f.write_fifo (req ∷ []) s ≡ ok tt s1
      → f.read_fifo 1 s1 ≡ ok (req ∷ []) s2
      → (req == error_response) ≡ false
      → request f req s ≡ ok tt s2
  unfolding request
  request_ok req w r n = rw (w, ◌>>◌) (rw (r, ◌>>=◌) (rw (n, ==_self req) refl))

  report_error_lem :
      (req code : ℕ)
      → code < 2 ^ 32
      → f.read_fifo 4 s2 ≡ ok (network 4 code) s3
      → report_error f req s2 ≡ throw (communication_error req code) s3
  unfolding report_error
  report_error_lem req code h e =
      rw (e, ◌>>=◌)
        (ap (λ c. throw (communication_error req c) s3) (swap-network 4 code (omega arith)))

  request_error :
      (req code : ℕ)
      → code < 2 ^ 32
      → f.write_fifo (req ∷ []) s ≡ ok tt s1
      → f.read_fifo 1 s1 ≡ ok (error_response ∷ []) s2
      → f.read_fifo 4 s2 ≡ ok (network 4 code) s3
      → request f req s ≡ throw (communication_error req code) s3
  unfolding request
  request_error req code h w r e =
      rw (w, ◌>>◌)
        (rw (r, ◌>>=◌) (>>-throw (report_error f req) _ s2 (report_error_lem req code h e)))

  -- A device that answers with its code, and then with two numbers of 64 bits, each with its highest byte
  -- first: telemetry returns the two.
  pub telemetry_lem :
      (write_bytes read_bytes : ℕ)
      → write_bytes < 2 ^ 64
      → read_bytes < 2 ^ 64
      → f.write_fifo (telemetry_code ∷ []) s ≡ ok tt s1
      → f.read_fifo 1 s1 ≡ ok (telemetry_code ∷ []) s2
      → f.read_fifo 16 s2 ≡ ok (network 8 write_bytes ++ network 8 read_bytes) s3
      → telemetry f s ≡ ok (write_bytes, read_bytes) s3
  unfolding telemetry
  telemetry_lem a b ha hb w r e =
      rw (request_ok telemetry_code w r refl, ◌>>◌)
        (rw (e, ◌>>=◌)
          (ap₂ (λ x y. ok (x, y) s3) (swap-network 8 a (omega arith))
            (swap-network 8 b (omega arith))))

-- What a device does with a request that it refuses, from the state `s` on: it takes the request, and
-- answers with the error response and then the code, its highest byte first, which leaves it in `left`.
pub record Refuses {T : Type 0} (f : Fifos T) (s : T) (req code : ℕ) (left : T) : Type 0 where
  pub fits : code < 2 ^ 32
  pub asked : T
  pub answered : T
  pub writes : f.write_fifo (req ∷ []) s ≡ ok tt asked
  pub response : f.read_fifo 1 asked ≡ ok (error_response ∷ []) answered
  pub reports : f.read_fifo 4 answered ≡ ok (network 4 code) left

module _ {T : Type 0} (f : Fifos T) (s : T) where
  refused :
      (req code : ℕ) (left : T)
      → Refuses f s req code left
      → request f req s ≡ throw (communication_error req code) left
  refused req code left d =
      request_error f s d.asked d.answered left req code d.fits d.writes d.response d.reports

  chunk_refused :
      (code : ℕ) (left : T)
      → Refuses f s read_code code left
      → read_chunk f s ≡ throw (communication_error read_code code) left
  unfolding read_chunk
  chunk_refused code left d = rw (refused read_code code left d, ◌>>◌) refl

  read_refused :
      (before : T) (t fuel len timeout code : ℕ) (left : T)
      → f.now before ≡ ok t s
      → Refuses f s read_code code left
      → read f (suc fuel) len timeout before ≡ throw (communication_error read_code code) left
  unfolding read read_loop
  read_refused before t fuel len timeout code left clock d =
      rw (clock, ◌>>=◌) (rw (chunk_refused code left d, ◌>>=◌) refl)

  -- A device that takes the requests of telemetry, flush and read, and answers with the error response and then with a code of 32 bits,
  -- its highest byte first, where its states and the code may depend on the request: telemetry, flush and read throw
  -- CommunicationError with the request and that code, and nothing is written or read behind it. read
  -- asks the device after it has asked the clock, and has rounds left.
  pub error_response_lem :
      (code : ℕ → ℕ) (left : ℕ → T) (before : T) (t fuel len timeout : ℕ)
      → Refuses f s telemetry_code (code telemetry_code) (left telemetry_code)
      → Refuses f s flush_code (code flush_code) (left flush_code)
      → Refuses f s read_code (code read_code) (left read_code)
      → f.now before ≡ ok t s
      → (telemetry f s
          ≡ throw (communication_error telemetry_code (code telemetry_code)) (left telemetry_code))
        × (flush f s ≡ throw (communication_error flush_code (code flush_code)) (left flush_code))
        × (read f (suc fuel) len timeout before
            ≡ throw (communication_error read_code (code read_code)) (left read_code))
  unfolding telemetry flush
  error_response_lem code left before t fuel len timeout d e g clock = (
    rw (refused telemetry_code (code telemetry_code) _ d, ◌>>◌) refl,
    refused flush_code (code flush_code) _ e,
    read_refused before t fuel len timeout (code read_code) _ clock g,
  )
