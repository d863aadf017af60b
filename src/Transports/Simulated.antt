-- ===== src/Transports/Simulated.antt =====
-- class SimulatedTransport of include/Transports/SimulatedTransport.h and
-- src/Transports/SimulatedTransport.cpp. The pure virtual method generate_response is an argument: it
-- changes what the subclass keeps, and the response.
use ts_c_riocpp.Common.{ℕ, ◌+◌, List, [], u64, ltb, ◌==◌, if◌then◌else◌, length, take, drop}
use ts_c_riocpp.Modbus.Exceptions.{ok, M, pure}
use ts_c_riocpp.Transports.{Line, BusMethods, World, commands}

pub record SimulatedTransport (D : Type 0) : Type 0 where
  pub device : D
  pub response : List ℕ
  pub bytes_written : ℕ
  pub bytes_read : ℕ

module _ {D : Type 0} where
  unfoldable pub write :
      (List ℕ → D × List ℕ → D × List ℕ) → List ℕ → M (SimulatedTransport D) (Unit {0})
  write generate_response buf t =
      let r = generate_response buf (t.device, t.response) in
      ok tt (record t {
        device = r.0;
        response = r.1;
        bytes_written = u64 (t.bytes_written + length buf);
      })

  -- read, with `len` that is not 0.
  unfoldable pub take_response : ℕ → M (SimulatedTransport D) (List ℕ)
  take_response len t =
      if ltb len (length t.response)
      then ok (take len t.response)
          (record t { response = drop len t.response; bytes_read = u64 (t.bytes_read + len) })
      else ok t.response
          (record t { response = []; bytes_read = u64 (t.bytes_read + length t.response) })

  unfoldable pub read : ℕ → M (SimulatedTransport D) (List ℕ)
  unfolding take_response
  read len = take_response (if len == 0 then 1 else len)

  unfoldable pub telemetry : SimulatedTransport D → ℕ × ℕ
  telemetry t = (t.bytes_written, t.bytes_read)

  unfoldable pub simulated_line :
      (List ℕ → D × List ℕ → D × List ℕ) → (D → ℕ × D) → Line (SimulatedTransport D)
  unfolding write read
  simulated_line generate_response clock = record {
    write = write generate_response;
    read = λ len timeout. read len;
    clock = λ t. let r = clock t.device in ok r.0 (record t { device = r.1 });
  }

  unfoldable pub simulated_commands :
      {S : Type 0}
      → (List ℕ → D × List ℕ → D × List ℕ)
      → (D → ℕ × D)
      → BusMethods S
      → ℕ
      → ℕ
      → M (World (SimulatedTransport D) S) (Unit {0})
  unfolding simulated_line
  simulated_commands generate_response clock b fuel timeout =
      commands (simulated_line generate_response clock) b fuel timeout (pure tt)
