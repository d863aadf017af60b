-- ===== src/Crio/ModbusBuffer/Calls.antt =====
-- Several calls in one ModbusBuffer.
use ts_c_riocpp.Common.{
  ℕ, ◌≡◌, refl, sym, ap, ◌∙◌, List, [], ◌∷◌, ◌++◌, append-nil, append_assoc, Bool, true, false, map,
  ltb, ◌==◌, ◌&&◌, ◌||◌, if◌then◌else◌,
}
use ts_c_riocpp.Modbus.Crc.{reset}
use ts_c_riocpp.Modbus.Buffer as Queue
use ts_c_riocpp.Crio.ModbusBuffer.{ModbusBuffer, Device, push_commanded}
use ts_c_riocpp.Crio.ModbusBuffer.Stream.{Param, call_function}
use ts_c_riocpp.Crio.ModbusBuffer.Laws.{DeviceLaws}
use ts_c_riocpp.Crio.ModbusBuffer.Frames.{args_of, call_function-frame}

pub record Call : Type 0 where
  pub address : ℕ
  pub function : ℕ
  pub timeout : ℕ
  pub params : List Param

pub call_all : Device → List Call → ModbusBuffer → ModbusBuffer
call_all dev [] m = m
call_all dev (c ∷ cs) m =
    call_all dev cs (call_function dev c.address c.function c.timeout c.params m)

abbrev pub answers : ℕ → Bool
answers address = (ltb 0 address && ltb address 248) || (address == 255)

-- The commands to a single device, or to 255.
abbrev pub awaited : List Call → List (ℕ × ℕ)
awaited [] = []
awaited (c ∷ cs) = (if answers c.address then (c.address, c.function) ∷ [] else []) ++ awaited cs

choose :
    (b : Bool) (x : ℕ × ℕ) (m : ModbusBuffer)
    → (if b then record m { commanded = m.commanded ++ (x ∷ []) } else m)
      ≡ record m { commanded = m.commanded ++ (if b then x ∷ [] else []) }
choose true x m = refl
choose false x m = λ i. record m { commanded = sym (append-nil m.commanded) i }

-- A buffer to which calls are written, and which keeps no records.
abbrev open_for : ModbusBuffer → List ℕ → List (ℕ × ℕ) → ModbusBuffer
open_for m words q = record m { buffer = words; crc = reset; record_changes = false; commanded = q }

module _ (dev : Device) (laws : DeviceLaws dev) where
  -- The frames that Buffer makes of the calls, each from an empty buffer, as words, with the end of the
  -- frame and the wait.
  abbrev pub words_of_call : Call → List ℕ
  words_of_call c =
      map laws.word_of (Queue.call_function [] c.address c.function (args_of c.params))
      ++ (laws.end_words ++ laws.wait_words c.timeout)

  abbrev pub words_of : List Call → List ℕ
  words_of [] = []
  words_of (c ∷ cs) = words_of_call c ++ words_of cs

  one_call :
      (c : Call) (m : ModbusBuffer) (words : List ℕ) (q : List (ℕ × ℕ))
      → call_function dev c.address c.function c.timeout c.params (open_for m words q)
        ≡ open_for m
            (words ++ words_of_call c)
            (q ++ (if answers c.address then (c.address, c.function) ∷ [] else []))
  unfolding push_commanded
  one_call c m words q =
      call_function-frame dev laws c.address c.function c.timeout c.params (open_for m words q) refl
      ∙ choose (answers c.address) (c.address, c.function) (open_for m (words ++ words_of_call c) q)

  call_all_open :
      (cs : List Call) (m : ModbusBuffer) (words : List ℕ) (q : List (ℕ × ℕ))
      → call_all dev cs (open_for m words q) ≡ open_for m (words ++ words_of cs) (q ++ awaited cs)
  unfolding call_all
  call_all_open [] m words q = λ i. open_for m (sym (append-nil words) i) (sym (append-nil q) i)
  call_all_open (c ∷ cs) m words q =
      ap (call_all dev cs) (one_call c m words q)
      ∙ call_all_open cs m (words ++ words_of_call c) (q ++ now)
      ∙ (λ i.
          open_for m (append_assoc words (words_of_call c) (words_of cs) i)
            (append_assoc q now (awaited cs) i))
    where
      now : List (ℕ × ℕ)
      now = if answers c.address then (c.address, c.function) ∷ [] else []

  -- With a CRC that has been reset, and no records kept, any number of calls appends the words of their
  -- frames, each the frame that callFunction of Buffer makes in an empty buffer, with its end and its
  -- wait. The calls whose addresses answer are queued in order, and nothing else is changed.
  pub call_all-frames :
      (cs : List Call) (m : ModbusBuffer)
      → m.crc ≡ reset
      → m.record_changes ≡ false
      → call_all dev cs m
        ≡ record m { buffer = m.buffer ++ words_of cs; commanded = m.commanded ++ awaited cs }
  call_all-frames cs m fresh off =
      ap (call_all dev cs) (λ i. record m { crc = fresh i; record_changes = off i })
      ∙ call_all_open cs m m.buffer m.commanded
      ∙ (λ i. record m {
        buffer = m.buffer ++ words_of cs;
        commanded = m.commanded ++ awaited cs;
        crc = sym fresh i;
        record_changes = sym off i;
      })
