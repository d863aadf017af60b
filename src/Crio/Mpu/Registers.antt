-- ===== src/Crio/Mpu/Registers.antt =====
-- The reply to a read of holding registers fills the cache.
use ts_c_riocpp.Common.{
  ℕ, zero, suc, ◌+◌, ◌*◌, ◌/◌, ◌%◌, ◌^◌, ◌≤◌, ◌<◌, ◌≡◌, ◌⊎◌, refl, ap, ◌∙◌, List, [], ◌∷◌, ◌++◌,
  append-nil, append_assoc, arith, length, length-append, get_elem?, Option, All, All-append,
  IsByte, ==_self, u16,
}
use ts_c_riocpp.Modbus.Exceptions.{ok, >>=-ok, >>-ok}
use ts_c_riocpp.Modbus.Buffer.{uint8, uint16}
use ts_c_riocpp.Modbus.Buffer.Frame.{network, network-IsByte, crc_bytes}
use ts_c_riocpp.Modbus.Parser.{Parser, address, read, check_crc}
use ts_c_riocpp.Modbus.Parser.Reads.{at, read-encoded}
use ts_c_riocpp.Modbus.Handler.{Handler, reading, reading-ok}
use ts_c_riocpp.Crio.Mpu.{
  CommandedInfo, Mpu, put, next_commanded, check_node, register_loop, on_holding_registers,
}

abbrev pub IsWord : ℕ → Type 0
IsWord v = v < 2 ^ 16

-- 16-bit values on the wire.
abbrev pub words : List ℕ → List ℕ
words [] = []
words (v ∷ vs) = network 2 v ++ words vs

-- The cache after the values `vs` were stored from `start + i` on.
abbrev pub stored : ℕ → ℕ → List ℕ → (ℕ → Option ℕ) → ℕ → Option ℕ
stored start i [] m = m
stored start i (v ∷ vs) m = stored start (i + 1) vs (put m (u16 (start + i)) v)

register_loop_lem :
    (vs : List ℕ) (i : ℕ) (c : CommandedInfo) (front back : List ℕ) (m : Mpu)
    → All IsWord vs
    → register_loop (length vs) i c (record { parser = at front (words vs ++ back); self = m })
      ≡ ok tt (record {
        parser = at (front ++ words vs) back;
        self = record m { registers = stored c.address i vs m.registers };
      })
unfolding register_loop
register_loop_lem [] i c front back m h = rw append-nil refl
register_loop_lem (v ∷ vs) i c front back m h =
    >>=-ok (reading (read uint16)) _ _ (
      reading-ok (read uint16) _ _ m v (
        ap (λ r. read uint16 (at front r)) (append_assoc (network 2 v) (words vs) back)
        ∙ read-encoded front (words vs ++ back) uint16 v h.0))
    ∙ register_loop_lem vs (i + 1) c (front ++ network 2 v) back
        (record m { registers = put m.registers (u16 (c.address + i)) v }) h.1
    ∙ ap
        (λ f. ok tt (record {
          parser = at f back;
          self = record m { registers = stored c.address i (v ∷ vs) m.registers };
        }))
        (append_assoc front (network 2 v) (words vs))

pub stored_outside :
    (start i : ℕ) (vs : List ℕ) (m : ℕ → Option ℕ) (a : ℕ)
    → start + i + length vs ≤ 2 ^ 16
    → (a < start + i) ⊎ (start + i + length vs ≤ a)
    → stored start i vs m a ≡ m a
stored_outside start i [] m a fits h = refl
stored_outside start i (v ∷ vs) m a fits h =
    stored_outside start (i + 1) vs (put m (u16 (start + i)) v) a (omega arith) (omega arith)
    ∙ ground arith

pub stored_inside :
    (start i : ℕ) (vs : List ℕ) (m : ℕ → Option ℕ) (j : ℕ)
    → start + i + length vs ≤ 2 ^ 16
    → j < length vs
    → stored start i vs m (start + i + j) ≡ get_elem? vs j
stored_inside start i [] m j fits h = absurd (omega arith)
stored_inside start i (v ∷ vs) m zero fits h =
    stored_outside start (i + 1) vs (put m (u16 (start + i)) v) (start + i + 0) (omega arith)
      (omega arith)
    ∙ ground arith
stored_inside start i (v ∷ vs) m (suc j) fits h =
    ap (stored start (i + 1) vs (put m (u16 (start + i)) v)) (omega arith)
    ∙ stored_inside start (i + 1) vs (put m (u16 (start + i)) v) j (omega arith) (omega arith)

-- The reply of a node to a read: address, function, count of bytes, values.
abbrev pub reply_body : ℕ → List ℕ → List ℕ
reply_body node vs = node ∷ 3 ∷ (2 * length vs) ∷ words vs

abbrev pub reply : ℕ → List ℕ → List ℕ
reply node vs = reply_body node vs ++ crc_bytes (reply_body node vs)

pub words-IsByte : (vs : List ℕ) → All IsByte (words vs)
words-IsByte [] = tt
words-IsByte (v ∷ vs) =
    All-append IsByte (network 2 v) (words vs) (network-IsByte 2 v) (words-IsByte vs)

pub length-words : (vs : List ℕ) → length (words vs) ≡ 2 * length vs
length-words [] = refl
length-words (v ∷ vs) = omega (arith, length-append (network 2 v) (words vs), length-words vs)

-- The object after the reply.
abbrev pub after_reply : Mpu → CommandedInfo → List CommandedInfo → List ℕ → Mpu
after_reply m c cs vs = record m {
  commanded_info = cs;
  registers = stored c.address 0 vs m.registers;
}

abbrev pub handling : List ℕ → List ℕ → Mpu → Handler Mpu
handling front rest m = record { parser = at front rest; self = m }

pub popped :
    {p : Parser} (m : Mpu) (c : CommandedInfo) (cs : List CommandedInfo)
    → m.commanded_info ≡ c ∷ cs
    → next_commanded (record { parser = p; self = m })
      ≡ ok c (record { parser = p; self = record m { commanded_info = cs } })
unfolding next_commanded
popped m c cs e = rw (e, next_commanded) refl

pub own_node :
    (m : Mpu) (rest : List ℕ) (pos : ℕ)
    → let h : Handler Mpu = record {
      parser = record { bytes = m.node_address ∷ rest; pos = pos };
      self = m;
    } in
      check_node h ≡ ok tt h
unfolding check_node address
own_node m rest pos = rw (==_self m.node_address) refl

-- The handler, up to its check of the CRC, where `tail` is left of the message.
pub on_holding_registers_lem :
    (m : Mpu) (c : CommandedInfo) (cs : List CommandedInfo) (vs tail : List ℕ)
    → m.commanded_info ≡ c ∷ cs
    → All IsWord vs
    → length vs < 128
    → on_holding_registers
        (handling (m.node_address ∷ 3 ∷ []) ((2 * length vs) ∷ (words vs ++ tail)) m)
      ≡ reading check_crc (handling (reply_body m.node_address vs) tail (after_reply m c cs vs))
unfolding on_holding_registers
on_holding_registers_lem m c cs vs tail e hv short =
    >>=-ok next_commanded _ _ (popped m c cs e)
    ∙ >>-ok check_node _ _ (own_node m' _ 2)
    ∙ >>=-ok (reading (read uint8)) _ _ (
        reading-ok (read uint8) _ _ m' (2 * length vs) (
          ap (λ b. read uint8 (at (m.node_address ∷ 3 ∷ []) (b ∷ (words vs ++ tail)))) (omega arith)
          ∙ read-encoded (m.node_address ∷ 3 ∷ []) (words vs ++ tail) uint8 (2 * length vs)
              (omega arith)))
    ∙ >>-ok (register_loop (2 * length vs / 2) 0 c) _ _ (
        ap
          (λ n.
            register_loop n 0 c
              (handling (m.node_address ∷ 3 ∷ (2 * length vs % 256) ∷ []) (words vs ++ tail) m'))
          (omega arith)
        ∙ register_loop_lem vs 0 c (m.node_address ∷ 3 ∷ (2 * length vs % 256) ∷ []) tail m' hv)
    ∙ ap
        (λ b.
          reading check_crc
            (handling (m.node_address ∷ 3 ∷ b ∷ words vs) tail (after_reply m c cs vs)))
        (omega arith)
  where
    m' : Mpu
    m' = record m { commanded_info = cs }
