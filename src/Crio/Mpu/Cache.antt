-- ===== src/Crio/Mpu/Cache.antt =====
-- From the bytes of a reply to what getRegister answers.
use ts_c_riocpp.Common.{
  ℕ, ◌+◌, ◌*◌, ◌^◌, ◌≤◌, ◌<◌, ◌≡◌, ◌≢◌, ◌⊎◌, refl, ap, ◌∙◌, List, [], ◌∷◌, ◌++◌, arith, length,
  length-append, get_elem?, some, All, IsByte, ==_self,
}
use ts_c_riocpp.Modbus.Exceptions.{Error, crc_error, ok, throw, M, final}
use ts_c_riocpp.Modbus.Crc.{crc_of}
use ts_c_riocpp.Modbus.Buffer.Frame.{crc_bytes}
use ts_c_riocpp.Modbus.Parser.{Parser, check_crc, new_parser, address, func}
use ts_c_riocpp.Modbus.Parser.Reads.{at}
use ts_c_riocpp.Modbus.Parser.RoundTrip.{new_parser_lem}
use ts_c_riocpp.Modbus.Parser.Check.{check_crc_frame, check_crc_refused}
use ts_c_riocpp.Modbus.Handler.{Handler, reading-ok, reading-throw, callback}
use ts_c_riocpp.Modbus.BusList.{
  Node, find_response, expected, heading, advance, on_self, dispatch, parse_action, parse,
  parse_bytes,
}
use ts_c_riocpp.Crio.Mpu.{CommandedInfo, Mpu, mpu_functions, on_holding_registers, get_register}
use ts_c_riocpp.Crio.Mpu.Registers.{
  IsWord, words, words-IsByte, reply_body, reply, stored, stored_inside, stored_outside,
  after_reply, on_holding_registers_lem,
}

-- A response of the node to the command at the index goes to the callback of its function.
chosen :
    (p : Parser) (n : Node Mpu)
    → parse_action mpu_functions p 3 n ≡ on_self (callback on_holding_registers p) (advance n)
unfolding parse_action mpu_functions find_response
chosen p n = refl

matched :
    (a : ℕ) (rest : List ℕ) (n : Node Mpu)
    → expected n.bus ≡ some (a, 3)
    → parse mpu_functions (at (a ∷ 3 ∷ []) rest) n
      ≡ parse_action mpu_functions (at (a ∷ 3 ∷ []) rest) 3 n
unfolding parse heading address func dispatch
matched a rest n e = ground (arith, e, ==_self a)

constructed :
    (bytes : List ℕ) (p : Parser) (n : Node Mpu)
    → new_parser bytes ≡ ok tt p
    → parse_bytes mpu_functions bytes n ≡ parse mpu_functions p n
unfolding parse_bytes
constructed bytes p n e = rw (e, parse_bytes) refl

respond_holding_registers :
    (n : Node Mpu) (rest : List ℕ)
    → 2 ≤ length rest
    → expected n.bus ≡ some (n.self.node_address, 3)
    → parse_bytes mpu_functions (n.self.node_address ∷ 3 ∷ rest) n
      ≡ on_self (callback on_holding_registers (at (n.self.node_address ∷ 3 ∷ []) rest)) (advance n)
respond_holding_registers n rest long e =
    constructed _ _ n (new_parser_lem n.self.node_address 3 rest long)
    ∙ matched n.self.node_address rest n e
    ∙ chosen _ n

callback_ok :
    (m : M (Handler Mpu) (Unit {0})) (p q : Parser) (s s' : Mpu)
    → m (record { parser = p; self = s }) ≡ ok tt (record { parser = q; self = s' })
    → callback m p s ≡ ok tt s'
unfolding callback
callback_ok m p q s s' e = rw (e, callback) refl

callback_throw :
    (m : M (Handler Mpu) (Unit {0})) (p q : Parser) (s s' : Mpu) (x : Error)
    → m (record { parser = p; self = s }) ≡ throw x (record { parser = q; self = s' })
    → callback m p s ≡ throw x s'
unfolding callback
callback_throw m p q s s' x e = rw (e, callback) refl

on_self_ok :
    (m : M Mpu (Unit {0})) (n : Node Mpu) (s : Mpu)
    → m n.self ≡ ok tt s
    → on_self m n ≡ ok tt (record n { self = s })
unfolding on_self
on_self_ok m n s e = rw (e, on_self) refl

on_self_throw :
    (m : M Mpu (Unit {0})) (n : Node Mpu) (s : Mpu) (x : Error)
    → m n.self ≡ throw x s
    → on_self m n ≡ throw x (record n { self = s })
unfolding on_self
on_self_throw m n s x e = rw (e, on_self) refl

-- The message of a reply whose CRC bytes are `tail`.
abbrev pub message : ℕ → List ℕ → List ℕ → List ℕ
message node vs tail = node ∷ 3 ∷ (2 * length vs) ∷ (words vs ++ tail)

module _ (n : Node Mpu) (c : CommandedInfo) (cs : List CommandedInfo) (vs : List ℕ)
    (next : expected n.bus ≡ some (n.self.node_address, 3)) (info : n.self.commanded_info ≡ c ∷ cs)
    (node : IsByte n.self.node_address) (values : All IsWord vs) (short : length vs < 128) where
  body-IsByte : All IsByte (reply_body n.self.node_address vs)
  body-IsByte = (node, (omega arith, (omega arith, words-IsByte vs)))

  -- The reply of the node that is expected next is accepted: the index moves on, the command is taken
  -- off the list, and the values are in the cache.
  reply_accepted :
      parse_bytes mpu_functions (reply n.self.node_address vs) n
      ≡ ok tt (record (advance n) { self = after_reply n.self c cs vs })
  unfolding advance
  reply_accepted =
      respond_holding_registers n _
        (omega (arith, length-append (words vs) (crc_bytes (reply_body n.self.node_address vs))))
        next
      ∙ on_self_ok _ (advance n) (after_reply n.self c cs vs) (
          callback_ok on_holding_registers _ _ n.self (after_reply n.self c cs vs) (
            on_holding_registers_lem n.self c cs vs (crc_bytes (reply_body n.self.node_address vs))
              info values short
            ∙ reading-ok check_crc _ _ (after_reply n.self c cs vs) tt
                (check_crc_frame (reply_body n.self.node_address vs) body-IsByte)))

  -- The reply of the node that is expected next, with fewer than 128 values of 16 bits and a CRC
  -- that is not that of the reply, throws CRCError with both CRCs; the index is one further, the
  -- command is off the list, and the values are in the cache as those of an accepted reply are.
  pub reply_refused :
      (lo hi : ℕ)
      → IsByte lo
      → IsByte hi
      → crc_of (reply_body n.self.node_address vs) ≢ lo + 256 * hi
      → parse_bytes mpu_functions (message n.self.node_address vs (lo ∷ hi ∷ [])) n
        ≡ throw
            (crc_error (crc_of (reply_body n.self.node_address vs)) (lo + 256 * hi))
            (record (advance n) { self = after_reply n.self c cs vs })
  unfolding advance
  reply_refused lo hi hlo hhi ne =
      respond_holding_registers n _ (omega (arith, length-append (words vs) (lo ∷ hi ∷ []))) next
      ∙ on_self_throw _ (advance n) (after_reply n.self c cs vs) refused (
          callback_throw on_holding_registers _ _ n.self (after_reply n.self c cs vs) refused (
            on_holding_registers_lem n.self c cs vs (lo ∷ hi ∷ []) info values short
            ∙ reading-throw check_crc _ _ (after_reply n.self c cs vs) refused
                (check_crc_refused (reply_body n.self.node_address vs) lo hi hlo hhi ne)))
    where
      refused : Error
      refused = crc_error (crc_of (reply_body n.self.node_address vs)) (lo + 256 * hi)

  -- After the reply of the node that is expected next, with fewer than 128 values of 16 bits, of
  -- registers below 2 ^ 16 from that of the command at the front of the list on, getRegister
  -- answers each of these values under its own address, and for every other register what it
  -- answered before; the index is one further, and that command is off the list.
  pub reply_cached :
      c.address + length vs ≤ 2 ^ 16
      → let after = parse_bytes mpu_functions (reply n.self.node_address vs) n in
        (after ≡ ok tt (final after))
        × (final after).bus ≡ (advance n).bus
        × (final after).self.commanded_info ≡ cs
        × ((j : ℕ)
            → j < length vs
            → get_register (final after).self (c.address + j) ≡ get_elem? vs j)
        × ((a : ℕ)
            → (a < c.address) ⊎ (c.address + length vs ≤ a)
            → get_register (final after).self a ≡ get_register n.self a)
  unfolding get_register advance
  reply_cached fits = rw reply_accepted (
    refl,
    refl,
    refl,
    λ j lt.
        ap (stored c.address 0 vs n.self.registers) (omega arith)
        ∙ stored_inside c.address 0 vs n.self.registers j (omega arith) lt,
    λ a out. stored_outside c.address 0 vs n.self.registers a (omega arith) (ground (arith, out)),
  )
