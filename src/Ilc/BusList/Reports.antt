-- ===== src/Ilc/BusList/Reports.antt =====
-- What the responses of an inner loop controller report.
use ts_c_riocpp.Common.{
  ℕ, ◌+◌, ◌-◌, ◌^◌, ◌<◌, ◌≡◌, refl, ap, ◌∙◌, List, [], ◌∷◌, ◌++◌, arith, length, IsByte, ltb,
  ltb-false,
}
use ts_c_riocpp.Modbus.Exceptions.{throw_if, >>=-ok, >>-ok}
use ts_c_riocpp.Modbus.Buffer.{uint8, uint16}
use ts_c_riocpp.Modbus.Buffer.Frame.{network}
use ts_c_riocpp.Modbus.Parser.{read, read_u48, read_string}
use ts_c_riocpp.Modbus.Parser.Reads.{at, read_u48-network, read_string_block}
use ts_c_riocpp.Modbus.Handler.{reading, callback, without_parser, reading-ok}
use ts_c_riocpp.Modbus.Handler.Steps.{byte_step, scalar_step, accepted, checked_call_lem}
use ts_c_riocpp.Ilc.BusList.{
  Ilc, Processors, set_last_mode, on_server_id, on_server_status, on_change_mode, invalid_server_id,
}

module _ {S : Type 0} (v : Processors S) (a f : ℕ) (s : Ilc S) (lo hi : ℕ) (hlo : IsByte lo)
    (hhi : IsByte hi) where
  -- A response to SERVER_STATUS, with a status and faults of 16 bits, reports mode, status and
  -- faults of the controller, and its mode is kept, exactly if its CRC is that of the message;
  -- otherwise CRCError is thrown and nothing is changed.
  pub server_status_lem :
      (mode status faults : ℕ)
      → status < 2 ^ 16
      → faults < 2 ^ 16
      → let body = a ∷ f ∷ mode ∷ (network 2 status ++ network 2 faults) in
        callback
          (on_server_status v)
          (at (a ∷ f ∷ []) (mode ∷ (network 2 status ++ network 2 faults) ++ (lo ∷ hi ∷ [])))
          s
        ≡ accepted
            (λ address t.
              v.process_server_status address mode status faults (set_last_mode address mode t))
            a
            body
            lo
            hi
            s
  unfolding on_server_status callback
  server_status_lem mode status faults hs hf =
      ap without_parser (
        >>=-ok (reading (read uint8)) _ _ (byte_step (a ∷ f ∷ []) _ mode s)
        ∙ >>=-ok (reading (read uint16)) _ _ (scalar_step (a ∷ f ∷ mode ∷ []) _ uint16 status s hs)
        ∙ >>=-ok (reading (read uint16)) _ _
            (scalar_step (a ∷ f ∷ mode ∷ network 2 status) _ uint16 faults s hf))
      ∙ checked_call_lem
          (λ address t.
            v.process_server_status address mode status faults (set_last_mode address mode t))
          a _ lo hi s hlo hhi

  -- A response to CHANGE_MODE, of a mode of 16 bits, reports it, and its low byte is kept as the
  -- mode of the controller, exactly if its CRC is that of the message; otherwise CRCError is thrown
  -- and nothing is changed.
  pub change_mode_lem :
      (mode : ℕ)
      → mode < 2 ^ 16
      → callback (on_change_mode v) (at (a ∷ f ∷ []) (network 2 mode ++ (lo ∷ hi ∷ []))) s
        ≡ accepted
            (λ address t. v.process_change_ilc_mode address mode (set_last_mode address mode t))
            a
            (a ∷ f ∷ network 2 mode)
            lo
            hi
            s
  unfolding on_change_mode callback
  change_mode_lem mode h =
      ap without_parser
        (>>=-ok (reading (read uint16)) _ _ (scalar_step (a ∷ f ∷ []) _ uint16 mode s h))
      ∙ checked_call_lem
          (λ address t. v.process_change_ilc_mode address mode (set_last_mode address mode t)) a _
          lo hi s hlo hhi

  -- A response to SERVER_ID, with a unique number of 48 bits, reports the identity and the firmware
  -- name, of the length that the response gives, exactly if its CRC is that of the message;
  -- otherwise CRCError is thrown and nothing is changed.
  server_id_lem :
      (unique_id app node selected options major minor : ℕ) (name : List ℕ)
      → unique_id < 2 ^ 48
      → let block = app ∷ node ∷ selected ∷ options ∷ major ∷ minor ∷ name in
        let rest = (12 + length name) ∷ (network 6 unique_id ++ block) in
        callback (on_server_id v) (at (a ∷ f ∷ []) (rest ++ (lo ∷ hi ∷ []))) s
        ≡ accepted
            (λ address.
              v.process_server_id address unique_id app node selected options major minor name)
            a
            (a ∷ f ∷ rest)
            lo
            hi
            s
  unfolding on_server_id callback
  server_id_lem uid app node selected options major minor name hu =
      ap without_parser (
        >>=-ok (reading (read uint8)) _ _ (byte_step (a ∷ f ∷ []) _ (12 + length name) s)
        ∙ >>-ok (throw_if (ltb (12 + length name) 12) invalid_server_id) _ _
            (rw (ltb-false (12 + length name) 12 (omega arith)) refl)
        ∙ >>=-ok (reading read_u48) _ _ (
            reading-ok read_u48 _ _ s uid
              (read_u48-network (a ∷ f ∷ (12 + length name) ∷ []) _ uid hu))
        ∙ >>=-ok (reading (read uint8)) _ _ (byte_step id_front _ app s)
        ∙ >>=-ok (reading (read uint8)) _ _ (byte_step (id_front ++ (app ∷ [])) _ node s)
        ∙ >>=-ok (reading (read uint8)) _ _ (byte_step (id_front ++ (app ∷ node ∷ [])) _ selected s)
        ∙ >>=-ok (reading (read uint8)) _ _
            (byte_step (id_front ++ (app ∷ node ∷ selected ∷ [])) _ options s)
        ∙ >>=-ok (reading (read uint8)) _ _
            (byte_step (id_front ++ (app ∷ node ∷ selected ∷ options ∷ [])) _ major s)
        ∙ >>=-ok (reading (read uint8)) _ _
            (byte_step (id_front ++ (app ∷ node ∷ selected ∷ options ∷ major ∷ [])) _ minor s)
        ∙ >>=-ok (reading (read_string (12 + length name - 12))) _ _ (
            reading-ok (read_string (12 + length name - 12)) _ _ s name (
              ap
                (λ n. read_string n (
                  at (id_front ++ (app ∷ node ∷ selected ∷ options ∷ major ∷ minor ∷ []))
                    (name ++ (lo ∷ hi ∷ []))))
                (omega arith)
              ∙ read_string_block
                  (id_front ++ (app ∷ node ∷ selected ∷ options ∷ major ∷ minor ∷ [])) name
                  (lo ∷ hi ∷ []))))
      ∙ checked_call_lem
          (λ address. v.process_server_id address uid app node selected options major minor name) a
          _ lo hi s hlo hhi
    where
      id_front : List ℕ
      id_front = a ∷ f ∷ (12 + length name) ∷ network 6 uid
