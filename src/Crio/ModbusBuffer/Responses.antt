-- ===== src/Crio/ModbusBuffer/Responses.antt =====
-- The responses to the calls of a ModbusBuffer: checkCommanded, checkCommandedEmpty, addResponse and
-- processResponse.
-- A subclass adds fields: `S` is the state that they have. Its handleMissingReply works on them only;
-- an action works on the whole object. The loop of processResponse has no more rounds than its fuel.
use ts_c_riocpp.Common.{
  ℕ, zero, suc, List, [], ◌∷◌, Option, none, some, Bool, true, false, ◌==◌, if◌then◌else◌,
}
use ts_c_riocpp.Modbus.Exceptions.{
  Error, out_of_range, undefined, missing_reply, empty_commanded, unmatched_function,
  unknown_response, modbus_exception, not_received, ok, throw, M, ◌>>=◌, ◌>>◌, pure, raise,
}
use ts_c_riocpp.Modbus.Buffer.{uint8}
use ts_c_riocpp.Crio.ModbusBuffer.{ModbusBuffer, Device, set_buffer, end_of_buffer}
use ts_c_riocpp.Crio.ModbusBuffer.Stream.{read, check_crc}

-- ModbusBuffer with the fields of its subclass.
pub record Owner (S : Type 0) : Type 0 where
  pub modbus : ModbusBuffer
  pub self : S

-- A callback without a value is the nullptr of an error action.
pub record Actions (S : Type 0) : Type 0 where
  pub actions : ℕ → Option (ℕ → M (Owner S) (Unit {0}))
  pub error_actions : ℕ → Option (ℕ × Option (ℕ → ℕ → M (Owner S) (Unit {0})))

-- ModbusBuffer::handleMissingReply.
abbrev pub throw_missing : {S : Type 0} → ℕ → ℕ → M S (Unit {0})
throw_missing address function = raise (missing_reply address function)

abbrev pub is_out_of_range : Error → Bool
is_out_of_range out_of_range = true
is_out_of_range _ = false

module _ {S : Type 0} where
  abbrev pub on_modbus : {A : Type 0} → M ModbusBuffer A → M (Owner S) A
  on_modbus m o = elim (m o.modbus) [
    | ok a b ↦ ok a (record o { modbus = b })
    | throw e b ↦ throw e (record o { modbus = b })
  ]

  abbrev pub on_self : {A : Type 0} → M S A → M (Owner S) A
  on_self m o = elim (m o.self) [
    | ok a s ↦ ok a (record o { self = s })
    | throw e s ↦ throw e (record o { self = s })
  ]

  abbrev pub with_commanded : List (ℕ × ℕ) → Owner S → Owner S
  with_commanded q o = record o { modbus = record (o.modbus) { commanded = q } }

  -- The loop of checkCommanded, with `last` taken from the queue, and `rest` left on it.
  unfoldable pub match_commanded :
      (ℕ → ℕ → M S (Unit {0})) → ℕ → ℕ → (ℕ × ℕ) → List (ℕ × ℕ) → M (Owner S) (Unit {0})
  match_commanded missing address function last [] o =
      (if last.0 == address
          then (if last.1 == function
              then pure tt
              else raise (unmatched_function address function last.0 last.1))
          else on_self (missing last.0 last.1))
        (with_commanded [] o)
  match_commanded missing address function last (next ∷ rest) o =
      (if last.0 == address
          then (if last.1 == function
              then pure tt
              else raise (unmatched_function address function last.0 last.1))
          else do
            on_self (missing last.0 last.1)
            match_commanded missing address function next rest)
        (with_commanded (next ∷ rest) o)

  unfoldable pub check_commanded : (ℕ → ℕ → M S (Unit {0})) → ℕ → ℕ → M (Owner S) (Unit {0})
  unfolding match_commanded
  check_commanded missing address function o = elim (o.modbus.commanded) [
    | [] ↦ throw (empty_commanded address function) o
    | last ∷ rest ↦ match_commanded missing address function last rest o
  ]

  unfoldable pub check_commanded_empty : M (Owner S) (Unit {0})
  check_commanded_empty o = elim (o.modbus.commanded) [
    | [] ↦ ok tt o
    | last ∷ rest ↦ throw (not_received (last ∷ rest)) (with_commanded [] o)
  ]

  unfoldable pub add_response :
      ℕ
      → (ℕ → M (Owner S) (Unit {0}))
      → ℕ
      → Option (ℕ → ℕ → M (Owner S) (Unit {0}))
      → Actions S
      → Actions S
  add_response func action error_response error_action a = record {
    actions = λ f. if f == func then some action else a.actions f;
    error_actions =
        λ f. if f == error_response then some (func, error_action) else a.error_actions f;
  }

  -- preProcess and postProcess of the base class.
  abbrev pub no_processing : M (Owner S) (Unit {0})
  no_processing = pure tt

  -- What std::out_of_range is turned into by a catch clause.
  abbrev pub catch_out_of_range :
      M (Owner S) (Unit {0}) → M (Owner S) (Unit {0}) → M (Owner S) (Unit {0})
  catch_out_of_range m handler o = elim (m o) [
    | ok u o' ↦ ok u o'
    | throw e o' ↦ (if is_out_of_range e then handler o' else throw e o')
  ]

  module _ (dev : Device) (table : Actions S) (missing : ℕ → ℕ → M S (Unit {0})) where
    unfoldable pub check_function : ℕ → ℕ → M (Owner S) (Unit {0})
    unfolding check_commanded
    check_function address func = elim (table.error_actions func) [
      | none ↦ check_commanded missing address func
      | some (called, action) ↦ check_commanded missing address called
    ]

    unfoldable pub call_action : ℕ → ℕ → M (Owner S) (Unit {0})
    call_action address func = elim (table.actions func) [
      | none ↦ raise out_of_range
      | some action ↦ action address
    ]

    unfoldable pub call_error_action : ℕ → ℕ → M (Owner S) (Unit {0})
    unfolding check_crc
    call_error_action address func = elim (table.error_actions func) [
      | none ↦ raise out_of_range
      | some (called, action) ↦ (do
        code ← on_modbus (read dev uint8)
        on_modbus (check_crc dev)
        elim action [
          | none ↦ raise (modbus_exception address func code)
          | some act ↦ act address code
        ])
    ]

    -- The body of the loop.
    unfoldable pub process_one : M (Owner S) (Unit {0})
    unfolding check_function call_action call_error_action
    process_one = do
      address ← on_modbus (read dev uint8)
      func ← on_modbus (read dev uint8)
      check_function address func
      catch_out_of_range (call_action address func) (
          catch_out_of_range (call_error_action address func)
            (raise (unknown_response address func)))

    unfoldable pub process_loop : ℕ → M (Owner S) (Unit {0})
    unfolding process_one end_of_buffer
    process_loop zero o = throw undefined o
    process_loop (suc fuel) o =
        (if end_of_buffer (o.modbus) then pure tt else do process_one; process_loop fuel) o

    unfoldable pub process_response :
        ℕ → M (Owner S) (Unit {0}) → M (Owner S) (Unit {0}) → List ℕ → M (Owner S) (Unit {0})
    unfolding process_loop set_buffer
    process_response fuel pre_process post_process response = do
      pre_process
      (λ o. ok tt (record o { modbus = set_buffer response (o.modbus) }))
      process_loop fuel
      post_process
