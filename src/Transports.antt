-- ===== src/Transports.antt =====
-- namespace Transports: include/Transports and src/Transports. class Transport, over the methods of a line
-- and of a bus list that are virtual.
-- The time is read from the line; a time is in microseconds. Sizes are below 2 ^ 31.
pub mod Simulated
pub mod Serial
pub mod Gather
pub mod Execute
pub mod Registers
pub mod Order
use ts_c_riocpp.Common.{
  ℕ, zero, suc, ◌+◌, ◌-◌, List, [], ◌∷◌, ◌++◌, Bool, true, false, ltb, leb, not, ◌==◌,
  if◌then◌else◌, length,
}
use ts_c_riocpp.Modbus.Exceptions.{
  Error, runtime_error, missing_answer, Outcome, ok, throw, M, ◌>>=◌, ◌>>◌, pure, raise, throw_if,
}
use ts_c_riocpp.Modbus.BusList
use ts_c_riocpp.Modbus.BusList.{CommandRecord, Functions, Node, parse_bytes}
use ts_c_riocpp.Crio.Mpu.{ResponseLength, unknown_length, total, invalid_function}

-- The virtual methods write and read, with the length and the time that read is given, and the clock.
pub record Line (T : Type 0) : Type 0 where
  pub write : List ℕ → M T (Unit {0})
  pub read : ℕ → ℕ → M T (List ℕ)
  pub clock : M T ℕ

-- The table of a bus list, and the virtual methods responseLength and missing_response.
pub record BusMethods (S : Type 0) : Type 0 where
  pub functions : Functions S
  pub response_length : List ℕ → ResponseLength
  pub missing_response : M (Node S) (Unit {0})

pub record World (T S : Type 0) : Type 0 where
  pub line : T
  pub node : Node S

abbrev pub out_of_time : Error
out_of_time = runtime_error 60

abbrev pub invalid_response_function : Error
invalid_response_function = runtime_error 61

module _ {T S : Type 0} where
  unfoldable pub on_line : {A : Type 0} → M T A → M (World T S) A
  on_line m w = elim (m w.line) [
    | ok a t ↦ ok a (record w { line = t })
    | throw e t ↦ throw e (record w { line = t })
  ]

  unfoldable pub on_node : M (Node S) (Unit {0}) → M (World T S) (Unit {0})
  on_node m w = elim (m w.node) [
    | ok a n ↦ ok a (record w { node = n })
    | throw e n ↦ throw e (record w { node = n })
  ]

-- What the loop does with a reply so far: it goes on with the number of bytes to ask for, 0 if it is not
-- known, or ends.
abbrev pub decide : {W : Type 0} → ResponseLength → List ℕ → (ℕ → M W (List ℕ)) → M W (List ℕ)
decide invalid_function answer more = raise invalid_response_function
decide unknown_length answer more = more 0
decide (total n) answer more =
    if leb n (length answer) then pure answer else more (n - length answer)

module _ {T S : Type 0} (l : Line T) (b : BusMethods S) where
  -- The loop of execute_command: the reply, when it is complete or the time is over.
  unfoldable pub gather : ℕ → ℕ → ℕ → ℕ → List ℕ → M (World T S) (List ℕ)
  unfolding on_line
  gather zero end now expected answer = raise Error.undefined
  gather (suc fuel) end now expected answer = if not (ltb now end) then pure answer else (do
    chunk ← on_line (l.read expected (end - now))
    decide (b.response_length (answer ++ chunk)) (answer ++ chunk)
        (λ left. do now' ← on_line l.clock; gather fuel end now' left (answer ++ chunk)))

  -- next_message moves the index of the bus list to the first command.
  unfoldable pub finish : List ℕ → List ℕ → M (World T S) (Unit {0})
  unfolding on_node
  finish command [] = do on_node b.missing_response; raise (missing_answer command)
  finish command (c ∷ cs) = do
    on_node (parse_bytes b.functions (c ∷ cs))
    on_node (λ n. ok tt (record n { bus = BusList.next_message n.bus }))

  unfoldable pub execute_command : ℕ → List ℕ → ℕ → M (World T S) (Unit {0})
  unfolding gather finish on_line
  execute_command fuel command end = do
    now ← on_line l.clock
    throw_if (leb end now) out_of_time
    on_line (l.write command)
    answer ← gather fuel end now 0 []
    finish command answer

  -- The loop of commands over the commands, with what follows each of them.
  unfoldable pub each_command :
      ℕ → ℕ → M (World T S) (Unit {0}) → List CommandRecord → M (World T S) (Unit {0})
  unfolding execute_command
  each_command fuel end pause [] = pure tt
  each_command fuel end pause (c ∷ cs) = do
    execute_command fuel c.buffer end
    pause
    each_command fuel end pause cs

  -- commands, with the wait behind a command that FPGASerialDevice has.
  unfoldable pub commands : ℕ → ℕ → M (World T S) (Unit {0}) → M (World T S) (Unit {0})
  unfolding each_command on_line on_node
  commands fuel timeout pause = do
    now ← on_line l.clock
    λ w. each_command fuel (now + timeout) pause w.node.bus.commands w
    on_node (λ n. ok tt (record n { bus = BusList.clear n.bus }))
