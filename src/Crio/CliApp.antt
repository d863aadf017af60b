-- ===== src/Crio/CliApp.antt =====
-- class CliApp of include/cRIO/CliApp.h and src/LSST/cRIO/CliApp.cpp: the commands of a program with a
-- command line.
-- Strings are lists of characters, which are numbers other than 0. An int is its bit pattern, so -1 is
-- `failed`. The texts that are printed are left out. `S` is the state of the program, which the actions
-- of commands change. The conversions std::stod and std::stoi and the call of stat are parameters.
pub mod Tokens
pub mod Find
use ts_c_riocpp.Common.{
  ℕ, zero, suc, ◌+◌, ◌-◌, List, [], ◌∷◌, ◌++◌, map, Option, none, some, Bool, true, false, ltb, leb,
  ◌==◌, ◌&&◌, ◌||◌, not, same_bytes, if◌then◌else◌, length, get_elem?, take, drop,
}
use ts_c_riocpp.Modbus.Exceptions.{
  Error, is_exception, out_of_range, undefined, runtime_error, Outcome, ok, throw, M, ◌>>=◌, ◌>>◌,
  pure,
}

abbrev pub String : Type 0
String = List ℕ

abbrev pub failed : ℕ
failed = 0xFFFFFFFF

pub record Command (S : Type 0) : Type 0 where
  pub command : String
  pub action : List String → M S ℕ
  pub args : String
  pub flags : ℕ

-- operator< of std::string.
unfoldable pub less : String → String → Bool
less [] [] = false
less [] (y ∷ ys) = true
less (x ∷ xs) [] = false
less (x ∷ xs) (y ∷ ys) = ltb x y || ((x == y) && less xs ys)

unfoldable pub starts_with : String → String → Bool
starts_with [] s = true
starts_with (x ∷ xs) [] = false
starts_with (x ∷ xs) (y ∷ ys) = (x == y) && starts_with xs ys

-- std::string::find from a position: `rest` stands at `pos`.
unfoldable pub find_in : String → ℕ → String → Option ℕ
unfolding starts_with
find_in delim pos [] = if starts_with delim [] then some pos else none
find_in delim pos (x ∷ xs) =
    let further = find_in delim (pos + 1) xs in
    if starts_with delim (x ∷ xs) then some pos else further

unfoldable pub find : String → String → ℕ → Option ℕ
unfolding find_in
find input delim start =
    if ltb (length input) start then none else find_in delim start (drop start input)

abbrev pub substr : String → ℕ → ℕ → String
substr input start len = take len (drop start input)

-- The loop of tokenize, and what follows it. It has no more rounds than its fuel, without which `none` is
-- the answer.
unfoldable pub tokens_loop : ℕ → String → String → ℕ → List String → Option (List String)
unfolding find
tokens_loop zero input delim start tokens = none
tokens_loop (suc fuel) input delim start tokens = elim (find input delim start) [
  | some stop ↦
      tokens_loop fuel input delim (stop + length delim)
        (tokens ++ (substr input start (stop - start) ∷ []))
  | none ↦ some (
      if ltb start (length input)
      then tokens ++ (substr input start (length input - start) ∷ [])
      else tokens)
]

unfoldable pub tokenize : ℕ → String → String → Option (List String)
unfolding tokens_loop
tokenize fuel input delim =
    if ltb 0 (length input) then tokens_loop fuel input delim 0 [] else some []

abbrev lower : ℕ → ℕ
lower c = if leb 65 c && leb c 90 then c + 32 else c

abbrev upper : ℕ → ℕ
upper c = if leb 97 c && leb c 122 then c - 32 else c

abbrev pub strlower : String → String
strlower s = map lower s

abbrev pub strupper : String → String
strupper s = map upper s

abbrev pub invalid_on_off : Error
invalid_on_off = runtime_error 80

unfoldable pub on_off : {S : Type 0} → String → M S Bool
on_off on s =
    if same_bytes (strlower on) (111 ∷ 110 ∷ []) || same_bytes on (49 ∷ [])
    then ok true s
    else (if same_bytes (strlower on) (111 ∷ 102 ∷ 102 ∷ []) || same_bytes on (48 ∷ [])
        then ok false s
        else throw invalid_on_off s)

-- Where a conversion stops, with `none` for an exception; and whether stat finds the file.
pub record Host : Type 0 where
  pub stod : String → Option ℕ
  pub stoi : String → Option ℕ
  pub stoi_hex : String → Option ℕ
  pub stat : String → Bool

-- The whole string was converted.
abbrev whole : Option ℕ → String → Bool
whole none s = false
whole (some pos) s = pos == length s

abbrev pub verify_bool : String → Bool
verify_bool b =
    let s = strupper b in
    same_bytes s (84 ∷ 82 ∷ 85 ∷ 69 ∷ [])
    || same_bytes s (70 ∷ 65 ∷ 76 ∷ 83 ∷ 69 ∷ [])
    || same_bytes s (48 ∷ [])
    || same_bytes s (49 ∷ [])
    || same_bytes s (79 ∷ 78 ∷ [])
    || same_bytes s (79 ∷ 70 ∷ 70 ∷ [])

-- The letters of arguments that may be missing: b, d, h, i, s and the question mark.
abbrev pub is_optional : ℕ → Bool
is_optional a = (a == 98) || (a == 100) || (a == 104) || (a == 105) || (a == 115) || (a == 63)

module _ (host : Host) where
  -- The switch of verifyArguments, but for the question mark: B, D, F, I, H and S, and the small
  -- letters of all but F.
  unfoldable pub verify_argument : ℕ → String → Bool
  verify_argument a arg =
      if (a == 66) || (a == 98)
      then verify_bool arg
      else (if (a == 68) || (a == 100)
          then whole (host.stod arg) arg
          else (if a == 70
              then host.stat arg
              else (if (a == 73) || (a == 105)
                  then whole (host.stoi arg) arg
                  else (if (a == 72) || (a == 104)
                      then whole (host.stoi_hex arg) arg
                      else (a == 83) || (a == 115)))))

  -- The loop of verifyArguments from the argument `an` on, where `cmds` are left.
  unfoldable pub verify_loop : ℕ → String → List String → ℕ
  unfolding verify_argument
  verify_loop an [] [] = an
  verify_loop an [] (c ∷ cs) = failed
  verify_loop an (a ∷ as') [] = if is_optional a then an else failed
  verify_loop an (a ∷ as') (c ∷ cs) =
      let rest = verify_loop (an + 1) as' cs in
      if a == 63 then an + length (c ∷ cs) else (if verify_argument a c then rest else failed)

  unfoldable pub verify_arguments : List String → String → ℕ
  unfolding verify_loop
  verify_arguments cmds args = verify_loop 0 args cmds

module _ {S : Type 0} where
  unfoldable pub add_command : Command S → List (Command S) → List (Command S)
  unfolding less
  add_command c [] = c ∷ []
  add_command c (d ∷ ds) = if less c.command d.command then c ∷ d ∷ ds else d ∷ add_command c ds

  -- The loop of findCommand: the names that match are appended, and the last command that matches is
  -- kept.
  unfoldable pub find_loop :
      String
      → List (Command S)
      → Option (Command S)
      → List String
      → Option (Command S) × List String
  unfolding starts_with
  find_loop cmd [] ret matched = (ret, matched)
  find_loop cmd (c ∷ cs) ret matched =
      if starts_with cmd c.command
      then find_loop cmd cs (some c) (matched ++ (c.command ∷ []))
      else find_loop cmd cs ret matched

  unfoldable pub find_command :
      String → List (Command S) → List String → Option (Command S) × List String
  unfolding find_loop
  find_command cmd cs matched =
      let found = find_loop cmd cs none matched in
      if not (length found.1 == 1) then (none, found.1) else found

  module _ (host : Host) where
    -- The exceptions of the action are printed.
    unfoldable pub process_command : Command S → List String → M S ℕ
    unfolding verify_arguments
    process_command c args s =
        if verify_arguments host args c.args == failed
        then ok failed s
        else elim (c.action args s) [
          | ok r s' ↦ ok r s'
          | throw e s' ↦ (if is_exception e then ok failed s' else throw e s')
        ]

    -- With `unmatched`, the virtual processUnmached. front() of no words is undefined.
    unfoldable pub process_cmd_vector :
        List (Command S) → (List String → M S ℕ) → List String → M S ℕ
    unfolding find_command process_command
    process_cmd_vector cs unmatched [] s = throw undefined s
    process_cmd_vector cs unmatched (w ∷ ws) s =
        let found = find_command (strlower w) cs [] in
        elim (found.0) [
          | none ↦ elim (found.1) [ [] ↦ unmatched (w ∷ ws) s | m ∷ ms ↦ ok failed s ]
          | some c ↦ process_command c ws s
        ]

    unfoldable pub process_buffer : List (Command S) → (List String → M S ℕ) → String → M S ℕ
    unfolding tokenize process_cmd_vector
    process_buffer cs unmatched buf s = elim (tokenize (suc (length buf)) buf (32 ∷ [])) [
      | none ↦ throw undefined s
      | some [] ↦ ok failed s
      | some (w ∷ ws) ↦ process_cmd_vector cs unmatched (w ∷ ws) s
    ]
