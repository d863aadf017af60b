-- ===== src/Crio/CliApp/Find.antt =====
-- findCommand and addCommand.
use ts_c_riocpp.Common.{
  ℕ, suc, ◌≡◌, refl, sym, ap, ◌∙◌, List, [], ◌∷◌, ◌++◌, append-nil, append_assoc, arith, Option,
  some, none, false, not, ◌==◌, if◌then◌else◌, length, Bool-cases, inl, inr,
}
use ts_c_riocpp.Crio.CliApp.{String, Command, starts_with, find_loop, find_command}

several : (n : ℕ) → (suc (suc n) == 1) ≡ false
several n = ground arith

module _ {S : Type 0} where
  -- The commands whose names begin with the text.
  abbrev pub matching : String → List (Command S) → List (Command S)
  matching cmd [] = []
  matching cmd (c ∷ cs) = if starts_with cmd c.command then c ∷ matching cmd cs else matching cmd cs

  abbrev pub names : List (Command S) → List String
  names [] = []
  names (c ∷ cs) = c.command ∷ names cs

  -- The only entry of a list.
  abbrev pub only : List (Command S) → Option (Command S)
  only (c ∷ []) = some c
  only _ = none

  abbrev last_or : Option (Command S) → List (Command S) → Option (Command S)
  last_or ret [] = ret
  last_or ret (c ∷ cs) = last_or (some c) cs

  find_loop_lem :
      (cmd : String) (cs : List (Command S)) (ret : Option (Command S)) (matched : List String)
      → find_loop cmd cs ret matched
        ≡ (last_or ret (matching cmd cs), matched ++ names (matching cmd cs))
  unfolding find_loop
  find_loop_lem cmd [] ret matched = ap (λ m. (ret, m)) (sym (append-nil matched))
  find_loop_lem cmd (c ∷ cs) ret matched = elim (Bool-cases (starts_with cmd c.command)) [
    | inl hit ↦ rw hit (
        find_loop_lem cmd cs (some c) (matched ++ (c.command ∷ []))
        ∙ ap (λ m. (last_or (some c) (matching cmd cs), m))
            (append_assoc matched (c.command ∷ []) (names (matching cmd cs))))
    | inr miss ↦ rw miss (find_loop_lem cmd cs ret matched)
  ]

  abbrev verdict : Option (Command S) × List String → Option (Command S) × List String
  verdict found = if not (length found.1 == 1) then (none, found.1) else found

  chosen : (cs : List (Command S)) → verdict (last_or none cs, names cs) ≡ (only cs, names cs)
  chosen [] = refl
  chosen (c ∷ []) = refl
  chosen (c ∷ d ∷ cs) = rw (several (length (names cs))) refl

  -- findCommand answers the command whose name begins with the text, if there is exactly one, and the
  -- names of all that begin with it, in the order of the commands.
  pub find_command_lem :
      (cmd : String) (cs : List (Command S))
      → find_command cmd cs [] ≡ (only (matching cmd cs), names (matching cmd cs))
  unfolding find_command
  find_command_lem cmd cs = ap verdict (find_loop_lem cmd cs none []) ∙ chosen (matching cmd cs)
