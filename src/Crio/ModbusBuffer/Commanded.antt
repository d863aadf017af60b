-- ===== src/Crio/ModbusBuffer/Commanded.antt =====
-- The queue of commands that wait for a response: checkCommanded, and the calls that fill it.
use ts_c_riocpp.Common.{
  ℕ, ◌≡◌, ◌≢◌, refl, List, [], ◌∷◌, ◌++◌, All, Bool, true, false, if◌then◌else◌, ◌==◌, ==_self,
  ==_false,
}
use ts_c_riocpp.Modbus.Exceptions.{unmatched_function, ok, throw, M}
use ts_c_riocpp.Crio.ModbusBuffer.{ModbusBuffer}
use ts_c_riocpp.Crio.ModbusBuffer.Responses.{Owner, match_commanded, check_commanded}

abbrev pub Others : ℕ → List (ℕ × ℕ) → Type 0
Others address cs = All (λ (c : ℕ × ℕ). c.0 ≢ address) cs

if-apply :
    {A B : Type 0} (b : Bool) (f g : A → B) (x : A)
    → (if b then f else g) x ≡ (if b then f x else g x)
if-apply true f g x = refl
if-apply false f g x = refl

module _ {S : Type 0} where
  -- The state behind a note of each of these commands.
  abbrev pub noted : (ℕ → ℕ → S → S) → List (ℕ × ℕ) → S → S
  noted note [] s = s
  noted note ((a, f) ∷ cs) s = noted note cs (note a f s)

  abbrev pub waiting : ModbusBuffer → List (ℕ × ℕ) → S → Owner S
  waiting m q s = record { modbus = record m { commanded = q }; self = s }

  module _ (note : ℕ → ℕ → S → S) where
    -- A handleMissingReply that returns.
    abbrev pub noting : ℕ → ℕ → M S (Unit {0})
    noting a f s = ok tt (note a f s)

    match_here :
        (address function called : ℕ) (rest : List (ℕ × ℕ)) (m : ModbusBuffer) (q : List (ℕ × ℕ))
        (s : S)
        → match_commanded noting address function (address, called) rest (waiting m q s) ≡ (
            if called == function
            then ok tt (waiting m rest s)
            else throw (unmatched_function address function address called) (waiting m rest s))
    unfolding match_commanded
    match_here address function called [] m q s =
        rw (==_self address) (if-apply (called == function) _ _ _)
    match_here address function called (c ∷ rest) m q s =
        rw (==_self address) (if-apply (called == function) _ _ _)

    match_skips :
        (address function : ℕ) (last : ℕ × ℕ) (skipped : List (ℕ × ℕ)) (called : ℕ)
        (rest : List (ℕ × ℕ)) (m : ModbusBuffer) (q : List (ℕ × ℕ)) (s : S)
        → Others address (last ∷ skipped)
        → match_commanded noting address function last
            (skipped ++ ((address, called) ∷ rest))
            (waiting m q s)
          ≡ (let s' = noted note (last ∷ skipped) s in
              if called == function
              then ok tt (waiting m rest s')
              else throw (unmatched_function address function address called) (waiting m rest s'))
    unfolding match_commanded
    match_skips address function (a, f) [] called rest m q s (h, hs) =
        rw (==_false a address h) (match_here address function called rest m _ _)
    match_skips address function (a, f) (c ∷ cs) called rest m q s (h, hs) =
        rw (==_false a address h) (match_skips address function c cs called rest m _ _ hs)

    match_nothing :
        (address function : ℕ) (last : ℕ × ℕ) (skipped : List (ℕ × ℕ)) (m : ModbusBuffer)
        (q : List (ℕ × ℕ)) (s : S)
        → Others address (last ∷ skipped)
        → match_commanded noting address function last skipped (waiting m q s)
          ≡ ok tt (waiting m [] (noted note (last ∷ skipped) s))
    unfolding match_commanded
    match_nothing address function (a, f) [] m q s (h, hs) = rw (==_false a address h) refl
    match_nothing address function (a, f) (c ∷ cs) m q s (h, hs) =
        rw (==_false a address h) (match_nothing address function c cs m _ _ hs)

    -- Where handleMissingReply returns, checkCommanded passes over the commands for other addresses at
    -- the front of the queue, with a note of each of them as missing, and takes the first command for
    -- the address of the response off the queue: it returns if that has the function, and throws
    -- UnmatchedFunction with both functions otherwise.
    check_commanded_finds :
        (address function called : ℕ) (skipped rest : List (ℕ × ℕ)) (m : ModbusBuffer) (s : S)
        → Others address skipped
        → check_commanded noting address function
            (waiting m (skipped ++ ((address, called) ∷ rest)) s)
          ≡ (let s' = noted note skipped s in
              if called == function
              then ok tt (waiting m rest s')
              else throw (unmatched_function address function address called) (waiting m rest s'))
    unfolding check_commanded
    check_commanded_finds address function called [] rest m s h =
        match_here address function called rest m _ s
    check_commanded_finds address function called (c ∷ cs) rest m s h =
        match_skips address function c cs called rest m _ s h

    -- Where handleMissingReply returns, and a command was queued, but none for the address of the
    -- response, checkCommanded returns as for an expected response: the queue is empty then, with a
    -- note of each of its commands as missing.
    pub check_commanded_accepts :
        (address function : ℕ) (last : ℕ × ℕ) (skipped : List (ℕ × ℕ)) (m : ModbusBuffer) (s : S)
        → Others address (last ∷ skipped)
        → check_commanded noting address function (waiting m (last ∷ skipped) s)
          ≡ ok tt (waiting m [] (noted note (last ∷ skipped) s))
    unfolding check_commanded
    check_commanded_accepts address function last skipped m s h =
        match_nothing address function last skipped m _ s h
