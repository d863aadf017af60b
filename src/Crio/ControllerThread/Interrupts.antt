-- ===== src/Crio/ControllerThread/Interrupts.antt =====
-- Which handlers checkInterrupts calls.
use ts_c_riocpp.Common.{
  ℕ, ◌+◌, ◌/◌, ◌%◌, ◌^◌, ◌≡◌, refl, sym, ap, ◌∙◌, List, [], ◌∷◌, Option, none, some, Bool, true,
  false, shr, bit_and, bit_and_mask, ◌==◌, if◌then◌else◌,
}
use ts_c_riocpp.Modbus.Exceptions.{M, ◌>>◌, pure}
use native.Mathlib.Nat.{div-div-eq-div-mul, div-one, pow-suc}
use native.Mathlib.Numerals.{add-one}
use ts_c_riocpp.Crio.ControllerThread.{Controller, World, on_world, check_loop, check_interrupts}

-- The handlers that are due, from the bit `i` on, each with its interrupt, which is one more than its bit.
abbrev pub due : ℕ → ℕ → List (Option ℕ) → List (ℕ × ℕ)
due i triggered [] = []
due i triggered (none ∷ hs) = due (i + 1) triggered hs
due i triggered (some h ∷ hs) =
    let rest = due (i + 1) triggered hs in
    if triggered / 2 ^ i % 2 == 1 then (h, i + 1) ∷ rest else rest

module _ {S : Type 0} (w : World S) where
  -- The handlers are called one after the other, until one throws.
  abbrev pub call_all : List (ℕ × ℕ) → M (Controller S) (Unit {0})
  call_all [] = pure tt
  call_all ((h, n) ∷ l) = do on_world (w.handle_interrupt h n); call_all l

  shifted : (i t : ℕ) → shr (t / 2 ^ i) 1 ≡ t / 2 ^ (i + 1)
  shifted i t =
      div-div-eq-div-mul t (2 ^ i) (2 ^ 1)
      ∙ ap (λ (p : ℕ). t / p) (sym (pow-suc 2 i) ∙ ap (λ (n : ℕ). 2 ^ n) (sym (add-one i)))

  tested : (a : ℕ) → (bit_and a 1 == 1) ≡ (a % 2 == 1)
  tested a = ap (λ (x : ℕ). x == 1) (bit_and_mask 1 a)

  call_all_if :
      (b : Bool) (h n : ℕ) (l : List (ℕ × ℕ))
      → (if b then (do on_world (w.handle_interrupt h n); call_all l) else call_all l)
        ≡ call_all (if b then (h, n) ∷ l else l)
  call_all_if true h n l = refl
  call_all_if false h n l = refl

  if-same : (b : Bool) (m : M (Controller S) (Unit {0})) → (if b then m else m) ≡ m
  if-same true m = refl
  if-same false m = refl

  check_loop_lem :
      (hs : List (Option ℕ)) (i t : ℕ) → check_loop w i (t / 2 ^ i) hs ≡ call_all (due i t hs)
  unfolding check_loop
  check_loop_lem [] i t = refl
  check_loop_lem (none ∷ hs) i t =
      if-same (bit_and (t / 2 ^ i) 1 == 1) (check_loop w (i + 1) (shr (t / 2 ^ i) 1) hs)
      ∙ ap (λ (u : ℕ). check_loop w (i + 1) u hs) (shifted i t)
      ∙ check_loop_lem hs (i + 1) t
  check_loop_lem (some h ∷ hs) i t =
      ap
        (λ (m : M (Controller S) (Unit {0})).
          if bit_and (t / 2 ^ i) 1 == 1 then (do on_world (w.handle_interrupt h (i + 1)); m) else m)
        (ap (λ (u : ℕ). check_loop w (i + 1) u hs) (shifted i t) ∙ check_loop_lem hs (i + 1) t)
      ∙ ap
          (λ (b : Bool).
            if b
            then (do on_world (w.handle_interrupt h (i + 1)); call_all (due (i + 1) t hs))
            else call_all (due (i + 1) t hs))
          (tested (t / 2 ^ i))
      ∙ call_all_if (t / 2 ^ i % 2 == 1) h (i + 1) (due (i + 1) t hs)

  -- Checking the interrupts with the bits `triggered` calls the handlers that are set for a bit of
  -- `triggered`, each once with the number of its interrupt, in the order of the interrupts, until one
  -- throws, and does nothing else.
  pub check_interrupts_lem :
      (triggered : ℕ) (c : Controller S)
      → check_interrupts w triggered c ≡ call_all (due 0 triggered (c.interrupt_handlers)) c
  unfolding check_interrupts
  check_interrupts_lem triggered c =
      ap (λ (u : ℕ). check_loop w 0 u (c.interrupt_handlers) c) (sym (div-one triggered))
      ∙ ap (λ (m : M (Controller S) (Unit {0})). m c)
          (check_loop_lem (c.interrupt_handlers) 0 triggered)
