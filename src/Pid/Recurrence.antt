-- ===== src/Pid/Recurrence.antt =====
-- The difference equation that process computes.
use ts_c_riocpp.Common.{
  ◌≡◌, refl, ap, ap₂, ◌∙◌, List, [], ◌∷◌, ◌++◌, append-nil, Bool, true, false, not, ◌&&◌,
  Bool-cases, inl, inr,
}
use mathlib.Core.Path.{subst}
use ts_c_riocpp.Pid.{
  Double, PidParameters, Coefficients, Pid, intermediate_values, update_parameters, get_offset,
  step, process, freeze, calculate_intermediate_values, reset_previous_values,
}

module _ {A : Type 0} (r : Double A) where
  open r use {zero, add, sub, mul, lt, abs}

  abbrev head_or_zero : List A → A
  head_or_zero [] = zero
  head_or_zero (x ∷ xs) = x

  abbrev tail : List A → List A
  tail [] = []
  tail (x ∷ xs) = xs

  -- u(n) = D u(n-1) + E u(n-2) + A e(n) + B e(n-1) + C e(n-2), with what is before the start 0. The
  -- errors are given from the last on.
  module _ (k : Coefficients A) where
    abbrev combine : A → A → List A → A → A
    combine u1 u2 before e =
        add (add (add (add (mul k.d u1) (mul k.e u2)) (mul k.a e)) (mul k.b (head_or_zero before)))
          (mul k.c (head_or_zero (tail before)))

    pub recurrence : List A → A
    recurrence [] = zero
    recurrence (e ∷ []) = combine zero zero [] e
    recurrence (e ∷ e1 ∷ es) = combine (recurrence (e1 ∷ es)) (recurrence es) (e1 ∷ es) e

  -- The object after the errors `es`, from the last on.
  record Follows (k : Coefficients A) (es : List A) (s : Pid A) : Type 0 where
    coefficients : s.calculated ≡ k
    error : s.error ≡ head_or_zero es
    error_t1 : s.error_t1 ≡ head_or_zero (tail es)
    control : s.control ≡ recurrence k es
    control_t1 : s.control_t1 ≡ recurrence k (tail es)

  get_offset-Follows :
      (k : Coefficients A) (es : List A) (s : Pid A)
      → Follows k es s
      → Follows k es (get_offset r s).0
  unfolding get_offset
  get_offset-Follows k es s f = elim (Bool-cases (lt zero (abs s.offset) && not s.frozen)) [
    | inl e ↦ rw e (record {
      coefficients = f.coefficients;
      error = f.error;
      error_t1 = f.error_t1;
      control = f.control;
      control_t1 = f.control_t1;
    })
    | inr e ↦ rw e f
  ]

  recurrence-cons :
      (k : Coefficients A) (e : A) (es : List A)
      → recurrence k (e ∷ es) ≡ combine k (recurrence k es) (recurrence k (tail es)) es e
  unfolding recurrence
  recurrence-cons k e [] = refl
  recurrence-cons k e (e1 ∷ es) = refl

  step-Follows :
      (k : Coefficients A) (es : List A) (setpoint measurement : A) (s : Pid A)
      → Follows k es s
      → Follows k (sub setpoint measurement ∷ es) (step r setpoint measurement s)
  unfolding step
  step-Follows k es setpoint measurement s f = record {
    coefficients = f.coefficients;
    error = refl;
    error_t1 = f.error;
    control = cc (
      f.coefficients,
      f.control,
      f.control_t1,
      f.error,
      f.error_t1,
      recurrence-cons k (sub setpoint measurement) es,
    );
    control_t1 = f.control;
  }

  process-Follows :
      (k : Coefficients A) (es : List A) (setpoint measurement : A) (s : Pid A)
      → Follows k es s
      → Follows k (sub setpoint measurement ∷ es) (process r setpoint measurement s).0
  unfolding process
  process-Follows k es setpoint measurement s f =
      get_offset-Follows k (sub setpoint measurement ∷ es) (step r setpoint measurement s)
        (step-Follows k es setpoint measurement s f)

  -- Calls of process with these arguments, the last of them first.
  abbrev pub run : List (A × A) → Pid A → Pid A
  run [] s = s
  run ((setpoint, measurement) ∷ xs) s = (process r setpoint measurement (run xs s)).0

  abbrev pub errors : List (A × A) → List A
  errors [] = []
  errors ((setpoint, measurement) ∷ xs) = sub setpoint measurement ∷ errors xs

  run-Follows :
      (k : Coefficients A) (es : List A) (s : Pid A) (xs : List (A × A))
      → Follows k es s
      → Follows k (errors xs ++ es) (run xs s)
  run-Follows k es s [] f = f
  run-Follows k es s ((setpoint, measurement) ∷ xs) f =
      process-Follows k (errors xs ++ es) setpoint measurement (run xs s) (run-Follows k es s xs f)

  updated-Follows :
      (q : PidParameters A) (s : Pid A)
      → Follows (intermediate_values r q) [] (update_parameters r q s)
  unfolding update_parameters calculate_intermediate_values reset_previous_values recurrence
  updated-Follows q s = record {
    coefficients = refl;
    error = refl;
    error_t1 = refl;
    control = refl;
    control_t1 = refl;
  }

  and_false : (b : Bool) → (b && false) ≡ false
  and_false true = refl
  and_false false = refl

  -- The offset is 0, or frozen: a call of process leaves it.
  abbrev pub IsSteady : Pid A → Type 0
  IsSteady s = (lt zero (abs s.offset) && not s.frozen) ≡ false

  process-IsSteady :
      (setpoint measurement : A) (s : Pid A)
      → IsSteady s
      → (process r setpoint measurement s).0 ≡ step r setpoint measurement s
  unfolding process step get_offset
  process-IsSteady setpoint measurement s h = rw h refl

  run-IsSteady :
      (xs : List (A × A)) (s : Pid A)
      → IsSteady s
      → IsSteady (run xs s) × ((run xs s).offset ≡ s.offset)
  unfolding step
  run-IsSteady [] s h = (h, refl)
  run-IsSteady ((setpoint, measurement) ∷ xs) s h =
      let ih = run-IsSteady xs s h in rw (process-IsSteady setpoint measurement (run xs s) ih.0) ih

  output :
      (k : Coefficients A) (es : List A) (setpoint measurement : A) (s : Pid A)
      → Follows k es s
      → IsSteady s
      → (process r setpoint measurement s).1
        ≡ add (recurrence k (sub setpoint measurement ∷ es)) s.offset
  unfolding process get_offset step
  output k es setpoint measurement s f h =
      ap₂ add (step-Follows k es setpoint measurement s f).control (kept h)
    where
      kept : IsSteady s → (get_offset r (step r setpoint measurement s)).0.offset ≡ s.offset
      kept h = rw h refl

  -- From a call of update_parameters on, whatever was before, each call of process returns the value of
  -- the difference equation for the errors since then, with the offset added, as long as the offset is
  -- not thawed: it is frozen, or 0.
  pub process-recurrence :
      (q : PidParameters A) (s : Pid A) (xs : List (A × A)) (setpoint measurement : A)
      → IsSteady s
      → (process r setpoint measurement (run xs (update_parameters r q s))).1
        ≡ add (recurrence (intermediate_values r q) (sub setpoint measurement ∷ errors xs)) s.offset
  unfolding update_parameters calculate_intermediate_values reset_previous_values
  process-recurrence q s xs setpoint measurement h =
      let k = intermediate_values r q in
      let kept = run-IsSteady xs (update_parameters r q s) h in
      let follows : Follows k (errors xs) (run xs (update_parameters r q s)) =
        subst (λ es. Follows k es (run xs (update_parameters r q s))) (append-nil (errors xs))
          (run-Follows k [] (update_parameters r q s) xs (updated-Follows q s)) in
      output k (errors xs) setpoint measurement (run xs (update_parameters r q s)) follows kept.0
      ∙ ap (add (recurrence k (sub setpoint measurement ∷ errors xs))) kept.1

  freeze-Follows :
      (k : Coefficients A) (es : List A) (s : Pid A) → Follows k es s → Follows k es (freeze r s)
  unfolding freeze
  freeze-Follows k es s f = record {
    coefficients = f.coefficients;
    error = f.error;
    error_t1 = f.error_t1;
    control = f.control;
    control_t1 = f.control_t1;
  }

  -- Behind freeze, after calls with the errors of `xs`, process goes on with the difference equation, and
  -- returns its value with that at the time of freeze added: the output is not kept constant.
  pub frozen_output :
      (q : PidParameters A) (s : Pid A) (xs ys : List (A × A)) (setpoint measurement : A)
      → let k = intermediate_values r q in
        (process r setpoint measurement (run ys (freeze r (run xs (update_parameters r q s))))).1
        ≡ add
            (recurrence k (sub setpoint measurement ∷ (errors ys ++ errors xs)))
            (recurrence k (errors xs))
  unfolding freeze
  frozen_output q s xs ys setpoint measurement =
      let k = intermediate_values r q in
      let t = run xs (update_parameters r q s) in
      let follows : Follows k (errors xs) t =
        subst (λ es. Follows k es t) (append-nil (errors xs))
          (run-Follows k [] (update_parameters r q s) xs (updated-Follows q s)) in
      let frozen : IsSteady (freeze r t) = and_false (lt zero (abs t.control)) in
      let kept = run-IsSteady ys (freeze r t) frozen in
      output k (errors ys ++ errors xs) setpoint measurement (run ys (freeze r t))
        (run-Follows k (errors xs) (freeze r t) ys (freeze-Follows k (errors xs) t follows)) kept.0
      ∙ ap (add (recurrence k (sub setpoint measurement ∷ (errors ys ++ errors xs))))
          (kept.1 ∙ follows.control)
