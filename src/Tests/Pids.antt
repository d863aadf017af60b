-- ===== src/Tests/Pids.antt =====
-- A controller over natural numbers, with a difference that stops at 0.
use ts_c_riocpp.Common.{ℕ, ◌+◌, ◌-◌, ◌*◌, ◌≡◌, refl, [], ◌∷◌, false, ltb, if◌then◌else◌}
use ts_c_riocpp.Pid.{
  Double, PidParameters, Pid, intermediate_values, update_parameters, process, freeze,
  limited_process,
}
use ts_c_riocpp.Pid.Recurrence.{recurrence, run, process-recurrence, frozen_output}
use ts_c_riocpp.Pid.Limited.{limited_process_lem}

abbrev numbers : Double ℕ
numbers = record {
  zero = 0;
  one = 1;
  two = 2;
  minus_two = 0;
  thaw_step = 50;
  thaw_limit = 51;
  minus_thaw_step = 0;
  add = λ a b. a + b;
  sub = λ a b. a - b;
  mul = λ a b. a * b;
  lt = ltb;
  abs = λ a. a;
}

abbrev gains : PidParameters ℕ
gains = record { timestep = 1; p = 2; i = 1; d = 0; n = 1 }

-- A controller that has been used.
abbrev used : Pid ℕ
used = record {
  current_parameters = gains;
  initial_parameters = gains;
  calculated = intermediate_values numbers gains;
  error = 7;
  error_t1 = 8;
  error_t2 = 9;
  control = 4;
  control_t1 = 5;
  control_t2 = 6;
  frozen = false;
  offset = 0;
}

process-recurrence_example :
    (process numbers 10 4 (run numbers ((9, 4) ∷ []) (update_parameters numbers gains used))).1
    ≡ recurrence numbers (intermediate_values numbers gains) (6 ∷ 5 ∷ []) + 0
process-recurrence_example = process-recurrence numbers gains used ((9, 4) ∷ []) 10 4 refl

frozen_output_example :
    (process numbers 10 4 (
      run numbers []
        (freeze numbers (run numbers ((9, 4) ∷ []) (update_parameters numbers gains used))))).1
    ≡ recurrence numbers (intermediate_values numbers gains) (6 ∷ 5 ∷ [])
      + recurrence numbers (intermediate_values numbers gains) (5 ∷ [])
frozen_output_example = frozen_output numbers gains used ((9, 4) ∷ []) [] 10 4

limited_process_lem_example :
    let c = (process numbers 10 4 used).0.control in
    let o = limited_process numbers 3 8 10 4 used in
    (o.1 ≡ (if ltb c 3 then 3 else if ltb 8 c then 8 else c))
    × (ltb o.1 3 ≡ false)
    × (ltb 8 o.1 ≡ false)
    × ((process numbers 1 1 o.0).0.control_t1 ≡ o.1)
    × ((limited_process numbers 3 8 10 4 (freeze numbers used)).1 ≡ o.1)
limited_process_lem_example =
    limited_process_lem numbers 3 8 10 4 1 1 used
      (record { min_self = refl; max_self = refl; order = refl })
