-- ===== src/Pid.antt =====
-- namespace LSST::PID: include/PID and src/LSST/PID. The type double and its operations are a parameter,
-- since a double is rounded: nothing is assumed of them but what a theorem names. Each expression has the
-- operations in the order of the code. The atomic flag is a field.
pub mod Recurrence
pub mod Limited
use ts_c_riocpp.Common.{ℕ, Bool, true, false, not, ◌&&◌, if◌then◌else◌}

-- The constants of the code, and the operations of double.
pub record Double (A : Type 0) : Type 0 where
  pub zero : A
  pub one : A
  pub two : A
  pub minus_two : A
  -- THAW_STEP, THAW_STEP + 1 and -THAW_STEP
  pub thaw_step : A
  pub thaw_limit : A
  pub minus_thaw_step : A
  pub add : A → A → A
  pub sub : A → A → A
  pub mul : A → A → A
  pub lt : A → A → Bool
  pub abs : A → A

pub record PidParameters (A : Type 0) : Type 0 where
  pub timestep : A
  pub p : A
  pub i : A
  pub d : A
  pub n : A

-- The coefficients _calculated_A to _calculated_E.
pub record Coefficients (A : Type 0) : Type 0 where
  pub a : A
  pub b : A
  pub c : A
  pub d : A
  pub e : A

pub record Pid (A : Type 0) : Type 0 where
  pub current_parameters : PidParameters A
  pub initial_parameters : PidParameters A
  pub calculated : Coefficients A
  pub error : A
  pub error_t1 : A
  pub error_t2 : A
  pub control : A
  pub control_t1 : A
  pub control_t2 : A
  pub frozen : Bool
  pub offset : A

module _ {A : Type 0} (r : Double A) where
  open r use {
    zero, one, two, minus_two, thaw_step, thaw_limit, minus_thaw_step, add, sub, mul, lt, abs,
  }

  unfoldable pub intermediate_values : PidParameters A → Coefficients A
  intermediate_values q = record {
    a = add q.p (mul q.d q.n);
    b =
        sub (add (add (mul minus_two q.p) (mul (mul q.p q.n) q.timestep)) (mul q.i q.timestep))
          (mul (mul two q.d) q.n);
    c =
        add
          (add (sub (sub q.p (mul (mul q.p q.n) q.timestep)) (mul q.i q.timestep))
            (mul (mul (mul q.i q.n) q.timestep) q.timestep))
          (mul q.d q.n);
    d = sub two (mul q.n q.timestep);
    e = sub (mul q.n q.timestep) one;
  }

  unfoldable pub reset_previous_values : Pid A → Pid A
  reset_previous_values s = record s {
    error_t2 = zero;
    error_t1 = zero;
    error = zero;
    control_t2 = zero;
    control_t1 = zero;
    control = zero;
  }

  unfoldable pub calculate_intermediate_values : Pid A → Pid A
  unfolding reset_previous_values intermediate_values
  calculate_intermediate_values s =
      reset_previous_values (record s { calculated = intermediate_values s.current_parameters })

  unfoldable pub update_parameters : PidParameters A → Pid A → Pid A
  unfolding calculate_intermediate_values
  update_parameters q s = calculate_intermediate_values (record s { current_parameters = q })

  unfoldable pub restore_initial_parameters : Pid A → Pid A
  unfolding update_parameters
  restore_initial_parameters s = update_parameters s.initial_parameters s

  unfoldable pub new_pid : PidParameters A → Pid A
  unfolding update_parameters intermediate_values
  new_pid q = update_parameters q (record {
    current_parameters = q;
    initial_parameters = q;
    calculated = intermediate_values q;
    error = zero;
    error_t1 = zero;
    error_t2 = zero;
    control = zero;
    control_t1 = zero;
    control_t2 = zero;
    frozen = false;
    offset = zero;
  })

  -- The offset behind the call, and whether `changed` is set.
  unfoldable pub get_offset : Pid A → Pid A × Bool
  get_offset s =
      if lt zero (abs s.offset) && not s.frozen
      then (
        record s {
          offset =
              if lt (abs s.offset) thaw_limit
              then zero
              else sub s.offset (if lt zero s.offset then thaw_step else minus_thaw_step);
        },
        true,
      )
      else (s, false)

  -- The assignments of process.
  unfoldable pub step : A → A → Pid A → Pid A
  step setpoint measurement s =
      let k = s.calculated in
      let e = sub setpoint measurement in
      record s {
        error_t2 = s.error_t1;
        error_t1 = s.error;
        error = e;
        control_t2 = s.control_t1;
        control_t1 = s.control;
        control =
            add
              (add (add (add (mul k.d s.control) (mul k.e s.control_t1)) (mul k.a e))
                (mul k.b s.error))
              (mul k.c s.error_t1);
      }

  -- The object, and what process returns.
  unfoldable pub process : A → A → Pid A → Pid A × A
  unfolding step get_offset
  process setpoint measurement s =
      let s' = step setpoint measurement s in
      let o = (get_offset s').0 in (o, add s'.control o.offset)

  unfoldable pub freeze : Pid A → Pid A
  freeze s = record s { offset = s.control; frozen = true }

  unfoldable pub thaw : Pid A → Pid A
  thaw s = record s { frozen = false }

  -- std::max and std::min.
  abbrev pub max_of : A → A → A
  max_of a b = if lt a b then b else a

  abbrev pub min_of : A → A → A
  min_of a b = if lt b a then b else a

  -- process of LimitedPID, between action_min and action_max.
  unfoldable pub limited_process : A → A → A → A → Pid A → Pid A × A
  unfolding process
  limited_process action_min action_max setpoint measurement s =
      let s' = (process setpoint measurement s).0 in
      let control = min_of (max_of s'.control action_min) action_max in
      (record s' { control = control }, control)
