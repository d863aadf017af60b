-- ===== src/Pid/Limited.antt =====
-- The limits of a LimitedPID.
use ts_c_riocpp.Common.{
  ◌≡◌, refl, sym, ap, ◌∙◌, false, not, ◌&&◌, if◌then◌else◌, Bool-cases, inl, inr,
}
use ts_c_riocpp.Pid.{
  Double, Pid, process, limited_process, freeze, max_of, min_of, step, get_offset,
}

module _ {A : Type 0} (r : Double A) (action_min action_max : A) where
  open r use {lt}

  -- What a comparison has to say of the limits: no number is below itself, and the limits are in order.
  pub record IsOrdered : Type 0 where
    pub min_self : lt action_min action_min ≡ false
    pub max_self : lt action_max action_max ≡ false
    pub order : lt action_max action_min ≡ false

  abbrev clamped : A → A
  clamped c = min_of r (max_of r c action_min) action_max

  clamped-range :
      (c : A)
      → IsOrdered
      → (lt (clamped c) action_min ≡ false) × (lt action_max (clamped c) ≡ false)
  clamped-range c h = elim (Bool-cases (lt c action_min)) [
    | inl low ↦ rw (low, h.order) (h.min_self, h.order)
    | inr low ↦ elim (Bool-cases (lt action_max c)) [
      | inl high ↦ rw (low, high) (h.order, h.max_self)
      | inr high ↦ rw (low, high) (low, high)
    ]
  ]

  clamped-cases :
      (c : A)
      → IsOrdered
      → clamped c
        ≡ (if lt c action_min then action_min else if lt action_max c then action_max else c)
  clamped-cases c h = elim (Bool-cases (lt c action_min)) [
    | inl low ↦ rw (low, h.order) refl
    | inr low ↦ rw low refl
  ]

  get_offset-control_t1 : (s : Pid A) → (get_offset r s).0.control_t1 ≡ s.control_t1
  unfolding get_offset
  get_offset-control_t1 s = elim (Bool-cases (lt r.zero (r.abs s.offset) && not s.frozen)) [
    | inl e ↦ rw e refl
    | inr e ↦ rw e refl
  ]

  process-control_t1 :
      (setpoint measurement : A) (s : Pid A)
      → (process r setpoint measurement s).0.control_t1 ≡ s.control
  unfolding process step
  process-control_t1 setpoint measurement s = get_offset-control_t1 (step r setpoint measurement s)

  step-freeze :
      (setpoint measurement : A) (s : Pid A)
      → (step r setpoint measurement (freeze r s)).control ≡ (step r setpoint measurement s).control
  unfolding step freeze
  step-freeze setpoint measurement s = refl

  get_offset-control : (s : Pid A) → (get_offset r s).0.control ≡ s.control
  unfolding get_offset
  get_offset-control s = elim (Bool-cases (lt r.zero (r.abs s.offset) && not s.frozen)) [
    | inl e ↦ rw e refl
    | inr e ↦ rw e refl
  ]

  process-freeze :
      (setpoint measurement : A) (s : Pid A)
      → (process r setpoint measurement (freeze r s)).0.control
        ≡ (process r setpoint measurement s).0.control
  unfolding process
  process-freeze setpoint measurement s =
      get_offset-control (step r setpoint measurement (freeze r s))
      ∙ step-freeze setpoint measurement s
      ∙ sym (get_offset-control (step r setpoint measurement s))

  -- With limits in order: what process of a LimitedPID returns is the control value that process of PID
  -- leaves, to which the output of PID has the offset added, or the limit that this value is beyond; it
  -- is within the limits, it is what the next call takes for the last control value, and a call of
  -- freeze before it makes no difference to it.
  pub limited_process_lem :
      (setpoint measurement setpoint' measurement' : A) (s : Pid A)
      → IsOrdered
      → let c = (process r setpoint measurement s).0.control in
        let o = limited_process r action_min action_max setpoint measurement s in
        (o.1 ≡ (if lt c action_min then action_min else if lt action_max c then action_max else c))
        × (lt o.1 action_min ≡ false)
        × (lt action_max o.1 ≡ false)
        × ((process r setpoint' measurement' o.0).0.control_t1 ≡ o.1)
        × ((limited_process r action_min action_max setpoint measurement (freeze r s)).1 ≡ o.1)
  unfolding limited_process
  limited_process_lem setpoint measurement setpoint' measurement' s h =
      let c = (process r setpoint measurement s).0.control in
      let range = clamped-range c h in
      (
        clamped-cases c h,
        range.0,
        range.1,
        process-control_t1 setpoint' measurement'
            (limited_process r action_min action_max setpoint measurement s).0,
        ap clamped (process-freeze setpoint measurement s),
      )
