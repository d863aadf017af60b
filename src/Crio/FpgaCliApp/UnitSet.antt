-- ===== src/Crio/FpgaCliApp/UnitSet.antt =====
-- Lists of ILC units as sets: push_back and erase of the list of disabled ILCs.
use ts_c_riocpp.Common.{
  ℕ, ◌≡◌, refl, sym, ap, ap₂, ◌∙◌, List, [], ◌∷◌, Bool, true, false, Bool-cases, inl, inr, ◌&&◌,
  ◌||◌, not, if◌then◌else◌, arith,
}
use ts_c_riocpp.Crio.FpgaCliApp.{IlcUnit, same_unit, is_disabled, erase, push_back}

-- No unit is twice in the list.
abbrev pub Distinct : List IlcUnit → Type 0
Distinct [] = Unit
Distinct (u ∷ l) = (is_disabled u l ≡ false) × Distinct l

-- The list has exactly the units of the set.
abbrev pub Holds : List IlcUnit → (IlcUnit → Bool) → Type 0
Holds l units = (u : IlcUnit) → is_disabled u l ≡ units u

same_unit_eq : (u v : IlcUnit) → same_unit u v ≡ true → u ≡ v
same_unit_eq (a, b) (x, y) h = ap₂ (λ (p q : ℕ). (p, q)) (ground (arith, h)) (ground (arith, h))

same_unit_comm : (u v : IlcUnit) → same_unit u v ≡ same_unit v u
same_unit_comm u v = ground arith

-- Units that are equal are compared alike.
same_unit_left : (u v w : IlcUnit) → same_unit w v ≡ true → same_unit w u ≡ same_unit v u
same_unit_left u v w h = ap (λ (x : IlcUnit). same_unit x u) (same_unit_eq w v h)

same_unit_right : (u v w : IlcUnit) → same_unit v u ≡ true → same_unit w u ≡ same_unit w v
same_unit_right u v w h = ap (λ (x : IlcUnit). same_unit w x) (sym (same_unit_eq v u h))

is_disabled_same :
    (u v : IlcUnit) (l : List IlcUnit) → same_unit v u ≡ true → is_disabled u l ≡ is_disabled v l
is_disabled_same u v l h = ap (λ (x : IlcUnit). is_disabled x l) (sym (same_unit_eq v u h))

or_none : (a b : Bool) → (a || b) ≡ false → (a ≡ false) × (b ≡ false)
or_none a b h = (ground (arith, h), ground (arith, h))

is_disabled-push_back :
    (u v : IlcUnit) (l : List IlcUnit)
    → is_disabled u (push_back v l) ≡ (is_disabled u l || same_unit v u)
unfolding is_disabled push_back
is_disabled-push_back u v [] = ground arith
is_disabled-push_back u v (w ∷ l) = rw (is_disabled-push_back u v l) (ground arith)

push_back-Distinct :
    (v : IlcUnit) (l : List IlcUnit)
    → is_disabled v l ≡ false
    → Distinct l
    → Distinct (push_back v l)
unfolding is_disabled push_back
push_back-Distinct v [] h d = (refl, tt)
push_back-Distinct v (w ∷ l) h d =
    let parts = or_none (same_unit w v) (is_disabled v l) h in
    (
      is_disabled-push_back w v l ∙ ap₂ (λ (a b : Bool). a || b) d.0 (same_unit_comm v w ∙ parts.0),
      push_back-Distinct v l parts.1 d.1,
    )

erase_cases : (a b c : Bool) → (a ≡ true → b ≡ false) → (b || (c && not a)) ≡ ((b || c) && not a)
erase_cases true b c h = rw (h refl) (ground arith)
erase_cases false b c h = ground arith

erase_first : (a c : Bool) → (a ≡ true → c ≡ false) → c ≡ ((a || c) && not a)
erase_first true c h = h refl
erase_first false c h = ground arith

is_disabled-erase :
    (u v : IlcUnit) (l : List IlcUnit)
    → Distinct l
    → is_disabled u (erase v l) ≡ (is_disabled u l && not (same_unit v u))
unfolding is_disabled erase
is_disabled-erase u v [] d = refl
is_disabled-erase u v (w ∷ l) d = elim (Bool-cases (same_unit w v)) [
  | inl same ↦
      rw (same, same_unit_left u v w same)
        (erase_first (same_unit v u) (is_disabled u l)
          (λ h. is_disabled_same u w l (same_unit_left u v w same ∙ h) ∙ d.0))
  | inr differ ↦
      rw (differ, is_disabled-erase u v l d.1)
        (erase_cases (same_unit v u) (same_unit w u) (is_disabled u l)
          (λ h. same_unit_right u v w h ∙ differ))
]

erase-Distinct : (v : IlcUnit) (l : List IlcUnit) → Distinct l → Distinct (erase v l)
unfolding is_disabled erase
erase-Distinct v [] d = tt
erase-Distinct v (w ∷ l) d = elim (Bool-cases (same_unit w v)) [
  | inl same ↦ rw same d.1
  | inr differ ↦ rw differ (
    is_disabled-erase w v l d.1 ∙ ap (λ (b : Bool). b && not (same_unit v w)) d.0,
    erase-Distinct v l d.1,
  )
]

-- What the list is after @disable and after @enable of one unit.
abbrev pub with_unit : IlcUnit → List IlcUnit → List IlcUnit
with_unit u l = if is_disabled u l then l else push_back u l

abbrev pub without_unit : IlcUnit → List IlcUnit → List IlcUnit
without_unit u l = if is_disabled u l then erase u l else l

pub with_unit-Distinct : (u : IlcUnit) (l : List IlcUnit) → Distinct l → Distinct (with_unit u l)
with_unit-Distinct u l d = elim (Bool-cases (is_disabled u l)) [
  | inl found ↦ rw found d
  | inr missing ↦ rw missing (push_back-Distinct u l missing d)
]

pub without_unit-Distinct :
    (u : IlcUnit) (l : List IlcUnit) → Distinct l → Distinct (without_unit u l)
without_unit-Distinct u l d = elim (Bool-cases (is_disabled u l)) [
  | inl found ↦ rw found (erase-Distinct u l d)
  | inr missing ↦ rw missing d
]

or_absorbs : (a b : Bool) → (b ≡ true → a ≡ true) → a ≡ (a || b)
or_absorbs a true h = h refl ∙ sym (rw (h refl) refl)
or_absorbs a false h = ground arith

and_absorbs : (a b : Bool) → (b ≡ true → a ≡ false) → a ≡ (a && not b)
and_absorbs a true h = h refl ∙ sym (rw (h refl) refl)
and_absorbs a false h = ground arith

pub is_disabled-with_unit :
    (v u : IlcUnit) (l : List IlcUnit)
    → is_disabled v (with_unit u l) ≡ (is_disabled v l || same_unit u v)
is_disabled-with_unit v u l = elim (Bool-cases (is_disabled u l)) [
  | inl found ↦
      rw found
        (or_absorbs (is_disabled v l) (same_unit u v) (λ h. is_disabled_same v u l h ∙ found))
  | inr missing ↦ rw missing (is_disabled-push_back v u l)
]

pub is_disabled-without_unit :
    (v u : IlcUnit) (l : List IlcUnit)
    → Distinct l
    → is_disabled v (without_unit u l) ≡ (is_disabled v l && not (same_unit u v))
is_disabled-without_unit v u l d = elim (Bool-cases (is_disabled u l)) [
  | inl found ↦ rw found (is_disabled-erase v u l d)
  | inr missing ↦
      rw missing
        (and_absorbs (is_disabled v l) (same_unit u v) (λ h. is_disabled_same v u l h ∙ missing))
]

pub or_rest : (a s r : Bool) → ((a || s) || r) ≡ (a || (s || r))
or_rest a s r = ground arith

pub and_rest : (a s r : Bool) → ((a && not s) && not r) ≡ (a && not (s || r))
and_rest a s r = ground arith

pub or_nothing : (a : Bool) → a ≡ (a || false)
or_nothing a = ground arith

pub and_nothing : (a : Bool) → a ≡ (a && not false)
and_nothing a = ground arith
