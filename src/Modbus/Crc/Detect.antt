-- ===== src/Modbus/Crc/Detect.antt =====
-- Adding a byte is injective in the counter and in the byte, so two messages that differ in one byte
-- have different CRCs.
use ts_c_riocpp.Common.{
  ℕ, zero, suc, ◌/◌, ◌%◌, ◌^◌, ◌<◌, ◌≡◌, ◌≢◌, sym, ap, ◌∙◌, List, [], ◌∷◌, ◌++◌, arith, bit_xor,
  bit_and_mask, bit_xor_shift, bit_xor_cancel, bit_xor_comm, bit_xor-lt, IsByte, All, ◌⊎◌, ◌≤◌,
}
use native.Mathlib.Nat.{div-eq_of_lt}
use ts_c_riocpp.Modbus.Crc.{Crc, round, rounds, reset, add, add_all, crc_of}
use ts_c_riocpp.Modbus.Crc.Residue.{add_all-append}

-- The counter is a uint16_t.
abbrev pub IsCrc : Crc → Type 0
IsCrc c = c < 2 ^ 16

-- The odd branch of `round` sets the top bit, which the even branch leaves clear.
odd_branch : Crc → Crc
odd_branch c = bit_xor (c / 2) 0xA001

odd_branch_top : (c : Crc) → IsCrc c → (2 ^ 15 ≤ odd_branch c) × IsCrc (odd_branch c)
unfolding odd_branch
odd_branch_top c h = omega (arith, top, bit_xor-lt 16 (c / 2) 0xA001 (omega arith) (omega arith))
  where
    top : bit_xor (c / 2) 0xA001 / 2 ^ 15 ≡ 1
    top = bit_xor_shift 15 (c / 2) 0xA001 ∙ ap (λ (t : ℕ). bit_xor t 1) (div-eq_of_lt (omega arith))

odd_branch_injective : (a b : Crc) → odd_branch a ≡ odd_branch b → a / 2 ≡ b / 2
unfolding odd_branch
odd_branch_injective a b e =
    sym (bit_xor_cancel (a / 2) 0xA001)
    ∙ ap (λ (t : ℕ). bit_xor t 0xA001) e
    ∙ bit_xor_cancel (b / 2) 0xA001

round_cases :
    (c : Crc) → ((c % 2 ≡ 0) × (round c ≡ c / 2)) ⊎ ((c % 2 ≡ 1) × (round c ≡ odd_branch c))
unfolding round odd_branch
round_cases c = ground (arith, bit_and_mask 1 c)

round-IsCrc : (c : Crc) → IsCrc c → IsCrc (round c)
round-IsCrc c h = ground (arith, round_cases c, odd_branch_top c h)

round_injective : (a b : Crc) → IsCrc a → IsCrc b → round a ≡ round b → a ≡ b
round_injective a b ha hb e = ground (
  arith,
  round_cases a,
  round_cases b,
  odd_branch_top a ha,
  odd_branch_top b hb,
  odd_branch_injective a b,
)

rounds-IsCrc : (n : ℕ) (c : Crc) → IsCrc c → IsCrc (rounds n c)
unfolding rounds
rounds-IsCrc zero c h = h
rounds-IsCrc (suc n) c h = rounds-IsCrc n (round c) (round-IsCrc c h)

rounds_injective : (n : ℕ) (a b : Crc) → IsCrc a → IsCrc b → rounds n a ≡ rounds n b → a ≡ b
unfolding rounds
rounds_injective zero a b ha hb e = e
rounds_injective (suc n) a b ha hb e =
    round_injective a b ha hb
      (rounds_injective n (round a) (round b) (round-IsCrc a ha) (round-IsCrc b hb) e)

xor-IsCrc : (c d : ℕ) → IsCrc c → IsByte d → IsCrc (bit_xor c d)
xor-IsCrc c d hc hd = bit_xor-lt 16 c d hc (omega arith)

pub add-IsCrc : (c : Crc) (d : ℕ) → IsCrc c → IsByte d → IsCrc (add c d)
unfolding add
add-IsCrc c d hc hd = rounds-IsCrc 8 _ (xor-IsCrc c d hc hd)

pub add_all-IsCrc : (c : Crc) (ds : List ℕ) → IsCrc c → All IsByte ds → IsCrc (add_all c ds)
unfolding add_all
add_all-IsCrc c [] hc h = hc
add_all-IsCrc c (d ∷ ds) hc h = add_all-IsCrc (add c d) ds (add-IsCrc c d hc h.0) h.1

pub crc_of-IsCrc : (ds : List ℕ) → All IsByte ds → IsCrc (crc_of ds)
unfolding crc_of reset
crc_of-IsCrc ds h = add_all-IsCrc reset ds (omega arith) h

-- The two ways in which `add` is injective.
add_injective_counter :
    (a b : Crc) (d : ℕ) → IsCrc a → IsCrc b → IsByte d → add a d ≡ add b d → a ≡ b
unfolding add
add_injective_counter a b d ha hb hd e =
    sym (bit_xor_cancel a d)
    ∙ ap (λ (t : ℕ). bit_xor t d)
        (rounds_injective 8 _ _ (xor-IsCrc a d ha hd) (xor-IsCrc b d hb hd) e)
    ∙ bit_xor_cancel b d

add_injective_byte : (c : Crc) (x y : ℕ) → IsCrc c → IsByte x → IsByte y → add c x ≡ add c y → x ≡ y
unfolding add
add_injective_byte c x y hc hx hy e =
    sym (bit_xor_cancel x c)
    ∙ ap (λ (t : ℕ). bit_xor t c)
        (bit_xor_comm x c
          ∙ rounds_injective 8 _ _ (xor-IsCrc c x hc hx) (xor-IsCrc c y hc hy) e
          ∙ bit_xor_comm c y)
    ∙ bit_xor_cancel y c

add_all_injective :
    (ds : List ℕ) (a b : Crc)
    → IsCrc a
    → IsCrc b
    → All IsByte ds
    → add_all a ds ≡ add_all b ds
    → a ≡ b
unfolding add_all
add_all_injective [] a b ha hb h e = e
add_all_injective (d ∷ ds) a b ha hb h e =
    add_injective_counter a b d ha hb h.0
      (add_all_injective ds (add a d) (add b d) (add-IsCrc a d ha h.0) (add-IsCrc b d hb h.0) h.1 e)

same_byte :
    (front back : List ℕ) (x y : ℕ)
    → All IsByte front
    → All IsByte back
    → IsByte x
    → IsByte y
    → crc_of (front ++ (x ∷ back)) ≡ crc_of (front ++ (y ∷ back))
    → x ≡ y
unfolding crc_of add_all
same_byte front back x y hf hb hx hy e = add_injective_byte c x y hc hx hy (
    add_all_injective back (add c x) (add c y) (add-IsCrc c x hc hx) (add-IsCrc c y hc hy) hb
      (sym (add_all-append reset front (x ∷ back)) ∙ e ∙ add_all-append reset front (y ∷ back)))
  where
    c : Crc
    c = add_all reset front

    hc : IsCrc c
    hc = crc_of-IsCrc front hf

-- Two messages of bytes that differ in exactly one place have different CRCs.
pub crc_detects_byte :
    (front back : List ℕ) (x y : ℕ)
    → All IsByte front
    → All IsByte back
    → IsByte x
    → IsByte y
    → x ≢ y
    → crc_of (front ++ (x ∷ back)) ≢ crc_of (front ++ (y ∷ back))
crc_detects_byte front back x y hf hb hx hy ne e = ne (same_byte front back x y hf hb hx hy e)
