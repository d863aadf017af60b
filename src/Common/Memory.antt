-- ===== src/Common/Memory.antt =====
-- Integers in the memory of the controller, whose byte order is little-endian (the cRIO targets are
-- x86-64), and the byte swaps of <arpa/inet.h> and <endian.h>.
use Prim.Native.Nat.{ℕ, zero, suc, ◌+◌, ◌*◌, ◌/◌, ◌%◌, ◌^◌, ◌<◌}
use mathlib.Core.Path.{◌≡◌, refl, ap, ◌∙◌}
use mathlib.Core.List.{List, [], ◌∷◌, reverse, reverse-append, reverse-reverse}
use native.Mathlib.Omega.{arith}
use native.Mathlib.Nat.{pow-suc}
use ts_c_riocpp.Common.Lists.{length, length-append, All, All-append}
use ts_c_riocpp.Common.Words.{IsByte}

-- The bytes of an integer of `n` bytes, as they stand in memory.
abbrev pub memory : ℕ → ℕ → List ℕ
memory zero d = []
memory (suc n) d = (d % 256) ∷ memory n (d / 256)

-- The integer that such bytes are.
abbrev pub value : List ℕ → ℕ
value [] = 0
value (b ∷ bs) = b + 256 * value bs

-- htons, htonl, htobe64 and their inverses, for 2, 4 and 8 bytes.
unfoldable pub swap : ℕ → ℕ → ℕ
swap n d = value (reverse (memory n d))

pub length-memory : (n d : ℕ) → length (memory n d) ≡ n
length-memory zero d = refl
length-memory (suc n) d = ap suc (length-memory n (d / 256))

pub memory-IsByte : (n d : ℕ) → All IsByte (memory n d)
memory-IsByte zero d = tt
memory-IsByte (suc n) d = (omega arith, memory-IsByte n (d / 256))

pub memory-value : (bs : List ℕ) (n : ℕ) → length bs ≡ n → All IsByte bs → memory n (value bs) ≡ bs
memory-value [] zero e h = refl
memory-value [] (suc n) e h = absurd (omega arith)
memory-value (b ∷ bs) zero e h = absurd (omega arith)
memory-value (b ∷ bs) (suc n) e (hb, hs) =
    rw (low, high) (ap (λ t. b ∷ t) (memory-value bs n (omega arith) hs))
  where
    low : (b + 256 * value bs) % 256 ≡ b
    low = omega arith

    high : (b + 256 * value bs) / 256 ≡ value bs
    high = omega arith

pub value-memory : (n d : ℕ) → d < 256 ^ n → value (memory n d) ≡ d
value-memory zero d h = omega arith
value-memory (suc n) d h =
    omega (arith, pow-suc 256 n, value-memory n (d / 256) (omega (arith, pow-suc 256 n)))

pub length-reverse {ℓ} : {A : Type ℓ} (xs : List A) → length (reverse xs) ≡ length xs
length-reverse [] = refl
length-reverse (x ∷ xs) =
    rw (reverse-append (x ∷ []) xs)
      (omega (arith, length-append (reverse xs) (x ∷ []), length-reverse xs))

pub All-reverse {ℓ κ} : {A : Type ℓ} (P : A → Type κ) (xs : List A) → All P xs → All P (reverse xs)
All-reverse P [] h = h
All-reverse P (x ∷ xs) (hx, hs) =
    rw (reverse-append (x ∷ []) xs)
      (All-append P (reverse xs) (x ∷ []) (All-reverse P xs hs) (hx, tt))

-- A swapped integer stands in memory with its highest byte first.
pub memory-swap : (n d : ℕ) → memory n (swap n d) ≡ reverse (memory n d)
unfolding swap
memory-swap n d =
    memory-value (reverse (memory n d)) n (length-reverse (memory n d) ∙ length-memory n d)
      (All-reverse IsByte (memory n d) (memory-IsByte n d))

pub swap-swap : (n d : ℕ) → d < 256 ^ n → swap n (swap n d) ≡ d
swap-swap n d h =
    unfold swap in
    ap (λ bs. value (reverse bs)) (memory-swap n d)
    ∙ ap value (reverse-reverse (memory n d))
    ∙ value-memory n d h
