-- ===== src/Crio/ArrayUtilities/BigEndian.antt =====
-- The integers that U8ArrayUtilities and U16ArrayUtilities read.
use ts_c_riocpp.Common.{
  ℕ, ◌+◌, ◌*◌, ◌%◌, ◌^◌, ◌<◌, ◌≡◌, refl, ◌∙◌, List, [], ◌∷◌, bit_or, bit_or_disjoint, bit_or_bound,
  value, arith,
}
use ts_c_riocpp.Crio.ArrayUtilities.{
  Memory, join_low, i64_at, u64_at, word_at, long_at, float_at, u64_of_words,
}

-- A field is put behind what was read before it.
field : (k q r s : ℕ) {x : ℕ} → x ≡ s → s ≡ q * 2 ^ k → r < 2 ^ k → bit_or x r ≡ s + r
field k q r s {x} e shape h = rw (e, shape) (bit_or_disjoint k q r h)

abbrev pub Bytes : Memory → Type 0
Bytes buffer = (k : ℕ) → buffer k < 256

word_at_lem :
    (buffer : Memory) (i : ℕ)
    → Bytes buffer
    → word_at buffer i ≡ value (buffer (i + 1) ∷ buffer i ∷ [])
unfolding word_at
word_at_lem buffer i h = omega (
  arith,
  field 8 (buffer i) (buffer (i + 1)) (buffer i * 2 ^ 8) refl refl (h (i + 1)),
  h i,
  h (i + 1),
)

long_at_lem : (buffer : Memory) (i : ℕ) → Bytes buffer → long_at buffer i ≡ float_at buffer i
unfolding long_at float_at
long_at_lem buffer i h =
    let a = buffer i in
    let b = buffer (i + 1) in
    let c = buffer (i + 2) in
    let d = buffer (i + 3) in
    let ha = h i in
    let hb = h (i + 1) in
    let hc = h (i + 2) in
    let hd = h (i + 3) in
    let e₀ : a * 2 ^ 24 % 2 ^ 32 ≡ a * 2 ^ 24 = omega arith in
    let e₁ = field 24 a (b * 2 ^ 16) (a * 2 ^ 24) e₀ refl (omega arith) in
    let e₂ =
      field 16 (a * 2 ^ 8 + b) (c * 2 ^ 8) (a * 2 ^ 24 + b * 2 ^ 16) e₁ (omega arith)
        (omega arith) in
    let e₃ =
      field 8 (a * 2 ^ 16 + b * 2 ^ 8 + c) d (a * 2 ^ 24 + b * 2 ^ 16 + c * 2 ^ 8) e₂ (omega arith)
        hd in
    e₃ ∙ omega arith

-- The last six bytes behind a number whose low 48 bits are zero.
join_low_lem :
    (buffer : Memory) (i q : ℕ) {x : ℕ}
    → x ≡ q * 2 ^ 48
    → Bytes buffer
    → join_low buffer i x
      ≡ q * 2 ^ 48
        + value (
            buffer (i + 7)
            ∷ buffer (i + 6)
            ∷ buffer (i + 5)
            ∷ buffer (i + 4)
            ∷ buffer (i + 3)
            ∷ buffer (i + 2)
            ∷ [])
unfolding join_low
join_low_lem buffer i q e₀ h =
    let c = buffer (i + 2) in
    let d = buffer (i + 3) in
    let e = buffer (i + 4) in
    let f = buffer (i + 5) in
    let g = buffer (i + 6) in
    let k = buffer (i + 7) in
    let hc = h (i + 2) in
    let hd = h (i + 3) in
    let he = h (i + 4) in
    let hf = h (i + 5) in
    let hg = h (i + 6) in
    let hk = h (i + 7) in
    let q₃ = q * 2 ^ 8 + c in
    let q₄ = q₃ * 2 ^ 8 + d in
    let q₅ = q₄ * 2 ^ 8 + e in
    let q₆ = q₅ * 2 ^ 8 + f in
    let q₇ = q₆ * 2 ^ 8 + g in
    let e₂ = field 48 q (c * 2 ^ 40) (q * 2 ^ 48) e₀ refl (omega arith) in
    let e₃ = field 40 q₃ (d * 2 ^ 32) (q₃ * 2 ^ 40) (e₂ ∙ omega arith) refl (omega arith) in
    let e₄ = field 32 q₄ (e * 2 ^ 24) (q₄ * 2 ^ 32) (e₃ ∙ omega arith) refl (omega arith) in
    let e₅ = field 24 q₅ (f * 2 ^ 16) (q₅ * 2 ^ 24) (e₄ ∙ omega arith) refl (omega arith) in
    let e₆ = field 16 q₆ (g * 2 ^ 8) (q₆ * 2 ^ 16) (e₅ ∙ omega arith) refl (omega arith) in
    let e₇ = field 8 q₇ k (q₇ * 2 ^ 8) (e₆ ∙ omega arith) refl hk in e₇ ∙ omega arith

-- The bytes of an integer of eight bytes, the least significant first.
abbrev pub eight_bytes : Memory → ℕ → List ℕ
eight_bytes buffer i =
    buffer (i + 7)
    ∷ buffer (i + 6)
    ∷ buffer (i + 5)
    ∷ buffer (i + 4)
    ∷ buffer (i + 3)
    ∷ buffer (i + 2)
    ∷ buffer (i + 1)
    ∷ buffer i
    ∷ []

u64_at_lem :
    (buffer : Memory) (i : ℕ) → Bytes buffer → u64_at buffer i ≡ value (eight_bytes buffer i)
unfolding u64_at
u64_at_lem buffer i h =
    let a = buffer i in
    let b = buffer (i + 1) in
    let ha = h i in
    let hb = h (i + 1) in
    let e₀ : a * 2 ^ 56 % 2 ^ 64 ≡ a * 2 ^ 56 = omega arith in
    let e₁ = field 56 a (b * 2 ^ 48) (a * 2 ^ 56) e₀ refl (omega arith) in
    join_low_lem buffer i (a * 2 ^ 8 + b) (e₁ ∙ omega arith) h ∙ omega arith

join_low_bound :
    (buffer : Memory) (i : ℕ) {x : ℕ} → x < 2 ^ 62 → Bytes buffer → join_low buffer i x < 2 ^ 62
unfolding join_low
join_low_bound buffer i hx h =
    let hc = h (i + 2) in
    let hd = h (i + 3) in
    let he = h (i + 4) in
    let hf = h (i + 5) in
    let hg = h (i + 6) in
    let hk = h (i + 7) in
    let more = bit_or_bound 62 in
    more _ _
      (more _ _
        (more _ _ (more _ _ (more _ _ (more _ _ hx (omega arith)) (omega arith)) (omega arith))
          (omega arith))
        (omega arith))
      (omega arith)

-- From bytes U64 reads the integer of which they are the bytes, the most significant first. What I64 reads
-- from them is below 2 ^ 62: it is never the pattern of a negative number, whatever the first byte.
pub u64_at-i64_at_lem :
    (buffer : Memory) (i : ℕ)
    → Bytes buffer
    → (u64_at buffer i ≡ value (eight_bytes buffer i)) × (i64_at buffer i < 2 ^ 62)
unfolding i64_at
u64_at-i64_at_lem buffer i h =
    let ha = h i in
    let hb = h (i + 1) in
    (
      u64_at_lem buffer i h,
      join_low_bound buffer i (bit_or_bound 62 _ _ (omega arith) (omega arith)) h,
    )

-- The words of U16ArrayUtilities.
u64_of_words_lem :
    (buffer : Memory) (i : ℕ)
    → ((k : ℕ) → buffer k < 2 ^ 16)
    → u64_of_words buffer i
      ≡ buffer i * 2 ^ 48 + buffer (i + 1) * 2 ^ 32 + buffer (i + 2) * 2 ^ 16 + buffer (i + 3)
unfolding u64_of_words
u64_of_words_lem buffer i h =
    let a = buffer i in
    let b = buffer (i + 1) in
    let c = buffer (i + 2) in
    let d = buffer (i + 3) in
    let hb = h (i + 1) in
    let hc = h (i + 2) in
    let hd = h (i + 3) in
    let q₂ = a * 2 ^ 16 + b in
    let q₃ = q₂ * 2 ^ 16 + c in
    let e₁ = field 48 a (b * 2 ^ 32) (a * 2 ^ 48) refl refl (omega arith) in
    let e₂ = field 32 q₂ (c * 2 ^ 16) (q₂ * 2 ^ 32) (e₁ ∙ omega arith) refl (omega arith) in
    let e₃ = field 16 q₃ d (q₃ * 2 ^ 16) (e₂ ∙ omega arith) refl hd in e₃ ∙ omega arith
