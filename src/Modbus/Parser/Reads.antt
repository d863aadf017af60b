-- ===== src/Modbus/Parser/Reads.antt =====
-- Reading back what Buffer writes: one scalar.
use ts_c_riocpp.Common.{
  shl, ℕ, ◌+◌, ◌-◌, ◌*◌, ◌%◌, ◌^◌, ◌≤◌, ◌<◌, ◌≡◌, ◌⊎◌, refl, sym, ap, ◌∙◌, List, [], ◌∷◌, ◌++◌,
  append_assoc, arith, length, length-append, length-memory, length-reverse, take_front, drop_front,
  ltb-false, memory, value, swap, value-memory, memory-value, reverse, bit_and_single, bit_or_comm,
  bit_or_disjoint,
}
use mathlib.Core.List.{reverse-reverse}
use ts_c_riocpp.Modbus.Exceptions.{ok, ◌>>=◌, pure, >>=-ok}
use ts_c_riocpp.Modbus.Buffer.{Scalar, int24, int32, uint8, uint16, uint32, uint64, float32}
use ts_c_riocpp.Modbus.Buffer.Frame.{network, network-IsByte, encoded}
use ts_c_riocpp.Modbus.Parser.{Parser, read_buffer, read_u48, read_string, read, to_i24}

-- A parser that stands behind `front`, with `rest` to be read.
abbrev pub at : List ℕ → List ℕ → Parser
at front rest = record { bytes = front ++ rest; pos = length front }

-- The next block of the message is read, and the position moves behind it.
pub read_buffer_block :
    (front block back : List ℕ) (len : ℕ)
    → len ≡ length block
    → read_buffer len (at front (block ++ back)) ≡ ok block (at (front ++ block) back)
unfolding read_buffer
read_buffer_block front block back len e =
    rw
      (
        ltb-false _ _ fits,
        drop_front front (block ++ back) (length front) refl,
        take_front block back len e,
      )
      (λ i. ok block (record { bytes = sym (append_assoc front block back) i; pos = moved i }))
  where
    fits : length front + len ≤ length (front ++ (block ++ back))
    fits = omega (arith, length-append front (block ++ back), length-append block back)

    moved : length front + len ≡ length (front ++ block)
    moved = omega (arith, length-append front block)

-- The range of the integers of a type, as bit patterns; those of int24_t are 32-bit patterns whose
-- upper nine bits are equal.
abbrev pub InRange : Scalar → ℕ → Type 0
InRange int24 d = (d < 2 ^ 23) ⊎ ((2 ^ 32 - 2 ^ 23 ≤ d) × (d < 2 ^ 32))
InRange int32 d = d < 2 ^ 32
InRange uint8 d = d < 2 ^ 8
InRange uint16 d = d < 2 ^ 16
InRange uint32 d = d < 2 ^ 32
InRange uint64 d = d < 2 ^ 64
InRange float32 d = d < 2 ^ 32

pub length-network : (n d : ℕ) → length (network n d) ≡ n
length-network n d = length-reverse (memory n d) ∙ length-memory n d

-- Swapped back after a copy to memory, an integer in network order is itself.
pub swap-network : (n d : ℕ) → d < 256 ^ n → swap n (value (network n d)) ≡ d
unfolding swap
swap-network n d h =
    ap (λ bs. value (reverse bs))
      (memory-value (network n d) n (length-network n d) (network-IsByte n d))
    ∙ ap value (reverse-reverse (memory n d))
    ∙ value-memory n d h

swap_three : (d : ℕ) → swap 4 (value (encoded int24 d)) ≡ 256 * (d % 2 ^ 24)
unfolding swap
swap_three d = omega arith

pub to_i24_lem : (d : ℕ) → InRange int24 d → to_i24 (value (encoded int24 d)) ≡ d
unfolding to_i24
to_i24_lem d h = ground (
  arith,
  swap_three d,
  bit_and_single 23 (d % 2 ^ 24),
  bit_or_comm (d % 2 ^ 24) 0xFF000000,
  bit_or_disjoint 24 0xFF (d % 2 ^ 24) (omega arith),
)

-- Every `read` takes a block and converts it.
read_block :
    (front block back : List ℕ) (len : ℕ) (convert : List ℕ → ℕ) (d : ℕ)
    → len ≡ length block
    → convert block ≡ d
    → ◌>>=◌ (read_buffer len) (λ bs. pure (convert bs)) (at front (block ++ back))
      ≡ ok d (at (front ++ block) back)
read_block front block back len convert d e h =
    >>=-ok (read_buffer len) _ _ (read_buffer_block front block back len e)
    ∙ ap (λ v. ok v (at (front ++ block) back)) h

-- A scalar in the range of its type is read back as it was written, whatever stands before and behind.
pub read-encoded :
    (front back : List ℕ) (t : Scalar) (d : ℕ)
    → InRange t d
    → read t (at front (encoded t d ++ back)) ≡ ok d (at (front ++ encoded t d) back)
unfolding read
read-encoded front back int24 d h = read_block front _ back 3 _ d refl (to_i24_lem d h)
read-encoded front back int32 d h = read_block front _ back 4 _ d refl (swap-network 4 d h)
read-encoded front back uint8 d h = read_block front _ back 1 _ d refl (value-memory 1 d h)
read-encoded front back uint16 d h = read_block front _ back 2 _ d refl (swap-network 2 d h)
read-encoded front back uint32 d h = read_block front _ back 4 _ d refl (swap-network 4 d h)
read-encoded front back uint64 d h = read_block front _ back 8 _ d refl (swap-network 8 d h)
read-encoded front back float32 d h = read_block front _ back 4 _ d refl (swap-network 4 d h)

pub read_byte :
    (front back : List ℕ) (b : ℕ)
    → read uint8 (at front (b ∷ back)) ≡ ok b (at (front ++ (b ∷ [])) back)
unfolding read
read_byte front back b = read_block front (b ∷ []) back 1 _ b refl (omega arith)

-- The six bytes of an integer in network order are read as that integer.
pub read_u48-network :
    (front back : List ℕ) (d : ℕ)
    → d < 2 ^ 48
    → read_u48 (at front (network 6 d ++ back)) ≡ ok d (at (front ++ network 6 d) back)
unfolding read_u48
read_u48-network front back d h =
    >>=-ok (read_buffer 6) _ _ (read_buffer_block front (network 6 d) back 6 refl)
    ∙ ap (λ v. ok v (at (front ++ network 6 d) back)) (same ∙ swap-network 8 d (omega arith))
  where
    same : swap 8 (shl (value (network 6 d)) 16) ≡ swap 8 (value (network 8 d))
    same = ap (swap 8) (omega arith)

pub read_string_block :
    (front block back : List ℕ)
    → read_string (length block) (at front (block ++ back)) ≡ ok block (at (front ++ block) back)
unfolding read_string
read_string_block front block back = read_buffer_block front block back (length block) refl
