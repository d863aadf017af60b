-- ===== src/Crio/IntelHex/Image.antt =====
-- Where the data of a line are in the memory image.
use ts_c_riocpp.Common.{
  ℕ, zero, suc, ◌+◌, ◌-◌, ◌^◌, ◌≤◌, ◌<◌, ◌≡◌, ◌⊎◌, refl, sym, ap, ◌∙◌, List, [], ◌∷◌, ◌++◌, arith,
  length, u16, some, get_elem?, get_elem?-append_left, get_elem?-append_right,
}
use mathlib.Core.List.{Memᴰ, Permᴰ}
use mathlib.Core.Path.{subst}
use native.Mathlib.Decide.{dec_lt}
use ts_c_riocpp.Crio.IntelHex.{IntelHexLine, filler, filling, copy_lines, get_data}

pub length-filling : (i n : ℕ) → length (filling i n) ≡ n
unfolding filling
length-filling i zero = refl
length-filling i (suc n) = ap suc (length-filling (i + 1) n)

filling_at : (i n k : ℕ) → k < n → get_elem? (filling i n) k ≡ some (filler (i + k))
unfolding filling
filling_at i zero k h = absurd (omega arith)
filling_at i (suc n) zero h = ap (λ x. some (filler x)) (omega arith)
filling_at i (suc n) (suc k) h =
    filling_at (i + 1) n k (omega arith) ∙ ap (λ x. some (filler x)) (omega arith)

-- A rearranged list has the same elements.
Permᴰ-Mem : {xs ys : List IntelHexLine} (h : IntelHexLine) → Permᴰ xs ys → Memᴰ h xs → Memᴰ h ys
Permᴰ-Mem h Permᴰ.nil m = m
Permᴰ-Mem h (Permᴰ.cons e p) (Memᴰ.head a) = Memᴰ.head (a ∙ e)
Permᴰ-Mem h (Permᴰ.cons e p) (Memᴰ.tail m) = Memᴰ.tail (Permᴰ-Mem h p m)
Permᴰ-Mem h (Permᴰ.swap d e) (Memᴰ.head a) = Memᴰ.tail (Memᴰ.head (a ∙ d))
Permᴰ-Mem h (Permᴰ.swap d e) (Memᴰ.tail (Memᴰ.head a)) = Memᴰ.head (a ∙ e)
Permᴰ-Mem h (Permᴰ.swap d e) (Memᴰ.tail (Memᴰ.tail m)) = Memᴰ.tail (Memᴰ.tail m)
Permᴰ-Mem h (Permᴰ.trans p q) m = Permᴰ-Mem h q (Permᴰ-Mem h p m)

-- The lines stand in order, without overlap, from `last` on, in 64 KB.
abbrev pub Laid : ℕ → List IntelHexLine → Type 0
Laid last [] = Unit
Laid last (h ∷ hs) =
    (last ≤ h.address)
    × (h.address < 2 ^ 16)
    × (h.address + length h.bytes ≤ 2 ^ 16)
    × Laid (h.address + length h.bytes) hs

-- The end of the last line.
abbrev pub end_of : ℕ → List IntelHexLine → ℕ
end_of last [] = last
end_of last (h ∷ hs) = end_of (h.address + length h.bytes) hs

-- Behind a line that ends with the address space there is no other.
no_wrap :
    (last : ℕ) (hs : List IntelHexLine)
    → last ≤ 2 ^ 16
    → Laid last hs
    → copy_lines (u16 last) hs ≡ copy_lines last hs
unfolding copy_lines
no_wrap last [] h l = refl
no_wrap last (x ∷ hs) h l =
    ap
      (λ a.
        filling a (x.address - a) ++ (x.bytes ++ copy_lines (u16 (x.address + length x.bytes)) hs))
      (omega (arith, l.0))

copy_lines_next :
    (last : ℕ) (h : IntelHexLine) (hs : List IntelHexLine)
    → Laid last (h ∷ hs)
    → copy_lines last (h ∷ hs)
      ≡ filling last (h.address - last) ++ (h.bytes ++ copy_lines (h.address + length h.bytes) hs)
unfolding copy_lines
copy_lines_next last h hs l =
    ap (λ r. filling last (h.address - last) ++ (h.bytes ++ r))
      (no_wrap (h.address + length h.bytes) hs l.2 l.3)

-- The data of every line stand in the image at its address.
placed :
    (last : ℕ) (hs : List IntelHexLine) (h : IntelHexLine) (j : ℕ)
    → Laid last hs
    → Memᴰ h hs
    → j < length h.bytes
    → (last ≤ h.address)
      × (get_elem? (copy_lines last hs) (h.address - last + j) ≡ get_elem? h.bytes j)
placed last [] h j l m lt = elim m [ ]
placed last (x ∷ hs) h j l (Memᴰ.head e) lt = rw e (
  l.0,
  ap (λ r. get_elem? r (x.address - last + j)) (copy_lines_next last x hs l)
      ∙ get_elem?-append_right (filling last (x.address - last)) _ (x.address - last + j) j
          (omega (arith, length-filling last (x.address - last)))
      ∙ get_elem?-append_left x.bytes _ j (rw e at lt),
)
placed last (x ∷ hs) h j l (Memᴰ.tail m) lt =
    let rest = placed (x.address + length x.bytes) hs h j l.3 m lt in
    (
      omega (arith, rest.0, l.0),
      ap (λ r. get_elem? r (h.address - last + j)) (copy_lines_next last x hs l)
          ∙ get_elem?-append_right (filling last (x.address - last)) _ (h.address - last + j)
              (length x.bytes + (h.address - (x.address + length x.bytes) + j))
              (omega (arith, length-filling last (x.address - last), rest.0, l.0))
          ∙ get_elem?-append_right x.bytes _ _ (h.address - (x.address + length x.bytes) + j) refl
          ∙ rest.1,
    )

-- No line has data at the address.
abbrev pub Unused : ℕ → List IntelHexLine → Type 0
Unused a [] = Unit
Unused a (h ∷ hs) = ((a < h.address) ⊎ (h.address + length h.bytes ≤ a)) × Unused a hs

filled_at :
    (last : ℕ) (hs : List IntelHexLine) (k : ℕ)
    → Laid last hs
    → Unused (last + k) hs
    → last + k < end_of last hs
    → get_elem? (copy_lines last hs) k ≡ some (filler (last + k))
filled_at last [] k l u lt = absurd (omega arith)
filled_at last (h ∷ hs) k l u lt =
    ap (λ r. get_elem? r k) (copy_lines_next last h hs l) ∙ elim (dec_lt k (h.address - last)) [
      | yes before ↦
          get_elem?-append_left (filling last (h.address - last)) _ k
            (omega (arith, length-filling last (h.address - last)))
          ∙ filling_at last (h.address - last) k before
      | no behind ↦
          let end : ℕ = h.address + length h.bytes in
          let later : ℕ = last + k - end in
          let same : last + k ≡ end + later = omega (arith, l.0, u.0, behind) in
          get_elem?-append_right (filling last (h.address - last)) _ k (k - (h.address - last))
            (omega (arith, length-filling last (h.address - last)))
          ∙ get_elem?-append_right h.bytes _ (k - (h.address - last)) later
              (omega (arith, l.0, same))
          ∙ filled_at end hs later l.3 (subst (λ a. Unused a hs) same u.1) (omega (arith, same, lt))
          ∙ ap (λ a. some (filler a)) (sym same)
    ]

-- For every std::sort that rearranges the lines, whatever it does with equal addresses: where the lines, in
-- the order that it leaves, are in the order of their addresses, do not overlap and end in 64 KB, getData
-- answers the lowest address and the image from there on: each line's data stand at its address, and
-- every other byte in between is the filler, 0x00 at the fourth byte of four and 0xff at the others.
pub get_data_lem :
    (sort : List IntelHexLine → List IntelHexLine) (lines : List IntelHexLine)
    (first : IntelHexLine) (more : List IntelHexLine)
    → Permᴰ lines (sort lines)
    → sort lines ≡ first ∷ more
    → Laid first.address (first ∷ more)
    → (bytes : List ℕ) × (get_data sort lines ≡ some (first.address, bytes))
      × ((h : IntelHexLine) (j : ℕ)
          → Memᴰ h lines
          → j < length h.bytes
          → get_elem? bytes (h.address - first.address + j) ≡ get_elem? h.bytes j)
      × ((k : ℕ)
          → Unused (first.address + k) (first ∷ more)
          → first.address + k < end_of first.address (first ∷ more)
          → get_elem? bytes k ≡ some (filler (first.address + k)))
unfolding get_data
get_data_lem sort lines first more p e l = (
  copy_lines first.address (first ∷ more),
  rw (e, get_data) refl,
  λ h j m lt. (placed first.address (first ∷ more) h j l (rw e at (Permᴰ-Mem h p m)) lt).1,
  λ k u lt. filled_at first.address (first ∷ more) k l u lt,
)
