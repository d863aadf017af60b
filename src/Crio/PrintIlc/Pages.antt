-- ===== src/Crio/PrintIlc/Pages.antt =====
-- The pages of a firmware are its bytes, without every fourth.
use ts_c_riocpp.Common.{
  ℕ, zero, suc, ◌+◌, ◌-◌, ◌*◌, ◌/◌, ◌%◌, ◌≤◌, ◌≡◌, refl, ap, ◌∙◌, List, [], ◌∷◌, ◌++◌, arith,
  length, length-append, u16, ◌==◌, Bool-cases, inl, inr,
}
use ts_c_riocpp.Crio.IntelHex.{filling}
use ts_c_riocpp.Crio.IntelHex.Image.{length-filling}
use ts_c_riocpp.Crio.PrintIlc.{Page, read_groups, write_pages, aligned, write_hex}

-- The bytes of a program: three of each four.
abbrev pub program : List ℕ → List ℕ
program (a ∷ b ∷ c ∷ d ∷ rest) = a ∷ b ∷ c ∷ program rest
program rest = []

abbrev pub sent : List Page → List ℕ
sent [] = []
sent (p ∷ ps) = p.bytes ++ sent ps

-- The pages have 192 bytes each, and stand at addresses 256 apart.
abbrev pub ArePages : ℕ → List Page → Type 0
ArePages address [] = Unit
ArePages address (p ∷ ps) =
    (p.address ≡ address) × (length p.bytes ≡ 192) × ArePages (u16 (address + 256)) ps

read_groups_lem :
    (n : ℕ) (bytes : List ℕ)
    → 4 * n ≤ length bytes
    → let page = read_groups n bytes in
      (page.0 ++ program page.1 ≡ program bytes)
      × (length page.0 ≡ 3 * n)
      × (length page.1 + 4 * n ≡ length bytes)
unfolding read_groups
read_groups_lem zero bytes h = (refl, refl, omega arith)
read_groups_lem (suc n) (a ∷ b ∷ c ∷ d ∷ rest) h =
    let more = read_groups_lem n rest (omega (arith, h)) in
    (ap (λ r. a ∷ b ∷ c ∷ r) more.0, omega (arith, more.1), omega (arith, more.1))
read_groups_lem (suc n) (a ∷ b ∷ c ∷ []) h = absurd (omega (arith, h))
read_groups_lem (suc n) (a ∷ b ∷ []) h = absurd (omega (arith, h))
read_groups_lem (suc n) (a ∷ []) h = absurd (omega (arith, h))
read_groups_lem (suc n) [] h = absurd (omega (arith, h))

write_pages_lem :
    (n fuel address : ℕ) (bytes : List ℕ)
    → length bytes ≡ 256 * n
    → n ≤ fuel
    → let ps = write_pages fuel address bytes in
      (sent ps ≡ program bytes) × (length ps ≡ n) × ArePages address ps
unfolding write_pages
write_pages_lem zero fuel address (b ∷ bs) e h = absurd (omega (arith, e))
write_pages_lem zero zero address [] e h = (refl, refl, tt)
write_pages_lem zero (suc fuel) address [] e h = (refl, refl, tt)
write_pages_lem (suc n) zero address bytes e h = absurd (omega arith)
write_pages_lem (suc n) (suc fuel) address [] e h = absurd (omega (arith, e))
write_pages_lem (suc n) (suc fuel) address (b ∷ bs) e h =
    let page = read_groups_lem 64 (b ∷ bs) (omega (arith, e)) in
    let more =
      write_pages_lem n fuel (u16 (address + 256)) (read_groups 64 (b ∷ bs)).1
        (omega (arith, page, e)) (omega arith) in
    (
      ap (λ r. (read_groups 64 (b ∷ bs)).0 ++ r) more.0 ∙ page.0,
      omega (arith, more.1),
      (refl, omega (arith, page.1), more.2),
    )

length-aligned : (bytes : List ℕ) → length (aligned bytes) ≡ 256 * ((length bytes + 255) / 256)
unfolding aligned
length-aligned bytes = elim (Bool-cases (length bytes % 256 == 0)) [
  | inl e ↦ rw e (ground (arith, e, length-append bytes (filling 256 0), length-filling 256 0))
  | inr e ↦ rw e (
      ground (
        arith,
        e,
        length-append bytes (filling (length bytes % 256) (256 - length bytes % 256)),
        length-filling (length bytes % 256) (256 - length bytes % 256),
      ))
]

-- The pages that _writeHex sends are the aligned data without every fourth byte, in order: as many pages
-- of 192 bytes as the data have begun blocks of 256, at addresses 256 apart from the start address on.
pub write_hex_lem :
    (start : ℕ) (bytes : List ℕ)
    → let ps = (write_hex start bytes).pages in
      (sent ps ≡ program (aligned bytes))
      × (length ps ≡ (length bytes + 255) / 256)
      × ArePages start ps
unfolding write_hex
write_hex_lem start bytes =
    write_pages_lem ((length bytes + 255) / 256) (length (aligned bytes)) start (aligned bytes)
      (length-aligned bytes) (omega (arith, length-aligned bytes))
