-- ===== src/Crio/TaskQueue/Top.antt =====
-- What the top of a queue is, and what `remove` makes of it.
use ts_c_riocpp.Common.{
  ℕ, zero, suc, ◌/◌, ◌<◌, ◌≡◌, ◌≢◌, inl, refl, ap, ◌∙◌, List, [], ◌∷◌, some, arith, get_elem?,
  lt_of_get_elem?, length, ==_self, ==_false,
}
use ts_c_riocpp.Crio.TaskQueue.{Entry, EntryLe, IsHeap, remove}

EntryLe-trans : (a b c : Entry) → EntryLe a b → EntryLe b c → EntryLe a c
EntryLe-trans a b c h k = omega (arith, h, k)

elem_below : (q : List Entry) (i : ℕ) → i < length q → (x : Entry) × (get_elem? q i ≡ some x)
elem_below [] i h = absurd (omega arith)
elem_below (x ∷ q) zero h = (x, refl)
elem_below (x ∷ q) (suc i) h = elem_below q i (omega arith)

top_le_below :
    (n : ℕ) (q : List Entry) (t : Entry) (j : ℕ) (b : Entry)
    → IsHeap q
    → get_elem? q 0 ≡ some t
    → j < n
    → get_elem? q j ≡ some b
    → EntryLe t b
top_le_below zero q t j b h first below e = absurd (omega arith)
top_le_below (suc n) q t zero b h first below e =
    omega (arith, ap (λ x. x.0) same, ap (λ x. x.1) same)
  where
    same : t ≡ b
    same = cc
top_le_below (suc n) q t (suc k) b h first below e =
    EntryLe-trans t a b (top_le_below n q t (k / 2) a h first (omega arith) found)
      (h (k / 2) (suc k) a b (omega arith) found e)
  where
    parent : (x : Entry) × (get_elem? q (k / 2) ≡ some x)
    parent = elem_below q (k / 2) (omega (arith, lt_of_get_elem? q (suc k) b e))

    a : Entry
    a = parent.0

    found : get_elem? q (k / 2) ≡ some a
    found = parent.1

-- In a heap no entry comes before the first.
pub top_le :
    (q : List Entry) (t : Entry) (j : ℕ) (b : Entry)
    → IsHeap (t ∷ q)
    → get_elem? (t ∷ q) j ≡ some b
    → EntryLe t b
top_le q t j b h e = top_le_below (suc j) (t ∷ q) t j b h refl (omega arith) e

remove_hit :
    (what : ℕ) (e : Entry) (q : List Entry)
    → e.1 ≡ what
    → (remove what (e ∷ q)).0 ≡ (remove what q).0
unfolding remove
remove_hit what e q h = rw (h, ==_self what) refl

remove_miss :
    (what : ℕ) (e : Entry) (q : List Entry)
    → e.1 ≢ what
    → (remove what (e ∷ q)).0 ≡ e ∷ (remove what q).0
unfolding remove
remove_miss what e q h = rw (==_false e.1 what h) refl

-- In a heap whose third entry is due before the second, remove of the task of the first entry, which
-- is not that of the other two, leaves the second entry at the top, before the third, which is due
-- earlier: what is left is no heap.
pub remove_disorders :
    (a b c : Entry) (rest : List Entry)
    → IsHeap (a ∷ b ∷ c ∷ rest)
    → b.1 ≢ a.1
    → c.1 ≢ a.1
    → c.0 < b.0
    → let left = (remove a.1 (a ∷ b ∷ c ∷ rest)).0 in
      (get_elem? left 0 ≡ some b) × (get_elem? left 1 ≡ some c) × (¬ IsHeap left)
remove_disorders a b c rest h hb hc early =
    rw kept (refl, refl, λ heap. absurd (omega (arith, heap 0 1 b c (inl refl) refl refl)))
  where
    kept : (remove a.1 (a ∷ b ∷ c ∷ rest)).0 ≡ b ∷ c ∷ (remove a.1 rest).0
    kept =
        remove_hit a.1 a (b ∷ c ∷ rest) refl
        ∙ remove_miss a.1 b (c ∷ rest) hb
        ∙ ap (λ t. b ∷ t) (remove_miss a.1 c rest hc)
