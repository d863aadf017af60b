-- ===== src/Crio/TaskQueue.antt =====
-- class TaskQueue of include/cRIO/TaskQueue.h and src/LSST/cRIO/TaskQueue.cpp: a std::priority_queue
-- of tasks with the time when they are due, with the earliest at the top, and its `remove`.
-- push and pop of the priority queue are not code of the repository: they are the operations of
-- `HeapOps`, of which `HeapLaws` states what the C++ standard documents. The vector behind the queue is
-- the list of its entries, and top() is the first of them. A task is known by its address.
pub mod Top
use ts_c_riocpp.Common.{
  ℕ, zero, suc, ◌+◌, ◌*◌, ◌≤◌, ◌<◌, ◌≡◌, ◌⊎◌, List, [], ◌∷◌, Option, some, Bool, true, false,
  get_elem?, if◌then◌else◌, ◌==◌,
}

-- The time, and the task.
abbrev pub Entry : Type 0
Entry = ℕ × ℕ

-- The order of std::pair.
abbrev pub EntryLe : Entry → Entry → Type 0
EntryLe a b = (a.0 < b.0) ⊎ ((a.0 ≡ b.0) × (a.1 ≤ b.1))

-- A heap with the least entry at the top: no entry comes before the one that its place belongs under.
abbrev pub IsHeap : List Entry → Type 0
IsHeap q =
    (i j : ℕ) (a b : Entry)
    → (j ≡ 2 * i + 1) ⊎ (j ≡ 2 * i + 2)
    → get_elem? q i ≡ some a
    → get_elem? q j ≡ some b
    → EntryLe a b

abbrev pub count {ℓ} : {A : Type ℓ} → (A → Bool) → List A → ℕ
count p [] = 0
count p (x ∷ xs) = if p x then suc (count p xs) else count p xs

pub record HeapOps : Type 0 where
  pub push : Entry → List Entry → List Entry
  pub pop : List Entry → List Entry

-- Of a heap, push and pop make heaps; push adds its entry, and pop takes the first one off.
pub record HeapLaws (ops : HeapOps) : Type 0 where
  pub push_IsHeap : (e : Entry) (q : List Entry) → IsHeap q → IsHeap (ops.push e q)
  pub push_count :
      (p : Entry → Bool) (e : Entry) (q : List Entry)
      → IsHeap q
      → count p (ops.push e q) ≡ count p (e ∷ q)
  pub pop_IsHeap : (t : Entry) (q : List Entry) → IsHeap (t ∷ q) → IsHeap (ops.pop (t ∷ q))
  pub pop_count :
      (p : Entry → Bool) (t : Entry) (q : List Entry)
      → IsHeap (t ∷ q)
      → count p (ops.pop (t ∷ q)) ≡ count p q

-- The vector behind the loop, and whether anything was removed.
unfoldable pub remove : ℕ → List Entry → List Entry × Bool
remove what [] = ([], false)
remove what (e ∷ es) =
    let rest = remove what es in if e.1 == what then (rest.0, true) else (e ∷ rest.0, rest.1)
