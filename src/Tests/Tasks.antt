-- ===== src/Tests/Tasks.antt =====
-- Runs of TaskQueue and ControllerThread, with a priority queue that keeps its entries sorted.
use ts_c_riocpp.Common.{
  ℕ, zero, suc, ◌<◌, ◌≡◌, inl, inr, refl, ◌∙◌, List, [], ◌∷◌, some, Bool, true, false, arith,
  get_elem?, none, if◌then◌else◌, ltb, leb, ◌==◌, ◌&&◌, ◌||◌, All, Bool-cases,
}
use mathlib.Core.Path.{subst}
use ts_c_riocpp.Modbus.Exceptions.{ok}
use ts_c_riocpp.Crio.TaskQueue.{Entry, EntryLe, IsHeap, count, HeapOps, HeapLaws, remove}
use ts_c_riocpp.Crio.TaskQueue.Top.{remove_disorders}
use ts_c_riocpp.Crio.ControllerThread.{Controller, World, check_interrupts, process_tasks}
use ts_c_riocpp.Crio.ControllerThread.Due.{returning, held, RunDue}
use ts_c_riocpp.Crio.ControllerThread.Interrupts.{due, call_all, check_interrupts_lem}
use ts_c_riocpp.Crio.ControllerThread.Process.{process_tasks_runs}

abbrev entry_leb : Entry → Entry → Bool
entry_leb a b = ltb a.0 b.0 || (a.0 == b.0 && leb a.1 b.1)

abbrev insert : Entry → List Entry → List Entry
insert e [] = e ∷ []
insert e (x ∷ xs) = if entry_leb e x then e ∷ x ∷ xs else x ∷ insert e xs

abbrev sort : List Entry → List Entry
sort [] = []
sort (x ∷ xs) = insert x (sort xs)

abbrev Sorted : List Entry → Type 0
Sorted [] = Unit
Sorted (x ∷ xs) = All (EntryLe x) xs × Sorted xs

All-get :
    (a : Entry) (q : List Entry) (j : ℕ) (b : Entry)
    → All (EntryLe a) q
    → get_elem? q j ≡ some b
    → EntryLe a b
All-get a [] j b h e = absurd (cc)
All-get a (x ∷ q) zero b h e = subst (EntryLe a) (some_inj e) h.0
  where
    some_inj : some x ≡ some b → x ≡ b
    some_inj s = cc
All-get a (x ∷ q) (suc j) b h e = All-get a q j b h.1 e

Sorted-pair :
    (q : List Entry) (i j : ℕ) (a b : Entry)
    → Sorted q
    → i < j
    → get_elem? q i ≡ some a
    → get_elem? q j ≡ some b
    → EntryLe a b
Sorted-pair [] i j a b h below ea eb = absurd cc
Sorted-pair (x ∷ q) i zero a b h below ea eb = absurd (omega arith)
Sorted-pair (x ∷ q) zero (suc j) a b h below ea eb =
    subst (λ y. EntryLe y b) same (All-get x q j b h.0 eb)
  where
    same : x ≡ a
    same = cc
Sorted-pair (x ∷ q) (suc i) (suc j) a b h below ea eb =
    Sorted-pair q i j a b h.1 (omega arith) ea eb

Sorted-IsHeap : (q : List Entry) → Sorted q → IsHeap q
Sorted-IsHeap q h i j a b place ea eb = Sorted-pair q i j a b h (omega (arith, place)) ea eb

All-insert :
    (a e : Entry) (q : List Entry) → EntryLe a e → All (EntryLe a) q → All (EntryLe a) (insert e q)
All-insert a e [] he h = (he, tt)
All-insert a e (x ∷ q) he h =
    elim (entry_leb e x) as (λ b. All (EntryLe a) (if b then e ∷ x ∷ q else x ∷ insert e q)) [
      | true ↦ (he, h)
      | false ↦ (h.0, All-insert a e q he h.1)
    ]

All-trans : (a b : Entry) (q : List Entry) → EntryLe a b → All (EntryLe b) q → All (EntryLe a) q
All-trans a b [] h k = tt
All-trans a b (x ∷ q) h k = (omega (arith, h, k.0), All-trans a b q h k.1)

leb-true : (e x : Entry) → entry_leb e x ≡ true → EntryLe e x
leb-true e x h = ground (arith, h)

leb-false : (e x : Entry) → entry_leb e x ≡ false → EntryLe x e
leb-false e x h = ground (arith, h)

insert-Sorted : (e : Entry) (q : List Entry) → Sorted q → Sorted (insert e q)
insert-Sorted e [] h = (tt, tt)
insert-Sorted e (x ∷ q) h = elim (Bool-cases (entry_leb e x)) [
  | inl le ↦ rw le ((leb-true e x le, All-trans e x q (leb-true e x le) h.0), h)
  | inr gt ↦ rw gt (All-insert x e q (leb-false e x gt) h.0, insert-Sorted e q h.1)
]

sort-Sorted : (q : List Entry) → Sorted (sort q)
sort-Sorted [] = tt
sort-Sorted (x ∷ q) = insert-Sorted x (sort q) (sort-Sorted q)

count-insert :
    (p : Entry → Bool) (e : Entry) (q : List Entry) → count p (insert e q) ≡ count p (e ∷ q)
count-insert p e [] = refl
count-insert p e (x ∷ q) = elim (Bool-cases (entry_leb e x)) [
  | inl le ↦ rw le refl
  | inr gt ↦ rw (gt, count-insert p e q) (swapped (p e) (p x))
]
  where
    swapped :
        (b c : Bool)
        → (if c
            then suc (if b then suc (count p q) else count p q)
            else (if b then suc (count p q) else count p q))
          ≡ (if b
              then suc (if c then suc (count p q) else count p q)
              else (if c then suc (count p q) else count p q))
    swapped true true = refl
    swapped true false = refl
    swapped false true = refl
    swapped false false = refl

count-sort : (p : Entry → Bool) (q : List Entry) → count p (sort q) ≡ count p q
count-sort p [] = refl
count-sort p (x ∷ q) = count-insert p x (sort q) ∙ rw (count-sort p q) refl

abbrev pop_sorted : List Entry → List Entry
pop_sorted [] = []
pop_sorted (t ∷ q) = sort q

abbrev sorted_ops : HeapOps
sorted_ops = record { push = λ e q. sort (e ∷ q); pop = pop_sorted }

sorted_laws : HeapLaws sorted_ops
sorted_laws = record {
  push_IsHeap = λ e q h. Sorted-IsHeap (sort (e ∷ q)) (sort-Sorted (e ∷ q));
  push_count = λ p e q h. count-sort p (e ∷ q);
  pop_IsHeap = λ t q h. Sorted-IsHeap (sort q) (sort-Sorted q);
  pop_count = λ p t q h. count-sort p q;
}

-- Task 1 asks for another run after 5 ms, and the others for none.
abbrev wait_of : ℕ → ℕ
wait_of task = if task == 1 then 5 else 0xFFFFFFFF

wait_positive : (task : ℕ) → 0 < wait_of task
wait_positive task = ground arith

abbrev three_tasks : List Entry
three_tasks = (10, 1) ∷ (20, 2) ∷ (30, 3) ∷ []

abbrev idle_thread : Controller (List ℕ)
idle_thread = record { task_queue = []; run_mutex = true; interrupt_handlers = []; world = [] }

three_tasks-Sorted : Sorted three_tasks
three_tasks-Sorted = ((omega arith, (omega arith, tt)), ((omega arith, tt), (tt, tt)))

process_tasks_runs_example :
    RunDue 20 idle_thread three_tasks []
      (process_tasks sorted_ops (returning wait_of (λ log. 20)) 3 (held idle_thread three_tasks []))
process_tasks_runs_example =
    process_tasks_runs sorted_ops wait_of (λ log. 20) sorted_laws 3 idle_thread three_tasks []
      wait_positive (λ more. omega arith) (Sorted-IsHeap three_tasks three_tasks-Sorted)
      (omega arith)

-- The tasks 1 and 2 have been run, and task 1 is queued again.
two_run :
    process_tasks sorted_ops (returning wait_of (λ log. 20)) 3 (held idle_thread three_tasks [])
    ≡ ok tt (held idle_thread ((30, 3) ∷ (5000020, 1) ∷ []) (1 ∷ 2 ∷ []))
unfolding process_tasks
two_run = refl

abbrev disorderly : List Entry
disorderly = (1, 100) ∷ (9, 200) ∷ (2, 300) ∷ []

some_inj : (x y : Entry) → some x ≡ some y → x ≡ y
some_inj x y e = cc

disorderly-IsHeap : IsHeap disorderly
disorderly-IsHeap zero zero a b place ea eb = absurd (omega (arith, place))
disorderly-IsHeap zero (suc zero) a b place ea eb =
    subst (λ x. EntryLe x b) (some_inj _ a ea)
      (subst (λ y. EntryLe (1, 100) y) (some_inj _ b eb) (omega arith))
disorderly-IsHeap zero (suc (suc zero)) a b place ea eb =
    subst (λ x. EntryLe x b) (some_inj _ a ea)
      (subst (λ y. EntryLe (1, 100) y) (some_inj _ b eb) (omega arith))
disorderly-IsHeap zero (suc (suc (suc j))) a b place ea eb = absurd (omega (arith, place))
disorderly-IsHeap (suc i) zero a b place ea eb = absurd (omega (arith, place))
disorderly-IsHeap (suc i) (suc zero) a b place ea eb = absurd (omega (arith, place))
disorderly-IsHeap (suc i) (suc (suc zero)) a b place ea eb = absurd (omega (arith, place))
disorderly-IsHeap (suc i) (suc (suc (suc j))) a b place ea eb = absurd cc

remove_disorders_example :
    let left = (remove 100 disorderly).0 in
    (get_elem? left 0 ≡ some (9, 200)) × (get_elem? left 1 ≡ some (2, 300)) × (¬ IsHeap left)
remove_disorders_example =
    remove_disorders (1, 100) (9, 200) (2, 300) [] disorderly-IsHeap (omega arith) (omega arith)
      (omega arith)

-- A handler notes itself and the number of its interrupt.
abbrev noting : World (List (ℕ × ℕ))
noting = record {
  validate = λ task log. ok true log;
  run = λ task c. ok 0xFFFFFFFF c;
  report_exception = λ task e log. log;
  handle_interrupt = λ h n log. ok tt ((h, n) ∷ log);
  now = λ log. 0;
}

-- Interrupts 1 and 4 have the handlers 10 and 40, and interrupt 2 has the handler 20.
abbrev three_handlers : Controller (List (ℕ × ℕ))
three_handlers = record {
  task_queue = [];
  run_mutex = false;
  interrupt_handlers = some 10 ∷ some 20 ∷ none ∷ some 40 ∷ [];
  world = [];
}

-- The bits 0, 2 and 3 are set: handler 20 is not due, and interrupt 3 has no handler.
check_interrupts_example :
    check_interrupts noting 13 three_handlers
    ≡ call_all noting (due 0 13 (some 10 ∷ some 20 ∷ none ∷ some 40 ∷ [])) three_handlers
check_interrupts_example = check_interrupts_lem noting 13 three_handlers

two_handled :
    check_interrupts noting 13 three_handlers
    ≡ ok tt (record three_handlers { world = (40, 4) ∷ (10, 1) ∷ [] })
unfolding check_interrupts
two_handled = refl
