-- ===== src/Crio/ControllerThread/Due.antt =====
-- What it means that _process_tasks runs the due tasks, and how due tasks are counted.
use ts_c_riocpp.Common.{
  ℕ, suc, ◌+◌, ◌*◌, ◌<◌, ◌≡◌, refl, List, [], ◌∷◌, ◌++◌, some, Bool, true, false, not, arith,
  get_elem?, leb, ◌==◌, if◌then◌else◌, Bool-cases, inl, inr,
}
use ts_c_riocpp.Modbus.Exceptions.{Outcome, ok}
use ts_c_riocpp.Crio.TaskQueue.{Entry, IsHeap, count, HeapOps}
use ts_c_riocpp.Crio.TaskQueue.Top.{top_le}
use ts_c_riocpp.Crio.ControllerThread.{Controller, World, dont_reschedule}

-- The tasks that have been run, in their order.
abbrev pub Log : Type 0
Log = List ℕ

-- Tasks that return: each is noted in the log, and answers its own time to wait. The clock depends on
-- the tasks that have been run.
abbrev pub returning : (ℕ → ℕ) → (Log → ℕ) → World Log
returning wait clock = record {
  validate = λ task s. ok true s;
  run = λ task c. ok (wait task) (record c { world = c.world ++ (task ∷ []) });
  report_exception = λ task e s. s;
  handle_interrupt = λ h i s. ok tt s;
  now = clock;
}

abbrev pub due : ℕ → Entry → Bool
due now e = leb e.0 now

-- The entry is due, and its task has the property.
abbrev pub due_and : ℕ → (ℕ → Bool) → Entry → Bool
due_and now p e = if due now e then p e.1 else false

-- The queue behind the run of a task that was taken off.
abbrev pub after_run : HeapOps → (ℕ → ℕ) → (Log → ℕ) → Entry → List Entry → Log → List Entry
after_run ops wait clock t q log =
    if not (wait t.1 == dont_reschedule)
    then ops.push (clock (log ++ (t.1 ∷ [])) + wait t.1 * 1000000, t.1) q
    else q

-- The thread in _process_tasks, which holds the mutex.
abbrev pub held : Controller Log → List Entry → Log → Controller Log
held c q log = record c { task_queue = q; run_mutex = true; world = log }

-- From `q` and `log` on, the outcome is that the mutex is held, the queue is a heap in which no task is
-- due at `now`, and the due tasks of `q` have been run, each as often as it stood in `q`, and no others.
abbrev pub RunDue :
    ℕ → Controller Log → List Entry → Log → Outcome (Controller Log) (Unit {0}) → Type 0
RunDue now c q log outcome =
    (q' : List Entry) × (log' : Log) × (outcome ≡ ok tt (held c q' log'))
    × IsHeap q'
    × (count (due now) q' ≡ 0)
    × ((p : ℕ → Bool) → count p log' ≡ count p log + count (due_and now p) q)

pub count_none :
    (p : Entry → Bool) (q : List Entry)
    → ((j : ℕ) (b : Entry) → get_elem? q j ≡ some b → p b ≡ false)
    → count p q ≡ 0
count_none p [] h = refl
count_none p (x ∷ q) h = rw (h 0 x refl) (count_none p q (λ j b e. h (suc j) b e))

pub count_snoc :
    (p : ℕ → Bool) (xs : Log) (x : ℕ)
    → count p (xs ++ (x ∷ [])) ≡ count p xs + (if p x then 1 else 0)
count_snoc p [] x = elim (p x) as (λ b. (if b then 1 else 0) ≡ 0 + (if b then 1 else 0)) [
  | true ↦ omega arith
  | false ↦ omega arith
]
count_snoc p (y ∷ xs) x = elim (Bool-cases (p y)) [
  | inl e ↦ rw e (omega (arith, count_snoc p xs x))
  | inr e ↦ rw e (count_snoc p xs x)
]

pub count-due_front :
    (now : ℕ) (t : Entry) (q : List Entry)
    → due now t ≡ true
    → count (due now) (t ∷ q) ≡ suc (count (due now) q)
count-due_front now t q e = rw e refl

pub count_and_front :
    (now : ℕ) (p : ℕ → Bool) (t : Entry) (q : List Entry)
    → due now t ≡ true
    → count (due_and now p) (t ∷ q) ≡ (if p t.1 then 1 else 0) + count (due_and now p) q
count_and_front now p t q e = rw e (elim (Bool-cases (p t.1)) [
  | inl yes_it ↦ rw yes_it (omega arith)
  | inr no_it ↦ rw no_it (omega arith)
])

-- Where the first entry of a heap is not due, none is.
pub nothing_due :
    (now : ℕ) (t : Entry) (q : List Entry) (p : ℕ → Bool)
    → IsHeap (t ∷ q)
    → now < t.0
    → (count (due now) (t ∷ q) ≡ 0) × (count (due_and now p) (t ∷ q) ≡ 0)
nothing_due now t q p h late = (
  count_none (due now) (t ∷ q) not_due,
  count_none (due_and now p) (t ∷ q) (λ j b e. rw (not_due j b e) refl),
)
  where
    not_due : (j : ℕ) (b : Entry) → get_elem? (t ∷ q) j ≡ some b → due now b ≡ false
    not_due j b e = ground (arith, top_le q t j b h e)
