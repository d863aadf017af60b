-- ===== src/Crio/ControllerThread/Process.antt =====
-- _process_tasks: which tasks it runs.
use ts_c_riocpp.Common.{
  ℕ, zero, suc, ◌+◌, ◌*◌, ◌≤◌, ◌<◌, ◌≡◌, refl, sym, ap, ◌∙◌, List, [], ◌∷◌, ◌++◌, Bool, true, false,
  not, arith, ◌==◌, if◌then◌else◌, Bool-cases, inl, inr,
}
use mathlib.Core.Path.{subst}
use ts_c_riocpp.Modbus.Exceptions.{Outcome, ok}
use ts_c_riocpp.Crio.TaskQueue.{Entry, IsHeap, count, HeapOps, HeapLaws}
use ts_c_riocpp.Crio.ControllerThread.{
  Controller, dont_reschedule, lock, unlock, run_task, try_task, process_loop, process_tasks,
}
use ts_c_riocpp.Crio.ControllerThread.Due.{
  Log, returning, due, due_and, after_run, held, RunDue, count_snoc, count-due_front,
  count_and_front, nothing_due,
}

requeue :
    (b : Bool) (c : Controller Log) (x q : List Entry) (log : Log)
    → (if b then held c x log else held c q log) ≡ held c (if b then x else q) log
requeue true c x q log = refl
requeue false c x q log = refl

module _ (ops : HeapOps) (wait : ℕ → ℕ) (clock : Log → ℕ) where
  try_task_lem :
      (t : Entry) (c : Controller Log) (q : List Entry) (log : Log)
      → try_task ops (returning wait clock) t.1 (held c q log)
        ≡ ok tt (held c (after_run ops wait clock t q log) (log ++ (t.1 ∷ [])))
  unfolding try_task run_task lock unlock
  try_task_lem t c q log =
      ap (λ x. ok tt x) (requeue (not (wait t.1 == dont_reschedule)) c _ q (log ++ (t.1 ∷ [])))

  module _ (laws : HeapLaws ops) (now : ℕ) (later : (task : ℕ) → 0 < wait task)
      (clock_from : (log : Log) → now ≤ clock log) where
    after_run_lem :
        (t : Entry) (q : List Entry) (log : Log)
        → IsHeap q
        → IsHeap (after_run ops wait clock t q log)
          × (count (due now) (after_run ops wait clock t q log) ≡ count (due now) q)
          × ((p : ℕ → Bool)
              → count (due_and now p) (after_run ops wait clock t q log) ≡ count (due_and now p) q)
    after_run_lem t q log h = elim (Bool-cases (wait t.1 == dont_reschedule)) [
      | inl stays ↦ rw stays (h, refl, λ p. refl)
      | inr again ↦ rw again (
        laws.push_IsHeap e q h,
        laws.push_count (due now) e q h ∙ rw not_due refl,
        λ p. laws.push_count (due_and now p) e q h ∙ rw not_due refl,
      )
    ]
      where
        e : Entry
        e = (clock (log ++ (t.1 ∷ [])) + wait t.1 * 1000000, t.1)

        not_due : due now e ≡ false
        not_due = ground (arith, later t.1, clock_from (log ++ (t.1 ∷ [])))

    next_round : ℕ → Controller Log → Outcome (Controller Log) (Unit {0})
    next_round fuel c = elim (c.task_queue) [
      | [] ↦ ok tt c
      | next ∷ rest ↦ process_loop ops (returning wait clock) fuel now next c
    ]

    process_step :
        (fuel : ℕ) (t : Entry) (q : List Entry) (c : Controller Log) (log : Log)
        → due now t ≡ true
        → process_loop ops (returning wait clock) (suc fuel) now t (held c (t ∷ q) log)
          ≡ next_round fuel
              (held c (after_run ops wait clock t (ops.pop (t ∷ q)) log) (log ++ (t.1 ∷ [])))
    unfolding process_loop try_task run_task lock unlock next_round
    process_step fuel t q c log is_due = rw is_due (
        ap (next_round fuel)
          (requeue (not (wait t.1 == dont_reschedule)) c _ _ (log ++ (t.1 ∷ []))))

    -- The rounds behind one that left the queue `q2` and the log `log2`.
    next_round_lem :
        (fuel : ℕ) (c : Controller Log) (q : List Entry) (log : Log) (q2 : List Entry) (log2 : Log)
        → IsHeap q2
        → ((t : Entry) (rest : List Entry)
            → q2 ≡ t ∷ rest
            → RunDue now c
                (t ∷ rest)
                log2
                (process_loop ops (returning wait clock) fuel now t (held c (t ∷ rest) log2)))
        → ((p : ℕ → Bool)
            → count p log2 + count (due_and now p) q2 ≡ count p log + count (due_and now p) q)
        → RunDue now c q log (next_round fuel (held c q2 log2))
    unfolding next_round
    next_round_lem fuel c q log [] log2 h rounds counts =
        ([], log2, refl, h, refl, λ p. omega (arith, counts p))
    next_round_lem fuel c q log (t ∷ rest) log2 h rounds counts =
        let (q', log', ends, heap, none_due, ran) = rounds t rest refl in
        (q', log', ends, heap, none_due, λ p. ran p ∙ counts p)

    process_loop_lem :
        (fuel : ℕ) (t : Entry) (q : List Entry) (c : Controller Log) (log : Log)
        → IsHeap (t ∷ q)
        → count (due now) (t ∷ q) < fuel
        → RunDue now c
            (t ∷ q)
            log
            (process_loop ops (returning wait clock) fuel now t (held c (t ∷ q) log))
    unfolding process_loop
    process_loop_lem zero t q c log h enough = absurd (omega arith)
    process_loop_lem (suc fuel) t q c log h enough = elim (Bool-cases (due now t)) [
      | inr waits ↦ (
        t ∷ q,
        log,
        stop waits,
        h,
        (nothing_due now t q (λ x. true) h (past waits)).0,
        λ p. omega (arith, (nothing_due now t q p h (past waits)).1),
      )
      | inl is_due ↦ subst (RunDue now c (t ∷ q) log) (sym (process_step fuel t q c log is_due)) (
          next_round_lem fuel c (t ∷ q) log q2 (log ++ (t.1 ∷ [])) (behind.0)
            (λ n rest e.
              process_loop_lem fuel n rest c (log ++ (t.1 ∷ [])) (subst IsHeap e behind.0)
                (fewer is_due n rest e))
            (counted is_due))
    ]
      where
        q1 : List Entry
        q1 = ops.pop (t ∷ q)

        q2 : List Entry
        q2 = after_run ops wait clock t q1 log

        behind :
            IsHeap q2
            × (count (due now) q2 ≡ count (due now) q1)
            × ((p : ℕ → Bool) → count (due_and now p) q2 ≡ count (due_and now p) q1)
        behind = after_run_lem t q1 log (laws.pop_IsHeap t q h)

        past : due now t ≡ false → now < t.0
        past e = ground (arith, e)

        stop :
            due now t ≡ false
            → process_loop ops (returning wait clock) (suc fuel) now t (held c (t ∷ q) log)
              ≡ ok tt (held c (t ∷ q) log)
        stop e = rw (e, process_loop) refl

        fewer :
            due now t ≡ true
            → (n : Entry) (rest : List Entry) → q2 ≡ n ∷ rest
            → count (due now) (n ∷ rest) < fuel
        fewer is_due n rest e = omega (
          arith,
          ap (count (due now)) e,
          behind.1,
          laws.pop_count (due now) t q h,
          count-due_front now t q is_due,
        )

        counted :
            due now t ≡ true
            → (p : ℕ → Bool)
            → count p (log ++ (t.1 ∷ [])) + count (due_and now p) q2
              ≡ count p log + count (due_and now p) (t ∷ q)
        counted is_due p = omega (
          arith,
          count_snoc p log t.1,
          behind.2 p,
          laws.pop_count (due_and now p) t q h,
          count_and_front now p t q is_due,
        )

  -- Where all tasks return, ask to be run again, if they do, after a millisecond or more, and leave the
  -- queue to others, the clock does not go back, and the thread holds the mutex, _process_tasks ends:
  -- with as many rounds as there are due tasks, and one more. It has then run the tasks that were due at
  -- its start, each as often as it was queued, and no others; none in the queue was due at its
  -- start, the queue is a heap again, and the thread holds the mutex.
  pub process_tasks_runs :
      (laws : HeapLaws ops) (fuel : ℕ) (c : Controller Log) (q : List Entry) (log : Log)
      → ((task : ℕ) → 0 < wait task)
      → ((more : Log) → clock log ≤ clock more)
      → IsHeap q
      → count (due (clock log)) q < fuel
      → RunDue (clock log) c q log (process_tasks ops (returning wait clock) fuel (held c q log))
  unfolding process_tasks
  process_tasks_runs laws fuel c [] log later clock_from h enough =
      ([], log, refl, h, refl, λ p. omega arith)
  process_tasks_runs laws fuel c (t ∷ q) log later clock_from h enough =
      process_loop_lem laws (clock log) later clock_from fuel t q c log h enough
