-- ===== src/Crio/ControllerThread.antt =====
-- class ControllerThread of include/cRIO/ControllerThread.h and
-- src/LSST/cRIO/ControllerThread.cpp: the queue of tasks, and the handlers of interrupts.
-- The model is what one thread does. runMutex is whether this thread holds it; to lock a mutex that it
-- holds, and to unlock one that it does not hold, is undefined. What other threads do while the mutex is
-- free is part of what `run` of a task does. Times are nanoseconds. `S` is the state of the program
-- around the thread: its tasks, its handlers and its clock, which are the operations of `World`. The
-- loop over the due tasks has no more rounds than its fuel.
pub mod Due
pub mod Process
pub mod Interrupts
use ts_c_riocpp.Common.{
  ℕ, zero, suc, ◌+◌, ◌-◌, ◌*◌, ◌≡◌, List, [], ◌∷◌, Option, none, some, Bool, true, false, not,
  get_elem?, set, replicate, bit_and, shr, ltb, leb, ◌==◌, ◌||◌, if◌then◌else◌,
}
use ts_c_riocpp.Modbus.Exceptions.{
  Error, is_exception, undefined, runtime_error, Outcome, ok, throw, M, ◌>>=◌, ◌>>◌, pure,
}
use ts_c_riocpp.Crio.TaskQueue.{Entry, HeapOps, remove}

pub record Controller (S : Type 0) : Type 0 where
  pub task_queue : List Entry
  pub run_mutex : Bool
  pub interrupt_handlers : List (Option ℕ)
  pub world : S

-- The virtual methods of tasks and interrupt handlers, which are known by their addresses, and the
-- steady clock.
pub record World (S : Type 0) : Type 0 where
  pub validate : ℕ → M S Bool
  pub run : ℕ → M (Controller S) ℕ
  pub report_exception : ℕ → Error → S → S
  pub handle_interrupt : ℕ → ℕ → M S (Unit {0})
  pub now : S → ℕ

abbrev pub dont_reschedule : ℕ
dont_reschedule = 0xFFFFFFFF

abbrev pub crio_interrupts : ℕ
crio_interrupts = 32

abbrev pub invalid_interrupt : ℕ → Error
invalid_interrupt irq = runtime_error 70

abbrev pub handler_was_set : ℕ → Error
handler_was_set irq = runtime_error 71

module _ {S : Type 0} where
  unfoldable pub lock : M (Controller S) (Unit {0})
  lock c = if c.run_mutex then throw undefined c else ok tt (record c { run_mutex = true })

  unfoldable pub unlock : M (Controller S) (Unit {0})
  unlock c = if c.run_mutex then ok tt (record c { run_mutex = false }) else throw undefined c

  unfoldable pub on_world : {A : Type 0} → M S A → M (Controller S) A
  on_world m c = elim (m c.world) [
    | ok a s ↦ ok a (record c { world = s })
    | throw e s ↦ throw e (record c { world = s })
  ]

  abbrev pub report : World S → ℕ → Error → Controller S → Controller S
  report w task e c = record c { world = w.report_exception task e (c.world) }

  -- The answer of std::lock_guard around some work.
  abbrev pub guarded : (Controller S → Controller S) → M (Controller S) (Unit {0})
  guarded work c = elim (lock c) [ throw e c' ↦ throw e c' | ok u c' ↦ unlock (work c') ]

  module _ (ops : HeapOps) (w : World S) where
    abbrev pub push_task : Entry → Controller S → Controller S
    push_task e c = record c { task_queue = ops.push e (c.task_queue) }

    -- The validated task is queued.
    unfoldable pub validate_and_push : ℕ → ℕ → Controller S → Controller S
    unfolding on_world
    validate_and_push task when c = elim (on_world (w.validate task) c) [
      | ok valid c' ↦ (if valid then push_task (when, task) c' else c')
      | throw e c' ↦ report w task e c'
    ]

    unfoldable pub enqueue_at : ℕ → ℕ → M (Controller S) (Unit {0})
    unfolding lock unlock validate_and_push
    enqueue_at task when = guarded (validate_and_push task when)

    unfoldable pub enqueue : ℕ → M (Controller S) (Unit {0})
    unfolding enqueue_at
    enqueue task c = enqueue_at task (w.now (c.world) + 1000000) c

    -- The body of the try block of _process_tasks: a task is run, and queued again after the
    -- milliseconds that it answers.
    unfoldable pub run_task : ℕ → M (Controller S) (Unit {0})
    unfolding lock unlock
    run_task task = do
      unlock
      wait ← w.run task
      lock
      (λ c. ok tt (
          if not (wait == dont_reschedule)
          then push_task (w.now (c.world) + wait * 1000000, task) c
          else c))

    unfoldable pub try_task : ℕ → M (Controller S) (Unit {0})
    unfolding run_task
    try_task task c = elim (run_task task c) [
      | ok u c' ↦ ok tt c'
      | throw e c' ↦ (if is_exception e then ok tt (report w task e c') else throw e c')
    ]

    -- The loop of _process_tasks, from the time `now` on, with `task` at the top of the queue.
    unfoldable pub process_loop : ℕ → ℕ → Entry → M (Controller S) (Unit {0})
    unfolding try_task
    process_loop zero now task c = throw undefined c
    process_loop (suc fuel) now task c =
        if leb task.0 now
        then elim (try_task task.1 (record c { task_queue = ops.pop (c.task_queue) })) [
          | throw e c' ↦ throw e c'
          | ok u c' ↦ elim (c'.task_queue) [
            | [] ↦ ok tt c'
            | next ∷ rest ↦ process_loop fuel now next c'
          ]
        ]
        else ok tt c

    unfoldable pub process_tasks : ℕ → M (Controller S) (Unit {0})
    unfolding process_loop
    process_tasks fuel c = elim (c.task_queue) [
      | [] ↦ ok tt c
      | task ∷ rest ↦ process_loop fuel (w.now (c.world)) task c
    ]

  -- Whether the task was queued.
  unfoldable pub remove_task : ℕ → M (Controller S) Bool
  unfolding lock unlock remove
  remove_task task c =
      elim (guarded (λ d. record d { task_queue = (remove task d.task_queue).0 }) c) [
        | ok u c' ↦ ok ((remove task c.task_queue).1) c'
        | throw e c' ↦ throw e c'
      ]

  -- The queue is swapped with an empty one.
  unfoldable pub clear : M (Controller S) (Unit {0})
  unfolding lock unlock
  clear = guarded (λ c. record c { task_queue = [] })

  unfoldable pub set_interrupt_handler : ℕ → ℕ → M (Controller S) (Unit {0})
  set_interrupt_handler handler irq c =
      if (irq == 0) || ltb crio_interrupts irq
      then throw (invalid_interrupt irq) c
      else elim (get_elem? (c.interrupt_handlers) (irq - 1)) [
        | none ↦ throw undefined c
        | some (some old) ↦ throw (handler_was_set irq) c
        | some none ↦
            ok tt
              (record c { interrupt_handlers = set c.interrupt_handlers (irq - 1) (some handler) })
      ]

  module _ (w : World S) where
    -- The loop of checkInterrupts from the number `i` on, over the handlers from there on.
    unfoldable pub check_loop : ℕ → ℕ → List (Option ℕ) → M (Controller S) (Unit {0})
    unfolding on_world
    check_loop i triggered [] = pure tt
    check_loop i triggered (handler ∷ handlers) =
        let rest = check_loop (i + 1) (shr triggered 1) handlers in
        if bit_and triggered 0x01 == 0x01
        then elim handler [
          | none ↦ rest
          | some h ↦ (do on_world (w.handle_interrupt h (i + 1)); rest)
        ]
        else rest

    unfoldable pub check_interrupts : ℕ → M (Controller S) (Unit {0})
    unfolding check_loop
    check_interrupts triggered c = check_loop 0 triggered (c.interrupt_handlers) c
