-- ===== src/Crio/Thread/Progress.antt =====
-- What start and stop promise, whatever the threads do and in whatever order.
use ts_c_riocpp.Common.{◌≡◌, ◌⊎◌, inl, inr, refl, Bool, true, false, not, arith}
use ts_c_riocpp.Crio.Thread.{
  Owner, free, by_client, by_worker, by_other, stopped, ClientPc, ready, start_locking,
  start_testing, start_waiting, stop_locking, stop_notifying, stop_relocking, stop_testing,
  stop_waiting, joining, WorkerPc, no_thread, starting, processing, in_task, unguarded,
  testing_unguarded, pausing_unguarded, leaving_unguarded, testing, waiting, woken, ended, Thread,
  joinable, is_running, Start, Stop, Run, Loop, Tasks, Other, Step, Reach,
}
use ts_c_riocpp.Crio.Thread.Invariant.{
  Inv, Reach-Inv, client_holds, worker_holds, exists, is_waiting, is_ended,
}

-- If no task throws, the client and the thread are never between a lock and an unlock of runMutex at the same time.
pub mutual_exclusion :
    {slow : Bool} {s : Thread}
    → Reach slow false s
    → client_holds s.client ≡ true
    → worker_holds s.worker ≡ false
mutual_exclusion r h = let v = Reach-Inv r in ground arith

-- When stop has returned, and no call has followed, there is no std::thread, and neither joinable nor
-- isRunning is true.
pub stop_joins :
    {slow throws : Bool} {s : Thread}
    → Reach slow throws s
    → s.client ≡ ready stopped
    → (s.worker ≡ no_thread) × (joinable s ≡ false) × (is_running s ≡ false)
stop_joins {s} r h = let v = Reach-Inv r in ground arith

-- If no task throws, no wake-up is lost: where the thread waits although keepRunning is false, stop is
-- between the assignment and its notification.
pub no_lost_wakeup :
    {slow : Bool} {s : Thread}
    → Reach slow false s
    → s.worker ≡ waiting
    → s.keep_running ≡ false
    → s.client ≡ stop_notifying
no_lost_wakeup r w k = let v = Reach-Inv r in ground arith

abbrev pub in_call : ClientPc → Bool
in_call (ready l) = false
in_call _ = true

-- A wake-up that no change has caused, and what other threads begin.
abbrev pub is_spurious : {slow throws : Bool} {s t : Thread} → Step slow throws s t → Bool
is_spurious {s} (Step.start (Start.wake a b)) = not s.thread_started
is_spurious {s} (Step.stop (Stop.wake a b)) = s.thread_started
is_spurious (Step.stop (Stop.time_out a b c)) = true
is_spurious (Step.loop (Loop.wake a)) = true
is_spurious (Step.other (Other.take a)) = true
is_spurious _ = false

abbrev pub Moves : Bool → Bool → Thread → Type 0
Moves slow throws s = (t : Thread) × (st : Step slow throws s t) × (is_spurious st ≡ false)

module _ {slow : Bool} {s : Thread} (v : Inv slow false s) where
  tests_on : s.worker ≡ testing → (b : Bool) → s.keep_running ≡ b → Moves slow false s
  tests_on w true k = (_, Step.loop (Loop.wait w k), refl)
  tests_on w false k = (_, Step.run (Run.finish w k), refl)

  holder_moves : (w : WorkerPc) → s.worker ≡ w → worker_holds w ≡ true → Moves slow false s
  holder_moves processing e h = (_, Step.tasks (Tasks.processed e), refl)
  holder_moves testing e h = tests_on e s.keep_running refl
  holder_moves no_thread e h = absurd (cc)
  holder_moves starting e h = absurd (cc)
  holder_moves in_task e h = absurd (cc)
  holder_moves waiting e h = absurd (cc)
  holder_moves woken e h = absurd (cc)
  holder_moves ended e h = absurd (cc)
  holder_moves unguarded e h = absurd (cc)
  holder_moves testing_unguarded e h = absurd (cc)
  holder_moves pausing_unguarded e h = absurd (cc)
  holder_moves leaving_unguarded e h = absurd (cc)

  -- Who has the mutex, other than the client, goes on.
  owner_moves :
      (o : Owner)
      → s.owner ≡ o
      → client_holds s.client ≡ false
      → (s.owner ≡ free) ⊎ Moves slow false s
  owner_moves free e h = inl e
  owner_moves by_client e h = absurd (ground arith)
  owner_moves by_other e h = inr (_, Step.other (Other.give e), refl)
  owner_moves by_worker e h = inr (holder_moves s.worker refl (ground arith))

  -- A thread that has not ended, and is in no wait, goes on where the mutex is free.
  runner_moves :
      (w : WorkerPc)
      → s.worker ≡ w
      → s.owner ≡ free
      → exists w ≡ true
      → is_waiting w ≡ false
      → is_ended w ≡ false
      → Moves slow false s
  runner_moves starting e f h k l = (_, Step.run (Run.begin e f), refl)
  runner_moves in_task e f h k l = (_, Step.tasks (Tasks.lock e f), refl)
  runner_moves woken e f h k l = (_, Step.loop (Loop.regain e f), refl)
  runner_moves processing e f h k l = holder_moves processing e refl
  runner_moves testing e f h k l = holder_moves testing e refl
  runner_moves no_thread e f h k l = absurd (cc)
  runner_moves waiting e f h k l = absurd (cc)
  runner_moves ended e f h k l = absurd (cc)
  runner_moves unguarded e f h k l = absurd (ground arith)
  runner_moves testing_unguarded e f h k l = absurd (ground arith)
  runner_moves pausing_unguarded e f h k l = absurd (ground arith)
  runner_moves leaving_unguarded e f h k l = absurd (ground arith)

  created :
      s.client ≡ start_locking → s.owner ≡ free → (b : Bool) → s.has_thread ≡ b → Moves slow false s
  created c f true h = (_, Step.start (Start.twice c f h), refl)
  created c f false h = (_, Step.start (Start.create c f h), refl)

  start_tested : s.client ≡ start_testing → (b : Bool) → s.thread_started ≡ b → Moves slow false s
  start_tested c true h = (_, Step.start (Start.returns c h), refl)
  start_tested c false h = (_, Step.start (Start.wait c h), refl)

  start_woken :
      s.client ≡ start_waiting
      → s.owner ≡ free
      → (b : Bool) → s.thread_started ≡ b
      → Moves slow false s
  start_woken c f true h = (_, Step.start (Start.wake c f), rw h refl)
  start_woken c f false h =
      runner_moves s.worker refl f (ground arith) (ground arith) (ground arith)

  stop_tested :
      s.client ≡ stop_testing
      → (b : Bool) → s.has_thread ≡ b
      → (d : Bool) → s.thread_started ≡ d
      → Moves slow false s
  stop_tested c false h d k = (_, Step.stop (Stop.none c h), refl)
  stop_tested c true h true k = (_, Step.stop (Stop.wait c h k), refl)
  stop_tested c true h false k = (_, Step.stop (Stop.join c h k), refl)

  stop_woken :
      s.client ≡ stop_waiting
      → s.owner ≡ free
      → (b : Bool) → s.thread_started ≡ b
      → Moves slow false s
  stop_woken c f false h = (_, Step.stop (Stop.wake c f), rw h refl)
  stop_woken c f true h = runner_moves s.worker refl f (ground arith) (ground arith) (ground arith)

  when_free :
      client_holds s.client ≡ false → (s.owner ≡ free → Moves slow false s) → Moves slow false s
  when_free h go = elim (owner_moves s.owner refl h) [ inl f ↦ go f | inr m ↦ m ]

  call_moves : slow ≡ false → (c : ClientPc) → s.client ≡ c → in_call c ≡ true → Moves slow false s
  call_moves q (ready l) c h = absurd (cc)
  call_moves q start_locking c h = when_free (ground arith) (λ f. created c f s.has_thread refl)
  call_moves q start_testing c h = start_tested c s.thread_started refl
  call_moves q start_waiting c h =
      when_free (ground arith) (λ f. start_woken c f s.thread_started refl)
  call_moves q stop_locking c h =
      when_free (ground arith) (λ f. (_, Step.stop (Stop.lower c f), refl))
  call_moves q stop_notifying c h = (_, Step.stop (Stop.notify c), refl)
  call_moves q stop_relocking c h =
      when_free (ground arith) (λ f. (_, Step.stop (Stop.relock c f), refl))
  call_moves q stop_testing c h = stop_tested c s.has_thread refl s.thread_started refl
  call_moves q stop_waiting c h =
      when_free (ground arith) (λ f. stop_woken c f s.thread_started refl)
  call_moves q joining c h = (_, Step.stop (Stop.joined c (ground arith)), refl)

-- While start and stop are called by one client, no wait of start has timed out, and no task throws, no
-- call is ever stuck: as long as it is in progress there is a step of the client, of the thread or of the thread that
-- has the mutex, without a spurious wake-up and without the end of the time of stop.
pub no_deadlock : {s : Thread} → Reach false false s → in_call s.client ≡ true → Moves false false s
no_deadlock {s} r h = call_moves (Reach-Inv r) refl s.client refl h
