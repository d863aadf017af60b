-- ===== src/Crio/Thread/Lost.antt =====
-- What a task that throws makes of the notification of stop.
use ts_c_riocpp.Common.{◌≡◌, refl, Bool, true, false, arith}
use ts_c_riocpp.Crio.Thread.{
  free, Last, ready, stop_waiting, in_task, waiting, Thread, Start, Stop, Run, Loop, Tasks, Other,
  Step, Reach, later,
}
use ts_c_riocpp.Crio.Thread.Invariant.{Reach-Inv}
use ts_c_riocpp.Crio.Thread.Progress.{Moves}

-- The client waits for the end of the thread, which waits for a notification.
record IsAsleep (s : Thread) : Type 0 where
  client : s.client ≡ stop_waiting
  worker : s.worker ≡ waiting
  mutex : s.owner ≡ free
  runs : s.thread_started ≡ true

IsAsleep-Moves : {slow throws : Bool} {s : Thread} → IsAsleep s → ¬ Moves slow throws s
IsAsleep-Moves k (_, Step.start (Start.call a), m) = cc (k.client)
IsAsleep-Moves k (_, Step.start (Start.twice a b c), m) = cc (k.client)
IsAsleep-Moves k (_, Step.start (Start.create a b c), m) = cc (k.client)
IsAsleep-Moves k (_, Step.start (Start.returns a b), m) = cc (k.client)
IsAsleep-Moves k (_, Step.start (Start.wait a b), m) = cc (k.client)
IsAsleep-Moves k (_, Step.start (Start.wake a b), m) = cc (k.client)
IsAsleep-Moves k (_, Step.start (Start.time_out q a b c), m) = cc (k.client)
IsAsleep-Moves k (_, Step.stop (Stop.call a), m) = cc (k.client)
IsAsleep-Moves k (_, Step.stop (Stop.lower a b), m) = cc (k.client)
IsAsleep-Moves k (_, Step.stop (Stop.notify a), m) = cc (k.client)
IsAsleep-Moves k (_, Step.stop (Stop.relock a b), m) = cc (k.client)
IsAsleep-Moves k (_, Step.stop (Stop.none a b), m) = cc (k.client)
IsAsleep-Moves k (_, Step.stop (Stop.wait a b c), m) = cc (k.client)
IsAsleep-Moves k (_, Step.stop (Stop.wake a b), m) = cc (k.runs)
IsAsleep-Moves k (_, Step.stop (Stop.time_out a b c), m) = cc
IsAsleep-Moves k (_, Step.stop (Stop.join a b c), m) = cc (k.client)
IsAsleep-Moves k (_, Step.stop (Stop.joined a b), m) = cc (k.client)
IsAsleep-Moves k (_, Step.run (Run.begin a b), m) = cc (k.worker)
IsAsleep-Moves k (_, Step.run (Run.finish a b), m) = cc (k.worker)
IsAsleep-Moves k (_, Step.run (Run.finish_unguarded a b), m) = cc (k.worker)
IsAsleep-Moves k (_, Step.run (Run.leave_unguarded o a), m) = cc (k.worker)
IsAsleep-Moves k (_, Step.tasks (Tasks.unlock a), m) = cc (k.worker)
IsAsleep-Moves k (_, Step.tasks (Tasks.lock a b), m) = cc (k.worker)
IsAsleep-Moves k (_, Step.tasks (Tasks.throw q a), m) = cc (k.worker)
IsAsleep-Moves k (_, Step.tasks (Tasks.unlock_unguarded o a), m) = cc (k.worker)
IsAsleep-Moves k (_, Step.tasks (Tasks.processed a), m) = cc (k.worker)
IsAsleep-Moves k (_, Step.tasks (Tasks.processed_unguarded a), m) = cc (k.worker)
IsAsleep-Moves k (_, Step.loop (Loop.wait a b), m) = cc (k.worker)
IsAsleep-Moves k (_, Step.loop (Loop.pause_unguarded a b), m) = cc (k.worker)
IsAsleep-Moves k (_, Step.loop (Loop.wait_unguarded o a), m) = cc (k.worker)
IsAsleep-Moves k (_, Step.loop (Loop.wake a), m) = cc
IsAsleep-Moves k (_, Step.loop (Loop.regain a b), m) = cc (k.worker)
IsAsleep-Moves k (_, Step.other (Other.take a), m) = cc
IsAsleep-Moves k (_, Step.other (Other.give a), m) = cc (k.mutex)

-- Where a task runs, the client is in no call, the mutex is free and keepRunning is true, a throw of the
-- task can lose the notification of stop: there is an order of steps after which stop waits for the thread
-- and the thread waits for a notification, with keepRunning false, and nothing but a spurious wake-up,
-- the end of a wait's time or the mutex taken by another thread is left.
throw_loses_wakeup :
    {slow : Bool} {s : Thread} {l : Last}
    → Reach slow true s
    → s.client ≡ ready l
    → s.worker ≡ in_task
    → s.owner ≡ free
    → s.keep_running ≡ true
    → (t : Thread) × Reach slow true t
      × (t.client ≡ stop_waiting)
      × (t.worker ≡ waiting)
      × (t.keep_running ≡ false)
      × (¬ Moves slow true t)
throw_loses_wakeup {slow} {s} r c w f k =
    let v = Reach-Inv r in
    let begun : s.has_thread ≡ true = ground arith in
    let running : s.thread_started ≡ true = ground arith in
    let r1 = later r (Step.tasks (Tasks.throw refl w)) in
    let r2 = later r1 (Step.tasks (Tasks.processed_unguarded refl)) in
    let r3 = later r2 (Step.loop (Loop.pause_unguarded refl k)) in
    let r4 = later r3 (Step.stop (Stop.call c)) in
    let r5 = later r4 (Step.stop (Stop.lower refl f)) in
    let r6 = later r5 (Step.stop (Stop.notify refl)) in
    let r7 = later r6 (Step.loop (Loop.wait_unguarded free refl)) in
    let r8 = later r7 (Step.stop (Stop.relock refl refl)) in
    let r9 = later r8 (Step.stop (Stop.wait refl begun running)) in
    (
      _,
      r9,
      refl,
      refl,
      refl,
      IsAsleep-Moves (record { client = refl; worker = refl; mutex = refl; runs = running }),
    )
