-- ===== src/Crio/Thread/Deadlock.antt =====
-- What a start that has timed out leaves behind.
use ts_c_riocpp.Common.{◌≡◌, refl, Bool, true, false, arith}
use ts_c_riocpp.Crio.Thread.{
  free, by_client, threw, ready, joining, starting, Thread, Start, Stop, Run, Loop, Tasks, Other,
  Step, Reach, later,
}
use ts_c_riocpp.Crio.Thread.Invariant.{Reach-Inv}

-- The client joins, with the mutex, a thread that waits for the mutex.
pub record IsStuck (s : Thread) : Type 0 where
  pub joins : s.client ≡ joining
  pub begins : s.worker ≡ starting
  pub locked : s.owner ≡ by_client

pub IsStuck-Step : {slow throws : Bool} {s t : Thread} → IsStuck s → ¬ Step slow throws s t
IsStuck-Step k (Step.start (Start.call a)) = cc (k.joins)
IsStuck-Step k (Step.start (Start.twice a b c)) = cc (k.joins)
IsStuck-Step k (Step.start (Start.create a b c)) = cc (k.joins)
IsStuck-Step k (Step.start (Start.returns a b)) = cc (k.joins)
IsStuck-Step k (Step.start (Start.wait a b)) = cc (k.joins)
IsStuck-Step k (Step.start (Start.wake a b)) = cc (k.joins)
IsStuck-Step k (Step.start (Start.time_out q a b c)) = cc (k.joins)
IsStuck-Step k (Step.stop (Stop.call a)) = cc (k.joins)
IsStuck-Step k (Step.stop (Stop.lower a b)) = cc (k.joins)
IsStuck-Step k (Step.stop (Stop.notify a)) = cc (k.joins)
IsStuck-Step k (Step.stop (Stop.relock a b)) = cc (k.joins)
IsStuck-Step k (Step.stop (Stop.none a b)) = cc (k.joins)
IsStuck-Step k (Step.stop (Stop.wait a b c)) = cc (k.joins)
IsStuck-Step k (Step.stop (Stop.wake a b)) = cc (k.joins)
IsStuck-Step k (Step.stop (Stop.time_out a b c)) = cc (k.joins)
IsStuck-Step k (Step.stop (Stop.join a b c)) = cc (k.joins)
IsStuck-Step k (Step.stop (Stop.joined a b)) = cc (k.begins)
IsStuck-Step k (Step.run (Run.begin a b)) = cc (k.locked)
IsStuck-Step k (Step.run (Run.finish a b)) = cc (k.begins)
IsStuck-Step k (Step.run (Run.finish_unguarded a b)) = cc (k.begins)
IsStuck-Step k (Step.run (Run.leave_unguarded o a)) = cc (k.begins)
IsStuck-Step k (Step.tasks (Tasks.unlock a)) = cc (k.begins)
IsStuck-Step k (Step.tasks (Tasks.throw q a)) = cc (k.begins)
IsStuck-Step k (Step.tasks (Tasks.unlock_unguarded o a)) = cc (k.begins)
IsStuck-Step k (Step.tasks (Tasks.processed_unguarded a)) = cc (k.begins)
IsStuck-Step k (Step.loop (Loop.pause_unguarded a b)) = cc (k.begins)
IsStuck-Step k (Step.loop (Loop.wait_unguarded o a)) = cc (k.begins)
IsStuck-Step k (Step.tasks (Tasks.lock a b)) = cc (k.begins)
IsStuck-Step k (Step.tasks (Tasks.processed a)) = cc (k.begins)
IsStuck-Step k (Step.loop (Loop.wait a b)) = cc (k.begins)
IsStuck-Step k (Step.loop (Loop.wake a)) = cc (k.begins)
IsStuck-Step k (Step.loop (Loop.regain a b)) = cc (k.begins)
IsStuck-Step k (Step.other (Other.take a)) = cc (k.locked)
IsStuck-Step k (Step.other (Other.give a)) = cc (k.locked)

-- Where start has thrown because of its time, and the thread has not yet locked the mutex, a call of
-- stop may block for ever: there is an order of steps after which the client waits in join, with the
-- mutex that the thread waits for, and then no step of any thread is left.
pub stop_deadlocks :
    {throws : Bool} {s : Thread}
    → Reach true throws s
    → s.client ≡ ready threw
    → s.worker ≡ starting
    → s.owner ≡ free
    → (t : Thread) × Reach true throws t
      × (t.client ≡ joining)
      × ((u : Thread) → ¬ Step true throws t u)
stop_deadlocks {throws} {s} r c w f =
    let v = Reach-Inv r in
    let begun : s.has_thread ≡ true = ground arith in
    let silent : s.thread_started ≡ false = ground arith in
    let r1 = later r (Step.stop (Stop.call c)) in
    let r2 = later r1 (Step.stop (Stop.lower refl f)) in
    let r3 = later r2 (Step.stop (Stop.notify refl)) in
    let r4 = later r3 (Step.stop (Stop.relock refl f)) in
    let r5 = later r4 (Step.stop (Stop.join refl begun silent)) in
    (
      _,
      r5,
      refl,
      λ u st. IsStuck-Step (record { joins = refl; begins = rw w refl; locked = refl }) st,
    )
