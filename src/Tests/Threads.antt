-- ===== src/Tests/Threads.antt =====
-- Runs of a thread.
use ts_c_riocpp.Common.{◌≡◌, refl, Bool, true, false}
use ts_c_riocpp.Crio.Thread.{
  stop_notifying, joining, no_thread, Thread, joinable, is_running, Start, Stop, Run, Loop, Tasks,
  Step, Reach, new, later,
}
use ts_c_riocpp.Crio.Thread.Progress.{stop_joins, no_lost_wakeup, Moves, no_deadlock}
use ts_c_riocpp.Crio.Thread.Deadlock.{stop_deadlocks}

pub record RunTo (slow : Bool) : Type 0 where
  pub last : Thread
  pub reach : Reach slow false last

infixl 5 ◌then_do◌
abbrev ◌then_do◌ :
    {slow throws : Bool} {s t : Thread}
    → Reach slow throws s
    → Step slow throws s t
    → Reach slow throws t
r then_do st = later r st

-- start creates the thread and waits for it.
created : (slow : Bool) → RunTo slow
created slow = record {
  last = _;
  reach =
      new
      then_do Step.start (Start.call refl)
      then_do Step.start (Start.create refl refl refl)
      then_do Step.start (Start.wait refl refl);
}

-- The wait of start times out.
late : RunTo true
unfolding created
late = record {
  last = _;
  reach = (created true).reach then_do Step.start (Start.time_out refl refl refl refl);
}

-- The thread starts, finds no task, and waits; start has returned.
sleeping : RunTo false
unfolding created
sleeping = record {
  last = _;
  reach =
      (created false).reach
      then_do Step.run (Run.begin refl refl)
      then_do Step.tasks (Tasks.processed refl)
      then_do Step.loop (Loop.wait refl refl)
      then_do Step.start (Start.wake refl refl)
      then_do Step.start (Start.returns refl refl);
}

-- stop has set keepRunning to false.
lowered : RunTo false
unfolding sleeping
lowered = record {
  last = _;
  reach =
      sleeping.reach then_do Step.stop (Stop.call refl) then_do Step.stop (Stop.lower refl refl);
}

-- stop is at its test, with the mutex.
tested : RunTo false
unfolding lowered
tested = record {
  last = _;
  reach =
      lowered.reach then_do Step.stop (Stop.notify refl) then_do Step.stop (Stop.relock refl refl);
}

-- stop has joined the thread.
finished : RunTo false
unfolding tested
finished = record {
  last = _;
  reach =
      tested.reach
      then_do Step.stop (Stop.wait refl refl refl)
      then_do Step.loop (Loop.regain refl refl)
      then_do Step.tasks (Tasks.processed refl)
      then_do Step.run (Run.finish refl refl)
      then_do Step.stop (Stop.wake refl refl)
      then_do Step.stop (Stop.join refl refl refl)
      then_do Step.stop (Stop.joined refl refl);
}

stop_joins_example :
    (finished.last.worker ≡ no_thread)
    × (joinable finished.last ≡ false)
    × (is_running finished.last ≡ false)
unfolding finished
stop_joins_example = stop_joins finished.reach refl

no_lost_wakeup_example : lowered.last.client ≡ stop_notifying
unfolding lowered
no_lost_wakeup_example = no_lost_wakeup lowered.reach refl refl

no_deadlock_example : Moves false false tested.last
unfolding tested
no_deadlock_example = no_deadlock tested.reach refl

stop_deadlocks_example :
    (t : Thread) × Reach true false t
    × (t.client ≡ joining)
    × ((u : Thread) → ¬ Step true false t u)
unfolding late
stop_deadlocks_example = stop_deadlocks late.reach refl refl refl
