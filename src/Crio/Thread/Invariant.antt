-- ===== src/Crio/Thread/Invariant.antt =====
-- What holds of a thread at every time.
use ts_c_riocpp.Common.{◌≡◌, Bool, true, false, not, ◌&&◌, ◌||◌, arith}
use ts_c_riocpp.Crio.Thread.{
  Owner, by_client, by_worker, stopped, ClientPc, ready, start_testing, start_waiting,
  stop_notifying, stop_relocking, stop_testing, stop_waiting, joining, WorkerPc, no_thread,
  starting, processing, unguarded, testing_unguarded, pausing_unguarded, leaving_unguarded, testing,
  waiting, ended, Thread, new_thread, Start, Stop, Run, Loop, Tasks, Other, Step, Reach, new, later,
}

abbrev pub is_client : Owner → Bool
is_client by_client = true
is_client _ = false

abbrev pub is_worker : Owner → Bool
is_worker by_worker = true
is_worker _ = false

abbrev pub client_holds : ClientPc → Bool
client_holds start_testing = true
client_holds stop_testing = true
client_holds joining = true
client_holds _ = false

abbrev pub worker_holds : WorkerPc → Bool
worker_holds processing = true
worker_holds testing = true
worker_holds _ = false

-- Between the two assignments of _threadStarted in _run.
abbrev pub runs : WorkerPc → Bool
runs no_thread = false
runs starting = false
runs leaving_unguarded = false
runs ended = false
runs _ = true

abbrev pub exists : WorkerPc → Bool
exists no_thread = false
exists _ = true

abbrev pub in_start : ClientPc → Bool
in_start start_testing = true
in_start start_waiting = true
in_start _ = false

abbrev pub is_starting : WorkerPc → Bool
is_starting starting = true
is_starting _ = false

abbrev pub is_ended : WorkerPc → Bool
is_ended leaving_unguarded = true
is_ended ended = true
is_ended _ = false

abbrev pub is_waiting : WorkerPc → Bool
is_waiting waiting = true
is_waiting _ = false

abbrev pub is_notifying : ClientPc → Bool
is_notifying stop_notifying = true
is_notifying _ = false

abbrev pub is_joining : ClientPc → Bool
is_joining joining = true
is_joining _ = false

abbrev pub is_stopped : ClientPc → Bool
is_stopped (ready stopped) = true
is_stopped _ = false

-- In stop, behind the assignment of keepRunning.
abbrev pub has_lowered : ClientPc → Bool
has_lowered stop_notifying = true
has_lowered stop_relocking = true
has_lowered stop_testing = true
has_lowered stop_waiting = true
has_lowered joining = true
has_lowered _ = false

abbrev pub is_unguarded : WorkerPc → Bool
is_unguarded unguarded = true
is_unguarded testing_unguarded = true
is_unguarded pausing_unguarded = true
is_unguarded leaving_unguarded = true
is_unguarded _ = false

-- Who holds the mutex, and that a wake-up is on its way, is only known if no task throws, or of a client
-- while the thread has not begun.
pub record Inv (slow throws : Bool) (s : Thread) : Type 0 where
  pub client_mutex :
      ((not throws || is_starting s.worker) && is_client s.owner && not (client_holds s.client))
      ≡ false
  pub mutex_client :
      ((not throws || is_starting s.worker) && not (is_client s.owner) && client_holds s.client)
      ≡ false
  pub worker_mutex : (not throws && is_worker s.owner && not (worker_holds s.worker)) ≡ false
  pub mutex_worker : (not throws && not (is_worker s.owner) && worker_holds s.worker) ≡ false
  pub guarded : (not throws && is_unguarded s.worker) ≡ false
  pub started : s.thread_started ≡ runs s.worker
  pub thread : s.has_thread ≡ exists s.worker
  -- A wait in which the worker is, with keepRunning false, is about to be notified.
  pub wake_up :
      (not throws && is_waiting s.worker && not s.keep_running && not (is_notifying s.client))
      ≡ false
  pub join : (is_joining s.client && (not s.has_thread || s.thread_started)) ≡ false
  pub stop : (is_stopped s.client && s.has_thread) ≡ false
  pub lowered : (has_lowered s.client && s.keep_running) ≡ false
  pub begun :
      (in_start s.client && (not s.keep_running || not s.has_thread || is_ended s.worker)) ≡ false
  pub start : (not slow && is_starting s.worker && not (in_start s.client)) ≡ false

Inv-new : (slow throws : Bool) → Inv slow throws new_thread
Inv-new slow throws = ground arith

Start-Inv :
    {slow throws : Bool} {s t : Thread} → Start slow s t → Inv slow throws s → Inv slow throws t
Start-Inv (Start.call a) v = ground arith
Start-Inv (Start.twice a b c) v = ground arith
Start-Inv (Start.create a b c) v = ground arith
Start-Inv (Start.returns a b) v = ground arith
Start-Inv (Start.wait a b) v = ground arith
Start-Inv (Start.wake a b) v = ground arith
Start-Inv (Start.time_out k a b c) v = ground arith

Stop-Inv : {slow throws : Bool} {s t : Thread} → Stop s t → Inv slow throws s → Inv slow throws t
Stop-Inv (Stop.call a) v = ground arith
Stop-Inv (Stop.lower a b) v = ground arith
Stop-Inv (Stop.notify a) v = ground arith
Stop-Inv (Stop.relock a b) v = ground arith
Stop-Inv (Stop.none a b) v = ground arith
Stop-Inv (Stop.wait a b c) v = ground arith
Stop-Inv (Stop.wake a b) v = ground arith
Stop-Inv (Stop.time_out a b c) v = ground arith
Stop-Inv (Stop.join a b c) v = ground arith
Stop-Inv (Stop.joined a b) v = ground arith

Run-Inv : {slow throws : Bool} {s t : Thread} → Run s t → Inv slow throws s → Inv slow throws t
Run-Inv (Run.begin a b) v = ground arith
Run-Inv (Run.finish a b) v = ground arith
Run-Inv (Run.finish_unguarded a b) v = ground arith
Run-Inv (Run.leave_unguarded o a) v = ground arith

Loop-Inv : {slow throws : Bool} {s t : Thread} → Loop s t → Inv slow throws s → Inv slow throws t
Loop-Inv (Loop.wait a b) v = ground arith
Loop-Inv (Loop.pause_unguarded a b) v = ground arith
Loop-Inv (Loop.wait_unguarded o a) v = ground arith
Loop-Inv (Loop.wake a) v = ground arith
Loop-Inv (Loop.regain a b) v = ground arith

Tasks-Inv :
    {slow throws : Bool} {s t : Thread} → Tasks throws s t → Inv slow throws s → Inv slow throws t
Tasks-Inv (Tasks.unlock a) v = ground arith
Tasks-Inv (Tasks.lock a b) v = ground arith
Tasks-Inv (Tasks.throw q a) v = ground arith
Tasks-Inv (Tasks.unlock_unguarded o a) v = ground arith
Tasks-Inv (Tasks.processed a) v = ground arith
Tasks-Inv (Tasks.processed_unguarded a) v = ground arith

Other-Inv : {slow throws : Bool} {s t : Thread} → Other s t → Inv slow throws s → Inv slow throws t
Other-Inv (Other.take a) v = ground arith
Other-Inv (Other.give a) v = ground arith

pub Step-Inv :
    {slow throws : Bool} {s t : Thread}
    → Step slow throws s t
    → Inv slow throws s
    → Inv slow throws t
Step-Inv (Step.start st) v = Start-Inv st v
Step-Inv (Step.stop st) v = Stop-Inv st v
Step-Inv (Step.run st) v = Run-Inv st v
Step-Inv (Step.loop st) v = Loop-Inv st v
Step-Inv (Step.tasks st) v = Tasks-Inv st v
Step-Inv (Step.other st) v = Other-Inv st v

pub Reach-Inv : {slow throws : Bool} {s : Thread} → Reach slow throws s → Inv slow throws s
Reach-Inv {slow} {throws} new = Inv-new slow throws
Reach-Inv (later r st) = Step-Inv st (Reach-Inv r)
