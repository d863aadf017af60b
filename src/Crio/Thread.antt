-- ===== src/Crio/Thread.antt =====
-- class Thread of include/cRIO/Thread.h and src/LSST/cRIO/Thread.cpp, with the loop of a ControllerThread
-- (src/LSST/cRIO/ControllerThread.cpp) as its run.
-- One client calls start and stop, one call after the other; its std::thread runs _run; other threads
-- hold runMutex for a while, as enqueue does, and notify runCondition. A step is what happens between
-- two points where the mutex may change hands. A wait on a condition releases the mutex, and ends at a
-- notification, at its time, or spuriously. _startCondition needs no state: a client that waits for it
-- may wake at any time. Tasks throw only if `throws`, and then a std::exception: _process_tasks catches
-- it without runMutex, and the thread goes on without the mutex. What the unlock of a mutex that the
-- thread does not hold leaves is undefined: a step lets anyone have the mutex behind it.
pub mod Invariant
pub mod Progress
pub mod Deadlock
pub mod Lost
use ts_c_riocpp.Common.{◌≡◌, Bool, true, false}

-- Who has runMutex.
pub data Owner : Type 0 where
  free by_client by_worker by_other : Owner

-- How the last call of the client ended.
pub data Last : Type 0 where
  fresh started stopped threw : Last

-- Where the client stands.
pub data ClientPc : Type 0 where
  ready : Last → ClientPc
  -- in start: before the lock; at the test of the predicate, with the mutex; in the wait
  start_locking start_testing start_waiting : ClientPc
  -- in stop: before the first lock; before notify_one; before the second lock; at the test of the
  -- predicate; in the wait; in join, with the mutex
  stop_locking stop_notifying stop_relocking stop_testing stop_waiting joining : ClientPc

-- Where the std::thread stands.
pub data WorkerPc : Type 0 where
  no_thread : WorkerPc
  -- before the lock of _run
  starting : WorkerPc
  -- in _process_tasks: with the mutex, and without it, while a task runs
  processing in_task : WorkerPc
  -- without the mutex, behind the catch of an exception of a task: in _process_tasks; at the condition of
  -- the loop; before the wait; behind the loop, when _threadStarted is false
  unguarded testing_unguarded pausing_unguarded leaving_unguarded : WorkerPc
  -- at the condition of the loop, with the mutex; in a wait; behind it, before it has the mutex
  testing waiting woken : WorkerPc
  -- behind _run, not joined
  ended : WorkerPc

-- has_thread says that _thread is no nullptr.
pub record Thread : Type 0 where
  pub keep_running : Bool
  pub has_thread : Bool
  pub thread_started : Bool
  pub owner : Owner
  pub client : ClientPc
  pub worker : WorkerPc

abbrev pub new_thread : Thread
new_thread = record {
  keep_running = false;
  has_thread = false;
  thread_started = false;
  owner = free;
  client = ready fresh;
  worker = no_thread;
}

-- joinable of a std::thread that has not been joined is true.
abbrev pub joinable : Thread → Bool
joinable s = s.has_thread

abbrev pub is_running : Thread → Bool
is_running s = s.thread_started

-- start. Its wait may time out only if `slow`.
pub data Start (slow : Bool) (s : Thread) : Thread → Type 0 where
  call : {l : Last} → s.client ≡ ready l → Start slow s (record s { client = start_locking })
  twice :
      s.client ≡ start_locking
      → s.owner ≡ free
      → s.has_thread ≡ true
      → Start slow s (record s { client = ready threw })
  create :
      s.client ≡ start_locking
      → s.owner ≡ free
      → s.has_thread ≡ false
      → Start slow s (record s {
        keep_running = true;
        has_thread = true;
        worker = starting;
        owner = by_client;
        client = start_testing;
      })
  returns :
      s.client ≡ start_testing
      → s.thread_started ≡ true
      → Start slow s (record s { owner = free; client = ready started })
  wait :
      s.client ≡ start_testing
      → s.thread_started ≡ false
      → Start slow s (record s { owner = free; client = start_waiting })
  wake :
      s.client ≡ start_waiting
      → s.owner ≡ free
      → Start slow s (record s { owner = by_client; client = start_testing })
  time_out :
      slow ≡ true
      → s.client ≡ start_waiting
      → s.owner ≡ free
      → s.thread_started ≡ false
      → Start slow s (record s { client = ready threw })

-- A thread that waits for runCondition is woken by notify_one.
abbrev pub notified : WorkerPc → WorkerPc
notified waiting = woken
notified w = w

pub data Stop (s : Thread) : Thread → Type 0 where
  call : {l : Last} → s.client ≡ ready l → Stop s (record s { client = stop_locking })
  lower :
      s.client ≡ stop_locking
      → s.owner ≡ free
      → Stop s (record s { keep_running = false; client = stop_notifying })
  notify :
      s.client ≡ stop_notifying
      → Stop s (record s { worker = notified s.worker; client = stop_relocking })
  relock :
      s.client ≡ stop_relocking
      → s.owner ≡ free
      → Stop s (record s { owner = by_client; client = stop_testing })
  none :
      s.client ≡ stop_testing
      → s.has_thread ≡ false
      → Stop s (record s { owner = free; client = ready stopped })
  wait :
      s.client ≡ stop_testing
      → s.has_thread ≡ true
      → s.thread_started ≡ true
      → Stop s (record s { owner = free; client = stop_waiting })
  wake :
      s.client ≡ stop_waiting
      → s.owner ≡ free
      → Stop s (record s { owner = by_client; client = stop_testing })
  time_out :
      s.client ≡ stop_waiting
      → s.owner ≡ free
      → s.thread_started ≡ true
      → Stop s (record s { client = ready threw })
  join :
      s.client ≡ stop_testing
      → s.has_thread ≡ true
      → s.thread_started ≡ false
      → Stop s (record s { client = joining })
  joined :
      s.client ≡ joining
      → s.worker ≡ ended
      → Stop s (record s {
        worker = no_thread;
        has_thread = false;
        owner = free;
        client = ready stopped;
      })

-- _run around the loop: its lock, and what it does when the loop has ended.
pub data Run (s : Thread) : Thread → Type 0 where
  begin :
      s.worker ≡ starting
      → s.owner ≡ free
      → Run s (record s { thread_started = true; owner = by_worker; worker = processing })
  finish :
      s.worker ≡ testing
      → s.keep_running ≡ false
      → Run s (record s { thread_started = false; owner = free; worker = ended })
  finish_unguarded :
      s.worker ≡ testing_unguarded
      → s.keep_running ≡ false
      → Run s (record s { thread_started = false; worker = leaving_unguarded })
  leave_unguarded :
      (o : Owner) → s.worker ≡ leaving_unguarded → Run s (record s { owner = o; worker = ended })

-- ControllerThread::run, while keepRunning is true.
pub data Loop (s : Thread) : Thread → Type 0 where
  wait :
      s.worker ≡ testing
      → s.keep_running ≡ true
      → Loop s (record s { owner = free; worker = waiting })
  pause_unguarded :
      s.worker ≡ testing_unguarded
      → s.keep_running ≡ true
      → Loop s (record s { worker = pausing_unguarded })
  wait_unguarded :
      (o : Owner) → s.worker ≡ pausing_unguarded → Loop s (record s { owner = o; worker = waiting })
  wake : s.worker ≡ waiting → Loop s (record s { worker = woken })
  regain :
      s.worker ≡ woken
      → s.owner ≡ free
      → Loop s (record s { owner = by_worker; worker = processing })

-- _process_tasks: its unlock and lock of the mutex around a task, and the catch behind which the mutex is
-- not locked again.
pub data Tasks (throws : Bool) (s : Thread) : Thread → Type 0 where
  unlock : s.worker ≡ processing → Tasks throws s (record s { owner = free; worker = in_task })
  lock :
      s.worker ≡ in_task
      → s.owner ≡ free
      → Tasks throws s (record s { owner = by_worker; worker = processing })
  throw : throws ≡ true → s.worker ≡ in_task → Tasks throws s (record s { worker = unguarded })
  unlock_unguarded :
      (o : Owner) → s.worker ≡ unguarded → Tasks throws s (record s { owner = o; worker = in_task })
  processed : s.worker ≡ processing → Tasks throws s (record s { worker = testing })
  processed_unguarded :
      s.worker ≡ unguarded → Tasks throws s (record s { worker = testing_unguarded })

-- Another thread takes the mutex, and gives it back.
pub data Other (s : Thread) : Thread → Type 0 where
  take : s.owner ≡ free → Other s (record s { owner = by_other })
  give : s.owner ≡ by_other → Other s (record s { owner = free })

pub data Step (slow throws : Bool) (s : Thread) (t : Thread) : Type 0 where
  start : Start slow s t → Step slow throws s t
  stop : Stop s t → Step slow throws s t
  run : Run s t → Step slow throws s t
  loop : Loop s t → Step slow throws s t
  tasks : Tasks throws s t → Step slow throws s t
  other : Other s t → Step slow throws s t

pub data Reach (slow throws : Bool) : Thread → Type 0 where
  new : Reach slow throws new_thread
  later : {s t : Thread} → Reach slow throws s → Step slow throws s t → Reach slow throws t
