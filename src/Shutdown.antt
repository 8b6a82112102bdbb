-- ===== src/Shutdown.antt =====
-- How a sensor is destroyed: the destructor of class Sensor against its run thread. 2.X/Sensor.cpp
-- and aidl/Sensor.cpp call `lock.release()`, which gives the lock object up without unlocking the
-- mutex; multihal/Sensor.cpp lets the lock go out of scope. Each step of a thread is one step of
-- the relation `Step`, so that a run is any interleaving of the two threads.
pub mod Join
mod Tests
use smi240_android_hal.Prelude.{◌≡◌, Bool, true, false, Option, none, some}

-- `released` is `lock.release()`, `scoped` the end of the lock's scope.
pub data Variant : Type 0 where
  released scoped : Variant

pub data Thread : Type 0 where
  destructor runner : Thread

-- Where the destructor is: before its lock, behind it, behind `mStopThread = true`, at `join`,
-- behind it.
pub data DestructorAt : Type 0 where
  starting locked notified joining joined : DestructorAt

-- Where the run thread is: about to lock the mutex (at its start, or out of a wait), in `wait` or
-- `wait_for`, between two waits, at its end.
pub data RunnerAt : Type 0 where
  locking waiting timed running finished : RunnerAt

-- mRunMutex by its owner, mStopThread, mIsEnabled, and the two threads.
pub record State : Type 0 where
  pub run_mutex : Option Thread
  pub stop_thread : Bool
  pub is_enabled : Bool
  pub destructor_at : DestructorAt
  pub runner_at : RunnerAt

abbrev pub at_state : Option Thread → Bool → Bool → DestructorAt → RunnerAt → State
at_state m stop on d r = record {
  run_mutex = m;
  stop_thread = stop;
  is_enabled = on;
  destructor_at = d;
  runner_at = r;
}

-- The mutex once the destructor is past its lock.
abbrev pub unlocked : Variant → Option Thread
unlocked released = some destructor
unlocked scoped = none

-- mWaitCV.notify_all(): a run thread in a wait is taken out of it, and needs the mutex.
unfoldable pub notify_all : RunnerAt → RunnerAt
notify_all waiting = locking
notify_all timed = locking
notify_all locking = locking
notify_all running = running
notify_all finished = finished

-- `free` says whether a wait may also end without a notification of the two below, on its own or by
-- that of Sensor::batch.
pub data Step (v : Variant) (free : Bool) : State → State → Type 0 where
  -- Sensor::activate, while the sensor is used
  activate :
      (stop on on' : Bool) (r : RunnerAt)
      → Step v free
          (at_state none stop on starting r)
          (at_state none stop on' starting (notify_all r))
  -- std::unique_lock lock(mRunMutex)
  lock :
      (stop on : Bool) (r : RunnerAt)
      → Step v free (at_state none stop on starting r) (at_state (some destructor) stop on locked r)
  -- mStopThread = true; mIsEnabled = false; mWaitCV.notify_all()
  notify :
      (m : Option Thread) (stop on : Bool) (r : RunnerAt)
      → Step v free (at_state m stop on locked r) (at_state m true false notified (notify_all r))
  -- lock.release(), or the end of the scope
  unlock :
      (stop on : Bool) (r : RunnerAt)
      → Step v free
          (at_state (some destructor) stop on notified r)
          (at_state (unlocked v) stop on joining r)
  -- mRunThread.join()
  join :
      (m : Option Thread) (stop on : Bool)
      → Step v free (at_state m stop on joining finished) (at_state m stop on joined finished)
  -- The run thread takes the mutex.
  take :
      (stop on : Bool) (d : DestructorAt)
      → Step v free (at_state none stop on d locking) (at_state (some runner) stop on d running)
  -- mWaitCV.wait of a disabled sensor, which unlocks the mutex; out of it, what it waits for is tested
  -- again with the mutex, as by the next round.
  wait :
      (d : DestructorAt)
      → Step v free
          (at_state (some runner) false false d running)
          (at_state none false false d waiting)
  -- mWaitCV.wait_for of an enabled sensor
  wait_for :
      (d : DestructorAt)
      → Step v free (at_state (some runner) false true d running) (at_state none false true d timed)
  -- The time of `wait_for` is over.
  time_out :
      (m : Option Thread) (stop on : Bool) (d : DestructorAt)
      → Step v free (at_state m stop on d timed) (at_state m stop on d locking)
  -- `wait` ends without a notification.
  spurious :
      (m : Option Thread) (stop on : Bool) (d : DestructorAt)
      → free ≡ true
      → Step v free (at_state m stop on d waiting) (at_state m stop on d locking)
  -- The run thread leaves its loop and returns, which unlocks the mutex.
  finish :
      (on : Bool) (d : DestructorAt)
      → Step v free (at_state (some runner) true on d running) (at_state none true on d finished)

pub data Steps (v : Variant) (free : Bool) : State → State → Type 0 where
  done : (s : State) → Steps v free s s
  next : (s t u : State) → Step v free s t → Steps v free t u → Steps v free s u

-- A sensor, enabled or not, before it is destroyed.
abbrev pub alive : Bool → State
alive on = at_state none false on starting locking
