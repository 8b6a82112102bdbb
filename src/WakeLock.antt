-- ===== src/WakeLock.antt =====
-- The wake lock of the single HALs: `updateWakeLock` of 2.X/Sensors.h, which
-- aidl/include/sensors-impl/SensorsHalAidl.h repeats. The thread that posts events and the thread
-- that reads the wake lock queue both call it, under `mWakeLockLock`: each call is one atomic step.
-- The power calls and the clock are the platform's: their answers are the fields of `Answers`.
pub mod Held
pub mod Balance
mod Tests
use smi240_android_hal.Prelude.{
  ℕ, ◌+◌, ◌-◌, ◌*◌, ◌%◌, ◌^◌, Bool, true, false, ◌&&◌, List, [], ◌∷◌, ◌++◌, ltb, ◌==◌,
  if◌then◌else◌,
}

-- mOutstandingWakeUpEvents (uint32_t), mAutoReleaseWakeLockTime, mHasWakeLock.
pub record WakeLock : Type 0 where
  pub outstanding_wake_up_events : ℕ
  pub auto_release_wake_lock_time : ℕ
  pub has_wake_lock : Bool

unfoldable pub initial : WakeLock
initial = record {
  outstanding_wake_up_events = 0;
  auto_release_wake_lock_time = 0;
  has_wake_lock = false;
}

-- What the platform answers during one call: the two readings of `uptimeMillis()`, and whether
-- `acquire_wake_lock` and `release_wake_lock` return 0 if they are called.
pub record Answers : Type 0 where
  pub written_at : ℕ
  pub checked_at : ℕ
  pub acquire_works : Bool
  pub release_works : Bool

-- The power calls that one update makes.
pub data PowerCall : Type 0 where
  acquire_wake_lock release_wake_lock : PowerCall

abbrev pub u32_mod : ℕ
u32_mod = 2 ^ 32

-- An int32_t is its bit pattern, and is below 0 from 2^31 on.
abbrev pub is_negative : ℕ → Bool
is_negative n = ltb (2 ^ 31 - 1) n

-- mOutstandingWakeUpEvents + eventsWritten - eventsHandled, computed in uint32_t, read as int32_t
-- and cut off at 0.
unfoldable pub new_outstanding : ℕ → ℕ → ℕ → ℕ
new_outstanding outstanding written handled =
    let new_val = (outstanding + written + u32_mod - handled) % u32_mod in
    if is_negative new_val then 0 else new_val

-- The part of the function that keeps the lock or lets it go, for a held lock.
maybe_release : Answers → WakeLock → WakeLock × List PowerCall
maybe_release a w =
    let outstanding =
      if ltb w.auto_release_wake_lock_time a.checked_at then 0 else w.outstanding_wake_up_events in
    let w' = record w { outstanding_wake_up_events = outstanding } in
    if outstanding == 0
    then (
      if a.release_works then record w' { has_wake_lock = false } else w',
      release_wake_lock ∷ [],
    )
    else (w', [])

-- The if that ends the function: a failed acquisition falls to the `else if`, which then does
-- nothing, since the lock is not held.
settle : Answers → WakeLock → WakeLock × List PowerCall
unfolding maybe_release
settle a w =
    if w.has_wake_lock
    then maybe_release a w
    else if ltb 0 w.outstanding_wake_up_events
    then (record w { has_wake_lock = a.acquire_works }, acquire_wake_lock ∷ [])
    else (w, [])

-- `events_written` and `events_handled` are bit patterns of an int32_t.
unfoldable pub update_wake_lock : ℕ → Answers → ℕ → ℕ → WakeLock → WakeLock × List PowerCall
unfolding new_outstanding settle
update_wake_lock wake_lock_seconds a events_written events_handled w =
    let outstanding = new_outstanding w.outstanding_wake_up_events events_written events_handled in
    let deadline =
      if ltb 0 events_written && ltb events_written (2 ^ 31)
      then a.written_at + wake_lock_seconds * 1000
      else w.auto_release_wake_lock_time in
    settle a (record w {
      outstanding_wake_up_events = outstanding;
      auto_release_wake_lock_time = deadline;
    })

-- One call of the posting thread (`eventsHandled` is 0) or of the queue's reader (`eventsWritten`
-- is 0).
pub data Update : Type 0 where
  posted handled : ℕ → Answers → Update

unfoldable pub step : ℕ → WakeLock → Update → WakeLock × List PowerCall
step seconds w (posted n a) = update_wake_lock seconds a (n % u32_mod) 0 w
step seconds w (handled n a) = update_wake_lock seconds a 0 (n % u32_mod) w

-- The two threads in any order, with every power call that they make.
unfoldable pub run : ℕ → WakeLock → List Update → WakeLock × List PowerCall
run seconds w [] = (w, [])
run seconds w (u ∷ us) =
    let (w', calls) = step seconds w u in
    let (w'', later) = run seconds w' us in (w'', calls ++ later)
