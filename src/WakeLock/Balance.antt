-- ===== src/WakeLock/Balance.antt =====
-- The power calls of the two threads together.
use smi240_android_hal.Prelude.{
  ℕ, ◌≡◌, refl, ◌∙◌, Bool, true, false, Option, some, none, List, [], ◌∷◌, ◌++◌, arith,
}
use smi240_android_hal.WakeLock.{
  WakeLock, Update, PowerCall, posted, handled, update_wake_lock, step, run, acquire_wake_lock,
  release_wake_lock,
}
use smi240_android_hal.WakeLock.Held.{Works}

-- Whether the lock is held after the calls, if each succeeds; `none` where a call acquires a lock
-- that is held or releases one that is not.
pub balance : Bool → List PowerCall → Option Bool
balance held [] = some held
balance true (acquire_wake_lock ∷ cs) = none
balance false (acquire_wake_lock ∷ cs) = balance true cs
balance true (release_wake_lock ∷ cs) = balance false cs
balance false (release_wake_lock ∷ cs) = none

abbrev pub AllWork : List Update → Type 0
AllWork [] = Unit {0}
AllWork (u ∷ us) = Works u × AllWork us

step-balance :
    (seconds : ℕ) (w : WakeLock) (u : Update)
    → Works u
    → balance w.has_wake_lock (step seconds w u).1 ≡ some (step seconds w u).0.has_wake_lock
unfolding step update_wake_lock balance
step-balance seconds w (posted n a) h = ground arith
step-balance seconds w (handled n a) h = ground arith

balance-append :
    (b c : Bool) (cs ds : List PowerCall)
    → balance b cs ≡ some c
    → balance b (cs ++ ds) ≡ balance c ds
unfolding balance
balance-append b c [] ds h = ground arith
balance-append true c (acquire_wake_lock ∷ cs) ds h = ground arith
balance-append false c (acquire_wake_lock ∷ cs) ds h = balance-append true c cs ds h
balance-append true c (release_wake_lock ∷ cs) ds h = balance-append false c cs ds h
balance-append false c (release_wake_lock ∷ cs) ds h = ground arith

-- In any order of the updates of the two threads, while the power calls succeed, they acquire and
-- release in turn, and `mHasWakeLock` is what the platform holds.
pub run-balance :
    (seconds : ℕ) (w : WakeLock) (us : List Update)
    → AllWork us
    → balance w.has_wake_lock (run seconds w us).1 ≡ some (run seconds w us).0.has_wake_lock
unfolding run balance
run-balance seconds w [] h = refl
run-balance seconds w (u ∷ us) h =
    balance-append w.has_wake_lock (step seconds w u).0.has_wake_lock (step seconds w u).1 _
      (step-balance seconds w u h.0)
    ∙ run-balance seconds (step seconds w u).0 us h.1
