-- ===== src/WakeLock/Tests.antt =====
-- Runs of the wake lock, and its theorems at concrete states.
use smi240_android_hal.Prelude.{ℕ, ◌≡◌, refl, true, false, some, List, [], ◌∷◌}
use smi240_android_hal.WakeLock.{
  WakeLock, Answers, Update, posted, handled, initial, update_wake_lock, step, run,
  acquire_wake_lock, release_wake_lock,
}
use smi240_android_hal.WakeLock.Held.{IsTight, step-IsTight}
use smi240_android_hal.WakeLock.Balance.{balance, run-balance}

abbrev fine : ℕ → Answers
fine t = record { written_at = t; checked_at = t; acquire_works = true; release_works = true }

abbrev two_held : WakeLock
two_held = record {
  outstanding_wake_up_events = 2;
  auto_release_wake_lock_time = 1500;
  has_wake_lock = true;
}

abbrev traffic : List Update
traffic =
    posted 2 (fine 500) ∷ handled 1 (fine 600) ∷ handled 5 (fine 700) ∷ posted 1 (fine 800) ∷ []

traffic_runs :
    (run 1 initial traffic).1 ≡ acquire_wake_lock ∷ release_wake_lock ∷ acquire_wake_lock ∷ []
unfolding run step update_wake_lock initial
traffic_runs = refl

-- When the acquisition fails the events stay counted, and the next update asks again.
acquire_retried :
    (run 1 initial
      (posted 1 (record (fine 5) { acquire_works = false }) ∷ handled 0 (fine 6) ∷ [])).1
    ≡ acquire_wake_lock ∷ acquire_wake_lock ∷ []
unfolding run step update_wake_lock initial
acquire_retried = refl

step-IsTight_example : IsTight (step 1 two_held (handled 2 (fine 900))).0
step-IsTight_example = step-IsTight 1 two_held (handled 2 (fine 900)) (refl, refl)

run-balance_example :
    balance false (run 1 initial traffic).1 ≡ some (run 1 initial traffic).0.has_wake_lock
unfolding initial
run-balance_example =
    run-balance 1 initial traffic ((refl, refl), ((refl, refl), ((refl, refl), ((refl, refl), tt))))
