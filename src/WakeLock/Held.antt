-- ===== src/WakeLock/Held.antt =====
-- When the wake lock is held, and what the count of outstanding events means.
use smi240_android_hal.Prelude.{
  ℕ, ◌+◌, ◌-◌, ◌*◌, ◌^◌, ◌≤◌, ◌<◌, ◌≡◌, ◌↔◌, true, false, [], ◌∷◌, arith,
}
use smi240_android_hal.WakeLock.{
  WakeLock, Answers, Update, posted, handled, update_wake_lock, step, release_wake_lock,
}

-- The lock is held exactly while events are outstanding.
abbrev pub IsTight : WakeLock → Type 0
IsTight w = (w.has_wake_lock ≡ true) ↔ (0 < w.outstanding_wake_up_events)

abbrev pub answers : Update → Answers
answers (posted n a) = a
answers (handled n a) = a

abbrev pub Works : Update → Type 0
Works u = ((answers u).acquire_works ≡ true) × ((answers u).release_works ≡ true)

-- Whatever the state before it, an update during which the power calls succeed leaves the lock held
-- exactly while events are outstanding.
pub step-IsTight :
    (seconds : ℕ) (w : WakeLock) (u : Update) → Works u → IsTight (step seconds w u).0
unfolding step update_wake_lock
step-IsTight seconds w (posted n a) h = (ground arith, ground arith)
step-IsTight seconds w (handled n a) h = (ground arith, ground arith)

-- After any update in any state the count of outstanding events is below 2^31.
step-outstanding_bound :
    (seconds : ℕ) (w : WakeLock) (u : Update)
    → (step seconds w u).0.outstanding_wake_up_events < 2 ^ 31
unfolding step update_wake_lock
step-outstanding_bound seconds w (posted n a) = ground arith
step-outstanding_bound seconds w (handled n a) = ground arith

-- Where the count and the number of events handled are below 2^31 and the deadline has not passed
-- when the clock is read, events handled are subtracted from the count, which stops at 0, and the
-- deadline stays.
step-handled_count :
    (seconds n : ℕ) (a : Answers) (w : WakeLock)
    → w.outstanding_wake_up_events < 2 ^ 31
    → n < 2 ^ 31
    → a.checked_at ≤ w.auto_release_wake_lock_time
    → ((step seconds w (handled n a)).0.outstanding_wake_up_events
        ≡ w.outstanding_wake_up_events - n)
      × ((step seconds w (handled n a)).0.auto_release_wake_lock_time
          ≡ w.auto_release_wake_lock_time)
unfolding step update_wake_lock
step-handled_count seconds n a w h k t = ground arith

-- Where at least one event is posted, the sum stays below 2^31 and the clock does not pass the new
-- deadline during the call, events posted are added to the count, and the deadline moves to
-- `seconds` seconds after the posting.
step-posted_count :
    (seconds n : ℕ) (a : Answers) (w : WakeLock)
    → 0 < n
    → w.outstanding_wake_up_events + n < 2 ^ 31
    → a.checked_at ≤ a.written_at + seconds * 1000
    → ((step seconds w (posted n a)).0.outstanding_wake_up_events
        ≡ w.outstanding_wake_up_events + n)
      × ((step seconds w (posted n a)).0.auto_release_wake_lock_time
          ≡ a.written_at + seconds * 1000)
unfolding step update_wake_lock
step-posted_count seconds n a w p h t = ground arith

-- Where the lock is held, its deadline has passed and the release succeeds, any update of the
-- queue's reader, even one that handled nothing, releases the lock and clears the count.
step-auto_release :
    (seconds n : ℕ) (a : Answers) (w : WakeLock)
    → w.has_wake_lock ≡ true
    → w.auto_release_wake_lock_time < a.checked_at
    → a.release_works ≡ true
    → ((step seconds w (handled n a)).0.has_wake_lock ≡ false)
      × ((step seconds w (handled n a)).0.outstanding_wake_up_events ≡ 0)
      × ((step seconds w (handled n a)).1 ≡ release_wake_lock ∷ [])
unfolding step update_wake_lock
step-auto_release seconds n a w h t r = ground arith
