-- ===== src/Shutdown/Tests.antt =====
-- The two destructors at concrete interleavings.
use smi240_android_hal.Prelude.{◌≡◌, ◌≢◌, true, false, none, some}
use smi240_android_hal.Shutdown.{
  scoped, destructor, runner, starting, locked, notified, joining, joined, locking, waiting,
  running, State, at_state, notify_all, lock, notify, unlock, take, wait, Steps, done, next, alive,
}
use smi240_android_hal.Shutdown.Join.{released_never_joins, scoped_can_join}

-- The run thread of a disabled sensor waits.
abbrev at_wait : State
at_wait = at_state none false false starting waiting

abbrev at_round : State
at_round = at_state (some runner) false false starting running

abbrev behind_lock : State
behind_lock = at_state (some destructor) false false locked waiting

abbrev behind_notify : State
behind_notify = at_state (some destructor) true false notified locking

-- The destructor has reached its join.
released_never_joins_example : joining ≢ joined
unfolding notify_all
released_never_joins_example =
    released_never_joins false false (at_state (some destructor) true false joining locking) (
      next (alive false) at_round _ (take false false starting) (
        next at_round at_wait _ (wait starting) (
          next at_wait behind_lock _ (lock false false waiting) (
            next behind_lock behind_notify _ (notify (some destructor) false false waiting)
              (next behind_notify _ _ (unlock true false locking) (done _))))))

scoped_can_join_example : (t : State) × Steps scoped false at_wait t × (t.destructor_at ≡ joined)
scoped_can_join_example = scoped_can_join false false at_wait (
    next (alive false) at_round at_wait (take false false starting)
      (next at_round at_wait at_wait (wait starting) (done at_wait)))
