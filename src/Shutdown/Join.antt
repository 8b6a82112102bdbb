-- ===== src/Shutdown/Join.antt =====
-- Whether the destructor gets past its join.
use smi240_android_hal.Prelude.{◌≡◌, ◌≢◌, refl, ◌⊎◌, inl, inr, Bool, true, false, none, some, arith}
use smi240_android_hal.Shutdown.{
  released, scoped, destructor, runner, starting, locked, notified, joining, joined, RunnerAt,
  locking, waiting, timed, running, finished, State, at_state, notify_all, Step, activate, lock,
  notify, unlock, join, take, wait, wait_for, time_out, spurious, finish, Steps, done, next, alive,
}

notify_all-finished : (r : RunnerAt) → r ≢ finished → notify_all r ≢ finished
unfolding notify_all
notify_all-finished locking h = h
notify_all-finished waiting h = λ e. absurd (cc)
notify_all-finished timed h = λ e. absurd (cc)
notify_all-finished running h = h
notify_all-finished finished h = h

-- What holds with `lock.release()`: the run thread stops only behind the destructor's lock, which
-- then keeps the mutex.
abbrev IsStuck : State → Type 0
IsStuck s =
    (s.runner_at ≢ finished)
    × (s.destructor_at ≢ joined)
    × (((s.destructor_at ≡ starting) × (s.stop_thread ≡ false)) ⊎ (s.run_mutex ≡ some destructor))

Step-IsStuck : {free : Bool} (s t : State) → Step released free s t → IsStuck s → IsStuck t
Step-IsStuck _ _ (activate stop on on' r) (f, j, c) = (notify_all-finished r f, j, ground arith)
Step-IsStuck _ _ (lock stop on r) (f, j, c) = (f, (λ e. absurd (cc)), inr refl)
Step-IsStuck _ _ (notify m stop on r) (f, j, c) =
    (notify_all-finished r f, (λ e. absurd (cc)), ground arith)
Step-IsStuck _ _ (unlock stop on r) (f, j, c) = (f, (λ e. absurd (cc)), inr refl)
Step-IsStuck _ _ (join m stop on) (f, j, c) = absurd (f refl)
Step-IsStuck _ _ (take stop on d) (f, j, c) = ((λ e. absurd (cc)), j, ground arith)
Step-IsStuck _ _ (wait d) (f, j, c) = ((λ e. absurd (cc)), j, ground arith)
Step-IsStuck _ _ (wait_for d) (f, j, c) = ((λ e. absurd (cc)), j, ground arith)
Step-IsStuck _ _ (time_out m stop on d) (f, j, c) = ((λ e. absurd (cc)), j, c)
Step-IsStuck _ _ (spurious m stop on d e) (f, j, c) = ((λ e. absurd (cc)), j, c)
Step-IsStuck _ _ (finish on d) (f, j, c) = absurd (ground arith)

Steps-IsStuck : {free : Bool} (s t : State) → Steps released free s t → IsStuck s → IsStuck t
Steps-IsStuck _ _ (done s) h = h
Steps-IsStuck _ _ (next s t u st ss) h = Steps-IsStuck t u ss (Step-IsStuck s t st h)

-- With `lock.release()`, in no interleaving from a sensor that is enabled or not, whether a wait may
-- end without a notification or not, does the destructor get past its join.
pub released_never_joins :
    (free on : Bool) (s : State) → Steps released free (alive on) s → s.destructor_at ≢ joined
released_never_joins free on s ss =
    (Steps-IsStuck (alive on) s ss ((λ e. absurd (cc)), (λ e. absurd (cc)), inl (refl, refl))).1

-- The run thread waits, or is about to lock the mutex.
abbrev IsAway : RunnerAt → Type 0
IsAway r = (r ≡ locking) ⊎ ((r ≡ waiting) ⊎ (r ≡ timed))

notify_all-IsAway : (r : RunnerAt) → IsAway r → notify_all r ≡ locking
unfolding notify_all
notify_all-IsAway locking h = refl
notify_all-IsAway waiting h = refl
notify_all-IsAway timed h = refl
notify_all-IsAway running h = absurd (ground arith)
notify_all-IsAway finished h = absurd (ground arith)

-- What holds where the lock goes out of scope: a thread that owns the mutex is where it owns it, and
-- once the destructor has notified, the run thread waits no more.
abbrev IsBefore : State → Type 0
IsBefore s =
    (s.stop_thread ≡ false)
    × ((s.destructor_at ≡ starting) × IsAway s.runner_at × (s.run_mutex ≡ none)
        ⊎ ((s.destructor_at ≡ starting) × (s.runner_at ≡ running) × (s.run_mutex ≡ some runner)
            ⊎ (s.destructor_at ≡ locked) × IsAway s.runner_at × (s.run_mutex ≡ some destructor)))

abbrev IsBehind : State → Type 0
IsBehind s =
    (s.stop_thread ≡ true)
    × ((s.destructor_at ≡ notified) × (s.runner_at ≡ locking) × (s.run_mutex ≡ some destructor)
        ⊎ ((s.destructor_at ≡ joining) × (s.runner_at ≡ locking) × (s.run_mutex ≡ none)
            ⊎ ((s.destructor_at ≡ joining) × (s.runner_at ≡ running) × (s.run_mutex ≡ some runner)
                ⊎ ((s.destructor_at ≡ joining) ⊎ (s.destructor_at ≡ joined))
                  × (s.runner_at ≡ finished)
                  × (s.run_mutex ≡ none))))

abbrev IsFair : State → Type 0
IsFair s = IsBefore s ⊎ IsBehind s

Step-IsFair : {free : Bool} (s t : State) → Step scoped free s t → IsFair s → IsFair t
Step-IsFair _ _ (activate stop on on' r) h =
    let awake = notify_all-IsAway r in ground (arith, awake)
Step-IsFair _ _ (lock stop on r) h = ground arith
Step-IsFair _ _ (notify m stop on r) h = let awake = notify_all-IsAway r in ground (arith, awake)
Step-IsFair _ _ (unlock stop on r) h = ground arith
Step-IsFair _ _ (join m stop on) h = ground arith
Step-IsFair _ _ (take stop on d) h = ground arith
Step-IsFair _ _ (wait d) h = ground arith
Step-IsFair _ _ (wait_for d) h = ground arith
Step-IsFair _ _ (time_out m stop on d) h = ground arith
Step-IsFair _ _ (spurious m stop on d e) h = ground arith
Step-IsFair _ _ (finish on d) h = ground arith

Steps-IsFair : {free : Bool} (s t : State) → Steps scoped free s t → IsFair s → IsFair t
Steps-IsFair _ _ (done s) h = h
Steps-IsFair _ _ (next s t u st ss) h = Steps-IsFair t u ss (Step-IsFair s t st h)

-- Some run from `s` takes the destructor past its join, without any wait that ends by itself but
-- those of `wait_for`.
abbrev CanJoin : State → Type 0
CanJoin s = (t : State) × Steps scoped false s t × (t.destructor_at ≡ joined)

CanJoin-Step : (s t : State) → Step scoped false s t → CanJoin t → CanJoin s
CanJoin-Step s t st (u, ss, e) = (u, next s t u st ss, e)

from_joined : (on : Bool) → CanJoin (at_state none true on joined finished)
from_joined on = (at_state none true on joined finished, done _, refl)

from_finished : (on : Bool) → CanJoin (at_state none true on joining finished)
from_finished on = CanJoin-Step _ _ (join none true on) (from_joined on)

from_leaving : (on : Bool) → CanJoin (at_state (some runner) true on joining running)
from_leaving on = CanJoin-Step _ _ (finish on joining) (from_finished on)

from_joining : (on : Bool) → CanJoin (at_state none true on joining locking)
from_joining on = CanJoin-Step _ _ (take true on joining) (from_leaving on)

from_notified : (on : Bool) → CanJoin (at_state (some destructor) true on notified locking)
from_notified on = CanJoin-Step _ _ (unlock true on locking) (from_joining on)

from_locked :
    (on : Bool) (r : RunnerAt) → IsAway r → CanJoin (at_state (some destructor) false on locked r)
from_locked on r away =
    CanJoin-Step _ _ (notify (some destructor) false on r)
      (rw (notify_all-IsAway r away) (from_notified false))

from_start : (on : Bool) (r : RunnerAt) → IsAway r → CanJoin (at_state none false on starting r)
from_start on r away = CanJoin-Step _ _ (lock false on r) (from_locked on r away)

from_sampling : (on : Bool) → CanJoin (at_state (some runner) false on starting running)
from_sampling true = CanJoin-Step _ _ (wait_for starting) (from_start true timed (inr (inr refl)))
from_sampling false = CanJoin-Step _ _ (wait starting) (from_start false waiting (inr (inl refl)))

IsFair-CanJoin : (s : State) → IsFair s → CanJoin s
IsFair-CanJoin s (inl (b, inl (d, away, m))) =
    let e : at_state none false s.is_enabled starting s.runner_at ≡ s = ground (arith, d, b, m) in
    rw (← e) (from_start s.is_enabled s.runner_at away)
IsFair-CanJoin s (inl (b, inr (inl (d, r, m)))) =
    let e : at_state (some runner) false s.is_enabled starting running ≡ s =
      ground (arith, d, b, r, m) in
    rw (← e) (from_sampling s.is_enabled)
IsFair-CanJoin s (inl (b, inr (inr (d, away, m)))) =
    let e : at_state (some destructor) false s.is_enabled locked s.runner_at ≡ s =
      ground (arith, d, b, m) in
    rw (← e) (from_locked s.is_enabled s.runner_at away)
IsFair-CanJoin s (inr (b, inl (d, r, m))) =
    let e : at_state (some destructor) true s.is_enabled notified locking ≡ s =
      ground (arith, d, b, r, m) in
    rw (← e) (from_notified s.is_enabled)
IsFair-CanJoin s (inr (b, inr (inl (d, r, m)))) =
    let e : at_state none true s.is_enabled joining locking ≡ s = ground (arith, d, b, r, m) in
    rw (← e) (from_joining s.is_enabled)
IsFair-CanJoin s (inr (b, inr (inr (inl (d, r, m))))) =
    let e : at_state (some runner) true s.is_enabled joining running ≡ s =
      ground (arith, d, b, r, m) in
    rw (← e) (from_leaving s.is_enabled)
IsFair-CanJoin s (inr (b, inr (inr (inr (inl d, r, m))))) =
    let e : at_state none true s.is_enabled joining finished ≡ s = ground (arith, d, b, r, m) in
    rw (← e) (from_finished s.is_enabled)
IsFair-CanJoin s (inr (b, inr (inr (inr (inr d, r, m))))) =
    let e : at_state none true s.is_enabled joined finished ≡ s = ground (arith, d, b, r, m) in
    rw (← e) (from_joined s.is_enabled)

-- Where the lock goes out of scope, from every state that a sensor, enabled or not, can reach some run
-- takes the destructor past its join, without a wait that ends unnotified but for the time of
-- `wait_for`: the two threads never block each other, and the destructor's notification reaches a run
-- thread that waits.
pub scoped_can_join :
    (free on : Bool) (s : State)
    → Steps scoped free (alive on) s
    → (t : State) × Steps scoped false s t × (t.destructor_at ≡ joined)
scoped_can_join free on s ss =
    IsFair-CanJoin s (Steps-IsFair (alive on) s ss (inl (refl, inl (refl, inl refl, refl))))
