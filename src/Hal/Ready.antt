-- ===== src/Hal/Ready.antt =====
-- A HAL that was initialized with the flag of its event queue uses no pointer that is null.
use smi240_android_hal.Prelude.{
  ℕ, ◌≡◌, refl, Bool, true, false, not, ◌||◌, Option, List, [], ◌∷◌, inl, inr, Option-cases,
  Bool-cases,
}
use smi240_android_hal.Sensor.{Sensor, Event, Result, run_round}
use smi240_android_hal.Sensor as Sensor
use smi240_android_hal.Hal.{
  Setting, Hal, Request, Setup, set_operation_mode, activate, initialize, batch, flush,
  inject_sensor_data, register_direct_channel, unregister_direct_channel, config_direct_report,
  sensor_round, wake_lock_read, find, handle, Reply, with_sensor, post_events, F, Delivery,
  flush_sensor, round_of, run,
}
use smi240_android_hal.Hal.Invariant.{IsReady}

-- A step that uses no null pointer, and leaves the queue and the flag set.
abbrev IsSafe : {F : Type 0} → Reply F → Type 0
IsSafe r = (r.faults ≡ false) × IsReady r.hal

-- An `initialize` gets the flag of the event queue.
abbrev pub GetsFlag : {F : Type 0} → Request F → Type 0
GetsFlag (initialize s) = s.flag_set ≡ true
GetsFlag _ = Unit {0}

abbrev pub AllGetFlag : {F : Type 0} → List (Request F) → Type 0
AllGetFlag [] = Unit {0}
AllGetFlag (q ∷ qs) = GetsFlag q × AllGetFlag qs

with_sensor-IsSafe :
    {F : Type 0} (h : ℕ) (hal : Hal) (k : Sensor → Reply F)
    → IsReady hal
    → ((s : Sensor) → IsSafe (k s))
    → IsSafe (with_sensor h hal k)
unfolding with_sensor
with_sensor-IsSafe h hal k ready each = elim (Option-cases (find h hal.sensors)) [
  | inl e ↦ rw (e, with_sensor) (refl, ready)
  | inr (s, e) ↦ rw (e, with_sensor) (each s)
]

post_events-IsSafe :
    {F : Type 0} (seconds : ℕ) (d : Delivery) (w : Bool) (es : List (Event F)) (r : Result)
    (hal : Hal)
    → IsReady hal
    → IsSafe (post_events seconds d w es r hal)
unfolding post_events
post_events-IsSafe seconds d w es r hal (queue, flag) = elim (Bool-cases d.writes) [
  | inr e ↦ rw (queue, flag, e, post_events) (refl, (refl, refl))
  | inl e ↦ elim (Bool-cases w) [
    | inl k ↦ rw (queue, flag, e, k, post_events) (refl, (refl, refl))
    | inr k ↦ rw (queue, flag, e, k, post_events) (refl, (refl, refl))
  ]
]

flush_sensor-IsSafe :
    (p : Setting) (d : Delivery) (hal : Hal) (s : Sensor)
    → IsReady hal
    → IsSafe (flush_sensor p d hal s)
unfolding flush_sensor Sensor.flush
flush_sensor-IsSafe p d hal s ready =
    elim (Bool-cases (not s.is_enabled || Sensor.has_flag s.info p.bits.one_shot_mode)) [
      | inl c ↦ rw (c, flush_sensor, Sensor.flush) (refl, ready)
      | inr c ↦
          rw (c, flush_sensor, Sensor.flush)
            (post_events-IsSafe p.wake_lock_seconds d _ _ _ hal ready)
    ]

round_of-IsSafe :
    (p : Setting) (h now t : ℕ) (file : Option (List (F p))) (d : Delivery) (hal : Hal) (s : Sensor)
    → IsReady hal
    → IsSafe (round_of p h now t file d hal s)
unfolding round_of
round_of-IsSafe p h now t file d hal s ready = elim (Bool-cases (run_round now s).1) [
  | inl posts ↦ rw (posts, round_of) (post_events-IsSafe p.wake_lock_seconds d _ _ _ _ ready)
  | inr quiet ↦ rw (quiet, round_of) (refl, ready)
]

handle-IsSafe :
    (p : Setting) (q : Request (F p)) (hal : Hal)
    → GetsFlag q
    → IsReady hal
    → IsSafe (handle p q hal)
unfolding handle
handle-IsSafe p (set_operation_mode n) hal g ready = (refl, ready)
handle-IsSafe p (activate h e) hal g ready = with_sensor-IsSafe h hal _ ready λ s. (refl, ready)
handle-IsSafe p (initialize s) hal g ready = (refl, (refl, g))
handle-IsSafe p (batch h n l) hal g ready = with_sensor-IsSafe h hal _ ready λ s. (refl, ready)
handle-IsSafe p (flush h d) hal g ready =
    with_sensor-IsSafe h hal _ ready λ s. flush_sensor-IsSafe p d hal s ready
handle-IsSafe p (inject_sensor_data e) hal g ready =
    with_sensor-IsSafe e.sensor_handle hal _ ready λ s. (refl, ready)
handle-IsSafe p register_direct_channel hal g ready = (refl, ready)
handle-IsSafe p unregister_direct_channel hal g ready = (refl, ready)
handle-IsSafe p config_direct_report hal g ready = (refl, ready)
handle-IsSafe p (sensor_round h now t file d) hal g ready =
    with_sensor-IsSafe h hal _ ready λ s. round_of-IsSafe p h now t file d hal s ready
handle-IsSafe p (wake_lock_read n a) hal g ready = elim (Bool-cases hal.read_wake_lock_queue_run) [
  | inl e ↦ rw (e, handle) (refl, ready)
  | inr e ↦ rw (e, handle) (refl, ready)
]

run-IsSafe :
    (p : Setting) (qs : List (Request (F p))) (hal : Hal)
    → AllGetFlag qs
    → IsReady hal
    → IsSafe (run p qs hal)
unfolding run
run-IsSafe p [] hal g ready = (refl, ready)
run-IsSafe p (q ∷ qs) hal g ready =
    let (f, ready') = handle-IsSafe p q hal g.0 ready in
    let (f', r) = run-IsSafe p qs (handle p q hal).hal g.1 ready' in rw (f, run) (f', r)

-- In whatever state the HAL is: after an `initialize` that gets the flag of the event queue, no call, no
-- round of a sensor's thread and no read of the wake lock queue uses a queue or a flag that is null, as
-- long as every further `initialize` gets the flag too.
pub initialized_never_faults :
    (p : Setting) (setup : Setup) (qs : List (Request (F p))) (hal : Hal)
    → setup.flag_set ≡ true
    → AllGetFlag qs
    → (run p (initialize setup ∷ qs) hal).faults ≡ false
unfolding run handle
initialized_never_faults p setup qs hal flag g =
    (run-IsSafe p qs (handle p (initialize setup) hal).hal g (refl, flag)).0
