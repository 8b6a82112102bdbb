-- ===== src/Hal/Reach.antt =====
-- What holds in every state that the HAL can reach with the two SMI240 sensors.
use smi240_android_hal.Prelude.{
  ℕ, ◌^◌, ◌<◌, ◌||◌, ◌≡◌, refl, ap, ◌⊎◌, inl, inr, Bool, false, not, Option, none, some, List, [],
  ◌∷◌, ◌==◌, arith, Bool-cases,
}
use smi240_android_hal.WakeLock.{WakeLock, PowerCall, update_wake_lock}
use smi240_android_hal.WakeLock as WakeLock
use smi240_android_hal.Sensor.{
  Sensor, SensorInfo, SensorType, SensorStatus, Event, vec3, read_event_payload, accelerometer,
  gyroscope, meta_data, flush_complete, run_round, bad_value, is_wake_up_sensor, FlagBits,
  smi240_accel, smi240_gyro, read_events, Result,
}
use smi240_android_hal.Sensor as Sensor
use smi240_android_hal.Hal.{
  Setting, Hal, SensorMap, Request, set_operation_mode, activate, initialize, batch, flush,
  inject_sensor_data, register_direct_channel, unregister_direct_channel, config_direct_report,
  sensor_round, wake_lock_read, modify, handle, reply, F, Delivery, flush_sensor, round_of, run,
  new_hal,
}
use smi240_android_hal.Hal.Invariant.{
  Fits, accel_info, gyro_info, AreSmi240, Inv, modify-AreSmi240, modify_all-AreSmi240,
  activate-Keeps, batch-Keeps, run_round-Keeps, is_wake_up_sensor-zero, type_of, IsVector,
  AllOurs-append, IsGood, with_sensor-IsGood, post_events-IsGood,
}

flush_sensor-IsGood :
    (p : Setting) (d : Delivery) (hal : Hal) (s : Sensor)
    → Inv hal
    → s.info.flags ≡ 0
    → (s.info.sensor_handle ≡ 1) ⊎ (s.info.sensor_handle ≡ 2)
    → IsGood (flush_sensor p d hal s)
unfolding flush_sensor Sensor.flush
flush_sensor-IsGood p d hal s i z known =
    elim (Bool-cases (not s.is_enabled || Sensor.has_flag s.info p.bits.one_shot_mode)) [
      | inl c ↦ rw (c, flush_sensor, Sensor.flush) (i, refl, tt)
      | inr c ↦
          rw (c, flush_sensor, Sensor.flush)
            (rw (is_wake_up_sensor-zero p.bits s z)
              (post_events-IsGood p.wake_lock_seconds d _ _ hal i ((known, inl (refl, refl)), tt)))
    ]

set-AreSmi240 :
    (h : ℕ) (s : Sensor) (m : SensorMap)
    → (h ≡ 1 → Fits accel_info s)
    → (h ≡ 2 → Fits gyro_info s)
    → AreSmi240 m
    → AreSmi240 (modify h (λ _. s) m)
unfolding modify
set-AreSmi240 h s m k l (a, g, e, fa, fg) = elim (Bool-cases (1 == h)) [
  | inl one ↦ (s, g, rw (e, one) refl, k (ground arith), fg)
  | inr other ↦ elim (Bool-cases (2 == h)) [
    | inl two ↦ (a, s, rw (e, other, two) refl, fa, l (ground arith))
    | inr none_of ↦ (a, g, rw (e, other, none_of) refl, fa, fg)
  ]
]

read_event_payload-IsVector :
    (p : Setting) (resolution x y z : F p) (status : SensorStatus) (file : Option (List (F p)))
    → IsVector (read_event_payload p.fl resolution (vec3 x y z status) file)
unfolding read_event_payload
read_event_payload-IsVector p res x y z status none = tt
read_event_payload-IsVector p res x y z status (some []) = tt
read_event_payload-IsVector p res x y z status (some (a ∷ [])) = tt
read_event_payload-IsVector p res x y z status (some (a ∷ b ∷ [])) = tt
read_event_payload-IsVector p res x y z status (some (a ∷ b ∷ c ∷ ws)) = tt

round_of-IsGood :
    (p : Setting) (h now t : ℕ) (file : Option (List (F p))) (d : Delivery) (hal : Hal) (s : Sensor)
    → Inv hal
    → (let s' = (run_round now s).0 in
        (s'.info.flags ≡ 0)
        × (s.info.flags ≡ 0)
        × (s'.info.sensor_type ≡ type_of s'.info.sensor_handle)
        × ((s'.info.sensor_handle ≡ 1) ⊎ (s'.info.sensor_handle ≡ 2))
        × (h ≡ 1 → Fits accel_info s')
        × (h ≡ 2 → Fits gyro_info s'))
    → IsGood (round_of p h now t file d hal s)
unfolding round_of read_events
round_of-IsGood p h now t file d hal s (m, w) (z, z', ty, known, k, l) =
    let m' = set-AreSmi240 h (run_round now s).0 hal.sensors k l m in
    elim (Bool-cases (run_round now s).1) [
      | inl posts ↦
          rw (posts, round_of)
            (rw (is_wake_up_sensor-zero p.bits s z') (
              post_events-IsGood p.wake_lock_seconds d _ _ _ (m', w)
                ((known, inr (ty, read_event_payload-IsVector p _ _ _ _ _ file)), tt)))
      | inr quiet ↦ rw (quiet, round_of) ((m', w), refl, tt)
    ]

-- A count of handled events that an int32_t holds.
abbrev pub IsCount : {F : Type 0} → Request F → Type 0
IsCount (set_operation_mode n) = Unit {0}
IsCount (activate h e) = Unit {0}
IsCount (initialize s) = Unit {0}
IsCount (batch h p l) = Unit {0}
IsCount (flush h d) = Unit {0}
IsCount (inject_sensor_data e) = Unit {0}
IsCount register_direct_channel = Unit {0}
IsCount unregister_direct_channel = Unit {0}
IsCount config_direct_report = Unit {0}
IsCount (sensor_round h now t f d) = Unit {0}
IsCount (wake_lock_read n a) = n < 2 ^ 31

wake_lock_read-IsGood :
    (p : Setting) (n : ℕ) (a : WakeLock.Answers) (hal : Hal)
    → Inv hal
    → n < 2 ^ 31
    → IsGood (handle p (wake_lock_read n a) hal)
unfolding handle update_wake_lock
wake_lock_read-IsGood p n a hal (m, w) small = ground arith

handle-IsGood :
    (p : Setting) (q : Request (F p)) (hal : Hal) → Inv hal → IsCount q → IsGood (handle p q hal)
unfolding handle
handle-IsGood p (set_operation_mode n) hal i c = (i, refl, tt)
handle-IsGood p (activate h e) hal i c =
    let next : IsGood {F = F p}
        (reply (record hal { sensors = modify h (Sensor.activate e) hal.sensors }) Sensor.ok) =
      (
        (modify-AreSmi240 h (Sensor.activate e) hal.sensors (activate-Keeps e) i.0, i.1),
        refl,
        tt,
      ) in
    with_sensor-IsGood h hal _ i (λ s f k. next) (λ s f k. next)
handle-IsGood p (initialize setup) hal i c = (
  (modify_all-AreSmi240 (Sensor.activate false) hal.sensors (activate-Keeps false) i.0, i.1),
  refl,
  tt,
)
handle-IsGood p (batch h n l) hal i c =
    let next : IsGood {F = F p} (
        reply (record hal { sensors = modify h (λ s. (Sensor.batch n s).0) hal.sensors })
          Sensor.ok) =
      ((modify-AreSmi240 h _ hal.sensors (batch-Keeps n) i.0, i.1), refl, tt) in
    with_sensor-IsGood h hal _ i (λ s f k. next) (λ s f k. next)
handle-IsGood p (flush h d) hal i c =
    with_sensor-IsGood h hal _ i
      (λ s f k.
        flush_sensor-IsGood p d hal s i (ap (λ x. x.flags) f.0)
          (inl (ap (λ x. x.sensor_handle) f.0)))
      (λ s f k.
        flush_sensor-IsGood p d hal s i (ap (λ x. x.flags) f.0)
          (inr (ap (λ x. x.sensor_handle) f.0)))
handle-IsGood p (inject_sensor_data e) hal i c =
    with_sensor-IsGood e.sensor_handle hal _ i (λ s f k. (i, refl, tt)) (λ s f k. (i, refl, tt))
handle-IsGood p register_direct_channel hal i c = (i, refl, tt)
handle-IsGood p unregister_direct_channel hal i c = (i, refl, tt)
handle-IsGood p config_direct_report hal i c = (i, refl, tt)
handle-IsGood p (sensor_round h now t file d) hal i c =
    with_sensor-IsGood h hal _ i
      (λ s f k.
        let g = run_round-Keeps now accel_info s refl refl f in
        round_of-IsGood p h now t file d hal s i (
          ap (λ x. x.flags) g.0,
          ap (λ x. x.flags) f.0,
          ground (arith, g.0),
          inl (ap (λ x. x.sensor_handle) g.0),
          (λ _. g),
          λ two. absurd (omega arith),
        ))
      (λ s f k.
        let g = run_round-Keeps now gyro_info s refl refl f in
        round_of-IsGood p h now t file d hal s i (
          ap (λ x. x.flags) g.0,
          ap (λ x. x.flags) f.0,
          ground (arith, g.0),
          inr (ap (λ x. x.sensor_handle) g.0),
          (λ one. absurd (omega arith)),
          λ _. g,
        ))
handle-IsGood p (wake_lock_read n a) hal i c = wake_lock_read-IsGood p n a hal i c

abbrev pub AllCounts : {F : Type 0} → List (Request F) → Type 0
AllCounts [] = Unit {0}
AllCounts (q ∷ qs) = IsCount q × AllCounts qs

-- From a state with the two SMI240 sensors and a released wake lock, any sequence of calls, rounds
-- and reads of the wake lock queue, with counts that an int32_t holds, keeps both sensors under
-- their handles with a period that is 0 or from 10 ms to 200 ms, never makes a power call, and posts
-- only well-typed events: each names one of the sensors, and is either a flush that is complete or has
-- the type of that sensor and a vector. A step that uses an event queue or a flag that is null is the
-- last one, and all of this holds of what it has done too.
pub run-IsGood :
    (p : Setting) (qs : List (Request (F p))) (hal : Hal)
    → AllCounts qs
    → Inv hal
    → IsGood (run p qs hal)
unfolding run
run-IsGood p [] hal c i = (i, refl, tt)
run-IsGood p (q ∷ qs) hal c i =
    let (i₁, w₁, e₁) = handle-IsGood p q hal i c.0 in
    let (i₂, w₂, e₂) = run-IsGood p qs (handle p q hal).hal c.1 i₁ in
    elim (Bool-cases (handle p q hal).faults) [
      | inl f ↦ rw (f, run) (i₁, w₁, e₁)
      | inr f ↦ rw (f, run) (i₂, rw w₁ w₂, AllOurs-append _ _ e₁ e₂)
    ]

-- The HAL that the constructor makes satisfies the invariant.
pub new_hal-Inv : (accel_stop gyro_stop : Bool) → Inv (new_hal accel_stop gyro_stop)
unfolding new_hal
new_hal-Inv accel_stop gyro_stop = (
  (smi240_accel accel_stop 1, smi240_gyro gyro_stop 2, refl, (refl, inl refl), (refl, inl refl)),
  (refl, refl),
)
