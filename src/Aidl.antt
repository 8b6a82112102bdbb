-- ===== src/Aidl.antt =====
-- The AIDL HAL: SensorsHalAidl of aidl/SensorsHalAidl.cpp and
-- aidl/include/sensors-impl/SensorsHalAidl.h, over the sensors of Aidl/Sensor.antt. As in Hal.antt,
-- each handler, each round of a sensor's thread and each read of the wake lock queue is one step, and
-- what the message queues and the platform do is an argument. A step is `none` where an exception
-- ends the process, or where postEvents uses a flag that is null.
pub mod Sensor
pub mod Steps
pub mod Replies
pub mod Agrees
mod Tests
use smi240_android_hal.Prelude.{
  ℕ, ◌+◌, ◌-◌, ◌*◌, ◌%◌, ◌^◌, Bool, true, false, not, ◌&&◌, Option, none, some, List, [], ◌∷◌, ◌++◌,
  ltb, ◌==◌, if◌then◌else◌, length,
}
use smi240_android_hal.Prelude.Int.{ℤ}
use smi240_android_hal.WakeLock.{
  WakeLock, Answers, PowerCall, acquire_wake_lock, release_wake_lock, u32_mod, is_negative,
}
use smi240_android_hal.Sensor.{FlagBits, Event}
use smi240_android_hal.Sensor as Device
use smi240_android_hal.Hal.{SensorMap, Setting, Hal, Delivery, Setup, find, modify, modify_all}
use Sensor.{
  Status, ok, from_exception, error_bad_value, ex_illegal_argument, ex_unsupported_operation,
}
use Sensor as AidlSensor

-- class SensorsHalAidl: the members that class Sensors has too.
pub record AidlHal : Type 0 where
  pub base : Hal

pub record Reply (F : Type 0) : Type 0 where
  pub hal : AidlHal
  pub status : Status
  pub events : List (Event F)
  pub power : List PowerCall

abbrev pub reply : {F : Type 0} → AidlHal → Status → Reply F
reply hal s = record { hal = hal; status = s; events = []; power = [] }

abbrev pub with_sensors : SensorMap → AidlHal → AidlHal
with_sensors m hal = record hal { base = record hal.base { sensors = m } }

abbrev pub with_wake_lock : WakeLock → AidlHal → AidlHal
with_wake_lock w hal = record hal { base = record hal.base { wake_lock = w } }

-- updateWakeLock once the count and the deadline are set.
unfoldable pub hold_or_release : Answers → WakeLock → WakeLock × List PowerCall
hold_or_release a w =
    if not w.has_wake_lock && ltb 0 w.outstanding_wake_up_events
    then (record w { has_wake_lock = a.acquire_works }, acquire_wake_lock ∷ [])
    else if w.has_wake_lock
    then (let w' = record w {
      outstanding_wake_up_events =
          if ltb w.auto_release_wake_lock_time a.checked_at
          then 0
          else w.outstanding_wake_up_events;
    } in
        if w'.outstanding_wake_up_events == 0
        then (record w' { has_wake_lock = not a.release_works }, release_wake_lock ∷ [])
        else (w', []))
    else (w, [])

-- SensorsHalAidl::updateWakeLock, for the bit patterns of two int32_t.
unfoldable pub update_wake_lock : ℕ → Answers → ℕ → ℕ → WakeLock → WakeLock × List PowerCall
unfolding hold_or_release
update_wake_lock seconds a written handled w =
    let new_val = (w.outstanding_wake_up_events + written + u32_mod - handled) % u32_mod in
    hold_or_release a (record w {
      outstanding_wake_up_events = if is_negative new_val then 0 else new_val;
      auto_release_wake_lock_time =
          if ltb 0 written && not (is_negative written)
          then a.written_at + seconds * 1000
          else w.auto_release_wake_lock_time;
    })

-- SensorsHalAidl::postEvents, in a step that answers `s`. It tests mEventQueue, but uses
-- mEventQueueFlag without a test.
unfoldable pub post_events :
    {F : Type 0} → ℕ → Delivery → Bool → List (Event F) → Status → AidlHal → Option (Reply F)
unfolding update_wake_lock
post_events seconds d wakeup events s hal =
    if not hal.base.has_event_queue
    then some (reply hal s)
    else if not d.writes
    then some (reply hal s)
    else if not hal.base.has_event_queue_flag
    then none
    else if not wakeup
    then some (record { hal = hal; status = s; events = events; power = [] })
    else (let (w, calls) =
          update_wake_lock seconds d.answers (length events % 2 ^ 32) 0 hal.base.wake_lock in
        some (record { hal = with_wake_lock w hal; status = s; events = events; power = calls }))

-- SensorsHalAidl::setOperationMode
unfoldable pub operation_mode_from : Status → Bool → SensorMap → Status
unfolding AidlSensor.set_operation_mode
operation_mode_from res normal [] = res
operation_mode_from res normal ((k, s) ∷ m) =
    operation_mode_from (AidlSensor.set_operation_mode normal) normal m

-- SensorsHalAidl::initialize; its two queues come from make_unique and are never null.
unfoldable pub initialize : {F : Type 0} → Setup → AidlHal → Reply F
unfolding modify_all
initialize setup hal =
    reply
      (record {
        base = record hal.base {
          sensors = modify_all (AidlSensor.activate false) hal.base.sensors;
          read_wake_lock_queue_run = true;
          has_event_queue = true;
          has_event_queue_flag = setup.flag_set;
          has_callback = setup.callback_set;
        };
      })
      (if not setup.flag_created
        then from_exception ex_illegal_argument
        else if not setup.callback_set
        then from_exception ex_illegal_argument
        else if not setup.flag_set
        then from_exception ex_illegal_argument
        else ok)

-- A call of the framework, a round of a sensor's thread (the clock, the timestamp and the words of the
-- file that it reads), or a value read from the wake lock queue.
pub data Request (F : Type 0) : Type 0 where
  set_operation_mode : Bool → Request F
  activate : ℕ → Bool → Request F
  initialize_hal : Setup → Request F
  batch : ℕ → ℤ → ℤ → Request F
  flush : ℕ → Delivery → Request F
  inject_sensor_data : Event F → Request F
  register_direct_channel unregister_direct_channel config_direct_report : Request F
  sensor_round : ℕ → ℕ → ℕ → Option (List (Option F)) → Delivery → Request F
  wake_lock_read : ℕ → Answers → Request F

-- A handler that looks up its sensor first, with the status for a handle that no sensor has.
unfoldable pub with_sensor :
    {F : Type 0} → Status → ℕ → AidlHal → (Device.Sensor → Option (Reply F)) → Option (Reply F)
unfolding find
with_sensor unknown h hal k = elim (find h hal.base.sensors) [
  | none ↦ some (reply hal unknown)
  | some s ↦ k s
]

module _ (p : Setting) where
  abbrev pub F : Type 0
  F = p.fl.F

  -- Sensor::flush, with the events that it posts.
  unfoldable pub flush_sensor : Delivery → AidlHal → Device.Sensor → Option (Reply F)
  flush_sensor d hal s =
      let (status, posted) = AidlSensor.flush p.bits d.unset_timestamp s in
      elim posted [
        | [] ↦ some (reply hal status)
        | e ∷ es ↦
            post_events p.wake_lock_seconds d (AidlSensor.is_wake_up_sensor p.bits s) (e ∷ es)
              status hal
      ]

  -- A round of Sensor::run, for the sensor `h` in the state `s`.
  unfoldable pub round_of :
      ℕ → ℕ → ℕ → Option (List (Option F)) → Delivery → AidlHal → Device.Sensor → Option (Reply F)
  unfolding modify
  round_of h now timestamp file d hal s =
      let (s', posts, wait) = AidlSensor.run_round now s in
      let hal' = with_sensors (modify h (λ _. s') hal.base.sensors) hal in
      if posts
      then (elim (AidlSensor.read_events p.fl p.stof_mul (p.resolution s.info.sensor_type) timestamp
          file s') [
            | none ↦ none
            | some events ↦
                post_events p.wake_lock_seconds d (AidlSensor.is_wake_up_sensor p.bits s) events ok
                  hal'
          ])
      else some (reply hal' ok)

  unfoldable pub handle : Request F → AidlHal → Option (Reply F)
  unfolding with_sensor flush_sensor round_of post_events initialize modify operation_mode_from
  handle (set_operation_mode normal) hal =
      some (reply hal (operation_mode_from ok normal hal.base.sensors))
  handle (activate h enabled) hal = with_sensor (from_exception ex_illegal_argument) h hal λ _.
      some (reply (with_sensors (modify h (AidlSensor.activate enabled) hal.base.sensors) hal) ok)
  handle (initialize_hal setup) hal = some (initialize setup hal)
  handle (batch h period latency) hal =
      with_sensor (from_exception ex_illegal_argument) h hal λ _.
        some (reply (with_sensors (modify h (AidlSensor.batch period) hal.base.sensors) hal) ok)
  handle (flush h d) hal =
      with_sensor (from_exception ex_illegal_argument) h hal (flush_sensor d hal)
  handle (inject_sensor_data e) hal =
      with_sensor error_bad_value e.sensor_handle hal
        λ s. some (reply hal (AidlSensor.inject_event p.bits e s))
  handle register_direct_channel hal = some (reply hal (from_exception ex_unsupported_operation))
  handle unregister_direct_channel hal = some (reply hal (from_exception ex_unsupported_operation))
  handle config_direct_report hal = some (reply hal (from_exception ex_unsupported_operation))
  handle (sensor_round h now timestamp file d) hal =
      with_sensor (from_exception ex_illegal_argument) h hal (round_of h now timestamp file d hal)
  handle (wake_lock_read n a) hal =
      let (w, calls) = update_wake_lock p.wake_lock_seconds a 0 (n % 2 ^ 32) hal.base.wake_lock in
      if hal.base.read_wake_lock_queue_run
      then some (record { hal = with_wake_lock w hal; status = ok; events = []; power = calls })
      else some (reply hal ok)

  -- Steps in any order, with the events and the power calls of all of them.
  unfoldable pub run : List (Request F) → AidlHal → Option (Reply F)
  unfolding handle
  run [] hal = some (reply hal ok)
  run (q ∷ qs) hal = elim (handle q hal) [
    | none ↦ none
    | some first ↦ elim (run qs first.hal) [
      | none ↦ none
      | some rest ↦
          some (record rest {
            events = first.events ++ rest.events;
            power = first.power ++ rest.power;
          })
    ]
  ]
