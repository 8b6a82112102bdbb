-- ===== src/Hal.antt =====
-- The HAL 2.0 and 2.1 as the framework sees it: class `Sensors` of 2.X/Sensors.h (the AIDL HAL's
-- SensorsHalAidl.cpp has the same handlers), over the sensors of Sensor.antt and the wake lock of
-- WakeLock.antt. Each handler, each round of a sensor's thread and each read of the wake lock queue
-- is one step. The message queues are the platform's: whether a write succeeds is an argument, and
-- what is written is the step's output. A step faults where postEvents uses a queue or a flag that is
-- null.
pub mod Handlers
pub mod Invariant
pub mod Reach
pub mod Quiet
pub mod Ready
mod Tests
use smi240_android_hal.Prelude.{
  ℕ, zero, suc, ◌+◌, ◌%◌, ◌^◌, Bool, true, false, not, ◌&&◌, ◌||◌, Option, none, some, List, [],
  ◌∷◌, ◌++◌, ltb, ◌==◌, if◌then◌else◌, length,
}
use smi240_android_hal.Prelude.Int.{ℤ}
use smi240_android_hal.Prelude.Float.{Float}
use smi240_android_hal.WakeLock.{WakeLock, Answers, PowerCall, update_wake_lock}
use smi240_android_hal.WakeLock as WakeLock
use smi240_android_hal.Sensor.{
  Sensor, SensorType, FlagBits, Event, Result, ok, bad_value, invalid_operation, smi240_accel,
  smi240_gyro, is_wake_up_sensor, inject_event, read_events, run_round,
}
use smi240_android_hal.Sensor as Sensor

-- The floating-point type, the flag bits and the wake lock's timeout, which the platform defines,
-- the product of two floats as the AIDL HAL takes it, and the resolution of each sensor.
pub record Setting : Type 1 where
  pub fl : Float
  pub stof_mul : fl.F → fl.F → fl.F
  pub bits : FlagBits
  pub wake_lock_seconds : ℕ
  pub resolution : SensorType → fl.F

-- std::map<int32_t, std::shared_ptr<Sensor>>, in the order of the handles.
abbrev pub SensorMap : Type 0
SensorMap = List (ℕ × Sensor)

unfoldable pub find : ℕ → SensorMap → Option Sensor
find h [] = none
find h ((k, s) ∷ m) = if k == h then some s else find h m

-- mSensors[h] = s
unfoldable pub insert : ℕ → Sensor → SensorMap → SensorMap
insert h s [] = (h, s) ∷ []
insert h s ((k, t) ∷ m) =
    let rest = insert h s m in
    if ltb k h then (k, t) ∷ rest else if k == h then (h, s) ∷ m else (h, s) ∷ (k, t) ∷ m

-- What is changed through the shared pointer that `find` gives.
unfoldable pub modify : ℕ → (Sensor → Sensor) → SensorMap → SensorMap
modify h f [] = []
modify h f ((k, s) ∷ m) = let rest = modify h f m in if k == h then (k, f s) ∷ m else (k, s) ∷ rest

-- for (auto sensor : mSensors)
unfoldable pub modify_all : (Sensor → Sensor) → SensorMap → SensorMap
modify_all f [] = []
modify_all f ((k, s) ∷ m) = (k, f s) ∷ modify_all f m

-- class Sensors; of the pointers, whether they are set.
pub record Hal : Type 0 where
  pub sensors : SensorMap
  pub next_handle : ℕ
  pub wake_lock : WakeLock
  pub read_wake_lock_queue_run : Bool
  pub has_event_queue : Bool
  pub has_event_queue_flag : Bool
  pub has_callback : Bool

-- Sensors::AddSensor
pub add_sensor : (ℕ → Sensor) → Hal → Hal
unfolding insert
add_sensor make hal =
    let s = make hal.next_handle in
    record hal {
      sensors = insert s.info.sensor_handle s hal.sensors;
      next_handle = hal.next_handle + 1;
    }

-- Sensors::Sensors, with what mStopThread of the two sensors holds.
unfoldable pub new_hal : Bool → Bool → Hal
unfolding add_sensor smi240_accel smi240_gyro WakeLock.initial
new_hal accel_stop gyro_stop = add_sensor (smi240_gyro gyro_stop) (
    add_sensor (smi240_accel accel_stop) (record {
      sensors = [];
      next_handle = 1;
      wake_lock = WakeLock.initial;
      read_wake_lock_queue_run = false;
      has_event_queue = false;
      has_event_queue_flag = false;
      has_callback = false;
    }))

-- What a step gives: the state, the result of the call (`ok` for a step of a thread), the events
-- written to the event queue, the power calls, and whether it ends by using a pointer that is null.
pub record Reply (F : Type 0) : Type 0 where
  pub hal : Hal
  pub result : Result
  pub events : List (Event F)
  pub power : List PowerCall
  pub faults : Bool

abbrev pub reply : {F : Type 0} → Hal → Result → Reply F
reply hal r = record { hal = hal; result = r; events = []; power = []; faults = false }

-- Whether the event queue takes the write, what the timestamp of a flush event holds, which the code
-- does not set, and what the platform answers to updateWakeLock.
pub record Delivery : Type 0 where
  pub writes : Bool
  pub unset_timestamp : ℕ
  pub answers : Answers

-- Sensors::postEvents, which uses mEventQueue and, behind a write, mEventQueueFlag without a test.
unfoldable pub post_events :
    {F : Type 0} → ℕ → Delivery → Bool → List (Event F) → Result → Hal → Reply F
post_events seconds d wakeup events r hal =
    let (w, calls) = update_wake_lock seconds d.answers (length events % 2 ^ 32) 0 hal.wake_lock in
    if not hal.has_event_queue
    then record (reply hal r) { faults = true }
    else if not d.writes
    then reply hal r
    else if not hal.has_event_queue_flag
    then record (reply hal r) { events = events; faults = true }
    else if wakeup
    then record (reply (record hal { wake_lock = w }) r) { events = events; power = calls }
    else record (reply hal r) { events = events }

-- Sensors::setOperationMode: the answer of the last sensor.
unfoldable pub operation_mode_from : Result → Bool → SensorMap → Result
operation_mode_from res normal [] = res
operation_mode_from res normal ((k, s) ∷ m) =
    operation_mode_from (Sensor.set_operation_mode normal) normal m

-- What createEventFlag and the caller of initialize give.
pub record Setup : Type 0 where
  pub flag_created : Bool
  pub flag_set : Bool
  pub callback_set : Bool

-- Sensors::initializeBase; its two queues come from make_unique and are never null.
unfoldable pub initialize_base : {F : Type 0} → Setup → Hal → Reply F
unfolding modify_all
initialize_base setup hal =
    reply
      (record hal {
        sensors = modify_all (Sensor.activate false) hal.sensors;
        read_wake_lock_queue_run = true;
        has_event_queue = true;
        has_event_queue_flag = setup.flag_set;
        has_callback = setup.callback_set;
      })
      (if setup.flag_created && (setup.callback_set && setup.flag_set) then ok else bad_value)

-- A call of the framework, a round of a sensor's thread (the clock, the timestamp and the file that
-- it reads), or a value read from the wake lock queue.
pub data Request (F : Type 0) : Type 0 where
  set_operation_mode : Bool → Request F
  activate : ℕ → Bool → Request F
  initialize : Setup → Request F
  batch : ℕ → ℤ → ℤ → Request F
  flush : ℕ → Delivery → Request F
  inject_sensor_data : Event F → Request F
  register_direct_channel unregister_direct_channel config_direct_report : Request F
  sensor_round : ℕ → ℕ → ℕ → Option (List F) → Delivery → Request F
  wake_lock_read : ℕ → Answers → Request F

-- A handler that looks up its sensor first.
unfoldable pub with_sensor : {F : Type 0} → ℕ → Hal → (Sensor → Reply F) → Reply F
unfolding find
with_sensor h hal k = elim (find h hal.sensors) [ none ↦ reply hal bad_value | some s ↦ k s ]

module _ (p : Setting) where
  abbrev pub F : Type 0
  F = p.fl.F

  -- Sensor::flush, with the events that it posts.
  unfoldable pub flush_sensor : Delivery → Hal → Sensor → Reply F
  flush_sensor d hal s =
      let (r, posted) = Sensor.flush p.bits d.unset_timestamp s in
      elim posted [
        | [] ↦ reply hal r
        | e ∷ es ↦ post_events p.wake_lock_seconds d (is_wake_up_sensor p.bits s) (e ∷ es) r hal
      ]

  -- A round of Sensor::run, for the sensor `h` in the state `s`.
  unfoldable pub round_of : ℕ → ℕ → ℕ → Option (List F) → Delivery → Hal → Sensor → Reply F
  unfolding modify
  round_of h now timestamp file d hal s =
      let (s', posts, wait) = run_round now s in
      let hal' = record hal { sensors = modify h (λ _. s') hal.sensors } in
      if posts
      then post_events p.wake_lock_seconds d (is_wake_up_sensor p.bits s)
          (read_events p.fl (p.resolution s.info.sensor_type) timestamp file s') ok hal'
      else reply hal' ok

  unfoldable pub handle : Request F → Hal → Reply F
  unfolding with_sensor flush_sensor round_of post_events initialize_base modify operation_mode_from
  handle (set_operation_mode normal) hal = reply hal (operation_mode_from ok normal hal.sensors)
  handle (activate h enabled) hal =
      with_sensor h hal
        λ _. reply (record hal { sensors = modify h (Sensor.activate enabled) hal.sensors }) ok
  handle (initialize setup) hal = initialize_base setup hal
  handle (batch h period latency) hal =
      with_sensor h hal λ _.
        reply (record hal { sensors = modify h (λ s. (Sensor.batch period s).0) hal.sensors }) ok
  handle (flush h d) hal = with_sensor h hal (flush_sensor d hal)
  handle (inject_sensor_data e) hal =
      with_sensor e.sensor_handle hal λ s. reply hal (inject_event e s)
  handle register_direct_channel hal = reply hal invalid_operation
  handle unregister_direct_channel hal = reply hal invalid_operation
  handle config_direct_report hal = reply hal invalid_operation
  handle (sensor_round h now timestamp file d) hal =
      with_sensor h hal (round_of h now timestamp file d hal)
  handle (wake_lock_read n a) hal =
      let (w, calls) = update_wake_lock p.wake_lock_seconds a 0 (n % 2 ^ 32) hal.wake_lock in
      if hal.read_wake_lock_queue_run
      then record (reply (record hal { wake_lock = w }) ok) { power = calls }
      else reply hal ok

  -- Steps in any order, with the events and the power calls of all of them, up to one that faults.
  unfoldable pub run : List (Request F) → Hal → Reply F
  unfolding handle
  run [] hal = reply hal ok
  run (q ∷ qs) hal =
      let first = handle q hal in
      let rest = run qs first.hal in
      if first.faults
      then first
      else record rest { events = first.events ++ rest.events; power = first.power ++ rest.power }
