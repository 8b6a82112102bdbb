-- ===== src/SubHal.antt =====
-- The multi-HAL sub-HAL: ISensorsSubHalBase of multihal/SensorsSubHal.cpp and
-- multihal/SensorsSubHal.h, over the sensors of SubHal/Sensor.antt. Each handler and each round of a
-- sensor's thread is one step; what they post goes to the callback of the HAL proxy. A step is `none`
-- where it would post through the callback before there is one.
pub mod Sensor
pub mod Mirrors
mod Tests
use smi240_android_hal.Prelude.{
  ℕ, ◌+◌, Bool, true, false, Option, none, some, List, [], ◌∷◌, ◌++◌, if◌then◌else◌,
}
use smi240_android_hal.Prelude.Int.{ℤ}
use smi240_android_hal.Sensor.{
  FlagBits, Event, SensorStatus, Result, ok, bad_value, invalid_operation, smi240_accel,
  smi240_gyro,
}
use smi240_android_hal.Sensor as Device
use smi240_android_hal.Hal.{SensorMap, Setting, find, insert, modify}
use Sensor as SubSensor

-- class ISensorsSubHalBase: mSensors, mNextHandle, and whether mCallback is set.
pub record SubHal : Type 0 where
  pub sensors : SensorMap
  pub next_handle : ℕ
  pub has_callback : Bool

-- ISensorsSubHalBase::AddSensor
unfoldable pub add_sensor : (ℕ → Device.Sensor) → SubHal → SubHal
unfolding insert
add_sensor make hal =
    let s = make hal.next_handle in
    record hal {
      sensors = insert s.info.sensor_handle s hal.sensors;
      next_handle = hal.next_handle + 1;
    }

-- ISensorsSubHalBase::ISensorsSubHalBase and SensorsSubHal::SensorsSubHal, with what mStopThread of the
-- two sensors holds.
unfoldable pub new_sub_hal : Bool → Bool → SubHal
unfolding add_sensor smi240_accel smi240_gyro
new_sub_hal accel_stop gyro_stop = add_sensor (smi240_gyro gyro_stop) (
    add_sensor (smi240_accel accel_stop)
      (record { sensors = []; next_handle = 1; has_callback = false }))

-- A call of the callback's postEvents: the events, and whether their wake lock is a real one.
pub record Post (F : Type 0) : Type 0 where
  pub events : List (Event F)
  pub wakelock : Bool

pub record Reply (F : Type 0) : Type 0 where
  pub hal : SubHal
  pub result : Result
  pub posts : List (Post F)

abbrev pub reply : {F : Type 0} → SubHal → Result → Reply F
reply hal r = record { hal = hal; result = r; posts = [] }

-- ISensorsSubHalBase::postEvents, in a step that answers `r`.
unfoldable pub post_events :
    {F : Type 0} → Bool → List (Event F) → Result → SubHal → Option (Reply F)
post_events wakeup events r hal =
    if hal.has_callback
    then some (record {
      hal = hal;
      result = r;
      posts = record { events = events; wakelock = wakeup } ∷ [];
    })
    else none

-- ISensorsSubHalBase::setOperationMode, by whether the mode is NORMAL.
unfoldable pub set_mode : Bool → Result
set_mode normal = if normal then ok else bad_value

-- A call of the HAL proxy, the callback of `initialize` set or not, with `flush` what the timestamp of
-- its event holds, or a round of a sensor's thread: the clock, the timestamp, the words of the file, and
-- what the status of the payload holds.
pub data Request (F : Type 0) : Type 0 where
  set_operation_mode : Bool → Request F
  activate : ℕ → Bool → Request F
  initialize : Bool → Request F
  batch : ℕ → ℤ → ℤ → Request F
  flush : ℕ → ℕ → Request F
  inject_sensor_data : Event F → Request F
  register_direct_channel unregister_direct_channel config_direct_report : Request F
  sensor_round : ℕ → ℕ → ℕ → Option (List F) → SensorStatus → Request F

-- A handler that looks up its sensor first.
unfoldable pub with_sensor :
    {F : Type 0} → ℕ → SubHal → (Device.Sensor → Option (Reply F)) → Option (Reply F)
unfolding find
with_sensor h hal k = elim (find h hal.sensors) [ none ↦ some (reply hal bad_value) | some s ↦ k s ]

module _ (p : Setting) where
  abbrev pub F : Type 0
  F = p.fl.F

  -- Sensor::flush, with the events that it posts.
  unfoldable pub flush_sensor : ℕ → SubHal → Device.Sensor → Option (Reply F)
  unfolding post_events
  flush_sensor unset hal s =
      let (r, posted) = SubSensor.flush p.bits unset s in
      elim posted [
        | [] ↦ some (reply hal r)
        | e ∷ es ↦ post_events (SubSensor.is_wake_up_sensor p.bits s) (e ∷ es) r hal
      ]

  -- A round of Sensor::run, for the sensor `h` in the state `s`.
  unfoldable pub round_of :
      ℕ → ℕ → ℕ → Option (List F) → SensorStatus → SubHal → Device.Sensor → Option (Reply F)
  unfolding modify post_events
  round_of h now timestamp file unset hal s =
      let (s', posts, wait) = SubSensor.run_round now s in
      let hal' = record hal { sensors = modify h (λ _. s') hal.sensors } in
      if posts
      then post_events (SubSensor.is_wake_up_sensor p.bits s)
          (SubSensor.read_events p.fl (p.resolution s.info.sensor_type) timestamp unset file s') ok
          hal'
      else some (reply hal' ok)

  unfoldable pub handle : Request F → SubHal → Option (Reply F)
  unfolding with_sensor flush_sensor round_of modify set_mode
  handle (set_operation_mode normal) hal = some (reply hal (set_mode normal))
  handle (activate h enabled) hal = with_sensor h hal λ _.
      some (reply (record hal { sensors = modify h (SubSensor.activate enabled) hal.sensors }) ok)
  handle (initialize callback) hal = some (reply (record hal { has_callback = callback }) ok)
  handle (batch h period latency) hal =
      with_sensor h hal λ _.
        some (reply (record hal { sensors = modify h (SubSensor.batch period) hal.sensors }) ok)
  handle (flush h unset) hal = with_sensor h hal (flush_sensor unset hal)
  handle (inject_sensor_data e) hal =
      with_sensor e.sensor_handle hal λ s. some (reply hal (SubSensor.inject_event e s))
  handle register_direct_channel hal = some (reply hal invalid_operation)
  handle unregister_direct_channel hal = some (reply hal invalid_operation)
  handle config_direct_report hal = some (reply hal invalid_operation)
  handle (sensor_round h now timestamp file unset) hal =
      with_sensor h hal (round_of h now timestamp file unset hal)

  -- Steps in any order, with the posts of all of them.
  unfoldable pub run : List (Request F) → SubHal → Option (Reply F)
  unfolding handle
  run [] hal = some (reply hal ok)
  run (q ∷ qs) hal = elim (handle q hal) [
    | none ↦ none
    | some first ↦ elim (run qs first.hal) [
      | none ↦ none
      | some rest ↦ some (record rest { posts = first.posts ++ rest.posts })
    ]
  ]
