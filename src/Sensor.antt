-- ===== src/Sensor.antt =====
-- One sensor of the HAL 2.0 and 2.1: class `Sensor` of 2.X/Sensor.cpp (aidl/Sensor.cpp and
-- multihal/Sensor.cpp repeat it), with the settings that common/BoschSensors.h gives the SMI240
-- accelerometer and gyroscope. The clock is a parameter of each round of the run loop; times are
-- nanoseconds since boot, far below the limit of int64_t.
pub mod Period
pub mod Schedule
mod Tests
use smi240_android_hal.Prelude.{
  ℕ, zero, suc, ◌+◌, ◌-◌, ◌*◌, bit_and, Bool, true, false, not, ◌&&◌, ◌||◌, Option, none, some,
  List, [], ◌∷◌, ltb, leb, ◌==◌, if◌then◌else◌,
}
use smi240_android_hal.Prelude.Int.{ℤ, pos, negsuc, ltb_ℤ}
use smi240_android_hal.Prelude.Float.{Float}

pub data SensorType : Type 0 where
  accelerometer gyroscope meta_data additional_info : SensorType

-- The fields of SensorInfo that the operations read: the delays are in microseconds.
pub record SensorInfo : Type 0 where
  pub sensor_handle : ℕ
  pub sensor_type : SensorType
  pub min_delay : ℕ
  pub max_delay : ℕ
  pub flags : ℕ

-- The bits of SensorFlagBits, which the platform defines.
pub record FlagBits : Type 0 where
  pub wake_up : ℕ
  pub one_shot_mode : ℕ
  pub data_injection : ℕ

-- flags & bit, as a test.
unfoldable pub has_flag : SensorInfo → ℕ → Bool
has_flag info bit = not (bit_and info.flags bit == 0)

pub data SensorStatus : Type 0 where
  unreliable accuracy_high : SensorStatus

-- EventPayload: the members of the union that this code writes.
pub data Payload (F : Type 0) : Type 0 where
  vec3 : F → F → F → SensorStatus → Payload F
  flush_complete : Payload F

pub record Event (F : Type 0) : Type 0 where
  pub sensor_handle : ℕ
  pub sensor_type : SensorType
  pub timestamp : ℕ
  pub payload : Payload F

pub data Result : Type 0 where
  ok bad_value invalid_operation : Result

pub record Sensor : Type 0 where
  pub is_enabled : Bool
  pub sampling_period_ns : ℕ
  pub last_sample_time_ns : ℕ
  pub info : SensorInfo
  pub stop_thread : Bool

-- Smi240Accel and Smi240Gyro over Sensor::Sensor, which does not set mStopThread: what that holds is
-- the first argument.
unfoldable pub smi240_accel : Bool → ℕ → Sensor
smi240_accel unset_stop handle = record {
  is_enabled = false;
  sampling_period_ns = 0;
  last_sample_time_ns = 0;
  stop_thread = unset_stop;
  info = record {
    sensor_handle = handle;
    sensor_type = accelerometer;
    min_delay = 10000;
    max_delay = 200000;
    flags = 0;
  };
}

unfoldable pub smi240_gyro : Bool → ℕ → Sensor
smi240_gyro unset_stop handle = record {
  is_enabled = false;
  sampling_period_ns = 0;
  last_sample_time_ns = 0;
  stop_thread = unset_stop;
  info = record {
    sensor_handle = handle;
    sensor_type = gyroscope;
    min_delay = 10000;
    max_delay = 200000;
    flags = 0;
  };
}

-- A period that is not negative.
abbrev pub magnitude : ℤ → ℕ
magnitude (pos n) = n
magnitude (negsuc n) = 0

-- The period that Sensor::batch settles on.
unfoldable pub clamped : SensorInfo → ℤ → ℕ
clamped info requested =
    if ltb_ℤ requested (pos (info.min_delay * 1000))
    then info.min_delay * 1000
    else if ltb_ℤ (pos (info.max_delay * 1000)) requested
    then info.max_delay * 1000
    else magnitude requested

-- Sensor::batch; the second result says whether the run thread is woken.
unfoldable pub batch : ℤ → Sensor → Sensor × Bool
unfolding clamped
batch requested s =
    if s.sampling_period_ns == clamped s.info requested
    then (s, false)
    else (record s { sampling_period_ns = clamped s.info requested }, true)

-- Sensor::activate
unfoldable pub activate : Bool → Sensor → Sensor
activate true s = if s.is_enabled then s else record s { is_enabled = true }
activate false s = if s.is_enabled then record s { is_enabled = false } else s

-- Sensor::flush: the result, and the events that are posted. The code does not set their timestamp:
-- what that holds is the second argument.
unfoldable pub flush : {F : Type 0} → FlagBits → ℕ → Sensor → Result × List (Event F)
unfolding has_flag
flush bits unset s =
    if not s.is_enabled || has_flag s.info bits.one_shot_mode then (bad_value, []) else (
      ok,
      record {
        sensor_handle = s.info.sensor_handle;
        sensor_type = meta_data;
        timestamp = unset;
        payload = flush_complete;
      }
          ∷ [],
    )

unfoldable pub is_wake_up_sensor : FlagBits → Sensor → Bool
unfolding has_flag
is_wake_up_sensor bits s = has_flag s.info bits.wake_up

-- Sensor::setOperationMode, by whether the mode is NORMAL.
unfoldable pub set_operation_mode : Bool → Result
set_operation_mode normal = if normal then ok else bad_value

unfoldable pub supports_data_injection : FlagBits → Sensor → Bool
unfolding has_flag
supports_data_injection bits s = has_flag s.info bits.data_injection

unfoldable pub inject_event : {F : Type 0} → Event F → Sensor → Result
inject_event event s = invalid_operation

module _ (fl : Float) (resolution : fl.F) where
  open fl use {F, centi, mul}

  -- Sensor::fillPayload; the words of the file are given as `atof` reads them.
  unfoldable pub fill_payload : Payload F → List F → Payload F
  fill_payload payload (x ∷ y ∷ z ∷ rest) =
      vec3 (mul x resolution) (mul y resolution) (mul z resolution) accuracy_high
  fill_payload payload (x ∷ y ∷ []) = payload
  fill_payload payload (x ∷ []) = payload
  fill_payload payload [] = payload

  -- Sensor::readEventPayload; `none` stands for a file that cannot be read.
  unfoldable pub read_event_payload : Payload F → Option (List F) → Payload F
  unfolding fill_payload
  read_event_payload payload none = payload
  read_event_payload payload (some words) = fill_payload payload words

  -- Sensor::readEvents
  unfoldable pub read_events : ℕ → Option (List F) → Sensor → List (Event F)
  unfolding read_event_payload
  read_events timestamp file s =
      record {
        sensor_handle = s.info.sensor_handle;
        sensor_type = s.info.sensor_type;
        timestamp = timestamp;
        payload = read_event_payload (vec3 (centi 0) (centi 0) (centi 0) unreliable) file;
      }
      ∷ []

-- How one round of Sensor::run ends: the thread returns, waits to be woken, or waits so long.
pub data Wait : Type 0 where
  stopped until_woken : Wait
  for_ns : ℕ → Wait

-- mLastSampleTimeNs + mSamplingPeriodNs
abbrev pub next_sample_time : Sensor → ℕ
next_sample_time s = s.last_sample_time_ns + s.sampling_period_ns

-- One round of Sensor::run at time `now`: the sensor after it, whether it posts a sample, and the
-- wait. The difference in the wait is never negative.
unfoldable pub run_round : ℕ → Sensor → Sensor × Bool × Wait
run_round now s =
    if s.stop_thread
    then (s, false, stopped)
    else if not s.is_enabled
    then (s, false, until_woken)
    else if leb (next_sample_time s) now
    then (record s { last_sample_time_ns = now }, true, for_ns (now + s.sampling_period_ns - now))
    else (s, false, for_ns (next_sample_time s - now))
