-- ===== src/Aidl/Sensor.antt =====
-- One sensor of the AIDL HAL: class `Sensor` of aidl/Sensor.cpp, over the records of Sensor.antt.
-- `none` stands for an exception that nothing catches, which ends the process: std::stof throws on a
-- word that is no number.
use smi240_android_hal.Prelude.{
  ℕ, ◌+◌, ◌-◌, ◌*◌, Bool, true, false, not, ◌||◌, Option, none, some, List, [], ◌∷◌, leb,
  if◌then◌else◌,
}
use smi240_android_hal.Prelude.Int.{ℤ, pos, ltb_ℤ, eqb_ℤ}
use smi240_android_hal.Prelude.Float.{Float}
use smi240_android_hal.Sensor.{
  Sensor, SensorInfo, SensorType, meta_data, additional_info, FlagBits, has_flag, Event, Payload,
  vec3, flush_complete, unreliable, accuracy_high, Wait, stopped, until_woken, for_ns, magnitude,
}

pub data Exception : Type 0 where
  ex_illegal_argument ex_unsupported_operation : Exception

-- ::ndk::ScopedAStatus, and the service specific error ERROR_BAD_VALUE.
pub data Status : Type 0 where
  ok error_bad_value : Status
  from_exception : Exception → Status

-- The period that Sensor::batch settles on, an int64_t.
unfoldable pub period_of : SensorInfo → ℤ → ℤ
period_of info requested =
    if ltb_ℤ requested (pos (info.min_delay * 1000))
    then pos (info.min_delay * 1000)
    else if ltb_ℤ (pos (info.max_delay * 1000)) requested
    then pos (info.max_delay * 1000)
    else requested

-- Sensor::batch
unfoldable pub batch : ℤ → Sensor → Sensor
unfolding period_of
batch requested s =
    if eqb_ℤ (pos s.sampling_period_ns) (period_of s.info requested)
    then s
    else record s { sampling_period_ns = magnitude (period_of s.info requested) }

abbrev differs : Bool → Bool → Bool
differs true b = not b
differs false b = b

-- Sensor::activate
unfoldable pub activate : Bool → Sensor → Sensor
activate enable s = if differs s.is_enabled enable then record s { is_enabled = enable } else s

-- Sensor::flush: the status, and the events that are posted. The code does not set their timestamp:
-- what that holds is the second argument.
unfoldable pub flush : {F : Type 0} → FlagBits → ℕ → Sensor → Status × List (Event F)
unfolding has_flag
flush bits unset s =
    if not s.is_enabled || has_flag s.info bits.one_shot_mode then (error_bad_value, []) else (
      ok,
      record {
        sensor_handle = s.info.sensor_handle;
        sensor_type = meta_data;
        timestamp = unset;
        payload = flush_complete;
      }
          ∷ [],
    )

-- One round of Sensor::run at time `now`: the sensor after it, whether it posts, and the wait.
unfoldable pub run_round : ℕ → Sensor → Sensor × Bool × Wait
run_round now s =
    let next = s.last_sample_time_ns + s.sampling_period_ns in
    if s.stop_thread
    then (s, false, stopped)
    else if not s.is_enabled
    then (s, false, until_woken)
    else if leb next now
    then (record s { last_sample_time_ns = now }, true, for_ns (now + s.sampling_period_ns - now))
    else (s, false, for_ns (next - now))

unfoldable pub is_wake_up_sensor : FlagBits → Sensor → Bool
unfolding has_flag
is_wake_up_sensor bits s = has_flag s.info bits.wake_up

-- Sensor::setOperationMode, by whether the mode is NORMAL.
unfoldable pub set_operation_mode : Bool → Status
set_operation_mode normal = if normal then ok else from_exception ex_illegal_argument

unfoldable pub supports_data_injection : FlagBits → Sensor → Bool
unfolding has_flag
supports_data_injection bits s = has_flag s.info bits.data_injection

abbrev is_additional_info : SensorType → Bool
is_additional_info additional_info = true
is_additional_info _ = false

-- Sensor::injectEvent
unfoldable pub inject_event : {F : Type 0} → FlagBits → Event F → Sensor → Status
unfolding supports_data_injection
inject_event bits event s =
    if is_additional_info event.sensor_type
    then ok
    else if not (supports_data_injection bits s)
    then from_exception ex_unsupported_operation
    else error_bad_value

module _ (fl : Float) (stof_mul : fl.F → fl.F → fl.F) (resolution : fl.F) where
  open fl use {F, centi}

  -- Sensor::fillPayload; each word is given as std::stof reads it, `none` where it throws. `stof_mul` is
  -- the product of two floats, which is not that of 2.X/Sensor.cpp, where the double that atof gives is
  -- multiplied and the product rounded.
  unfoldable pub fill_payload : Payload F → List (Option F) → Option (Payload F)
  fill_payload payload (some x ∷ some y ∷ some z ∷ rest) =
      some
        (vec3 (stof_mul x resolution) (stof_mul y resolution) (stof_mul z resolution) accuracy_high)
  fill_payload payload (none ∷ y ∷ z ∷ rest) = none
  fill_payload payload (some x ∷ none ∷ z ∷ rest) = none
  fill_payload payload (some x ∷ some y ∷ none ∷ rest) = none
  fill_payload payload (x ∷ y ∷ []) = some payload
  fill_payload payload (x ∷ []) = some payload
  fill_payload payload [] = some payload

  -- Sensor::readEventPayload; `none` for a file that cannot be read.
  unfoldable pub read_event_payload : Payload F → Option (List (Option F)) → Option (Payload F)
  unfolding fill_payload
  read_event_payload payload none = some payload
  read_event_payload payload (some words) = fill_payload payload words

  -- Sensor::readEvents
  unfoldable pub read_events : ℕ → Option (List (Option F)) → Sensor → Option (List (Event F))
  unfolding read_event_payload
  read_events timestamp file s =
      elim (read_event_payload (vec3 (centi 0) (centi 0) (centi 0) unreliable) file) [
        | none ↦ none
        | some payload ↦ some (
            record {
              sensor_handle = s.info.sensor_handle;
              sensor_type = s.info.sensor_type;
              timestamp = timestamp;
              payload = payload;
            }
            ∷ [])
      ]
