-- ===== src/SubHal/Sensor.antt =====
-- One sensor of the multi-HAL sub-HAL: class `Sensor` of multihal/Sensor.cpp, over the records of
-- Sensor.antt.
use smi240_android_hal.Prelude.{
  ℕ, ◌+◌, ◌-◌, ◌*◌, Bool, true, false, not, ◌||◌, Option, none, some, List, [], ◌∷◌, leb,
  if◌then◌else◌,
}
use smi240_android_hal.Prelude.Int.{ℤ, pos, ltb_ℤ, eqb_ℤ}
use smi240_android_hal.Prelude.Float.{Float}
use smi240_android_hal.Sensor.{
  Sensor, meta_data, FlagBits, has_flag, Event, Payload, vec3, flush_complete, SensorStatus,
  accuracy_high, Result, ok, bad_value, invalid_operation, Wait, stopped, until_woken, for_ns,
  magnitude,
}

-- std::clamp, which asks for a lower bound that is not above the upper one, as it is for the delays
-- of both sensors.
unfoldable pub clamp : ℤ → ℤ → ℤ → ℤ
clamp v lo hi = if ltb_ℤ v lo then lo else if ltb_ℤ hi v then hi else v

-- Sensor::batch
unfoldable pub batch : ℤ → Sensor → Sensor
unfolding clamp
batch requested s =
    let period = clamp requested (pos (s.info.min_delay * 1000)) (pos (s.info.max_delay * 1000)) in
    if eqb_ℤ (pos s.sampling_period_ns) period
    then s
    else record s { sampling_period_ns = magnitude period }

abbrev differs : Bool → Bool → Bool
differs true b = not b
differs false b = b

-- Sensor::activate
unfoldable pub activate : Bool → Sensor → Sensor
activate enable s = if differs s.is_enabled enable then record s { is_enabled = enable } else s

-- Sensor::flush: the result, and the events that are posted; the code leaves their timestamp unset.
unfoldable pub flush : {F : Type 0} → FlagBits → ℕ → Sensor → Result × List (Event F)
unfolding has_flag
flush bits unset s =
    if not s.is_enabled || has_flag s.info bits.one_shot_mode then (bad_value, []) else (
      ok,
      record {
        sensor_handle = s.info.sensor_handle;
        sensor_type = meta_data;
        timestamp = unset;
        payload = flush_complete;
      }
          ∷ [],
    )

-- One round of Sensor::run at time `now`: the sensor after it, whether it posts, and the wait.
unfoldable pub run_round : ℕ → Sensor → Sensor × Bool × Wait
run_round now s =
    let next = s.last_sample_time_ns + s.sampling_period_ns in
    if s.stop_thread
    then (s, false, stopped)
    else if not s.is_enabled
    then (s, false, until_woken)
    else if leb next now
    then (record s { last_sample_time_ns = now }, true, for_ns (now + s.sampling_period_ns - now))
    else (s, false, for_ns (next - now))

unfoldable pub is_wake_up_sensor : FlagBits → Sensor → Bool
unfolding has_flag
is_wake_up_sensor bits s = has_flag s.info bits.wake_up

unfoldable pub supports_data_injection : FlagBits → Sensor → Bool
unfolding has_flag
supports_data_injection bits s = has_flag s.info bits.data_injection

-- Sensor::injectEvent
unfoldable pub inject_event : {F : Type 0} → Event F → Sensor → Result
inject_event event s = invalid_operation

module _ (fl : Float) (resolution : fl.F) where
  open fl use {F, centi, mul}

  -- Sensor::readEventPayload; `none` for a file that cannot be read, and the words as `atof` reads
  -- them.
  unfoldable pub read_event_payload : Payload F → Option (List F) → Payload F
  read_event_payload payload (some (x ∷ y ∷ z ∷ rest)) =
      vec3 (mul x resolution) (mul y resolution) (mul z resolution) accuracy_high
  read_event_payload payload (some (x ∷ y ∷ [])) = payload
  read_event_payload payload (some (x ∷ [])) = payload
  read_event_payload payload (some []) = payload
  read_event_payload payload none = payload

  -- Sensor::readEvents, which does not set the status of the payload: what it holds is an argument.
  unfoldable pub read_events : ℕ → SensorStatus → Option (List F) → Sensor → List (Event F)
  unfolding read_event_payload
  read_events timestamp unset file s =
      record {
        sensor_handle = s.info.sensor_handle;
        sensor_type = s.info.sensor_type;
        timestamp = timestamp;
        payload = read_event_payload (vec3 (centi 0) (centi 0) (centi 0) unset) file;
      }
      ∷ []
