-- ===== src/SubHal/Mirrors.antt =====
-- The sub-HAL does to its sensors, and posts, what the HAL 2.0 and 2.1 does.
use smi240_android_hal.Prelude.{ℕ, ◌≡◌, Bool, true, false, Option, some, List, [], ◌∷◌, ◌++◌}
use smi240_android_hal.WakeLock.{Answers}
use smi240_android_hal.Sensor.{Sensor, Event}
use smi240_android_hal.Sensor as Device
use smi240_android_hal.Hal.{Hal, Delivery}
use smi240_android_hal.Hal as Hal
use smi240_android_hal.Hal.Invariant.{IsReady}
use smi240_android_hal.SubHal.{
  SubHal, Post, Request, Reply, F, set_operation_mode, activate, initialize, batch, flush,
  inject_sensor_data, register_direct_channel, unregister_direct_channel, config_direct_report,
  sensor_round,
}
use smi240_android_hal.SubHal.Sensor as SubSensor

-- The event queue takes every write; a flush event's timestamp holds `unset`.
abbrev pub writing : ℕ → Answers → Delivery
writing unset a = record { writes = true; unset_timestamp = unset; answers = a }

-- The same request, with the same in the timestamp that `flush` does not set; there, to get a callback
-- again changes nothing but the mode.
abbrev pub as_hal : {F : Type 0} → Answers → Request F → Hal.Request F
as_hal a (set_operation_mode n) = Hal.set_operation_mode n
as_hal a (activate h e) = Hal.activate h e
as_hal a (initialize c) = Hal.set_operation_mode true
as_hal a (batch h p l) = Hal.batch h p l
as_hal a (flush h unset) = Hal.flush h (writing unset a)
as_hal a (inject_sensor_data e) = Hal.inject_sensor_data e
as_hal a register_direct_channel = Hal.register_direct_channel
as_hal a unregister_direct_channel = Hal.unregister_direct_channel
as_hal a config_direct_report = Hal.config_direct_report
as_hal a (sensor_round h now t file unset) = Hal.sensor_round h now t file (writing 0 a)

-- A file with three words at least.
abbrev pub has_sample : {F : Type 0} → Option (List F) → Bool
has_sample (some (x ∷ y ∷ z ∷ ws)) = true
has_sample _ = false

-- The callback of `initialize` is set, and a file that is read holds a sample.
abbrev pub is_common : {F : Type 0} → Request F → Bool
is_common (initialize c) = c
is_common (sensor_round h now t file unset) = has_sample file
is_common _ = true

-- The sub-HAL with the sensors of the HAL and a callback.
abbrev pub with_callback : ℕ → Hal → SubHal
with_callback n hal = record { sensors = hal.sensors; next_handle = n; has_callback = true }

abbrev pub events_of : {F : Type 0} → List (Post F) → List (Event F)
events_of [] = []
events_of (x ∷ xs) = x.events ++ events_of xs

-- Two steps that end, with the same sensors and events.
abbrev pub Mirrors : {F : Type 0} → ℕ → Option (Reply F) → Hal.Reply F → Type 0
Mirrors {F} n o r' =
    (r : Reply F) × (o ≡ some r)
    × (r.hal ≡ with_callback n r'.hal)
    × (events_of r.posts ≡ r'.events)
    × (r'.faults ≡ false)
    × IsReady r'.hal

abbrev pub AllCommon : {F : Type 0} → List (Request F) → Type 0
AllCommon [] = Unit {0}
AllCommon (q ∷ qs) = (is_common q ≡ true) × AllCommon qs
