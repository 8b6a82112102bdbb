-- ===== src/Aidl/Tests.antt =====
-- The AIDL HAL at concrete requests, with the naturals for the floating-point type, and a product of
-- floats that is exact up to 1000.
use smi240_android_hal.Prelude.{
  ℕ, ◌≡◌, refl, true, false, ltb, if◌then◌else◌, Option, none, some, List, [], ◌∷◌, map,
}
use smi240_android_hal.Prelude.Int.{pos}
use smi240_android_hal.Prelude.Float.{hundredths}
use smi240_android_hal.Sensor.{Event, vec3, unreliable, additional_info}
use smi240_android_hal.Sensor as Device
use smi240_android_hal.Hal.{
  Setting, Delivery, Setup, new_hal, initialize, batch, activate, flush, sensor_round, find,
  inject_sensor_data, wake_lock_read,
}
use smi240_android_hal.Hal as Hal
use smi240_android_hal.Aidl.{AidlHal, Reply, handle, run}
use smi240_android_hal.Aidl as Aidl
use smi240_android_hal.Aidl.Sensor.{ok}
use smi240_android_hal.Aidl.Sensor as AidlSensor
use smi240_android_hal.Aidl.Steps.{with_base}
use smi240_android_hal.Aidl.Replies.{as_aidl, SameEffect}
use smi240_android_hal.Aidl.Agrees.{run-agrees}

abbrev setting : Setting
setting = record {
  fl = hundredths;
  stof_mul = λ a b. if ltb 1000 a then 0 else hundredths.mul a b;
  bits = record { wake_up = 1; one_shot_mode = 4; data_injection = 16 };
  wake_lock_seconds = 1;
  resolution = λ _. 200;
}

abbrev delivered : Delivery
delivered = record {
  writes = true;
  unset_timestamp = 7;
  answers = record { written_at = 5; checked_at = 5; acquire_works = true; release_works = true };
}

abbrev session : List (Hal.Request ℕ)
session =
    initialize (record { flag_created = true; flag_set = true; callback_set = true })
    ∷ batch 1 (pos 20_000_000) (pos 0)
    ∷ activate 1 true
    ∷ sensor_round 1 30_000_000 30_000_001 (some (3 ∷ 4 ∷ 5 ∷ [])) delivered
    ∷ flush 1 delivered
    ∷ wake_lock_read 1 delivered.answers
    ∷ []

-- A word that is no number ends the process.
abbrev enabled_hal : AidlHal
enabled_hal = with_base (record (new_hal false false) {
  sensors = (1, record (Device.smi240_accel false 1) { is_enabled = true }) ∷ [];
})

word_throws :
    handle setting
      (Aidl.sensor_round 1 30_000_000 30_000_001 (some (some 3 ∷ none ∷ some 5 ∷ [])) delivered)
      enabled_hal
    ≡ none
unfolding handle find new_hal Device.smi240_accel AidlSensor.run_round AidlSensor.read_events
word_throws = refl

-- The AIDL HAL accepts an event with additional information, which the HAL 2.0 and 2.1 refuse.
abbrev information : Event ℕ
information = record {
  sensor_handle = 1;
  sensor_type = additional_info;
  timestamp = 0;
  payload = vec3 0 0 0 unreliable;
}

abbrev status_of : Option (Reply ℕ) → Option AidlSensor.Status
status_of none = none
status_of (some r) = some r.status

injection_accepted :
    status_of (handle setting (Aidl.inject_sensor_data information) enabled_hal) ≡ some ok
unfolding handle find new_hal Device.smi240_accel AidlSensor.inject_event
injection_accepted = refl

-- The HAL once it is initialized.
abbrev ready : Hal.Hal
ready = record (new_hal false false) { has_event_queue = true; has_event_queue_flag = true }

run-agrees_example :
    (r : Reply ℕ) × (run setting (map as_aidl session) (with_base ready) ≡ some r)
    × SameEffect r (Hal.run setting session ready)
run-agrees_example =
    run-agrees setting session ready
      (refl, (tt, (tt, (((λ ty. refl), (λ ty. refl), λ ty. refl), (tt, (tt, tt)))))) (refl, refl)
