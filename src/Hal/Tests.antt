-- ===== src/Hal/Tests.antt =====
-- The HAL at concrete requests, with the naturals for the floating-point type.
use smi240_android_hal.Prelude.{ℕ, ◌≡◌, refl, true, false, none, some, List, [], ◌∷◌, map, arith}
use smi240_android_hal.Prelude.Int.{pos}
use smi240_android_hal.Prelude.Float.{hundredths}
use smi240_android_hal.Sensor.{
  Sensor, smi240_accel, smi240_gyro, SensorType, ok, bad_value, has_flag, run_round,
}
use smi240_android_hal.Sensor as Sensor
use smi240_android_hal.Hal.{
  Setting, Request, Delivery, Setup, new_hal, run, activate, batch, flush, initialize, sensor_round,
  wake_lock_read,
}
use smi240_android_hal.Hal.Invariant.{IsGood}
use smi240_android_hal.Hal.Reach.{run-IsGood, new_hal-Inv}
use smi240_android_hal.Hal.Ready.{initialized_never_faults}
use smi240_android_hal.Hal.Quiet.{initialize_quiet, AllDisabled}

abbrev setting : Setting
setting = record {
  fl = hundredths;
  stof_mul = hundredths.mul;
  bits = record { wake_up = 1; one_shot_mode = 4; data_injection = 16 };
  wake_lock_seconds = 1;
  resolution = λ _. 2;
}

abbrev delivered : Delivery
delivered = record {
  writes = true;
  unset_timestamp = 7;
  answers = record { written_at = 5; checked_at = 5; acquire_works = true; release_works = true };
}

abbrev set_up : Setup
set_up = record { flag_created = true; flag_set = true; callback_set = true }

-- The accelerometer is set to 20 ms and enabled; it samples once, and is flushed.
abbrev session : List (Request ℕ)
session =
    initialize set_up
    ∷ batch 1 (pos 20_000_000) (pos 0)
    ∷ activate 1 true
    ∷ sensor_round 1 30_000_000 30_000_001 (some (3 ∷ 4 ∷ 5 ∷ [])) delivered
    ∷ sensor_round 1 40_000_000 40_000_001 (some (3 ∷ 4 ∷ 5 ∷ [])) delivered
    ∷ sensor_round 2 40_000_000 40_000_001 (some (3 ∷ 4 ∷ 5 ∷ [])) delivered
    ∷ flush 1 delivered
    ∷ wake_lock_read 1 delivered.answers
    ∷ []

session_events :
    map {B = ℕ × ℕ}
      (λ e. (e.sensor_handle, e.timestamp))
      (run setting session (new_hal false false)).events
    ≡ (1, 30_000_001) ∷ (1, 7) ∷ []
unfolding run new_hal run_round Sensor.activate Sensor.batch Sensor.is_wake_up_sensor
    Sensor.read_events Sensor.flush
session_events = refl

run-IsGood_example : IsGood (run setting session (new_hal false false))
run-IsGood_example =
    run-IsGood setting session (new_hal false false)
      (tt, (tt, (tt, (tt, (tt, (tt, (tt, (omega arith, tt)))))))) (new_hal-Inv false false)

initialize_quiet_example :
    let r =
      run setting
        (initialize set_up ∷ flush 1 delivered ∷ activate 2 false ∷ [])
        (run setting session (new_hal false false)).hal in
    (r.events ≡ []) × (r.faults ≡ false) × AllDisabled r.hal.sensors
initialize_quiet_example =
    initialize_quiet setting set_up (flush 1 delivered ∷ activate 2 false ∷ [])
      (run setting session (new_hal false false)).hal (tt, (refl, tt))

-- Without an initialization, the thread of a sensor that is activated uses a queue that is null.
uninitialized :
    (run setting
      (activate 1 true ∷ sensor_round 1 30_000_000 30_000_001 none delivered ∷ [])
      (new_hal false false)).faults
    ≡ true
unfolding run new_hal run_round Sensor.activate
uninitialized = refl

initialized_never_faults_example :
    (run setting
      (initialize set_up
        ∷ activate 1 true
        ∷ sensor_round 1 30_000_000 30_000_001 (some (3 ∷ 4 ∷ 5 ∷ [])) delivered
        ∷ [])
      (new_hal false false)).faults
    ≡ false
initialized_never_faults_example =
    initialized_never_faults setting set_up
      (activate 1 true
        ∷ sensor_round 1 30_000_000 30_000_001 (some (3 ∷ 4 ∷ 5 ∷ [])) delivered
        ∷ [])
      (new_hal false false) refl (tt, (tt, tt))
