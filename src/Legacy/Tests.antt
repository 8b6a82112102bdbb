-- ===== src/Legacy/Tests.antt =====
-- The control calls at concrete handles.
use smi240_android_hal.Prelude.{ℕ, ◌≡◌, refl, true, false, Option, some, [], ◌∷◌, arith}
use smi240_android_hal.Prelude.Int.{pos, negsuc}
use smi240_android_hal.Prelude.Float.{IsNumber, hundredths}
use smi240_android_hal.ConfigRef.{◌>>=◌, activate_configref_resort}
use smi240_android_hal.Encode.{
  encode_datarate, code_of_hz, convert_datarate_code, smi240_convert_odr, encode_max_latency,
  quotient_int64,
}
use smi240_android_hal.Batch.{batch_configref_resort, bsx_sensor_config_nonwk, configured}
use smi240_android_hal.SensorTable.{get_sensor_t, bosch_all_sensors}
use smi240_android_hal.SensorTable.Listed.{full_list}
use smi240_android_hal.Legacy.{Legacy, activate, batch, flush, run, start_with}
use smi240_android_hal.Legacy.Sends.{Inv}
use smi240_android_hal.Legacy.Runs.{run_never_faults, start_with-Inv}

literals : (k : ℕ) → IsNumber hundredths (hundredths.centi k)
literals k = record { le_lt = λ j. ground arith; lt_down = λ i j h e. ground arith }

abbrev interval : {F : Type 0} → Legacy F → Option ℕ
interval s = some s.sampling_interval

-- The accelerometer at a period of 5 ms is sampled every 5 ms.
session_interval :
    (run hundredths
        (activate 1 true ∷ batch 1 (pos 5_000_000) (pos 0) ∷ [])
        (start_with hundredths full_list)
      >>= interval)
    ≡ some 5000
unfolding run get_sensor_t activate_configref_resort batch_configref_resort configured
    encode_datarate code_of_hz convert_datarate_code smi240_convert_odr encode_max_latency
    quotient_int64 bsx_sensor_config_nonwk bosch_all_sensors
session_interval = refl

run_never_faults_example :
    (t : Legacy ℕ) × (run hundredths
        (activate 1 true
          ∷ batch 1 (negsuc 4) (pos 7)
          ∷ batch 16 (pos 0) (pos 0)
          ∷ activate 9 true
          ∷ flush 16
          ∷ activate 1 false
          ∷ [])
        (start_with hundredths full_list)
      ≡ some t)
    × Inv t
run_never_faults_example =
    run_never_faults hundredths literals
      (activate 1 true
        ∷ batch 1 (negsuc 4) (pos 7)
        ∷ batch 16 (pos 0) (pos 0)
        ∷ activate 9 true
        ∷ flush 16
        ∷ activate 1 false
        ∷ [])
      (start_with hundredths full_list) (start_with-Inv hundredths literals)
