-- ===== src/Batch/Tests.antt =====
-- Batch calls on the tables that the code starts with.
use smi240_android_hal.Prelude.{ℕ, ◌≡◌, refl, none, some, [], ◌∷◌, arith, length}
use smi240_android_hal.Prelude.Int.{pos}
use smi240_android_hal.Prelude.Float.{hundredths}
use smi240_android_hal.ConfigRef.{◌>>=◌}
use smi240_android_hal.ConfigRef.Activate.{banks_of}
use smi240_android_hal.Encode.{quotient_int64}
use smi240_android_hal.Batch.{
  Control, batch_configref_resort, bsx_sensor_config_nonwk, bsx_sensor_config_wk, configured,
}
use smi240_android_hal.Batch.Store.{stored, batch_configref_resort_lem}

-- The accelerometer (1) and the uncalibrated gyroscope (16) are active.
abbrev start : Control ℕ
start = record {
  refs = banks_of (1 ∷ 16 ∷ []) [];
  config_nonwk = bsx_sensor_config_nonwk hundredths;
  config_wk = bsx_sensor_config_wk hundredths;
}

table_lengths : (length start.config_nonwk ≡ 32) × (length start.config_wk ≡ 32)
unfolding bsx_sensor_config_nonwk bsx_sensor_config_wk
table_lengths = (refl, refl)

-- A period of 0, which `ap_batch` passes for on-change sensors, is divided by.
zero_period : batch_configref_resort hundredths 5 (pos 0) (pos 0) 0 start ≡ none
unfolding batch_configref_resort configured quotient_int64 bsx_sensor_config_nonwk
zero_period = refl

batch_configref_resort_lem_example :
    let c = configured hundredths (pos 5_000_000) (pos 0) 0 in
    batch_configref_resort hundredths 16 (pos 5_000_000) (pos 0) 0 start ≡ (
      stored hundredths 16 (1 ∷ 16 ∷ []) start.config_nonwk c >>= λ r.
      some (record start { config_nonwk = r.0 }, r.1))
batch_configref_resort_lem_example =
    batch_configref_resort_lem hundredths 16 (pos 5_000_000) (pos 0) 0 (1 ∷ 16 ∷ []) []
      start.config_nonwk start.config_wk (omega arith) table_lengths.0 table_lengths.1
