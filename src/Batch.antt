-- ===== src/Batch.antt =====
-- The configurations of the sensors in the legacy HAL: the tables `BSX_sensor_config_nonwk` and
-- `BSX_sensor_config_wk` and `batch_configref_resort` of legacy/sensord/sensord_hwcntl.cpp. An
-- operation is `none` where the code would leave an array, follow a NULL reference or divide by 0.
pub mod Store
mod Tests
use smi240_android_hal.Prelude.{
  ℕ, zero, suc, ◌+◌, ◌-◌, ◌*◌, Bool, true, false, Option, none, some, List, [], ◌∷◌, leb, ◌==◌,
  if◌then◌else◌, get_elem?, set,
}
use smi240_android_hal.Prelude.Int.{ℤ, pos}
use smi240_android_hal.Prelude.Float.{Float}
use smi240_android_hal.Encode.{
  encode_datarate, encode_max_latency, quotient_int64, u16, confstr_50hz, confstr_6_25hz,
  confstr_1hz, confstr_unit_ms,
}
use smi240_android_hal.ConfigRef.{
  Bank, Banks, ◌>>=◌, sensorlist_inx_ambient_iaq, sensorlist_inx_wakeup_signi_pressure,
}

-- BSX_SENSOR_CONFIG
pub record SensorConfig (F : Type 0) : Type 0 where
  pub data_rate : ℕ
  pub latency_unit : ℕ
  pub max_latency : ℕ
  pub fifo_data_len : ℕ
  pub delay_onchange_hz : F

-- The two tables, and the arrays of references into them.
pub record Control (F : Type 0) : Type 0 where
  pub refs : Banks
  pub config_nonwk : List (SensorConfig F)
  pub config_wk : List (SensorConfig F)

-- The for loop over the active references from slot `i` on: whether one of them is `rel`.
unfoldable pub find_ref : ℕ → ℕ → ℕ → List (Option ℕ) → Option Bool
find_ref zero i rel refs = some false
find_ref (suc rounds) i rel refs = elim (get_elem? refs i) [
  | none ↦ none
  | some slot ↦ elim slot [
    | none ↦ none
    | some current ↦ elim (current == rel) [
      | true ↦ some true
      | false ↦ find_ref rounds (i + 1) rel refs
    ]
  ]
]

module _ (fl : Float) where
  open fl use {F, centi}

  -- DEFAULT_SENSOR_CONFIG
  abbrev default_sensor_config : ℕ → ℕ → ℕ → ℕ → ℕ → SensorConfig F
  default_sensor_config odr unit latency len delay = record {
    data_rate = odr;
    latency_unit = unit;
    max_latency = latency;
    fifo_data_len = len;
    delay_onchange_hz = centi (delay * 100);
  }

  unfoldable pub bsx_sensor_config_nonwk : List (SensorConfig F)
  bsx_sensor_config_nonwk =
      default_sensor_config 0 0 0 4 0
      ∷ default_sensor_config confstr_50hz confstr_unit_ms 200 7 0
      ∷ default_sensor_config confstr_50hz confstr_unit_ms 200 7 0
      ∷ default_sensor_config confstr_50hz confstr_unit_ms 200 7 0
      ∷ default_sensor_config confstr_50hz confstr_unit_ms 200 7 0
      ∷ default_sensor_config confstr_50hz confstr_unit_ms 200 2 5
      ∷ default_sensor_config confstr_6_25hz confstr_unit_ms 200 3 0
      ∷ default_sensor_config confstr_1hz confstr_unit_ms 200 2 5
      ∷ default_sensor_config confstr_50hz confstr_unit_ms 200 2 0
      ∷ default_sensor_config confstr_50hz confstr_unit_ms 200 7 0
      ∷ default_sensor_config confstr_50hz confstr_unit_ms 200 7 0
      ∷ default_sensor_config confstr_50hz confstr_unit_ms 200 9 0
      ∷ default_sensor_config confstr_1hz confstr_unit_ms 200 2 5
      ∷ default_sensor_config confstr_1hz confstr_unit_ms 200 2 5
      ∷ default_sensor_config confstr_50hz confstr_unit_ms 200 6 0
      ∷ default_sensor_config confstr_50hz confstr_unit_ms 200 8 0
      ∷ default_sensor_config confstr_50hz confstr_unit_ms 200 6 0
      ∷ default_sensor_config 0 0 0 0 0
      ∷ default_sensor_config 0 0 0 0 0
      ∷ default_sensor_config confstr_50hz confstr_unit_ms 200 4 5
      ∷ default_sensor_config confstr_50hz confstr_unit_ms 200 9 0
      ∷ default_sensor_config confstr_50hz confstr_unit_ms 200 1 5
      ∷ default_sensor_config 0 0 0 0 0
      ∷ default_sensor_config 0 0 0 0 0
      ∷ default_sensor_config 0 0 0 0 0
      ∷ default_sensor_config 0 0 0 0 0
      ∷ default_sensor_config 0 0 0 6 0
      ∷ default_sensor_config 0 0 0 6 0
      ∷ default_sensor_config 0 0 0 3 0
      ∷ default_sensor_config confstr_1hz confstr_unit_ms 0 2 5
      ∷ default_sensor_config confstr_1hz confstr_unit_ms 0 2 5
      ∷ default_sensor_config confstr_1hz confstr_unit_ms 0 2 5
      ∷ []

  unfoldable pub bsx_sensor_config_wk : List (SensorConfig F)
  bsx_sensor_config_wk =
      default_sensor_config 0 0 0 0 0
      ∷ default_sensor_config confstr_50hz confstr_unit_ms 200 7 0
      ∷ default_sensor_config confstr_50hz confstr_unit_ms 200 7 0
      ∷ default_sensor_config confstr_50hz confstr_unit_ms 200 7 0
      ∷ default_sensor_config confstr_50hz confstr_unit_ms 200 7 0
      ∷ default_sensor_config confstr_50hz confstr_unit_ms 200 2 5
      ∷ default_sensor_config confstr_50hz confstr_unit_ms 200 3 0
      ∷ default_sensor_config confstr_1hz confstr_unit_ms 200 2 5
      ∷ default_sensor_config confstr_1hz confstr_unit_ms 200 2 5
      ∷ default_sensor_config confstr_50hz confstr_unit_ms 200 7 0
      ∷ default_sensor_config confstr_50hz confstr_unit_ms 200 7 0
      ∷ default_sensor_config confstr_50hz confstr_unit_ms 200 9 0
      ∷ default_sensor_config confstr_1hz confstr_unit_ms 200 2 5
      ∷ default_sensor_config confstr_1hz confstr_unit_ms 200 2 5
      ∷ default_sensor_config confstr_50hz confstr_unit_ms 200 6 0
      ∷ default_sensor_config confstr_50hz confstr_unit_ms 200 8 0
      ∷ default_sensor_config confstr_50hz confstr_unit_ms 200 6 0
      ∷ default_sensor_config 0 0 0 0 0
      ∷ default_sensor_config 0 0 0 0 0
      ∷ default_sensor_config confstr_50hz confstr_unit_ms 200 4 5
      ∷ default_sensor_config confstr_50hz confstr_unit_ms 200 9 0
      ∷ default_sensor_config confstr_50hz confstr_unit_ms 200 1 5
      ∷ default_sensor_config 0 0 0 0 0
      ∷ default_sensor_config 0 0 0 0 0
      ∷ default_sensor_config 0 0 0 0 0
      ∷ default_sensor_config 0 0 0 0 0
      ∷ default_sensor_config 0 0 0 6 0
      ∷ default_sensor_config 0 0 0 6 0
      ∷ default_sensor_config 0 0 0 0 0
      ∷ default_sensor_config 0 0 0 2 5
      ∷ default_sensor_config 0 0 0 2 0
      ∷ default_sensor_config confstr_1hz confstr_unit_ms 0 2 0
      ∷ []

  -- What a batch call makes of a configuration, which both branches of the function assign alike.
  unfoldable pub configured : ℤ → ℤ → F → Option (SensorConfig F)
  configured sampling_period_ns max_report_latency_ns delay_hz =
      quotient_int64 max_report_latency_ns sampling_period_ns >>= λ frames.
      let latency = encode_max_latency max_report_latency_ns in
      some (record {
        data_rate = encode_datarate fl sampling_period_ns;
        latency_unit = latency.unit;
        max_latency = latency.value;
        fifo_data_len = u16 frames;
        delay_onchange_hz = delay_hz;
      })

  -- The function behind the choice of a table: `rel` is the offset of the sensor in it. What the code
  -- assigns to the configuration is the same whether the sensor is found among the active ones or not,
  -- and is written once here; only the answer differs.
  unfoldable pub batch_in :
      ℕ → ℤ → ℤ → F → Bank → List (SensorConfig F) → Option (List (SensorConfig F) × ℕ)
  batch_in rel period latency delay_hz b configs =
      find_ref b.active_sensor_cnt 0 rel b.refs >>= λ found. get_elem? configs rel >>= λ old.
      configured period latency delay_hz >>= λ c. some (set configs rel c, if found then 1 else 0)

  unfoldable pub batch_configref_resort : ℕ → ℤ → ℤ → F → Control F → Option (Control F × ℕ)
  unfolding batch_in find_ref
  batch_configref_resort bsx_list_index period latency delay_hz s =
      if leb bsx_list_index sensorlist_inx_ambient_iaq
      then (batch_in bsx_list_index period latency delay_hz s.refs.nonwk s.config_nonwk >>= λ r.
          some (record s { config_nonwk = r.0 }, r.1))
      else (batch_in (bsx_list_index - sensorlist_inx_wakeup_signi_pressure) period latency delay_hz
            s.refs.wk s.config_wk
          >>= λ r. some (record s { config_wk = r.0 }, r.1))
