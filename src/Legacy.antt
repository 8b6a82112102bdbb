-- ===== src/Legacy.antt =====
-- The control handlers of the legacy HAL, legacy/sensord/sensord_hwcntl_implement.cpp: `ap_activate`,
-- `ap_batch` and `ap_flush`, over the lists of active sensors (ConfigRef), the configurations (Batch)
-- and the list of sensors (SensorTable). Both chips are configured as SMI240. An operation is `none`
-- where the code would fault.
pub mod Sends
pub mod Runs
mod Tests
use smi240_android_hal.Prelude.{
  ℕ, zero, suc, ◌+◌, ◌-◌, ◌*◌, ◌/◌, bit_and, Bool, true, false, ◌||◌, Option, none, some, List, [],
  ◌∷◌, leb, ◌==◌, if◌then◌else◌, get_elem?, replicate,
}
use smi240_android_hal.Prelude.Int.{ℤ, pos, negsuc, ltb_ℤ, eqb_ℤ, ◌*ℕ◌}
use smi240_android_hal.Prelude.Float.{Float}
use smi240_android_hal.Encode.{convert_datarate_code, smi240_convert_odr, hz_of}
use smi240_android_hal.ConfigRef.{
  Banks, ◌>>=◌, activate_configref_resort, sensorlist_inx_ambient_iaq,
  sensorlist_inx_wakeup_signi_pressure,
}
use smi240_android_hal.Batch.{
  SensorConfig, Control, batch_configref_resort, bsx_sensor_config_nonwk, bsx_sensor_config_wk,
}
use smi240_android_hal.SensorTable.{
  SensorT, SensorList, bosch_all_sensors, get_sensor_t, reporting_mode_mask, on_change_mode,
  one_shot_mode, special_reporting_mode, bsx_sensor_id_invalid,
}
use smi240_android_hal.Algo.{InputId, acceleration, angularrate}

-- The configurations with their references, bosch_sensorlist and sampling_interval (microseconds).
pub record Legacy (F : Type 0) : Type 0 where
  pub control : Control F
  pub list : SensorList
  pub sampling_interval : ℕ

-- -EINVAL
abbrev pub einval : ℤ
einval = negsuc 21

-- The indices that bsx_inx_splid_maptbl maps to an identifier of the BSX library.
abbrev mapped_indices : List ℕ
mapped_indices =
    1 ∷ 2 ∷ 3 ∷ 4 ∷ 9 ∷ 10 ∷ 11 ∷ 14 ∷ 15 ∷ 16 ∷ 18 ∷ 19 ∷ 20 ∷ 33 ∷ 34 ∷ 35 ∷ 36 ∷ 41 ∷ 42 ∷ 43
    ∷ 46 ∷ 47 ∷ 48 ∷ 49 ∷ 51 ∷ 52 ∷ 54 ∷ 55 ∷ 56 ∷ 57 ∷ 61 ∷ []

-- convert_BSX_ListInx(bsx_list_inx) != BSX_VIRTUAL_SENSOR_ID_INVALID
abbrev is_mapped_in : List ℕ → ℕ → Bool
is_mapped_in [] i = false
is_mapped_in (k ∷ ks) i = (k == i) || is_mapped_in ks i

pub is_mapped : ℕ → Bool
is_mapped i = is_mapped_in mapped_indices i

-- input_id, for the two sensors that have one.
unfoldable pub input_id_of : ℕ → Option InputId
input_id_of i = if i == 1 then some acceleration else if i == 16 then some angularrate else none

module _ (fl : Float) where
  open fl use {F, centi, eq}

  -- ap_config_phyACC: US_PER_SEC / odr_Hz, where an odr of 0 is a fault.
  unfoldable pub ap_config_phy_acc : F → Legacy F → Option (Legacy F)
  ap_config_phy_acc sample_rate s =
      if eq sample_rate (centi 6_553_500)
      then some s
      else if smi240_convert_odr fl sample_rate == 0
      then none
      else some (record s { sampling_interval = 1_000_000 / smi240_convert_odr fl sample_rate })

  -- ap_config_physensor; ap_config_phyGYR only logs.
  unfoldable pub ap_config_physensor : InputId → F → Legacy F → Option (Legacy F)
  unfolding ap_config_phy_acc
  ap_config_physensor acceleration sample_rate s = ap_config_phy_acc sample_rate s
  ap_config_physensor angularrate sample_rate s = some s

  -- The configuration of a sensor.
  unfoldable pub config_of : ℕ → Control F → Option (SensorConfig F)
  config_of index c =
      if leb index sensorlist_inx_ambient_iaq
      then get_elem? c.config_nonwk index
      else get_elem? c.config_wk (index - sensorlist_inx_wakeup_signi_pressure)

  -- The sample rate of ap_send_config.
  unfoldable pub sample_rate_of : ℕ → Control F → Option F
  unfolding config_of
  sample_rate_of index c = get_elem? bosch_all_sensors index >>= λ p_sensor.
      config_of index c >>= λ config. some (
        if index == 61
        then centi 0
        else if bit_and p_sensor.flags reporting_mode_mask == on_change_mode
        then config.delay_onchange_hz
        else centi (convert_datarate_code config.data_rate))

  -- ap_send_config, and ap_send_disable_config, which sends the rate for a chip that is disabled.
  unfoldable pub ap_send_config : ℕ → Legacy F → Option (Legacy F)
  unfolding is_mapped input_id_of ap_config_physensor
  ap_send_config index s =
      if is_mapped index
      then (sample_rate_of index s.control >>= λ rate. elim (input_id_of index) [
        | none ↦ some s
        | some id ↦ ap_config_physensor id rate s
      ])
      else some s

  unfoldable pub ap_send_disable_config : ℕ → Legacy F → Option (Legacy F)
  unfolding is_mapped input_id_of ap_config_physensor
  ap_send_disable_config index s =
      if is_mapped index
      then elim (input_id_of index) [
        | none ↦ some s
        | some id ↦ ap_config_physensor id (centi 6_553_500) s
      ]
      else some s

  -- The state with a result.
  abbrev pub answer : ℤ → Option (Legacy F) → Option (Legacy F × ℤ)
  answer code s = s >>= λ s'. some (s', code)

  unfoldable pub ap_activate : ℕ → Bool → Legacy F → Option (Legacy F × ℤ)
  unfolding ap_send_config ap_send_disable_config sample_rate_of
  ap_activate handle enabled s =
      if handle == bsx_sensor_id_invalid
      then some (s, pos 0)
      else elim (get_sensor_t handle s.list.entries) [
        | none ↦ some (s, einval)
        | some (p_sensor, index) ↦ activate_configref_resort index enabled s.control.refs >>= λ r.
            let s' = record s { control = record s.control { refs = r.0 } } in
            answer (pos 0)
              (if enabled then ap_send_config index s' else ap_send_disable_config index s')
      ]

  -- The period that ap_batch clamps to the delays of the sensor.
  unfoldable pub clamped_period : SensorT → ℤ → ℤ
  clamped_period p_sensor period =
      if ltb_ℤ period (p_sensor.min_delay *ℕ 1000)
      then p_sensor.min_delay *ℕ 1000
      else if ltb_ℤ (pos (p_sensor.max_delay * 1000)) period
      then pos (p_sensor.max_delay * 1000)
      else period

  -- ap_batch for a sensor that is continuous or on-change.
  unfoldable pub batch_sensor : SensorT → ℕ → ℤ → ℤ → Legacy F → Option (Legacy F × ℤ)
  unfolding ap_send_config sample_rate_of
  batch_sensor p_sensor index period latency s =
      let on_change = bit_and p_sensor.flags reporting_mode_mask == on_change_mode in
      let used = clamped_period p_sensor period in
      batch_configref_resort fl index (if on_change then pos 0 else used) latency
        (if on_change then hz_of fl used else centi 0) s.control
      >>= λ r.
          let s' = record s { control = r.0 } in
          answer (pos 0) (if r.1 == 0 then some s' else ap_send_config index s')

  unfoldable pub ap_batch : ℕ → ℤ → ℤ → Legacy F → Option (Legacy F × ℤ)
  unfolding batch_sensor clamped_period
  ap_batch handle period latency s = elim (get_sensor_t handle s.list.entries) [
    | none ↦ some (s, if eqb_ℤ latency (pos 0) then pos 0 else einval)
    | some (p_sensor, index) ↦
        if bit_and p_sensor.flags reporting_mode_mask == one_shot_mode
        then some (s, pos 0)
        else if bit_and p_sensor.flags reporting_mode_mask == special_reporting_mode
        then some (s, pos 0)
        else batch_sensor p_sensor index period latency s
  ]

-- ap_flush: the result, and the handle for which a flush event is sent.
unfoldable pub ap_flush : {F : Type 0} → ℕ → Legacy F → ℤ × Option ℕ
ap_flush handle s = elim (get_sensor_t handle s.list.entries) [
  | none ↦ (einval, none)
  | some (p_sensor, index) ↦
      if bit_and p_sensor.flags reporting_mode_mask == one_shot_mode
      then (einval, none)
      else (pos 0, some handle)
]

-- The calls of the framework.
pub data Request : Type 0 where
  activate : ℕ → Bool → Request
  batch : ℕ → ℤ → ℤ → Request
  flush : ℕ → Request

module _ (fl : Float) where
  open fl use {F}

  -- The state and the result after a call.
  unfoldable pub handle : Request → Legacy F → Option (Legacy F × ℤ)
  unfolding ap_activate ap_batch ap_flush
  handle (activate h enabled) s = ap_activate fl h enabled s
  handle (batch h period latency) s = ap_batch fl h period latency s
  handle (flush h) s = some (s, (ap_flush h s).0)

  -- The calls in turn.
  unfoldable pub run : List Request → Legacy F → Option (Legacy F)
  unfolding handle
  run [] s = some s
  run (q ∷ qs) s = handle q s >>= λ r. run qs r.0

  -- The state that the HAL has once it has listed its sensors.
  abbrev pub start_with : SensorList → Legacy F
  start_with l = record {
    control = record {
      refs = record {
        nonwk = record { refs = replicate 32 none; active_sensor_cnt = 0 };
        wk = record { refs = replicate 32 none; active_sensor_cnt = 0 };
      };
      config_nonwk = bsx_sensor_config_nonwk fl;
      config_wk = bsx_sensor_config_wk fl;
    };
    list = l;
    sampling_interval = 1_000_000;
  }
