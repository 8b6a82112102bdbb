-- ===== src/SensorTable.antt =====
-- The sensors that the legacy HAL knows and those that it offers: `bosch_all_sensors` and
-- `get_sensor_t` of legacy/sensord/sensord_hwcntl.cpp, and `ap_get_sensorlist` of
-- legacy/sensord/sensord_hwcntl_implement.cpp.
-- Of struct sensor_t the model has the fields that operations read; every entry has a name.
pub mod Listed
use smi240_android_hal.Prelude.{
  ℕ, zero, suc, ◌+◌, ◌*◌, ◌/◌, ◌%◌, ◌^◌, bit_and, Bool, true, false, ◌&&◌, Option, none, some, List,
  [], ◌∷◌, ◌++◌, ◌==◌, if◌then◌else◌, get_elem?,
}
use smi240_android_hal.Prelude.Int.{ℤ, pos, negsuc}
use smi240_android_hal.Popcount.{sensord_popcount_64}

-- struct sensor_t: the delays are in microseconds, the flags are those of Android.
pub record SensorT : Type 0 where
  pub handle : ℕ
  pub min_delay : ℤ
  pub max_delay : ℕ
  pub flags : ℕ

abbrev pub wake_up : ℕ
wake_up = 1

abbrev pub continuous_mode : ℕ
continuous_mode = 0

abbrev pub on_change_mode : ℕ
on_change_mode = 2

abbrev pub one_shot_mode : ℕ
one_shot_mode = 4

abbrev pub special_reporting_mode : ℕ
special_reporting_mode = 6

abbrev pub reporting_mode_mask : ℕ
reporting_mode_mask = 14

abbrev pub bsx_sensor_id_invalid : ℕ
bsx_sensor_id_invalid = 255

abbrev sensor : ℕ → ℤ → ℕ → ℕ → SensorT
sensor handle min_delay max_delay flags = record {
  handle = handle;
  min_delay = min_delay;
  max_delay = max_delay;
  flags = flags;
}

-- UNUSED_SENSOR_T
abbrev unused_sensor_t : SensorT
unused_sensor_t = sensor bsx_sensor_id_invalid (pos 0) 0 special_reporting_mode

abbrev sensors_0 : List SensorT
sensors_0 =
    sensor 103 (pos 1_000_000) 1_000_000 on_change_mode
    ∷ sensor 1 (pos 500) 200_000 continuous_mode
    ∷ sensor 2 (pos 40_000) 200_000 continuous_mode
    ∷ sensor 3 (pos 500) 200_000 continuous_mode
    ∷ sensor 4 (pos 500) 200_000 continuous_mode
    ∷ sensor 5 (pos 200_000) 1_800_000_000 on_change_mode
    ∷ sensor 6 (pos 160_000) 160_000 continuous_mode
    ∷ sensor 7 (pos 1_000_000) 1_000_000 on_change_mode
    ∷ []

abbrev sensors_8 : List SensorT
sensors_8 =
    unused_sensor_t
    ∷ sensor 9 (pos 500) 200_000 continuous_mode
    ∷ sensor 10 (pos 500) 200_000 continuous_mode
    ∷ sensor 11 (pos 500) 200_000 continuous_mode
    ∷ sensor 12 (pos 1_000_000) 1_000_000 on_change_mode
    ∷ sensor 13 (pos 1_000_000) 1_000_000 on_change_mode
    ∷ sensor 14 (pos 40_000) 200_000 continuous_mode
    ∷ sensor 15 (pos 500) 200_000 continuous_mode
    ∷ sensor 16 (pos 500) 200_000 continuous_mode
    ∷ []

abbrev sensors_17 : List SensorT
sensors_17 =
    unused_sensor_t
    ∷ sensor 18 (pos 0) 0 special_reporting_mode
    ∷ sensor 19 (pos 200_000) 1_800_000_000 on_change_mode
    ∷ sensor 20 (pos 40_000) 200_000 continuous_mode
    ∷ sensor 21 (pos 200_000) 1_800_000_000 on_change_mode
    ∷ unused_sensor_t
    ∷ unused_sensor_t
    ∷ unused_sensor_t
    ∷ unused_sensor_t
    ∷ unused_sensor_t
    ∷ unused_sensor_t
    ∷ unused_sensor_t
    ∷ sensor 100 (pos 1_000_000) 1_000_000 on_change_mode
    ∷ sensor 101 (pos 1_000_000) 1_000_000 on_change_mode
    ∷ sensor 102 (pos 1_000_000) 1_000_000 on_change_mode
    ∷ []

abbrev sensors_32 : List SensorT
sensors_32 =
    unused_sensor_t
    ∷ sensor 33 (pos 500) 200_000 (continuous_mode + wake_up)
    ∷ sensor 34 (pos 40_000) 200_000 (continuous_mode + wake_up)
    ∷ sensor 35 (pos 500) 200_000 (continuous_mode + wake_up)
    ∷ sensor 36 (pos 500) 200_000 (continuous_mode + wake_up)
    ∷ sensor 37 (pos 200_000) 1_800_000_000 (on_change_mode + wake_up)
    ∷ sensor 38 (pos 10_000) 200_000 (continuous_mode + wake_up)
    ∷ sensor 39 (pos 200_000) 1_800_000_000 (on_change_mode + wake_up)
    ∷ sensor 40 (pos 200_000) 1_800_000_000 (on_change_mode + wake_up)
    ∷ []

abbrev sensors_41 : List SensorT
sensors_41 =
    sensor 41 (pos 500) 200_000 (continuous_mode + wake_up)
    ∷ sensor 42 (pos 500) 200_000 (continuous_mode + wake_up)
    ∷ sensor 43 (pos 500) 200_000 (continuous_mode + wake_up)
    ∷ sensor 44 (pos 200_000) 1_800_000_000 (on_change_mode + wake_up)
    ∷ sensor 45 (pos 200_000) 1_800_000_000 (on_change_mode + wake_up)
    ∷ sensor 46 (pos 40_000) 200_000 (continuous_mode + wake_up)
    ∷ sensor 47 (pos 500) 200_000 (continuous_mode + wake_up)
    ∷ sensor 48 (pos 500) 200_000 (continuous_mode + wake_up)
    ∷ sensor 49 (negsuc 0) 0 (one_shot_mode + wake_up)
    ∷ []

abbrev sensors_50 : List SensorT
sensors_50 =
    sensor 50 (pos 0) 0 (special_reporting_mode + wake_up)
    ∷ sensor 51 (pos 200_000) 1_800_000_000 (on_change_mode + wake_up)
    ∷ sensor 52 (pos 40_000) 200_000 (continuous_mode + wake_up)
    ∷ sensor 53 (pos 200_000) 1_800_000_000 (on_change_mode + wake_up)
    ∷ sensor 54 (pos 0) 0 (special_reporting_mode + wake_up)
    ∷ sensor 55 (negsuc 0) 0 (one_shot_mode + wake_up)
    ∷ sensor 56 (negsuc 0) 0 (one_shot_mode + wake_up)
    ∷ sensor 57 (negsuc 0) 0 (one_shot_mode + wake_up)
    ∷ []

abbrev sensors_58 : List SensorT
sensors_58 =
    unused_sensor_t
    ∷ unused_sensor_t
    ∷ unused_sensor_t
    ∷ sensor 30 (pos 200_000) 1_800_000_000 (on_change_mode + wake_up)
    ∷ unused_sensor_t
    ∷ unused_sensor_t
    ∷ []

unfoldable pub bosch_all_sensors : List SensorT
bosch_all_sensors =
    sensors_0 ++ sensors_8 ++ sensors_17 ++ sensors_32 ++ sensors_41 ++ sensors_50 ++ sensors_58

-- BST_SENSORLIST: the entries of the two arrays together, each with its index, and their length.
pub record SensorList : Type 0 where
  pub entries : List (SensorT × ℕ)
  pub list_len : ℕ

-- The for loop of ap_get_sensorlist from index `i` on, over the rest of the mask.
unfoldable pub listed_from : List SensorT → ℕ → ℕ → List (SensorT × ℕ)
listed_from [] i mask = []
listed_from (s ∷ ss) i mask =
    let rest = listed_from ss (i + 1) (mask / 2) in
    if mask == 0 then [] else if bit_and mask 1 == 1 then (s, i) ∷ rest else rest

-- (1 << SENSORLIST_INX_ACCELEROMETER) | (1 << SENSORLIST_INX_GYROSCOPE_UNCALIBRATED)
abbrev pub avail_sens_regval : ℕ
avail_sens_regval = 2 ^ 1 + 2 ^ 16

-- ap_get_sensorlist, by whether its two calls of malloc succeed.
unfoldable pub ap_get_sensorlist : Bool → Bool → SensorList → SensorList × ℕ
unfolding bosch_all_sensors sensord_popcount_64 listed_from
ap_get_sensorlist list_fits index_fits l =
    if l.list_len == 0
    then (if list_fits && index_fits
        then (
          record {
            entries = listed_from bosch_all_sensors 0 avail_sens_regval;
            list_len = sensord_popcount_64 avail_sens_regval;
          },
          sensord_popcount_64 avail_sens_regval,
        )
        else (l, 0))
    else (l, l.list_len)

-- get_sensor_t: the sensor with a handle, and its index.
unfoldable pub get_sensor_t : ℕ → List (SensorT × ℕ) → Option (SensorT × ℕ)
get_sensor_t sensor_id [] = none
get_sensor_t sensor_id (e ∷ es) =
    let rest = get_sensor_t sensor_id es in if sensor_id == e.0.handle then some e else rest
