-- ===== src/SensorTable/Listed.antt =====
-- The list of sensors that the HAL offers.
use smi240_android_hal.Prelude.{
  ℕ, ◌≡◌, refl, Bool, true, false, ◌&&◌, none, some, [], ◌∷◌, arith, ◌==◌, if◌then◌else◌, length,
}
use smi240_android_hal.Prelude.Int.{pos}
use smi240_android_hal.SensorTable.{
  SensorT, SensorList, ap_get_sensorlist, get_sensor_t, continuous_mode,
}

-- bosch_sensorlist at the start.
abbrev pub empty_list : SensorList
empty_list = record { entries = []; list_len = 0 }

abbrev pub smi240_sensor : ℕ → SensorT
smi240_sensor h = record {
  handle = h;
  min_delay = pos 500;
  max_delay = 200_000;
  flags = continuous_mode;
}

abbrev pub full_list : SensorList
full_list = record { entries = (smi240_sensor 1, 1) ∷ (smi240_sensor 16, 16) ∷ []; list_len = 2 }

-- Where both allocations succeed, the first call lists the accelerometer and the uncalibrated
-- gyroscope, with the length of the list; where one fails, it returns 0 and changes nothing; any
-- later call returns the list as it is.
ap_get_sensorlist_once :
    (list_fits index_fits again again' : Bool)
    → (ap_get_sensorlist list_fits index_fits empty_list ≡ (
        if list_fits && index_fits then (full_list, length full_list.entries) else (empty_list, 0)))
      × (ap_get_sensorlist again again' full_list ≡ (full_list, length full_list.entries))
unfolding ap_get_sensorlist
ap_get_sensorlist_once true true b c = (refl, refl)
ap_get_sensorlist_once true false b c = (refl, refl)
ap_get_sensorlist_once false true b c = (refl, refl)
ap_get_sensorlist_once false false b c = (refl, refl)

-- In that list the handles 1 and 16 have their sensor, under the index of its entry in the table of
-- all sensors, and no other handle has one.
pub get_sensor_t_listed :
    (sensor_id : ℕ)
    → get_sensor_t sensor_id full_list.entries ≡ (
        if sensor_id == 1
        then some (smi240_sensor 1, 1)
        else if sensor_id == 16
        then some (smi240_sensor 16, 16)
        else none)
unfolding get_sensor_t
get_sensor_t_listed sensor_id = ground arith
