-- ===== src/Algo.antt =====
-- The sample processing of the legacy HAL, legacy/sensord/sensord_algo.cpp: `sort_input_samples`
-- aligns the samples of the two chips by their timestamps, and `sensord_algo_process` turns them into
-- events in that order. The arrays of samples are lists, float and double are one type, and timestamps are int64_t values of a clock that
-- is not negative.
pub mod Align
pub mod Order
pub mod Process
mod Tests
use smi240_android_hal.Prelude.{
  ℕ, zero, suc, ◌+◌, ◌*◌, Bool, true, false, ◌||◌, Option, none, some, List, [], ◌∷◌, ◌++◌, ltb,
  ◌==◌, if◌then◌else◌, length,
}
use smi240_android_hal.Prelude.Int.{ℤ, pos}
use smi240_android_hal.Prelude.Float.{Float}

-- HW_DATA_UNION, as far as the processing reads it.
pub record HwData : Type 0 where
  pub x : ℤ
  pub y : ℤ
  pub z : ℤ
  pub timestamp : ℕ

-- The bits HAS_ACC and HAS_GYR of one byte of the align indication array.
pub record Indication : Type 0 where
  pub has_acc : Bool
  pub has_gyr : Bool

-- `cur_base_tm` at the start of a round.
unfoldable pub cur_base_tm : List HwData → List HwData → ℕ
cur_base_tm [] [] = 0
cur_base_tm [] (g ∷ gyr) = g.timestamp
cur_base_tm (a ∷ acc) [] = a.timestamp
cur_base_tm (a ∷ acc) (g ∷ gyr) =
    if g.timestamp == 0
    then a.timestamp
    else if ltb a.timestamp g.timestamp
    then a.timestamp
    else g.timestamp

-- Whether the next sample is at the base time.
unfoldable pub at_base : ℕ → List HwData → Bool
at_base base [] = false
at_base base (d ∷ ds) = d.timestamp == base

-- The samples behind the one that is taken.
unfoldable pub advance : Bool → List HwData → List HwData
advance taken [] = []
advance true (d ∷ ds) = ds
advance false (d ∷ ds) = d ∷ ds

-- The while loop of sort_input_samples, for at most as many rounds as the fuel says.
unfoldable pub align_from : ℕ → List HwData → List HwData → List Indication
unfolding advance
align_from zero acc gyr = []
align_from (suc fuel) [] [] = []
align_from (suc fuel) acc gyr =
    let base = cur_base_tm acc gyr in
    record { has_acc = at_base base acc; has_gyr = at_base base gyr }
    ∷ align_from fuel (advance (at_base base acc) acc) (advance (at_base base gyr) gyr)

-- sort_input_samples; each round takes a sample, so that there are at most as many as samples.
unfoldable pub sort_input_samples : List HwData → List HwData → List Indication
unfolding align_from cur_base_tm at_base
sort_input_samples acc gyr = align_from (length acc + length gyr) acc gyr

-- BSX_INPUT_ID_ACCELERATION and BSX_INPUT_ID_ANGULARRATE
pub data InputId : Type 0 where
  acceleration angularrate : InputId

-- What one bit of an indication puts into `library_in_package`.
abbrev pub packed : InputId → Bool → List HwData → List (InputId × HwData)
packed id has [] = []
packed id true (d ∷ ds) = (id, d) ∷ []
packed id false (d ∷ ds) = []

-- The samples in the order in which the loop over the indications packs them.
unfoldable pub deliver : List Indication → List HwData → List HwData → List (InputId × HwData)
unfolding advance
deliver [] acc gyr = []
deliver (i ∷ is) acc gyr =
    packed acceleration i.has_acc acc
    ++ packed angularrate i.has_gyr gyr
    ++ deliver is (advance i.has_acc acc) (advance i.has_gyr gyr)

pub data EventType : Type 0 where
  accelerometer gyroscope_uncalibrated : EventType

-- sensors_event_t, as far as it is filled.
pub record SensorsEvent (F : Type 0) : Type 0 where
  pub type : EventType
  pub timestamp : ℕ
  pub x : F
  pub y : F
  pub z : F

module _ (fl : Float) where
  open fl use {F, centi, of_int, div, mul}

  -- CONVERT_ACC_2G ... CONVERT_ACC_16G, for the range that is configured.
  unfoldable pub convert_acc : ℕ → Option F
  convert_acc range =
      if range == 2 || (range == 4 || (range == 8 || range == 16))
      then some (mul (div (centi 981) (centi 3276700)) (centi (range * 100)))
      else none

  -- CONVERT_GYRO_125_RADPS ... CONVERT_GYRO_2000_RADPS
  unfoldable pub convert_gyro : ℕ → Option F
  convert_gyro range =
      if range == 125
        || (range == 250 || (range == 300 || (range == 500 || (range == 1000 || range == 2000))))
      then some (mul (div (div (centi 314) (centi 18000)) (centi 3276700)) (centi (range * 100)))
      else none

  abbrev scaled : EventType → Option F → HwData → Option (SensorsEvent F)
  scaled ty none d = none
  scaled ty (some c) d = some (record {
    type = ty;
    timestamp = d.timestamp;
    x = mul (of_int d.x) c;
    y = mul (of_int d.y) c;
    z = mul (of_int d.z) c;
  })

  -- The event of one packed sample; `none` for a range that is not known.
  unfoldable pub event_of : ℕ → ℕ → InputId × HwData → Option (SensorsEvent F)
  unfolding convert_acc convert_gyro
  event_of accl_range gyro_range (acceleration, d) = scaled accelerometer (convert_acc accl_range) d
  event_of accl_range gyro_range (angularrate, d) =
      scaled gyroscope_uncalibrated (convert_gyro gyro_range) d

  -- The events that are delivered, where no calloc of an event fails.
  unfoldable pub events_of : ℕ → ℕ → List (InputId × HwData) → List (SensorsEvent F)
  events_of accl_range gyro_range [] = []
  events_of accl_range gyro_range (p ∷ ps) =
      let rest = events_of accl_range gyro_range ps in
      elim (event_of accl_range gyro_range p) [ none ↦ rest | some e ↦ e ∷ rest ]

  -- sensord_algo_process, where every allocation succeeds, for the samples of the two lists, which it
  -- empties.
  unfoldable pub sensord_algo_process : ℕ → ℕ → List HwData → List HwData → List (SensorsEvent F)
  unfolding sort_input_samples deliver events_of
  sensord_algo_process accl_range gyro_range acc gyr =
      events_of accl_range gyro_range (deliver (sort_input_samples acc gyr) acc gyr)
