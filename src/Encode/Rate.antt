-- ===== src/Encode/Rate.antt =====
-- What the ladders of data rates promise.
use smi240_android_hal.Prelude.{◌*◌, ◌≤◌, ◌≡◌, ◌⊎◌, true, false, arith}
use smi240_android_hal.Prelude.Float.{Float, IsNumber}
use smi240_android_hal.Encode.{convert_datarate_code, code_of_hz, smi240_convert_odr}

module _ (fl : Float) (hz : fl.F) (n : IsNumber fl hz) where
  open fl use {centi, lt, le}

  -- Where `hz` is a number not above 2000 Hz, the rate that CONVERT_DATARATE_CODE gives to its code
  -- is not below it.
  pub code_of_hz_covers :
      lt (centi 200000) hz ≡ false
      → (le hz (centi (convert_datarate_code (code_of_hz fl hz))) ≡ true)
  unfolding code_of_hz convert_datarate_code
  code_of_hz_covers h = ground (
    arith,
    n.le_lt 200000,
    n.le_lt 160000,
    n.le_lt 100000,
    n.le_lt 80000,
    n.le_lt 40000,
    n.le_lt 20000,
    n.le_lt 10000,
    n.le_lt 5000,
    n.le_lt 2500,
    n.le_lt 1200,
    n.le_lt 1250,
    n.le_lt 600,
    n.le_lt 625,
    n.le_lt 500,
    n.le_lt 100,
    n.lt_down 600 625,
    n.lt_down 1200 1250,
  )

  -- Where `hz` is a number above 2000 Hz, its code is 0.
  code_of_hz_above : lt (centi 200000) hz ≡ true → code_of_hz fl hz ≡ 0
  unfolding code_of_hz
  code_of_hz_above h = ground (
    arith,
    n.le_lt 200000,
    n.le_lt 160000,
    n.le_lt 100000,
    n.le_lt 80000,
    n.le_lt 40000,
    n.le_lt 20000,
    n.le_lt 10000,
    n.le_lt 5000,
    n.le_lt 2500,
    n.le_lt 1200,
    n.le_lt 600,
    n.le_lt 500,
    n.le_lt 100,
    n.lt_down 160000 200000,
    n.lt_down 100000 200000,
    n.lt_down 80000 200000,
    n.lt_down 40000 200000,
    n.lt_down 20000 200000,
    n.lt_down 10000 200000,
    n.lt_down 5000 200000,
    n.lt_down 2500 200000,
    n.lt_down 1200 200000,
    n.lt_down 600 200000,
    n.lt_down 500 200000,
    n.lt_down 100 200000,
  )

  -- The chip's rate is from 5 to 400 for every number.
  pub smi240_convert_odr_range : (5 ≤ smi240_convert_odr fl hz) × (smi240_convert_odr fl hz ≤ 400)
  unfolding smi240_convert_odr
  smi240_convert_odr_range = ground (arith, n.le_lt 20000, n.le_lt 10000, n.le_lt 5000, n.le_lt 500)

  -- Where `hz` is a number, the chip's rate is not below it, or is 400, the highest one; it is from 5
  -- to 400, never the 0 of the function's last line, by which its caller would divide.
  pub smi240_convert_odr_lem :
      ((le hz (centi (smi240_convert_odr fl hz * 100)) ≡ true) ⊎ (smi240_convert_odr fl hz ≡ 400))
      × (5 ≤ smi240_convert_odr fl hz)
      × (smi240_convert_odr fl hz ≤ 400)
  unfolding smi240_convert_odr
  smi240_convert_odr_lem = (
    ground (arith, n.le_lt 20000, n.le_lt 10000, n.le_lt 5000, n.le_lt 500),
    smi240_convert_odr_range.0,
    smi240_convert_odr_range.1,
  )
