-- ===== src/Encode.antt =====
-- The codes of data rates and latencies in the legacy HAL: `encode_datarate` and
-- `encode_max_latency` of legacy/sensord/sensord_hwcntl.cpp, the macro CONVERT_DATARATE_CODE of
-- legacy/sensord/inc/sensord_hwcntl.h, and `SMI240_convert_ODR` of
-- legacy/sensord/sensord_hwcntl_implement.cpp. Data rates in Hz are given in hundredths.
pub mod Rate
pub mod Latencies
mod Tests
use smi240_android_hal.Prelude.{
  ℕ, suc, ◌+◌, ◌-◌, ◌*◌, ◌/◌, ◌%◌, Bool, ◌&&◌, Option, none, some, ltb, leb, ◌==◌, if◌then◌else◌,
}
use smi240_android_hal.Prelude.Int.{ℤ, pos, negsuc, ltb_ℤ, leb_ℤ, eqb_ℤ}
use smi240_android_hal.Prelude.Float.{Float}

-- BSX_CONFSTR_2000Hz ... BSX_CONFSTR_1Hz
abbrev pub confstr_2000hz : ℕ
confstr_2000hz = 18

abbrev pub confstr_1600hz : ℕ
confstr_1600hz = 17

abbrev pub confstr_1000hz : ℕ
confstr_1000hz = 16

abbrev pub confstr_800hz : ℕ
confstr_800hz = 15

abbrev pub confstr_400hz : ℕ
confstr_400hz = 1

abbrev pub confstr_200hz : ℕ
confstr_200hz = 2

abbrev pub confstr_100hz : ℕ
confstr_100hz = 3

abbrev pub confstr_50hz : ℕ
confstr_50hz = 4

abbrev pub confstr_25hz : ℕ
confstr_25hz = 5

abbrev pub confstr_12_5hz : ℕ
confstr_12_5hz = 6

abbrev pub confstr_6_25hz : ℕ
confstr_6_25hz = 7

abbrev pub confstr_5hz : ℕ
confstr_5hz = 8

abbrev pub confstr_1hz : ℕ
confstr_1hz = 9

-- BSX_CONFSTR_UNITns ... BSX_CONFSTR_UNITs
abbrev pub confstr_unit_ns : ℕ
confstr_unit_ns = 0x00

abbrev pub confstr_unit_us : ℕ
confstr_unit_us = 0x40

abbrev pub confstr_unit_ms : ℕ
confstr_unit_ms = 0x80

abbrev pub confstr_unit_s : ℕ
confstr_unit_s = 0xC0

-- CONVERT_DATARATE_CODE
unfoldable pub convert_datarate_code : ℕ → ℕ
convert_datarate_code code =
    if code == confstr_2000hz
    then 200000
    else if code == confstr_1600hz
    then 160000
    else if code == confstr_1000hz
    then 100000
    else if code == confstr_800hz
    then 80000
    else if code == confstr_400hz
    then 40000
    else if code == confstr_200hz
    then 20000
    else if code == confstr_100hz
    then 10000
    else if code == confstr_50hz
    then 5000
    else if code == confstr_25hz
    then 2500
    else if code == confstr_12_5hz
    then 1250
    else if code == confstr_6_25hz
    then 625
    else if code == confstr_5hz
    then 500
    else if code == confstr_1hz
    then 100
    else 0

module _ (fl : Float) where
  open fl use {F, centi, of_int, div, lt, le}

  -- Hz > lo && Hz <= hi
  abbrev pub in_band : F → ℕ → ℕ → Bool
  in_band hz lo hi = lt (centi lo) hz && le hz (centi hi)

  -- Hz = 1000000000.0f / (float)sampling_period_ns
  abbrev pub hz_of : ℤ → F
  hz_of sampling_period_ns = div (centi 100_000_000_000) (of_int sampling_period_ns)

  -- The ladder of encode_datarate.
  unfoldable pub code_of_hz : F → ℕ
  code_of_hz hz =
      if in_band hz 160000 200000
      then confstr_2000hz
      else if in_band hz 100000 160000
      then confstr_1600hz
      else if in_band hz 80000 100000
      then confstr_1000hz
      else if in_band hz 40000 80000
      then confstr_800hz
      else if in_band hz 20000 40000
      then confstr_400hz
      else if in_band hz 10000 20000
      then confstr_200hz
      else if in_band hz 5000 10000
      then confstr_100hz
      else if in_band hz 2500 5000
      then confstr_50hz
      else if in_band hz 1200 2500
      then confstr_25hz
      else if in_band hz 600 1200
      then confstr_12_5hz
      else if in_band hz 500 600
      then confstr_6_25hz
      else if in_band hz 100 500
      then confstr_5hz
      else if le hz (centi 100)
      then confstr_1hz
      else 0

  unfoldable pub encode_datarate : ℤ → ℕ
  encode_datarate sampling_period_ns =
      if eqb_ℤ sampling_period_ns (pos 0) then 0 else code_of_hz (hz_of sampling_period_ns)

  -- SMI240_convert_ODR, which does not use its list index.
  unfoldable pub smi240_convert_odr : F → ℕ
  smi240_convert_odr hz =
      if lt (centi 20000) hz
      then 400
      else if in_band hz 10000 20000
      then 200
      else if in_band hz 5000 10000
      then 100
      else if in_band hz 500 5000
      then 50
      else if le hz (centi 500)
      then 5
      else 0

-- The conversion of an int64_t to uint16_t.
abbrev pub u16 : ℤ → ℕ
u16 (pos n) = n % 65536
u16 (negsuc n) = 65535 - n % 65536

-- `*value` and `*unit` of encode_max_latency.
pub record Latency : Type 0 where
  pub value : ℕ
  pub unit : ℕ

-- ns / d, which the code takes only where `ns` is not negative.
abbrev pub quotient : ℤ → ℕ → ℤ
quotient (pos n) d = pos (n / d)
quotient (negsuc n) d = pos 0

unfoldable pub encode_max_latency : ℤ → Latency
encode_max_latency ns =
    if leb_ℤ (pos 1_000_000) ns && ltb_ℤ ns (pos 1_000_000_000)
    then record { value = u16 (quotient ns 1_000_000); unit = confstr_unit_ms }
    else if leb_ℤ (pos 1000) ns && ltb_ℤ ns (pos 1_000_000)
    then record { value = u16 (quotient ns 1000); unit = confstr_unit_us }
    else if ltb_ℤ ns (pos 1000)
    then record { value = u16 ns; unit = confstr_unit_ns }
    else if leb_ℤ (pos 1_000_000_000) ns && ltb_ℤ ns (pos 16_383_000_000_000)
    then record { value = u16 (quotient ns 1_000_000_000); unit = confstr_unit_s }
    else record { value = 16383; unit = confstr_unit_s }

-- -q, for a quotient of magnitude q.
abbrev pub negate : ℕ → ℤ
negate q = if q == 0 then pos 0 else negsuc (q - 1)

-- a / b on int64_t, which cuts off towards 0; a division by 0 is a fault.
unfoldable pub quotient_int64 : ℤ → ℤ → Option ℤ
quotient_int64 (pos a) (pos b) = if b == 0 then none else some (pos (a / b))
quotient_int64 (pos a) (negsuc b) = some (negate (a / suc b))
quotient_int64 (negsuc a) (pos b) = if b == 0 then none else some (negate (suc a / b))
quotient_int64 (negsuc a) (negsuc b) = some (pos (suc a / suc b))
