-- ===== src/Encode/Tests.antt =====
-- The codes of data rates and latencies at concrete values, with the naturals as hundredths for
-- the floating-point type.
use smi240_android_hal.Prelude.{
  ◌⊎◌, ℕ, ◌+◌, ◌*◌, ◌≤◌, ◌<◌, ◌^◌, ◌≡◌, refl, true, arith, leb, some, none,
}
use smi240_android_hal.Prelude.Int.{pos, negsuc}
use smi240_android_hal.Prelude.Float.{IsNumber, hundredths}
use smi240_android_hal.Encode.{
  convert_datarate_code, code_of_hz, encode_datarate, smi240_convert_odr, encode_max_latency,
  quotient_int64,
}
use smi240_android_hal.Encode.Rate.{code_of_hz_covers, smi240_convert_odr_lem}
use smi240_android_hal.Encode.Latencies.{ns_of_unit, encode_max_latency_rounds}

is_number : (x : ℕ) → IsNumber hundredths x
is_number x = record { le_lt = λ k. ground arith; lt_down = λ j k h e. ground arith }

-- A period of 5 ms is 200 Hz; one of 80 ms is 12.5 Hz, which the ladder codes as 25 Hz.
rate_200 : encode_datarate hundredths (pos 5_000_000) ≡ 2
unfolding encode_datarate code_of_hz
rate_200 = refl

rate_12_5 : encode_datarate hundredths (pos 80_000_000) ≡ 5
unfolding encode_datarate code_of_hz
rate_12_5 = refl

fault_of_zero : quotient_int64 (negsuc 6) (pos 0) ≡ none
unfolding quotient_int64
fault_of_zero = refl

towards_zero : quotient_int64 (negsuc 6) (pos 2) ≡ some (negsuc 2)
unfolding quotient_int64
towards_zero = refl

code_of_hz_covers_example : leb 17000 (convert_datarate_code (code_of_hz hundredths 17000)) ≡ true
code_of_hz_covers_example = code_of_hz_covers hundredths 17000 (is_number 17000) refl

smi240_convert_odr_lem_example :
    ((leb 17000 (smi240_convert_odr hundredths 17000 * 100) ≡ true)
      ⊎ (smi240_convert_odr hundredths 17000 ≡ 400))
    × (5 ≤ smi240_convert_odr hundredths 17000)
    × (smi240_convert_odr hundredths 17000 ≤ 400)
smi240_convert_odr_lem_example = smi240_convert_odr_lem hundredths 17000 (is_number 17000)

encode_max_latency_rounds_example :
    ((encode_max_latency (pos 2_500_000)).value
        * ns_of_unit (encode_max_latency (pos 2_500_000)).unit
      ≤ 2_500_000)
    × (2_500_000
        < ((encode_max_latency (pos 2_500_000)).value + 1)
          * ns_of_unit (encode_max_latency (pos 2_500_000)).unit)
    × ((encode_max_latency (pos 2_500_000)).value < 2 ^ 14)
encode_max_latency_rounds_example = encode_max_latency_rounds 2_500_000 (omega arith)
