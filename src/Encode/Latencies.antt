-- ===== src/Encode/Latencies.antt =====
-- What the code of a latency stands for.
use smi240_android_hal.Prelude.{ℕ, ◌+◌, ◌*◌, ◌^◌, ◌≤◌, ◌<◌, ◌≡◌, arith, ◌==◌, if◌then◌else◌}
use smi240_android_hal.Prelude.Int.{pos}
use smi240_android_hal.Encode.{encode_max_latency, confstr_unit_us, confstr_unit_ms, confstr_unit_s}

-- The nanoseconds of a unit, by its name.
pub ns_of_unit : ℕ → ℕ
ns_of_unit u =
    if u == confstr_unit_s
    then 1_000_000_000
    else if u == confstr_unit_ms
    then 1_000_000
    else if u == confstr_unit_us
    then 1000
    else 1

-- A latency from 0 up to 16383 s is rounded down to its unit, and the value is below 2^14.
pub encode_max_latency_rounds :
    (n : ℕ)
    → n < 16_383_000_000_000
    → let l = encode_max_latency (pos n) in
      (l.value * ns_of_unit l.unit ≤ n)
      × (n < (l.value + 1) * ns_of_unit l.unit)
      × (l.value < 2 ^ 14)
unfolding encode_max_latency ns_of_unit
encode_max_latency_rounds n h = ground arith

-- A latency of 16383 s or more is coded as 16383 s.
encode_max_latency_saturates :
    (n : ℕ)
    → 16_383_000_000_000 ≤ n
    → encode_max_latency (pos n) ≡ record { value = 16383; unit = confstr_unit_s }
unfolding encode_max_latency
encode_max_latency_saturates n h = ground arith
