-- ===== src/Sensor/Period.antt =====
-- The sampling period that a batch call leaves.
use smi240_android_hal.Prelude.{ℕ, ◌*◌, ◌≤◌, ◌≡◌, false, arith}
use smi240_android_hal.Prelude.Int.{ℤ, pos, negsuc}
use smi240_android_hal.Sensor.{Sensor, batch}

-- Where the smallest delay is not above the largest, whatever period is asked for, the period after
-- a batch call is within both delays of the sensor, and nothing else of the sensor changes.
batch_bounds :
    (requested : ℤ) (s : Sensor)
    → s.info.min_delay ≤ s.info.max_delay
    → let s' = (batch requested s).0 in
      (s.info.min_delay * 1000 ≤ s'.sampling_period_ns)
      × (s'.sampling_period_ns ≤ s.info.max_delay * 1000)
      × (s' ≡ record s { sampling_period_ns = s'.sampling_period_ns })
unfolding batch
batch_bounds (pos n) s h = ground arith
batch_bounds (negsuc n) s h = ground arith

-- A period within the delays of the sensor is taken as it is, and a second call with it changes
-- nothing and does not wake the run thread.
batch_within :
    (n : ℕ) (s : Sensor)
    → s.info.min_delay * 1000 ≤ n
    → n ≤ s.info.max_delay * 1000
    → ((batch (pos n) s).0.sampling_period_ns ≡ n)
      × (batch (pos n) (batch (pos n) s).0 ≡ ((batch (pos n) s).0, false))
unfolding batch
batch_within n s h k = ground arith
