-- ===== src/Sensor/Tests.antt =====
-- A sensor at concrete periods and clock values.
use smi240_android_hal.Prelude.{false, ℕ, ◌+◌, ◌≤◌, ◌≡◌, refl, true, [], ◌∷◌, arith, leb}
use smi240_android_hal.Prelude.Int.{pos}
use smi240_android_hal.Sensor.{Sensor, smi240_accel, activate, batch, run_round, for_ns}
use smi240_android_hal.Sensor.Schedule.{
  sample_times, IsSpaced, sample_times-IsSpaced, run_round_wakes,
}

-- The accelerometer, enabled, with a period of 20 ms.
abbrev running : Sensor
running = activate true (batch (pos 20_000_000) (smi240_accel false 1)).0

running_samples :
    sample_times (30_000_000 ∷ 40_000_000 ∷ 50_000_000 ∷ 90_000_000 ∷ []) running
    ≡ 30_000_000 ∷ 50_000_000 ∷ 90_000_000 ∷ []
unfolding sample_times run_round activate batch smi240_accel
running_samples = refl

sample_times-IsSpaced_example :
    IsSpaced running.sampling_period_ns running.last_sample_time_ns
      (sample_times (30_000_000 ∷ 40_000_000 ∷ []) running)
sample_times-IsSpaced_example = sample_times-IsSpaced (30_000_000 ∷ 40_000_000 ∷ []) running

run_round_wakes_example :
    (w : ℕ) × ((run_round 5_000_000 running).2 ≡ for_ns w)
    × (w ≤ running.sampling_period_ns)
    × ((run_round 20_000_000 (run_round 5_000_000 running).0).1 ≡ leb (5_000_000 + w) 20_000_000)
unfolding activate batch smi240_accel
run_round_wakes_example = run_round_wakes 5_000_000 20_000_000 running refl refl (omega arith)
