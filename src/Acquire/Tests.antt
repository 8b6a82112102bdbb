-- ===== src/Acquire/Tests.antt =====
-- The way of samples at concrete lines.
use smi240_android_hal.Prelude.{
  ℕ, ◌+◌, ◌-◌, ◌^◌, ◌≤◌, ◌≡◌, refl, true, false, some, List, [], ◌∷◌, arith, map, length,
}
use smi240_android_hal.Prelude.Int.{pos, negsuc}
use smi240_android_hal.Prelude.Float.{IsNumber, hundredths}
use smi240_android_hal.SimpleList.Kept.{kept}
use smi240_android_hal.Algo.{accelerometer, gyroscope_uncalibrated}
use smi240_android_hal.Algo.Process.{stamp_of}
use smi240_android_hal.Legacy.{Legacy, activate, batch, run, start_with}
use smi240_android_hal.Legacy.Runs.{start_with-Inv}
use smi240_android_hal.SensorTable.Listed.{full_list}
use smi240_android_hal.Acquire.{
  Platform, Sample, Polling, Locals, Lists, Allocations, poll, begin, deliver_sensordata,
  sensord_read_rawdata, process, sleep_us,
}
use smi240_android_hal.Acquire.Collect.{Measurement, Samples, reading_of, poll_collects}
use smi240_android_hal.Acquire.Drain.{taken, sensord_read_rawdata_takes}
use smi240_android_hal.Acquire.Pipeline.{idle}
use smi240_android_hal.Acquire.Events.{acc_times, gyro_times, sampling_round_delivers}
use smi240_android_hal.Acquire.Pace.{run-sleep}

centi_numbers : (k : ℕ) → IsNumber hundredths (hundredths.centi k)
centi_numbers k = record { le_lt = λ j. ground arith; lt_down = λ i j h e. ground arith }

abbrev pub board : Platform
board = record {
  fl = hundredths;
  to_int = λ n. pos n;
  long_max = 2 ^ 63 - 1;
  place_g = 0;
  accl_range = 16;
  gyro_range = 300;
}

abbrev pub garbage : Locals
garbage = record { buffer = 7 ∷ 7 ∷ []; xyz = (pos 1, pos 2, pos 3) }

abbrev pub at : ℕ → Measurement
at t = record { x = pos 12; y = negsuc 6; z = pos 0; time = t }

abbrev pub sample_at : ℕ → Sample ℕ
sample_at t = record { id = accelerometer; x = 1; y = 2; z = 3; timestamp = t }

abbrev pub rotation_at : ℕ → Sample ℕ
rotation_at t = record { id = gyroscope_uncalibrated; x = 1; y = 2; z = 3; timestamp = t }

abbrev all_work : Allocations
all_work = record { acc_array = true; gyro_array = true; align_ind = true; event = λ k. true }

-- A list with room for two samples keeps the last two.
poll_collects_example :
    (ds : List (Sample ℕ)) × (s' : Polling ℕ) × Samples board accelerometer (at 5 ∷ at 6 ∷ []) ds
    × (poll board accelerometer
          (map reading_of (at 5 ∷ at 6 ∷ []))
          (begin board garbage (record { items = sample_at 4 ∷ []; uplimit = 2 }))
        ≡ some s')
    × (s'.list ≡ record { items = kept 2 (sample_at 4 ∷ ds); uplimit = 2 })
poll_collects_example =
    poll_collects board accelerometer (at 5 ∷ at 6 ∷ [])
      (begin board garbage (record { items = sample_at 4 ∷ []; uplimit = 2 })) (omega arith)
      (omega arith) (omega arith) (omega arith) (omega arith)

abbrev mixed : Lists ℕ
mixed = record (idle 8) {
  shared = record { items = sample_at 4 ∷ rotation_at 5 ∷ sample_at 6 ∷ []; uplimit = 8 };
}

sensord_read_rawdata_takes_example :
    sensord_read_rawdata board false (λ k. true) mixed ≡ taken mixed.shared.items mixed
sensord_read_rawdata_takes_example =
    sensord_read_rawdata_takes board (λ k. true) false mixed (λ k. refl)
      (
        record { fits = omega arith; positive = omega arith },
        record { fits = omega arith; positive = omega arith },
      )
      (λ e. cc)

sampling_round_delivers_example :
    (l : Lists ℕ) × (deliver_sensordata board garbage garbage
        (map reading_of (at 5 ∷ at 7 ∷ []))
        (map reading_of (at 6 ∷ []))
        (idle 128)
      ≡ some (l, true))
    × (let r = process board all_work (sensord_read_rawdata board true (λ k. true) l) in
        (r.0 ≡ idle 128)
        × (length r.1 ≡ 2 + 1)
        × (acc_times (map stamp_of r.1) ≡ 5 ∷ 7 ∷ [])
        × (gyro_times (map stamp_of r.1) ≡ 6 ∷ []))
sampling_round_delivers_example =
    sampling_round_delivers board 128 garbage garbage (at 5 ∷ at 7 ∷ []) (at 6 ∷ []) (λ k. true)
      all_work (omega arith) (omega arith) refl refl (omega arith) (omega arith) (omega arith)
      (λ k. refl) (refl, refl, refl, λ k. refl)

run-sleep_example :
    (t : Legacy ℕ) × (run hundredths
        (activate 1 true ∷ batch 1 (pos 0) (pos 0) ∷ [])
        (start_with hundredths full_list)
      ≡ some t)
    × (sleep_us t.sampling_interval + 600 ≡ t.sampling_interval)
    × (1900 ≤ sleep_us t.sampling_interval)
    × (sleep_us t.sampling_interval ≤ 999_400)
run-sleep_example =
    run-sleep hundredths centi_numbers (activate 1 true ∷ batch 1 (pos 0) (pos 0) ∷ [])
      (start_with hundredths full_list) (start_with-Inv hundredths centi_numbers)
