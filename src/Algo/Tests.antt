-- ===== src/Algo/Tests.antt =====
-- Samples at concrete times.
use smi240_android_hal.Prelude.{
  ℕ, ◌+◌, ◌≤◌, ◌≡◌, refl, true, false, List, [], ◌∷◌, arith, length, map,
}
use smi240_android_hal.Prelude.Int.{pos}
use smi240_android_hal.Prelude.Float.{hundredths}
use smi240_android_hal.Algo.{HwData, sort_input_samples, deliver, sensord_algo_process}
use smi240_android_hal.Algo.Align.{of_acc, of_gyr, sort_input_samples-Aligned}
use smi240_android_hal.Algo.Order.{IsOrdered, sort_input_samples-IsOrdered}
use smi240_android_hal.Algo.Process.{stamp, stamp_of, sensord_algo_process_all}

abbrev at_time : ℕ → HwData
at_time t = record { x = pos 1; y = pos 2; z = pos 3; timestamp = t }

abbrev some_acc : List HwData
some_acc = at_time 10 ∷ at_time 20 ∷ at_time 30 ∷ []

abbrev some_gyr : List HwData
some_gyr = at_time 10 ∷ at_time 25 ∷ []

aligned :
    sort_input_samples some_acc some_gyr
    ≡ record { has_acc = true; has_gyr = true }
      ∷ record { has_acc = true; has_gyr = false }
      ∷ record { has_acc = false; has_gyr = true }
      ∷ record { has_acc = true; has_gyr = false }
      ∷ []
unfolding sort_input_samples
aligned = refl

-- A timestamp of 0 counts as none: the later sample comes first.
zero_comes_late :
    map {B = ℕ}
      (λ p. p.1.timestamp)
      (deliver
        (sort_input_samples (at_time 5 ∷ []) (at_time 0 ∷ []))
        (at_time 5 ∷ [])
        (at_time 0 ∷ []))
    ≡ 5 ∷ 0 ∷ []
unfolding sort_input_samples deliver
zero_comes_late = refl

sort_input_samples-Aligned_example :
    let is = sort_input_samples some_acc some_gyr in
    (of_acc (deliver is some_acc some_gyr) ≡ some_acc)
    × (of_gyr (deliver is some_acc some_gyr) ≡ some_gyr)
    × (length is ≤ 3 + 2)
sort_input_samples-Aligned_example = sort_input_samples-Aligned some_acc some_gyr

sort_input_samples-IsOrdered_example :
    IsOrdered 1 (deliver (sort_input_samples some_acc some_gyr) some_acc some_gyr)
sort_input_samples-IsOrdered_example =
    sort_input_samples-IsOrdered some_acc some_gyr (omega arith) (omega arith)

sensord_algo_process_all_example :
    let es = sensord_algo_process hundredths 16 300 some_acc some_gyr in
    (length es ≡ 3 + 2)
    × (map stamp_of es
        ≡ map stamp (deliver (sort_input_samples some_acc some_gyr) some_acc some_gyr))
sensord_algo_process_all_example =
    sensord_algo_process_all hundredths 16 300 some_acc some_gyr refl refl
