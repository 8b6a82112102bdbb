-- ===== src/Algo/Process.antt =====
-- What sensord_algo_process delivers.
use smi240_android_hal.Prelude.{
  ℕ, suc, ◌+◌, ◌≡◌, refl, ap, sym, ◌∙◌, some, List, [], ◌∷◌, arith, length, true, ◌||◌, ◌==◌, map,
}
use smi240_android_hal.Prelude.Float.{Float}
use smi240_android_hal.Algo.{
  HwData, InputId, acceleration, angularrate, SensorsEvent, event_of, events_of,
  sensord_algo_process, deliver, sort_input_samples, accelerometer, gyroscope_uncalibrated,
  EventType,
}
use smi240_android_hal.Algo.Align.{of_acc, of_gyr, sort_input_samples-Aligned}

-- The type and the timestamp that the event of a sample has.
abbrev pub stamp : InputId × HwData → EventType × ℕ
stamp (acceleration, d) = (accelerometer, d.timestamp)
stamp (angularrate, d) = (gyroscope_uncalibrated, d.timestamp)

abbrev pub stamp_of : {F : Type 0} → SensorsEvent F → EventType × ℕ
stamp_of e = (e.type, e.timestamp)

pub length-map {ℓ} : {A B : Type ℓ} (f : A → B) (xs : List A) → length (map f xs) ≡ length xs
length-map f [] = refl
length-map f (x ∷ xs) = ap suc (length-map f xs)

-- The ranges that the switches know.
abbrev pub IsAcclRange : ℕ → Type 0
IsAcclRange r = (r == 2 || (r == 4 || (r == 8 || r == 16))) ≡ true

abbrev pub IsGyroRange : ℕ → Type 0
IsGyroRange r =
    (r == 125 || (r == 250 || (r == 300 || (r == 500 || (r == 1000 || r == 2000))))) ≡ true

event_of-stamp :
    (fl : Float) (ra rg : ℕ) (p : InputId × HwData)
    → IsAcclRange ra
    → IsGyroRange rg
    → (e : SensorsEvent fl.F) × (event_of fl ra rg p ≡ some e) × (stamp_of e ≡ stamp p)
unfolding event_of
event_of-stamp fl ra rg (acceleration, d) h k = rw h (_, refl, refl)
event_of-stamp fl ra rg (angularrate, d) h k = rw k (_, refl, refl)

events_of-stamps :
    (fl : Float) (ra rg : ℕ) (ps : List (InputId × HwData))
    → IsAcclRange ra
    → IsGyroRange rg
    → map stamp_of (events_of fl ra rg ps) ≡ map stamp ps
unfolding events_of
events_of-stamps fl ra rg [] h k = refl
events_of-stamps fl ra rg (p ∷ ps) h k =
    let (e, found, same) = event_of-stamp fl ra rg p h k in
    rw (found, events_of) (λ i. same i ∷ events_of-stamps fl ra rg ps h k i)

length_by_chip :
    (ps : List (InputId × HwData)) → length ps ≡ length (of_acc ps) + length (of_gyr ps)
length_by_chip [] = refl
length_by_chip ((acceleration, d) ∷ ps) = omega (arith, length_by_chip ps)
length_by_chip ((angularrate, d) ∷ ps) = omega (arith, length_by_chip ps)

-- For ranges that the switches know, there is one event for each sample of each chip, with the type
-- of its chip and the timestamp of the sample, in the order of the aligned samples.
pub sensord_algo_process_all :
    (fl : Float) (accl_range gyro_range : ℕ) (acc gyr : List HwData)
    → IsAcclRange accl_range
    → IsGyroRange gyro_range
    → let es = sensord_algo_process fl accl_range gyro_range acc gyr in
      (length es ≡ length acc + length gyr)
      × (map stamp_of es ≡ map stamp (deliver (sort_input_samples acc gyr) acc gyr))
unfolding sensord_algo_process
sensord_algo_process_all fl ra rg acc gyr h k =
    let ps = deliver (sort_input_samples acc gyr) acc gyr in
    let stamps = events_of-stamps fl ra rg ps h k in
    let (ea, eg, _) = sort_input_samples-Aligned acc gyr in
    (
      sym (length-map stamp_of (events_of fl ra rg ps))
          ∙ ap length stamps
          ∙ length-map stamp ps
          ∙ length_by_chip ps
          ∙ (λ i. length (ea i) + length (eg i)),
      stamps,
    )
