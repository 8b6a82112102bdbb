-- ===== src/Acquire/Events.antt =====
-- From the lines of the chips to the events of the framework.
use smi240_android_hal.Prelude.{
  ℕ, ◌+◌, ◌≤◌, ◌<◌, ◌≡◌, refl, ap, ◌∙◌, Bool, true, false, none, some, List, [], ◌∷◌, arith, length,
  ◌==◌, map,
}
use smi240_android_hal.Scan.RoundTrip.{IsLongMax}
use smi240_android_hal.Algo.{
  HwData, EventType, accelerometer, gyroscope_uncalibrated, InputId, acceleration, angularrate,
  sensord_algo_process, events_of, event_of, deliver, sort_input_samples,
}
use smi240_android_hal.Algo.Align.{of_acc, of_gyr, sort_input_samples-Aligned}
use smi240_android_hal.Algo.Process.{
  stamp, stamp_of, IsAcclRange, IsGyroRange, sensord_algo_process_all, length-map,
}
use smi240_android_hal.Acquire.{
  Sample, Platform, F, Locals, Lists, Allocations, hw_data, events_from, process_arrays, process,
  deliver_sensordata, sensord_read_rawdata,
}
use smi240_android_hal.Acquire.Collect.{Measurement, AllShort, Samples, reading_of}
use smi240_android_hal.Acquire.Drain.{if_acc}
use smi240_android_hal.Acquire.Pipeline.{
  idle, sorted_lists, polled-Samples_arrive, sample_of-id, Samples-acc, Samples-gyro,
}

-- The timestamps of the events of each chip.
abbrev pub acc_times : List (EventType × ℕ) → List ℕ
acc_times [] = []
acc_times ((ty, t) ∷ ps) = if_acc ty (t ∷ acc_times ps) (acc_times ps)

abbrev pub gyro_times : List (EventType × ℕ) → List ℕ
gyro_times [] = []
gyro_times ((ty, t) ∷ ps) = if_acc ty (gyro_times ps) (t ∷ gyro_times ps)

acc_times-stamp :
    (ps : List (InputId × HwData)) → acc_times (map stamp ps) ≡ map (λ d. d.timestamp) (of_acc ps)
acc_times-stamp [] = refl
acc_times-stamp ((acceleration, d) ∷ ps) = ap (◌∷◌ d.timestamp) (acc_times-stamp ps)
acc_times-stamp ((angularrate, d) ∷ ps) = acc_times-stamp ps

gyro_times-stamp :
    (ps : List (InputId × HwData)) → gyro_times (map stamp ps) ≡ map (λ d. d.timestamp) (of_gyr ps)
gyro_times-stamp [] = refl
gyro_times-stamp ((acceleration, d) ∷ ps) = gyro_times-stamp ps
gyro_times-stamp ((angularrate, d) ∷ ps) = ap (◌∷◌ d.timestamp) (gyro_times-stamp ps)

-- Every allocation of a round succeeds.
abbrev pub AllWork : Allocations → Type 0
AllWork a =
    (a.acc_array ≡ true)
    × (a.gyro_array ≡ true)
    × (a.align_ind ≡ true)
    × ((k : ℕ) → a.event k ≡ true)

module _ (p : Platform) where
  pub events_from-all :
      (works : ℕ → Bool) (k : ℕ) (ds : List (InputId × HwData))
      → ((j : ℕ) → works j ≡ true)
      → events_from p works k ds ≡ events_of p.fl p.accl_range p.gyro_range ds
  unfolding events_from events_of
  events_from-all works k [] ok = refl
  events_from-all works k (d ∷ ds) ok = rw (ok k) (λ i.
      elim (event_of p.fl p.accl_range p.gyro_range d) [
        | none ↦ events_from-all works (k + 1) ds ok i
        | some e ↦ e ∷ events_from-all works (k + 1) ds ok i
      ])

  process-sorted :
      (a : Allocations) (n : ℕ) (das dgs : List (Sample (F p)))
      → AllWork a
      → 0 < length das + length dgs
      → process p a (sorted_lists p n das dgs) ≡ (
        idle n,
        sensord_algo_process p.fl p.accl_range p.gyro_range
            (map (hw_data p) das)
            (map (hw_data p) dgs),
      )
  unfolding process process_arrays sensord_algo_process
  process-sorted a n das dgs (wa, wg, wi, we) some_sample =
      let nonempty : (length das + length dgs == 0) ≡ false = ground arith in
      let all =
        events_from-all a.event 0
          (deliver (sort_input_samples (map (hw_data p) das) (map (hw_data p) dgs))
            (map (hw_data p) das) (map (hw_data p) dgs))
          we in
      ground (arith, nonempty, wa, wg, wi, all)

  Samples-times :
      (id : EventType) (ms : List Measurement) (ds : List (Sample (F p)))
      → Samples p id ms ds
      → map {B = ℕ} (λ d. d.timestamp) (map (hw_data p) ds) ≡ map (λ m. m.time) ms
  Samples-times id [] [] h = refl
  Samples-times id [] (d ∷ ds) h = absurd h
  Samples-times id (m ∷ ms) [] h = absurd h
  Samples-times id (m ∷ ms) (d ∷ ds) (e, h) =
      let (_, t) = sample_of-id p id (m.x, m.y, m.z) m.time d e in
      λ i. t i ∷ Samples-times id ms ds h i

  -- Where LONG_MAX is 2^31 - 1 at least, the lines are of numbers that fit 32 bits, there is one at
  -- least and no more than the limit of the lists, all lists are empty, the settings are in the tables
  -- and the allocations succeed: a round of the polling thread, which signals the other one, and a round
  -- of that one leave all lists empty again and deliver one event for each line, with the type of its
  -- chip and the time at which the line was read, those of each chip in the order of their lines.
  pub sampling_round_delivers :
      (n : ℕ) (u v : Locals) (accs gyrs : List Measurement) (works : ℕ → Bool) (a : Allocations)
      → IsLongMax p.long_max
      → p.place_g < 8
      → IsAcclRange p.accl_range
      → IsGyroRange p.gyro_range
      → AllShort accs × AllShort gyrs
      → 0 < length accs + length gyrs
      → length accs + length gyrs ≤ n
      → ((k : ℕ) → works k ≡ true)
      → AllWork a
      → (l : Lists (F p)) × (deliver_sensordata p u v
            (map reading_of accs)
            (map reading_of gyrs)
            (idle n)
          ≡ some (l, true))
        × (let r = process p a (sensord_read_rawdata p true works l) in
            (r.0 ≡ idle n)
            × (length r.1 ≡ length accs + length gyrs)
            × (acc_times (map stamp_of r.1) ≡ map (λ m. m.time) accs)
            × (gyro_times (map stamp_of r.1) ≡ map (λ m. m.time) gyrs))
  sampling_round_delivers n u v accs gyrs works a long place ra rg short some_line fits ok all =
      let (das, dgs, l, ha, hg, e, r) =
        polled-Samples_arrive p n u v accs gyrs works long place short some_line fits ok in
      let (_, _, la) = Samples-acc p accs das ha in
      let (_, _, lg) = Samples-gyro p gyrs dgs hg in
      let processed = ap (process p a) r ∙ process-sorted a n das dgs all (omega (arith, la, lg)) in
      let acc = map (hw_data p) das in
      let gyro = map (hw_data p) dgs in
      let (ea, eg, _) = sort_input_samples-Aligned acc gyro in
      let (count, stamps) =
        sensord_algo_process_all p.fl p.accl_range p.gyro_range acc gyro ra rg in
      (
        l,
        e,
        rw processed (
          refl,
          count ∙ (λ i. (length-map (hw_data p) das ∙ la) i + (length-map (hw_data p) dgs ∙ lg) i),
          ap acc_times stamps
              ∙ acc_times-stamp (deliver (sort_input_samples acc gyro) acc gyro)
              ∙ ap (map (λ d. d.timestamp)) ea
              ∙ Samples-times accelerometer accs das ha,
          ap gyro_times stamps
              ∙ gyro_times-stamp (deliver (sort_input_samples acc gyro) acc gyro)
              ∙ ap (map (λ d. d.timestamp)) eg
              ∙ Samples-times gyroscope_uncalibrated gyrs dgs hg,
        ),
      )
