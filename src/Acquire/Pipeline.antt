-- ===== src/Acquire/Pipeline.antt =====
-- A round of the polling thread followed by a round of the processing thread.
use mathlib.Core.List.{append-nil}
use smi240_android_hal.Prelude.{
  ℕ, ◌+◌, ◌≤◌, ◌<◌, ◌≡◌, refl, ap, ◌∙◌, Bool, true, false, some, List, [], ◌∷◌, ◌++◌, arith, length,
  ◌==◌, map, length-append,
}
use smi240_android_hal.Prelude.Int.{ℤ}
use smi240_android_hal.Scan.{◌>>=◌}
use smi240_android_hal.Scan.RoundTrip.{IsLongMax}
use smi240_android_hal.SimpleList.Fifo.{Fifo}
use smi240_android_hal.SimpleList.Kept.{kept-fits, mount_rear-kept}
use smi240_android_hal.Algo.{EventType, accelerometer, gyroscope_uncalibrated}
use smi240_android_hal.Acquire.{
  Sample, Reading, Platform, F, Polling, Locals, Lists, begin, sample_of, poll, hand_over,
  deliver_sensordata, sensord_read_rawdata,
}
use smi240_android_hal.Acquire.Collect.{Measurement, AllShort, Samples, reading_of, poll_collects}
use smi240_android_hal.Acquire.Drain.{acc_in, gyro_in, if_acc, taken, sensord_read_rawdata_takes}

-- An empty list with a limit.
abbrev pub empty : {F : Type 0} → ℕ → Fifo (Sample F)
empty n = record { items = []; uplimit = n }

-- The five lists, all empty.
abbrev pub idle : {F : Type 0} → ℕ → Lists F
idle n = record {
  hwcntl_acclraw = empty n;
  hwcntl_gyroraw = empty n;
  shared = empty n;
  sensord_acclraw = empty n;
  sensord_gyroraw = empty n;
}

module _ {F : Type 0} where
  pub acc_in-append : (xs ys : List (Sample F)) → acc_in (xs ++ ys) ≡ acc_in xs ++ acc_in ys
  acc_in-append [] ys = refl
  acc_in-append (d ∷ ds) ys = by_id d.id d (acc_in-append ds ys)
    where
      by_id :
          (id : EventType) (d : Sample F) {ts : List (Sample F)}
          → ts ≡ acc_in ds ++ acc_in ys
          → if_acc id (d ∷ ts) ts ≡ if_acc id (d ∷ acc_in ds) (acc_in ds) ++ acc_in ys
      by_id accelerometer d h = ap (◌∷◌ d) h
      by_id gyroscope_uncalibrated d h = h

  pub gyro_in-append : (xs ys : List (Sample F)) → gyro_in (xs ++ ys) ≡ gyro_in xs ++ gyro_in ys
  gyro_in-append [] ys = refl
  gyro_in-append (d ∷ ds) ys = by_id d.id d (gyro_in-append ds ys)
    where
      by_id :
          (id : EventType) (d : Sample F) {ts : List (Sample F)}
          → ts ≡ gyro_in ds ++ gyro_in ys
          → if_acc id ts (d ∷ ts) ≡ if_acc id (gyro_in ds) (d ∷ gyro_in ds) ++ gyro_in ys
      by_id accelerometer d h = h
      by_id gyroscope_uncalibrated d h = ap (◌∷◌ d) h

module _ (p : Platform) where
  pub sample_of-id :
      (id : EventType) (xyz : ℤ × ℤ × ℤ) (t : ℕ) (d : Sample (F p))
      → sample_of p id xyz t ≡ some d
      → (d.id ≡ id) × (d.timestamp ≡ t)
  unfolding sample_of
  sample_of-id accelerometer xyz t d e = ground (arith, e)
  sample_of-id gyroscope_uncalibrated xyz t d e = ground (arith, e)

  -- The samples of a chip are of that chip.
  pub Samples-acc :
      (ms : List Measurement) (ds : List (Sample (F p)))
      → Samples p accelerometer ms ds
      → (acc_in ds ≡ ds) × (gyro_in ds ≡ []) × (length ds ≡ length ms)
  Samples-acc [] [] h = (refl, refl, refl)
  Samples-acc [] (d ∷ ds) h = absurd h
  Samples-acc (m ∷ ms) [] h = absurd h
  Samples-acc (m ∷ ms) (d ∷ ds) (e, h) =
      let (id, _) = sample_of-id accelerometer (m.x, m.y, m.z) m.time d e in
      let (a, g, n) = Samples-acc ms ds h in (simp (id, a), simp (id, g), omega (arith, n))

  pub Samples-gyro :
      (ms : List Measurement) (ds : List (Sample (F p)))
      → Samples p gyroscope_uncalibrated ms ds
      → (acc_in ds ≡ []) × (gyro_in ds ≡ ds) × (length ds ≡ length ms)
  Samples-gyro [] [] h = (refl, refl, refl)
  Samples-gyro [] (d ∷ ds) h = absurd h
  Samples-gyro (m ∷ ms) [] h = absurd h
  Samples-gyro (m ∷ ms) (d ∷ ds) (e, h) =
      let (id, _) = sample_of-id gyroscope_uncalibrated (m.x, m.y, m.z) m.time d e in
      let (a, g, n) = Samples-gyro ms ds h in (simp (id, a), simp (id, g), omega (arith, n))

  -- The five lists where the processing thread has the samples of both chips.
  abbrev pub sorted_lists : ℕ → List (Sample (F p)) → List (Sample (F p)) → Lists (F p)
  sorted_lists n das dgs = record (idle n) {
    sensord_acclraw = record { items = das; uplimit = n };
    sensord_gyroraw = record { items = dgs; uplimit = n };
  }

  -- The lists after the polls, before the hand-over.
  abbrev polled : ℕ → List (Sample (F p)) → List (Sample (F p)) → Lists (F p)
  polled n das dgs = record (idle n) {
    hwcntl_acclraw = record { items = das; uplimit = n };
    hwcntl_gyroraw = record { items = dgs; uplimit = n };
  }

  hand_over-polled :
      (n : ℕ) (das dgs : List (Sample (F p)))
      → length das + length dgs ≤ n
      → hand_over p (polled n das dgs)
        ≡ record (idle n) { shared = record { items = das ++ dgs; uplimit = n } }
  unfolding hand_over
  hand_over-polled n das dgs fits =
      let first = mount_rear-kept (empty n) (record { items = das; uplimit = n }) (omega arith) in
      let k = kept-fits n das (omega arith) in
      let second =
        mount_rear-kept (record { items = das; uplimit = n }) (record { items = dgs; uplimit = n })
          (omega arith) in
      let k' = kept-fits n (das ++ dgs) (omega (arith, length-append das dgs)) in
      rw (first.0, first.1, k) (rw (second.0, second.1, k') refl)

  taken-polled :
      (n : ℕ) (accs gyrs : List Measurement) (das dgs : List (Sample (F p)))
      → Samples p accelerometer accs das
      → Samples p gyroscope_uncalibrated gyrs dgs
      → length das + length dgs ≤ n
      → taken (das ++ dgs) (record (idle n) { shared = record { items = das ++ dgs; uplimit = n } })
        ≡ sorted_lists n das dgs
  taken-polled n accs gyrs das dgs ha hg fits =
      let (aa, ga, _) = Samples-acc accs das ha in
      let (ag, gg, _) = Samples-gyro gyrs dgs hg in
      let of_acc : acc_in (das ++ dgs) ≡ das =
        acc_in-append das dgs ∙ rw (aa, ag) (append-nil das) in
      let of_gyro : gyro_in (das ++ dgs) ≡ dgs = gyro_in-append das dgs ∙ rw (ga, gg) refl in
      rw (of_acc, of_gyro) (rw (kept-fits n das (omega arith), kept-fits n dgs (omega arith)) refl)

  -- The list that the polling thread hands over.
  abbrev handed : ℕ → List (Sample (F p)) → List (Sample (F p)) → Lists (F p)
  handed n das dgs = record (idle n) { shared = record { items = das ++ dgs; uplimit = n } }

  deliver-polled :
      (n : ℕ) (u v : Locals) (ra rg : List Reading) (das dgs : List (Sample (F p)))
      (a g : Polling (F p))
      → poll p accelerometer ra (begin p u (empty n)) ≡ some a
      → poll p gyroscope_uncalibrated rg (begin p v (empty n)) ≡ some g
      → a.list ≡ record { items = das; uplimit = n }
      → g.list ≡ record { items = dgs; uplimit = n }
      → 0 < length das + length dgs
      → length das + length dgs ≤ n
      → deliver_sensordata p u v ra rg (idle n) ≡ some (handed n das dgs, true)
  unfolding deliver_sensordata
  deliver-polled n u v ra rg das dgs a g ea eg qa qg some_line fits =
      let nonempty : (length das + length dgs == 0) ≡ false = ground arith in
      rw (ea, ◌>>=◌)
        (rw (eg, ◌>>=◌)
          (rw (qa, qg) (rw nonempty (ap (λ h. some (h, true)) (hand_over-polled n das dgs fits)))))

  read-polled :
      (n : ℕ) (accs gyrs : List Measurement) (das dgs : List (Sample (F p))) (works : ℕ → Bool)
      → Samples p accelerometer accs das
      → Samples p gyroscope_uncalibrated gyrs dgs
      → 0 < length das + length dgs
      → length das + length dgs ≤ n
      → ((k : ℕ) → works k ≡ true)
      → sensord_read_rawdata p true works (handed n das dgs) ≡ sorted_lists n das dgs
  read-polled n accs gyrs das dgs works ha hg some_line fits ok =
      sensord_read_rawdata_takes p works true (handed n das dgs) ok
        (
          record { fits = omega arith; positive = omega arith },
          record { fits = omega arith; positive = omega arith },
        )
        (λ e. omega (arith, ap length e, length-append das dgs))
      ∙ taken-polled n accs gyrs das dgs ha hg fits

  -- Where LONG_MAX is that of 32 bits at least, the gyroscope's position is in the table, the numbers of
  -- all lines fit 32 bits, there is a line, no more lines than the limit of the lists, all lists are
  -- empty and the allocations succeed: the polling thread accesses only its own memory and signals the
  -- processing thread, which then has exactly the samples of the lines, those of each chip in their
  -- order, while the other three lists are empty.
  pub polled-Samples_arrive :
      (n : ℕ) (u v : Locals) (accs gyrs : List Measurement) (works : ℕ → Bool)
      → IsLongMax p.long_max
      → p.place_g < 8
      → AllShort accs × AllShort gyrs
      → 0 < length accs + length gyrs
      → length accs + length gyrs ≤ n
      → ((k : ℕ) → works k ≡ true)
      → (das : List (Sample (F p))) × (dgs : List (Sample (F p))) × (l : Lists (F p)) × Samples p
          accelerometer accs das
        × Samples p gyroscope_uncalibrated gyrs dgs
        × (deliver_sensordata p u v (map reading_of accs) (map reading_of gyrs) (idle n)
            ≡ some (l, true))
        × (sensord_read_rawdata p true works l ≡ sorted_lists n das dgs)
  polled-Samples_arrive n u v accs gyrs works long place (sa, sg) some_line fits ok =
      let (das, a, ha, ea, qa) =
        poll_collects p accelerometer accs (begin p u (empty n)) long place sa (omega arith)
          (omega arith) in
      let (dgs, g, hg, eg, qg) =
        poll_collects p gyroscope_uncalibrated gyrs (begin p v (empty n)) long place sg
          (omega arith) (omega arith) in
      let (_, _, la) = Samples-acc accs das ha in
      let (_, _, lg) = Samples-gyro gyrs dgs hg in
      let ka = kept-fits n das (omega (arith, la)) in
      let kg = kept-fits n dgs (omega (arith, lg)) in
      (
        das,
        dgs,
        handed n das dgs,
        ha,
        hg,
        deliver-polled n u v _ _ das dgs a g ea eg (qa ∙ λ i. record { items = ka i; uplimit = n })
            (qg ∙ λ i. record { items = kg i; uplimit = n }) (omega (arith, la, lg))
            (omega (arith, la, lg)),
        read-polled n accs gyrs das dgs works ha hg (omega (arith, la, lg)) (omega (arith, la, lg))
            ok,
      )
