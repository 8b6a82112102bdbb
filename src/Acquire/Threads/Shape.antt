-- ===== src/Acquire/Threads/Shape.antt =====
-- What a step does to the lists, where they have room.
use mathlib.Core.List.{append-nil, append_assoc}
use smi240_android_hal.Prelude.{
  ℕ, ◌+◌, ◌≤◌, ◌<◌, ◌≡◌, refl, ap, ◌∙◌, true, false, not, some, List, [], ◌∷◌, ◌++◌, arith, length,
  ◌==◌, map, length-append, suc,
}
use smi240_android_hal.Scan.{◌>>=◌}
use smi240_android_hal.SimpleList.Kept.{kept-fits, mount_rear-kept}
use smi240_android_hal.Algo.{
  EventType, accelerometer, gyroscope_uncalibrated, sensord_algo_process, deliver,
  sort_input_samples,
}
use smi240_android_hal.Acquire.{
  Sample, Platform, F, Locals, Lists, Polling, Reading, Allocations, begin, poll, hw_data,
  hand_over, process, deliver_sensordata, sensord_read_rawdata, process_arrays,
}
use smi240_android_hal.Acquire.Drain.{acc_in, gyro_in, if_acc, taken, sensord_read_rawdata_takes}
use smi240_android_hal.Acquire.Pipeline.{idle, empty}
use smi240_android_hal.Acquire.Events.{AllWork, events_from-all}

module _ (p : Platform) where
  -- The lists with the samples `xs` handed over, and `bs` and `gs` taken.
  abbrev pub shape :
      ℕ → List (Sample (F p)) → List (Sample (F p)) → List (Sample (F p)) → Lists (F p)
  shape n xs bs gs = record (idle n) {
    shared = record { items = xs; uplimit = n };
    sensord_acclraw = record { items = bs; uplimit = n };
    sensord_gyroraw = record { items = gs; uplimit = n };
  }

  hand_over-shape :
      (n : ℕ) (xs das dgs bs gs : List (Sample (F p)))
      → length xs + (length das + length dgs) ≤ n
      → hand_over p (record (shape n xs bs gs) {
        hwcntl_acclraw = record { items = das; uplimit = n };
        hwcntl_gyroraw = record { items = dgs; uplimit = n };
      })
        ≡ shape n (xs ++ (das ++ dgs)) bs gs
  unfolding hand_over
  hand_over-shape n xs das dgs bs gs fits =
      let first =
        mount_rear-kept (record { items = xs; uplimit = n }) (record { items = das; uplimit = n })
          (omega arith) in
      let k = kept-fits n (xs ++ das) (omega (arith, length-append xs das)) in
      let second =
        mount_rear-kept (record { items = xs ++ das; uplimit = n })
          (record { items = dgs; uplimit = n }) (omega (arith, length-append xs das)) in
      let k' =
        kept-fits n ((xs ++ das) ++ dgs)
          (omega (arith, length-append xs das, length-append (xs ++ das) dgs)) in
      rw (first.0, first.1, k) (rw (second.0, second.1, k', append_assoc xs das dgs) refl)

  deliver-some :
      (n : ℕ) (u v : Locals) (ra rg : List Reading) (xs das dgs bs gs : List (Sample (F p)))
      (a g : Polling (F p))
      → poll p accelerometer ra (begin p u (empty n)) ≡ some a
      → poll p gyroscope_uncalibrated rg (begin p v (empty n)) ≡ some g
      → a.list ≡ record { items = das; uplimit = n }
      → g.list ≡ record { items = dgs; uplimit = n }
      → 0 < length das + length dgs
      → length xs + (length das + length dgs) ≤ n
      → deliver_sensordata p u v ra rg (shape n xs bs gs)
        ≡ some (shape n (xs ++ (das ++ dgs)) bs gs, not (length das + length dgs == 0))
  unfolding deliver_sensordata
  deliver-some n u v ra rg xs das dgs bs gs a g ea eg qa qg some_read fits =
      let nonempty : (length das + length dgs == 0) ≡ false = ground arith in
      rw (ea, ◌>>=◌)
        (rw (eg, ◌>>=◌)
          (rw (qa, qg)
            (rw nonempty (ap (λ h. some (h, true)) (hand_over-shape n xs das dgs bs gs fits)))))

  pub deliver-shape :
      (n : ℕ) (u v : Locals) (ra rg : List Reading) (xs das dgs bs gs : List (Sample (F p)))
      (a g : Polling (F p))
      → poll p accelerometer ra (begin p u (empty n)) ≡ some a
      → poll p gyroscope_uncalibrated rg (begin p v (empty n)) ≡ some g
      → a.list ≡ record { items = das; uplimit = n }
      → g.list ≡ record { items = dgs; uplimit = n }
      → length xs + (length das + length dgs) ≤ n
      → deliver_sensordata p u v ra rg (shape n xs bs gs)
        ≡ some (shape n (xs ++ (das ++ dgs)) bs gs, not (length das + length dgs == 0))
  unfolding deliver_sensordata
  deliver-shape n u v ra rg xs [] [] bs gs a g ea eg qa qg fits =
      rw (ea, ◌>>=◌) (rw (eg, ◌>>=◌) (rw (qa, qg, append-nil xs) refl))
  deliver-shape n u v ra rg xs [] (d ∷ dgs) bs gs a g ea eg qa qg fits =
      deliver-some n u v ra rg xs [] (d ∷ dgs) bs gs a g ea eg qa qg (omega arith) fits
  deliver-shape n u v ra rg xs (d ∷ das) dgs bs gs a g ea eg qa qg fits =
      deliver-some n u v ra rg xs (d ∷ das) dgs bs gs a g ea eg qa qg (omega arith) fits

  acc_in-short : (xs : List (Sample (F p))) → length (acc_in xs) ≤ length xs
  acc_in-short [] = omega arith
  acc_in-short (x ∷ xs) = by_id x.id (acc_in xs) (acc_in-short xs)
    where
      by_id :
          (id : EventType) (ts : List (Sample (F p)))
          → length ts ≤ length xs
          → length (if_acc id (x ∷ ts) ts) ≤ suc (length xs)
      by_id accelerometer ts h = omega arith
      by_id gyroscope_uncalibrated ts h = omega arith

  gyro_in-short : (xs : List (Sample (F p))) → length (gyro_in xs) ≤ length xs
  gyro_in-short [] = omega arith
  gyro_in-short (x ∷ xs) = by_id x.id (gyro_in xs) (gyro_in-short xs)
    where
      by_id :
          (id : EventType) (ts : List (Sample (F p)))
          → length ts ≤ length xs
          → length (if_acc id ts (x ∷ ts)) ≤ suc (length xs)
      by_id accelerometer ts h = omega arith
      by_id gyroscope_uncalibrated ts h = omega arith

  taken-shape :
      (n : ℕ) (xs : List (Sample (F p)))
      → length xs ≤ n
      → taken xs (shape n xs [] []) ≡ shape n [] (acc_in xs) (gyro_in xs)
  taken-shape n xs fits =
      let a = kept-fits n (acc_in xs) (omega (arith, acc_in-short xs)) in
      let g = kept-fits n (gyro_in xs) (omega (arith, gyro_in-short xs)) in
      λ i. record (shape n [] [] []) {
        sensord_acclraw = record { items = a i; uplimit = n };
        sensord_gyroraw = record { items = g i; uplimit = n };
      }

  pub take-shape :
      (n : ℕ) (xs : List (Sample (F p)))
      → 0 < n
      → length xs ≤ n
      → sensord_read_rawdata p true (λ k. true) (shape n xs [] [])
        ≡ shape n [] (acc_in xs) (gyro_in xs)
  unfolding sensord_read_rawdata
  take-shape n [] positive fits = refl
  take-shape n (x ∷ xs) positive fits =
      sensord_read_rawdata_takes p (λ k. true) true (shape n (x ∷ xs) [] []) (λ k. refl)
        (
          record { fits = omega arith; positive = omega arith },
          record { fits = omega arith; positive = omega arith },
        )
        (λ e. cc)
      ∙ taken-shape n (x ∷ xs) fits

  process-some :
      (a : Allocations) (n : ℕ) (xs bs gs : List (Sample (F p)))
      → AllWork a
      → 0 < length bs + length gs
      → process p a (shape n xs bs gs) ≡ (
        shape n xs [] [],
        sensord_algo_process p.fl p.accl_range p.gyro_range
            (map (hw_data p) bs)
            (map (hw_data p) gs),
      )
  unfolding process process_arrays sensord_algo_process
  process-some a n xs bs gs (wa, wg, wi, we) some_sample =
      let nonempty : (length bs + length gs == 0) ≡ false = ground arith in
      let all =
        events_from-all p a.event 0
          (deliver (sort_input_samples (map (hw_data p) bs) (map (hw_data p) gs))
            (map (hw_data p) bs) (map (hw_data p) gs))
          we in
      ground (arith, nonempty, wa, wg, wi, all)

  pub process-shape :
      (a : Allocations) (n : ℕ) (xs bs gs : List (Sample (F p)))
      → AllWork a
      → process p a (shape n xs bs gs) ≡ (
        shape n xs [] [],
        sensord_algo_process p.fl p.accl_range p.gyro_range
            (map (hw_data p) bs)
            (map (hw_data p) gs),
      )
  unfolding process sensord_algo_process
  process-shape a n xs [] [] all = refl
  process-shape a n xs (b ∷ bs) gs all = process-some a n xs (b ∷ bs) gs all (omega arith)
  process-shape a n xs [] (g ∷ gs) all = process-some a n xs [] (g ∷ gs) all (omega arith)
