-- ===== src/Acquire/Threads/Polls.antt =====
-- What a round of the polling thread does at each stage of the processing thread.
use smi240_android_hal.Prelude.{
  ℕ, ◌∙◌, suc, length-append, ◌+◌, ◌≤◌, ◌<◌, ◌≡◌, refl, ap, Bool, true, false, some, List, [], ◌∷◌,
  ◌++◌, arith, length, map, ◌==◌, not,
}
use smi240_android_hal.Scan.{◌>>=◌}
use smi240_android_hal.Scan.RoundTrip.{IsLongMax}
use smi240_android_hal.SimpleList.Kept.{kept-fits}
use smi240_android_hal.Algo.{accelerometer, gyroscope_uncalibrated, SensorsEvent}
use smi240_android_hal.Acquire.{Sample, Platform, F, Locals, Reading, Polling, poll, begin}
use smi240_android_hal.Acquire.Collect.{Measurement, AllShort, Samples, reading_of, poll_collects}
use smi240_android_hal.Acquire.Pipeline.{empty, Samples-acc, Samples-gyro}
use smi240_android_hal.Acquire.Threads.{
  Threads, reading, woken, processing, poll_chips, signal, step,
}
use smi240_android_hal.Acquire.Threads.Shape.{deliver-shape}
use smi240_android_hal.Acquire.Threads.Stages.{
  Stage, at_lock, at_wait, behind_wait, holding, shared_in, handed_over, state,
}

module _ (p : Platform) where
  signal-unseen :
      (b : Bool)
      → (signal b reading ≡ reading) × (signal b woken ≡ woken) × (signal b processing ≡ processing)
  unfolding signal
  signal-unseen true = (refl, refl, refl)
  signal-unseen false = (refl, refl, refl)

  abbrev after_poll :
      ℕ → List (Sample (F p)) → Bool → Stage (F p) → List (SensorsEvent (F p)) → Threads (F p)
  after_poll n ds b st es = record (state p n st es) {
    lists = record ((state p n st es).lists) {
      shared = record { items = shared_in st ++ ds; uplimit = n };
    };
    phase = signal b (state p n st es).phase;
  }

  after_poll-state :
      (n : ℕ) (ds : List (Sample (F p))) (st : Stage (F p)) (es : List (SensorsEvent (F p)))
      → after_poll n ds (not (length ds == 0)) st es ≡ state p n (handed_over ds st) es
  unfolding signal
  after_poll-state n ds (at_lock xs) es = λ i. record (state p n (at_lock (xs ++ ds)) es) {
    phase = (signal-unseen (not (length ds == 0))).0 i;
  }
  after_poll-state n [] at_wait es = refl
  after_poll-state n (d ∷ ds) at_wait es =
      let some_read : (suc (length ds) == 0) ≡ false = ground arith in rw some_read refl
  after_poll-state n ds (behind_wait xs) es = λ i. record (state p n (behind_wait (xs ++ ds)) es) {
    phase = (signal-unseen (not (length ds == 0))).1 i;
  }
  after_poll-state n ds (holding xs bs gs) es = λ i.
      record (state p n (holding (xs ++ ds) bs gs) es) {
        phase = (signal-unseen (not (length ds == 0))).2 i;
      }

  deliver-stage :
      (n : ℕ) (u v : Locals) (ra rg : List Reading) (das dgs : List (Sample (F p)))
      (a g : Polling (F p)) (st : Stage (F p)) (es : List (SensorsEvent (F p)))
      → poll p accelerometer ra (begin p u (empty n)) ≡ some a
      → poll p gyroscope_uncalibrated rg (begin p v (empty n)) ≡ some g
      → a.list ≡ record { items = das; uplimit = n }
      → g.list ≡ record { items = dgs; uplimit = n }
      → length (shared_in st) + (length das + length dgs) ≤ n
      → step p (poll_chips u v ra rg) (state p n st es)
        ≡ some (after_poll n (das ++ dgs) (not (length (das ++ dgs) == 0)) st es)
  unfolding step
  deliver-stage n u v ra rg das dgs a g (at_lock xs) es ea eg qa qg fits =
      rw
        (
          deliver-shape p n u v ra rg xs das dgs [] [] a g ea eg qa qg fits,
          length-append das dgs,
          ◌>>=◌,
        )
        refl
  deliver-stage n u v ra rg das dgs a g at_wait es ea eg qa qg fits =
      rw
        (
          deliver-shape p n u v ra rg [] das dgs [] [] a g ea eg qa qg fits,
          length-append das dgs,
          ◌>>=◌,
        )
        refl
  deliver-stage n u v ra rg das dgs a g (behind_wait xs) es ea eg qa qg fits =
      rw
        (
          deliver-shape p n u v ra rg xs das dgs [] [] a g ea eg qa qg fits,
          length-append das dgs,
          ◌>>=◌,
        )
        refl
  deliver-stage n u v ra rg das dgs a g (holding xs bs gs) es ea eg qa qg fits =
      rw
        (
          deliver-shape p n u v ra rg xs das dgs bs gs a g ea eg qa qg fits,
          length-append das dgs,
          ◌>>=◌,
        )
        refl

  pub step-poll :
      (n : ℕ) (u v : Locals) (accs gyrs : List Measurement) (st : Stage (F p))
      (es : List (SensorsEvent (F p)))
      → 0 < n
      → IsLongMax p.long_max
      → p.place_g < 8
      → AllShort accs × AllShort gyrs
      → length (shared_in st) + (length accs + length gyrs) ≤ n
      → (das : List (Sample (F p))) × (dgs : List (Sample (F p))) × Samples p accelerometer accs das
        × Samples p gyroscope_uncalibrated gyrs dgs
        × (length (das ++ dgs) ≡ length accs + length gyrs)
        × (step p (poll_chips u v (map reading_of accs) (map reading_of gyrs)) (state p n st es)
            ≡ some (state p n (handed_over (das ++ dgs) st) es))
  step-poll n u v accs gyrs st es positive long place (sa, sg) fits =
      let (das, a, ha, ea, qa) =
        poll_collects p accelerometer accs (begin p u (empty n)) long place sa (omega arith)
          (omega arith) in
      let (dgs, g, hg, eg, qg) =
        poll_collects p gyroscope_uncalibrated gyrs (begin p v (empty n)) long place sg
          (omega arith) (omega arith) in
      let (_, _, la) = Samples-acc p accs das ha in
      let (_, _, lg) = Samples-gyro p gyrs dgs hg in
      let ka = kept-fits n das (omega (arith, la)) in
      let kg = kept-fits n dgs (omega (arith, lg)) in
      (
        das,
        dgs,
        ha,
        hg,
        omega (arith, la, lg, length-append das dgs),
        deliver-stage n u v _ _ das dgs a g st es ea eg
              (qa ∙ λ i. record { items = ka i; uplimit = n })
              (qg ∙ λ i. record { items = kg i; uplimit = n }) (omega (arith, la, lg))
            ∙ ap some (after_poll-state n (das ++ dgs) st es),
      )
