-- ===== src/Acquire/Threads/Invariant.antt =====
-- What holds between the steps of the two threads: what is delivered and what is still in the lists
-- are together the samples of all lines.
use mathlib.Core.List.{append-nil, append_assoc, map-append}
use smi240_android_hal.Prelude.{
  ℕ, ◌+◌, ◌≤◌, ◌≡◌, refl, ap, sym, ◌∙◌, List, [], ◌∷◌, ◌++◌, arith, length, map, length-append,
}
use smi240_android_hal.Algo.{
  EventType, accelerometer, gyroscope_uncalibrated, InputId, acceleration, angularrate,
  SensorsEvent,
}
use smi240_android_hal.Acquire.{Sample, Platform, F, hw_data}
use smi240_android_hal.Acquire.Collect.{Measurement, Samples}
use smi240_android_hal.Acquire.Drain.{acc_in, gyro_in}
use smi240_android_hal.Acquire.Pipeline.{acc_in-append, gyro_in-append, Samples-acc, Samples-gyro}
use smi240_android_hal.Acquire.Threads.Order.{
  acc_events, gyro_events, acc_events-append, gyro_events-append, of_chip, of_chip-append,
  sensord_algo_process-chips,
}
use smi240_android_hal.Acquire.Threads.Stages.{
  Stage, at_lock, at_wait, behind_wait, holding, shared_in, acc_pending, gyro_pending, handed_over,
  woken_up, after_take, after_processing, processed,
}

module _ {F : Type 0} where
  acc_pending-handed_over :
      (ds : List (Sample F)) (st : Stage F)
      → acc_pending (handed_over ds st) ≡ acc_pending st ++ acc_in ds
  acc_pending-handed_over ds (at_lock xs) = acc_in-append xs ds
  acc_pending-handed_over [] at_wait = refl
  acc_pending-handed_over (d ∷ ds) at_wait = refl
  acc_pending-handed_over ds (behind_wait xs) = acc_in-append xs ds
  acc_pending-handed_over ds (holding xs bs gs) =
      ap (◌++◌ bs) (acc_in-append xs ds) ∙ sym (append_assoc bs (acc_in xs) (acc_in ds))

  gyro_pending-handed_over :
      (ds : List (Sample F)) (st : Stage F)
      → gyro_pending (handed_over ds st) ≡ gyro_pending st ++ gyro_in ds
  gyro_pending-handed_over ds (at_lock xs) = gyro_in-append xs ds
  gyro_pending-handed_over [] at_wait = refl
  gyro_pending-handed_over (d ∷ ds) at_wait = refl
  gyro_pending-handed_over ds (behind_wait xs) = gyro_in-append xs ds
  gyro_pending-handed_over ds (holding xs bs gs) =
      ap (◌++◌ gs) (gyro_in-append xs ds) ∙ sym (append_assoc gs (gyro_in xs) (gyro_in ds))

  length-handed_over :
      (ds : List (Sample F)) (st : Stage F)
      → length (shared_in (handed_over ds st)) ≡ length (shared_in st) + length ds
  length-handed_over ds (at_lock xs) = length-append xs ds
  length-handed_over [] at_wait = refl
  length-handed_over (d ∷ ds) at_wait = omega arith
  length-handed_over ds (behind_wait xs) = length-append xs ds
  length-handed_over ds (holding xs bs gs) = length-append xs ds

  pending-woken_up :
      (st : Stage F)
      → (acc_pending (woken_up st) ≡ acc_pending st)
        × (gyro_pending (woken_up st) ≡ gyro_pending st)
        × (shared_in (woken_up st) ≡ shared_in st)
  pending-woken_up (at_lock xs) = (refl, refl, refl)
  pending-woken_up at_wait = (refl, refl, refl)
  pending-woken_up (behind_wait xs) = (refl, refl, refl)
  pending-woken_up (holding xs bs gs) = (refl, refl, refl)

  pending-take :
      (st : Stage F)
      → (acc_pending (after_take st) ≡ acc_pending st)
        × (gyro_pending (after_take st) ≡ gyro_pending st)
        × (length (shared_in (after_take st)) ≤ length (shared_in st))
  pending-take (at_lock []) = (refl, refl, omega arith)
  pending-take (at_lock (x ∷ xs)) =
      (append-nil (acc_in (x ∷ xs)), append-nil (gyro_in (x ∷ xs)), omega arith)
  pending-take at_wait = (refl, refl, omega arith)
  pending-take (behind_wait xs) = (append-nil (acc_in xs), append-nil (gyro_in xs), omega arith)
  pending-take (holding xs bs gs) = (refl, refl, omega arith)

  shared-processing : (st : Stage F) → shared_in (after_processing st) ≡ shared_in st
  shared-processing (at_lock xs) = refl
  shared-processing at_wait = refl
  shared-processing (behind_wait xs) = refl
  shared-processing (holding xs bs gs) = refl

module _ (p : Platform) where
  -- The events of samples of a chip.
  abbrev pub chip_events : InputId → List (Sample (F p)) → List (SensorsEvent (F p))
  chip_events id ds = of_chip p.fl p.accl_range p.gyro_range id (map (hw_data p) ds)

  chip_events-append :
      (id : InputId) (xs ys : List (Sample (F p)))
      → chip_events id (xs ++ ys) ≡ chip_events id xs ++ chip_events id ys
  chip_events-append id xs ys =
      ap (of_chip p.fl p.accl_range p.gyro_range id) (map-append (hw_data p) xs ys)
      ∙ of_chip-append p.fl p.accl_range p.gyro_range id (map (hw_data p) xs) (map (hw_data p) ys)

  processed-chips :
      (st : Stage (F p))
      → (acc_events (processed p st) ++ chip_events acceleration (acc_pending (after_processing st))
          ≡ chip_events acceleration (acc_pending st))
        × (gyro_events (processed p st)
              ++ chip_events angularrate (gyro_pending (after_processing st))
            ≡ chip_events angularrate (gyro_pending st))
  processed-chips (at_lock xs) = (refl, refl)
  processed-chips at_wait = (refl, refl)
  processed-chips (behind_wait xs) = (refl, refl)
  processed-chips (holding xs bs gs) =
      let (ea, eg) =
        sensord_algo_process-chips p.fl p.accl_range p.gyro_range (map (hw_data p) bs)
          (map (hw_data p) gs) in
      (
        ap (λ es. es ++ chip_events acceleration (acc_in xs)) ea
            ∙ sym (chip_events-append acceleration bs (acc_in xs)),
        ap (λ es. es ++ chip_events angularrate (gyro_in xs)) eg
            ∙ sym (chip_events-append angularrate gs (gyro_in xs)),
      )

  Samples-append :
      (id : EventType) (ms ns : List Measurement) (ds es : List (Sample (F p)))
      → Samples p id ms ds
      → Samples p id ns es
      → Samples p id (ms ++ ns) (ds ++ es)
  Samples-append id [] ns [] es h k = k
  Samples-append id [] ns (d ∷ ds) es h k = absurd h
  Samples-append id (m ∷ ms) ns [] es h k = absurd h
  Samples-append id (m ∷ ms) ns (d ∷ ds) es (e, h) k = (e, Samples-append id ms ns ds es h k)

  chip-joined :
      (id : InputId) (es : List (SensorsEvent (F p)))
      (pending pending' read new : List (Sample (F p)))
      → pending' ≡ pending ++ new
      → es ++ chip_events id pending ≡ chip_events id read
      → es ++ chip_events id pending' ≡ chip_events id (read ++ new)
  chip-joined id es pending pending' read new more way =
      ap (λ ds. es ++ chip_events id ds) more
      ∙ ap (◌++◌ es) (chip_events-append id pending new)
      ∙ sym (append_assoc es (chip_events id pending) (chip_events id new))
      ∙ ap (λ out. out ++ chip_events id new) way
      ∙ sym (chip_events-append id read new)

  -- Where the lines `accs` and `gyrs` were read.
  pub record Inv (n : ℕ) (accs gyrs : List Measurement) (st : Stage (F p))
      (es : List (SensorsEvent (F p))) : Type 0 where
    pub das : List (Sample (F p))
    pub dgs : List (Sample (F p))
    pub acc_samples : Samples p accelerometer accs das
    pub gyro_samples : Samples p gyroscope_uncalibrated gyrs dgs
    pub acc_way :
        acc_events es ++ chip_events acceleration (acc_pending st) ≡ chip_events acceleration das
    pub gyro_way :
        gyro_events es ++ chip_events angularrate (gyro_pending st) ≡ chip_events angularrate dgs
    pub fits : length (shared_in st) ≤ n

  module _ {n : ℕ} {accs gyrs : List Measurement} {st : Stage (F p)}
      {es : List (SensorsEvent (F p))} where
    -- Samples are neither lost nor read by the step.
    moved :
        (st' : Stage (F p)) (es' : List (SensorsEvent (F p)))
        → acc_events es' ++ chip_events acceleration (acc_pending st')
          ≡ acc_events es ++ chip_events acceleration (acc_pending st)
        → gyro_events es' ++ chip_events angularrate (gyro_pending st')
          ≡ gyro_events es ++ chip_events angularrate (gyro_pending st)
        → length (shared_in st') ≤ length (shared_in st)
        → Inv n accs gyrs st es
        → Inv n accs gyrs st' es'
    moved st' es' a g shorter v = record {
      das = v.das;
      dgs = v.dgs;
      acc_samples = v.acc_samples;
      gyro_samples = v.gyro_samples;
      acc_way = a ∙ v.acc_way;
      gyro_way = g ∙ v.gyro_way;
      fits = omega (arith, shorter, v.fits);
    }

    pub Inv-woken_up : Inv n accs gyrs st es → Inv n accs gyrs (woken_up st) es
    Inv-woken_up =
        let (a, g, s) = pending-woken_up st in
        moved (woken_up st) es (ap (λ ds. acc_events es ++ chip_events acceleration ds) a)
          (ap (λ ds. gyro_events es ++ chip_events angularrate ds) g) (omega (arith, ap length s))

    pub Inv-take : Inv n accs gyrs st es → Inv n accs gyrs (after_take st) es
    Inv-take =
        let (a, g, s) = pending-take st in
        moved (after_take st) es (ap (λ ds. acc_events es ++ chip_events acceleration ds) a)
          (ap (λ ds. gyro_events es ++ chip_events angularrate ds) g) s

    pub Inv-process :
        Inv n accs gyrs st es → Inv n accs gyrs (after_processing st) (es ++ processed p st)
    Inv-process =
        let (a, g) = processed-chips st in
        moved (after_processing st) (es ++ processed p st)
          (ap (λ ds. ds ++ chip_events acceleration (acc_pending (after_processing st)))
              (acc_events-append es (processed p st))
            ∙ append_assoc (acc_events es) (acc_events (processed p st)) _
            ∙ ap (◌++◌ (acc_events es)) a)
          (ap (λ ds. ds ++ chip_events angularrate (gyro_pending (after_processing st)))
              (gyro_events-append es (processed p st))
            ∙ append_assoc (gyro_events es) (gyro_events (processed p st)) _
            ∙ ap (◌++◌ (gyro_events es)) g)
          (omega (arith, ap length (shared-processing st)))

    pub Inv-poll :
        (accs' gyrs' : List Measurement) (das dgs : List (Sample (F p)))
        → Samples p accelerometer accs' das
        → Samples p gyroscope_uncalibrated gyrs' dgs
        → length (shared_in st) + length (das ++ dgs) ≤ n
        → Inv n accs gyrs st es
        → Inv n (accs ++ accs') (gyrs ++ gyrs') (handed_over (das ++ dgs) st) es
    Inv-poll accs' gyrs' das dgs ha hg fits v =
        let (aa, ga, _) = Samples-acc p accs' das ha in
        let (ag, gg, _) = Samples-gyro p gyrs' dgs hg in
        let a : acc_pending (handed_over (das ++ dgs) st) ≡ acc_pending st ++ das =
          acc_pending-handed_over (das ++ dgs) st
          ∙ rw (acc_in-append das dgs, aa, ag, append-nil das) refl in
        let g : gyro_pending (handed_over (das ++ dgs) st) ≡ gyro_pending st ++ dgs =
          gyro_pending-handed_over (das ++ dgs) st ∙ rw (gyro_in-append das dgs, ga, gg) refl in
        record {
          das = v.das ++ das;
          dgs = v.dgs ++ dgs;
          acc_samples = Samples-append accelerometer accs accs' v.das das v.acc_samples ha;
          gyro_samples =
              Samples-append gyroscope_uncalibrated gyrs gyrs' v.dgs dgs v.gyro_samples hg;
          acc_way = chip-joined acceleration (acc_events es) _ _ v.das das a v.acc_way;
          gyro_way = chip-joined angularrate (gyro_events es) _ _ v.dgs dgs g v.gyro_way;
          fits = omega (arith, length-handed_over (das ++ dgs) st, fits);
        }
