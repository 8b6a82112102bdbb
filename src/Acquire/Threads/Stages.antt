-- ===== src/Acquire/Threads/Stages.antt =====
-- The states of the two threads as the lists that are not empty, and what each step does to them.
use mathlib.Core.List.{append-nil}
use smi240_android_hal.Prelude.{
  ℕ, sym, ◌∙◌, suc, ◌≤◌, ◌<◌, ◌≡◌, refl, ap, true, false, some, List, [], ◌∷◌, ◌++◌, arith, length,
  map, ◌==◌,
}
use smi240_android_hal.Algo.{SensorsEvent, sensord_algo_process}
use smi240_android_hal.Acquire.{Sample, Platform, F, Allocations, hw_data, sensord_read_rawdata}
use smi240_android_hal.Acquire.Drain.{acc_in, gyro_in}
use smi240_android_hal.Acquire.Events.{AllWork}
use smi240_android_hal.Acquire.Threads.{
  Threads, reading, waiting, woken, processing, wake_up, take_samples, process_samples, signal,
  enter, finish, step,
}
use smi240_android_hal.Acquire.Threads.Shape.{shape, take-shape, process-shape}

-- The samples in the shared list, and those that the processing thread has taken.
pub data Stage (F : Type 0) : Type 0 where
  at_lock : List (Sample F) → Stage F
  at_wait : Stage F
  behind_wait : List (Sample F) → Stage F
  holding : List (Sample F) → List (Sample F) → List (Sample F) → Stage F

module _ {F : Type 0} where
  abbrev pub shared_in : Stage F → List (Sample F)
  shared_in (at_lock xs) = xs
  shared_in at_wait = []
  shared_in (behind_wait xs) = xs
  shared_in (holding xs bs gs) = xs

  -- What is read and not processed, of each chip.
  abbrev pub acc_pending : Stage F → List (Sample F)
  acc_pending (at_lock xs) = acc_in xs
  acc_pending at_wait = []
  acc_pending (behind_wait xs) = acc_in xs
  acc_pending (holding xs bs gs) = bs ++ acc_in xs

  abbrev pub gyro_pending : Stage F → List (Sample F)
  gyro_pending (at_lock xs) = gyro_in xs
  gyro_pending at_wait = []
  gyro_pending (behind_wait xs) = gyro_in xs
  gyro_pending (holding xs bs gs) = gs ++ gyro_in xs

  abbrev pub handed_over : List (Sample F) → Stage F → Stage F
  handed_over ds (at_lock xs) = at_lock (xs ++ ds)
  handed_over [] at_wait = at_wait
  handed_over (d ∷ ds) at_wait = behind_wait (d ∷ ds)
  handed_over ds (behind_wait xs) = behind_wait (xs ++ ds)
  handed_over ds (holding xs bs gs) = holding (xs ++ ds) bs gs

  abbrev pub woken_up : Stage F → Stage F
  woken_up (at_lock xs) = at_lock xs
  woken_up at_wait = behind_wait []
  woken_up (behind_wait xs) = behind_wait xs
  woken_up (holding xs bs gs) = holding xs bs gs

  abbrev pub after_take : Stage F → Stage F
  after_take (at_lock []) = at_wait
  after_take (at_lock (x ∷ xs)) = holding [] (acc_in (x ∷ xs)) (gyro_in (x ∷ xs))
  after_take at_wait = at_wait
  after_take (behind_wait xs) = holding [] (acc_in xs) (gyro_in xs)
  after_take (holding xs bs gs) = holding xs bs gs

  abbrev pub after_processing : Stage F → Stage F
  after_processing (at_lock xs) = at_lock xs
  after_processing at_wait = at_wait
  after_processing (behind_wait xs) = behind_wait xs
  after_processing (holding xs bs gs) = at_lock xs

module _ (p : Platform) where
  abbrev pub state : ℕ → Stage (F p) → List (SensorsEvent (F p)) → Threads (F p)
  state n (at_lock xs) es = record { lists = shape p n xs [] []; phase = reading; events = es }
  state n at_wait es = record { lists = shape p n [] [] []; phase = waiting; events = es }
  state n (behind_wait xs) es = record { lists = shape p n xs [] []; phase = woken; events = es }
  state n (holding xs bs gs) es = record {
    lists = shape p n xs bs gs;
    phase = processing;
    events = es;
  }

  abbrev pub processed : Stage (F p) → List (SensorsEvent (F p))
  processed (at_lock xs) = []
  processed at_wait = []
  processed (behind_wait xs) = []
  processed (holding xs bs gs) =
      sensord_algo_process p.fl p.accl_range p.gyro_range (map (hw_data p) bs) (map (hw_data p) gs)

  pub step-wake_up :
      (n : ℕ) (st : Stage (F p)) (es : List (SensorsEvent (F p)))
      → step p wake_up (state n st es) ≡ some (state n (woken_up st) es)
  unfolding step signal
  step-wake_up n (at_lock xs) es = refl
  step-wake_up n at_wait es = refl
  step-wake_up n (behind_wait xs) es = refl
  step-wake_up n (holding xs bs gs) es = refl

  pub step-take :
      (n : ℕ) (st : Stage (F p)) (es : List (SensorsEvent (F p)))
      → 0 < n
      → length (shared_in st) ≤ n
      → step p (take_samples (λ k. true)) (state n st es) ≡ some (state n (after_take st) es)
  unfolding step enter
  step-take n (at_lock []) es positive fits = refl
  step-take n (at_lock (x ∷ xs)) es positive fits =
      let some_left : (suc (length xs) == 0) ≡ false = ground arith in
      let taken : step p (take_samples (λ k. true)) (state n (at_lock (x ∷ xs)) es)
          ≡ some (record {
            lists = sensord_read_rawdata p true (λ k. true) (shape p n (x ∷ xs) [] []);
            phase = processing;
            events = es;
          }) =
        rw some_left refl in
      taken ∙ λ i.
      some (record {
        lists = take-shape p n (x ∷ xs) positive fits i;
        phase = processing;
        events = es;
      })
  step-take n at_wait es positive fits = refl
  step-take n (behind_wait xs) es positive fits = λ i.
      some (record { lists = take-shape p n xs positive fits i; phase = processing; events = es })
  step-take n (holding xs bs gs) es positive fits = refl

  pub step-process :
      (a : Allocations) (n : ℕ) (st : Stage (F p)) (es : List (SensorsEvent (F p)))
      → AllWork a
      → step p (process_samples a) (state n st es)
        ≡ some (state n (after_processing st) (es ++ processed st))
  unfolding step finish
  step-process a n (at_lock xs) es all =
      ap (λ e. some (state n (at_lock xs) e)) (sym (append-nil es))
  step-process a n at_wait es all = ap (λ e. some (state n at_wait e)) (sym (append-nil es))
  step-process a n (behind_wait xs) es all =
      ap (λ e. some (state n (behind_wait xs) e)) (sym (append-nil es))
  step-process a n (holding xs bs gs) es all =
      let whole = process-shape p a n xs bs gs all in
      λ i. some (record { lists = (whole i).0; phase = reading; events = es ++ (whole i).1 })
