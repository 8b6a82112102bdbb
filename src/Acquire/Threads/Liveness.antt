-- ===== src/Acquire/Threads/Liveness.antt =====
-- The processing thread catches up, wherever the steps of the two threads have left it.
use mathlib.Core.List.{append-nil, map-append}
use smi240_android_hal.Prelude.{
  ℕ, ◌<◌, ◌≡◌, refl, ap, sym, ◌∙◌, some, List, [], ◌∷◌, ◌++◌, map, Option-cases, inl, inr,
}
use smi240_android_hal.Scan.{◌>>=◌}
use smi240_android_hal.Scan.RoundTrip.{IsLongMax}
use smi240_android_hal.Algo.{
  accelerometer, gyroscope_uncalibrated, acceleration, angularrate, SensorsEvent, events_of,
}
use smi240_android_hal.Acquire.{Sample, Platform, F}
use smi240_android_hal.Acquire.Collect.{Measurement, Samples}
use smi240_android_hal.Acquire.Pipeline.{idle}
use smi240_android_hal.Acquire.Threads.{Threads, waiting, Action, step, steps}
use smi240_android_hal.Acquire.Threads.Order.{acc_events, gyro_events}
use smi240_android_hal.Acquire.Threads.Stages.{
  Stage, at_lock, at_wait, behind_wait, holding, after_take, after_processing, state, processed,
  step-take, step-process,
}
use smi240_android_hal.Acquire.Threads.Invariant.{Inv, chip_events, Inv-take, Inv-process}
use smi240_android_hal.Acquire.Threads.Delivery.{
  Move, takes, finishes, every_allocation, action_of, acc_lines, gyro_lines, start, HaveRoom,
  started, steps-cons,
}

-- What the processing thread does by itself in two rounds and up to the next pthread_cond_wait.
abbrev pub two_rounds : List Move
two_rounds = takes ∷ finishes ∷ takes ∷ finishes ∷ takes ∷ []

module _ {F : Type 0} where
  two_rounds-wait :
      (st : Stage F)
      → after_take (after_processing (after_take (after_processing (after_take st)))) ≡ at_wait
  two_rounds-wait (at_lock []) = refl
  two_rounds-wait (at_lock (x ∷ xs)) = refl
  two_rounds-wait at_wait = refl
  two_rounds-wait (behind_wait xs) = refl
  two_rounds-wait (holding [] bs gs) = refl
  two_rounds-wait (holding (x ∷ xs) bs gs) = refl

module _ (p : Platform) where
  steps-append :
      (xs ys : List Action) (s s' : Threads (F p))
      → steps p xs s ≡ some s'
      → steps p (xs ++ ys) s ≡ steps p ys s'
  unfolding steps
  steps-append [] ys s s' e = ap (steps p ys) (cc e)
  steps-append (x ∷ xs) ys s s' e = elim (Option-cases (step p x s)) [
    | inl n ↦ let never = rw (n, ◌>>=◌) at e in absurd (cc)
    | inr (t, n) ↦ rw (n, ◌>>=◌) (steps-append xs ys t s' (rw (n, ◌>>=◌) at e))
  ]

  module _ (n : ℕ) (positive : 0 < n) {accs gyrs : List Measurement} where
    -- A round of the processing thread up to its next look at the list.
    round :
        (ts : List Action) (st : Stage (F p)) (es : List (SensorsEvent (F p)))
        → Inv p n accs gyrs st es
        → let st' = after_processing (after_take st) in
          (es' : List (SensorsEvent (F p))) × Inv p n accs gyrs st' es'
          × (steps p (action_of takes ∷ action_of finishes ∷ ts) (state p n st es)
              ≡ steps p ts (state p n st' es'))
    round ts st es v =
        let taken = Inv-take p v in
        (
          es ++ processed p (after_take st),
          Inv-process p taken,
          steps-cons p (action_of takes) (action_of finishes ∷ ts) (state p n st es) _
                (step-take p n st es positive v.fits)
              ∙ steps-cons p (action_of finishes) ts (state p n (after_take st) es) _ (
                  step-process p every_allocation n (after_take st) es
                    (refl, refl, refl, λ k. refl)),
        )

    caught_up :
        (st : Stage (F p)) (es : List (SensorsEvent (F p)))
        → Inv p n accs gyrs st es
        → (es' : List (SensorsEvent (F p))) × Inv p n accs gyrs at_wait es'
          × (steps p (map action_of two_rounds) (state p n st es) ≡ some (state p n at_wait es'))
    unfolding steps
    caught_up st es v =
        let (es1, v1, e1) = round (map action_of (takes ∷ finishes ∷ takes ∷ [])) st es v in
        let st1 = after_processing (after_take st) in
        let (es2, v2, e2) = round (map action_of (takes ∷ [])) st1 es1 v1 in
        let st2 = after_processing (after_take st1) in
        let waits : after_take st2 ≡ at_wait = two_rounds-wait st in
        let last =
          steps-cons p (action_of takes) [] (state p n st2 es2) _
            (step-take p n st2 es2 positive v2.fits) in
        (es2, rw waits at (Inv-take p v2), e1 ∙ e2 ∙ last ∙ ap (λ k. some (state p n k es2)) waits)

  -- Under the conditions of steps_deliver, wherever such a run has left the two threads: two rounds of
  -- the processing thread take it to pthread_cond_wait with all lists empty, and for each chip the events
  -- that were delivered are those of the samples of all lines that were read, in their order.
  pub two_rounds-deliver :
      (n : ℕ) (ts : List Move)
      → 0 < n
      → IsLongMax p.long_max
      → p.place_g < 8
      → HaveRoom p ts (start p n)
      → (das : List (Sample (F p))) × (dgs : List (Sample (F p))) × (es : List (SensorsEvent (F p)))
        × Samples p accelerometer (acc_lines ts) das
        × Samples p gyroscope_uncalibrated (gyro_lines ts) dgs
        × (steps p (map action_of (ts ++ two_rounds)) (start p n)
            ≡ some (record { lists = idle n; phase = waiting; events = es }))
        × (acc_events es ≡ chip_events p acceleration das)
        × (gyro_events es ≡ chip_events p angularrate dgs)
  unfolding events_of
  two_rounds-deliver n ts positive long place h =
      let r = started p n positive long place ts h in
      let (es, v, e) = caught_up n positive r.stage r.out r.inv in
      (
        v.das,
        v.dgs,
        es,
        v.acc_samples,
        v.gyro_samples,
        ap (λ acts. steps p acts (start p n)) (map-append action_of ts two_rounds)
            ∙ steps-append (map action_of ts) (map action_of two_rounds) (start p n) _ r.run
            ∙ e,
        sym (append-nil (acc_events es)) ∙ v.acc_way,
        sym (append-nil (gyro_events es)) ∙ v.gyro_way,
      )
