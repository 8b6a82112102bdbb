-- ===== src/Acquire/Threads/Order.antt =====
-- The events of one chip among those delivered.
use smi240_android_hal.Prelude.{
  ℕ, ◌≡◌, refl, ap, ◌∙◌, some, List, [], ◌∷◌, ◌++◌, map, Option-cases, inl, inr,
}
use smi240_android_hal.Prelude.Float.{Float}
use smi240_android_hal.Algo.{
  HwData, EventType, accelerometer, gyroscope_uncalibrated, InputId, acceleration, angularrate,
  SensorsEvent, event_of, events_of, deliver, sort_input_samples, sensord_algo_process, convert_acc,
  convert_gyro,
}
use smi240_android_hal.Algo.Align.{of_acc, of_gyr, sort_input_samples-Aligned}
use smi240_android_hal.Acquire.Drain.{if_acc}

module _ {F : Type 0} where
  abbrev pub acc_events : List (SensorsEvent F) → List (SensorsEvent F)
  acc_events [] = []
  acc_events (e ∷ es) = if_acc e.type (e ∷ acc_events es) (acc_events es)

  abbrev pub gyro_events : List (SensorsEvent F) → List (SensorsEvent F)
  gyro_events [] = []
  gyro_events (e ∷ es) = if_acc e.type (gyro_events es) (e ∷ gyro_events es)

abbrev pub inputs : InputId → List HwData → List (InputId × HwData)
inputs id ds = map (λ d. (id, d)) ds

abbrev chip_of : InputId → EventType
chip_of acceleration = accelerometer
chip_of angularrate = gyroscope_uncalibrated

if_acc-yes {ℓ} : {A : Type ℓ} (a b : A) (ty : EventType) → ty ≡ accelerometer → if_acc ty a b ≡ a
if_acc-yes a b accelerometer e = refl
if_acc-yes a b gyroscope_uncalibrated e = absurd (cc)

if_acc-no {ℓ} :
    {A : Type ℓ} (a b : A) (ty : EventType) → ty ≡ gyroscope_uncalibrated → if_acc ty a b ≡ b
if_acc-no a b gyroscope_uncalibrated e = refl
if_acc-no a b accelerometer e = absurd (cc)

module _ {F : Type 0} where
  pub acc_events-append :
      (xs ys : List (SensorsEvent F)) → acc_events (xs ++ ys) ≡ acc_events xs ++ acc_events ys
  acc_events-append [] ys = refl
  acc_events-append (e ∷ es) ys = by_type e.type (acc_events-append es ys)
    where
      by_type :
          (ty : EventType) {ts : List (SensorsEvent F)}
          → ts ≡ acc_events es ++ acc_events ys
          → if_acc ty (e ∷ ts) ts ≡ if_acc ty (e ∷ acc_events es) (acc_events es) ++ acc_events ys
      by_type accelerometer h = ap (◌∷◌ e) h
      by_type gyroscope_uncalibrated h = h

  pub gyro_events-append :
      (xs ys : List (SensorsEvent F)) → gyro_events (xs ++ ys) ≡ gyro_events xs ++ gyro_events ys
  gyro_events-append [] ys = refl
  gyro_events-append (e ∷ es) ys = by_type e.type (gyro_events-append es ys)
    where
      by_type :
          (ty : EventType) {ts : List (SensorsEvent F)}
          → ts ≡ gyro_events es ++ gyro_events ys
          → if_acc ty ts (e ∷ ts)
            ≡ if_acc ty (gyro_events es) (e ∷ gyro_events es) ++ gyro_events ys
      by_type accelerometer h = h
      by_type gyroscope_uncalibrated h = ap (◌∷◌ e) h

module _ (fl : Float) (ra rg : ℕ) where
  event_of-type :
      (id : InputId) (d : HwData) (e : SensorsEvent fl.F)
      → event_of fl ra rg (id, d) ≡ some e
      → e.type ≡ chip_of id
  unfolding event_of
  event_of-type acceleration d e h = elim (Option-cases (convert_acc fl ra)) [
    | inl n ↦ let never = rw n at h in absurd (cc)
    | inr (c, n) ↦ let found = rw n at h in cc
  ]
  event_of-type angularrate d e h = elim (Option-cases (convert_gyro fl rg)) [
    | inl n ↦ let never = rw n at h in absurd (cc)
    | inr (c, n) ↦ let found = rw n at h in cc
  ]

  -- The events of a chip's samples, in their order.
  abbrev pub of_chip : InputId → List HwData → List (SensorsEvent fl.F)
  of_chip id ds = events_of fl ra rg (inputs id ds)

  acc_events-events_of :
      (ps : List (InputId × HwData))
      → acc_events (events_of fl ra rg ps) ≡ of_chip acceleration (of_acc ps)
  unfolding events_of
  acc_events-events_of [] = refl
  acc_events-events_of ((acceleration, d) ∷ ps) =
      elim (Option-cases (event_of fl ra rg (acceleration, d))) [
        | inl n ↦ rw (n, events_of) (acc_events-events_of ps)
        | inr (e, found) ↦
            let kept = if_acc-yes _ _ e.type (event_of-type acceleration d e found) in
            rw (found, events_of) (kept ∙ ap (◌∷◌ e) (acc_events-events_of ps))
      ]
  acc_events-events_of ((angularrate, d) ∷ ps) =
      elim (Option-cases (event_of fl ra rg (angularrate, d))) [
        | inl n ↦ rw (n, events_of) (acc_events-events_of ps)
        | inr (e, found) ↦
            let passed = if_acc-no _ _ e.type (event_of-type angularrate d e found) in
            rw (found, events_of) (passed ∙ acc_events-events_of ps)
      ]

  gyro_events-events_of :
      (ps : List (InputId × HwData))
      → gyro_events (events_of fl ra rg ps) ≡ of_chip angularrate (of_gyr ps)
  unfolding events_of
  gyro_events-events_of [] = refl
  gyro_events-events_of ((angularrate, d) ∷ ps) =
      elim (Option-cases (event_of fl ra rg (angularrate, d))) [
        | inl n ↦ rw (n, events_of) (gyro_events-events_of ps)
        | inr (e, found) ↦
            let kept = if_acc-no _ _ e.type (event_of-type angularrate d e found) in
            rw (found, events_of) (kept ∙ ap (◌∷◌ e) (gyro_events-events_of ps))
      ]
  gyro_events-events_of ((acceleration, d) ∷ ps) =
      elim (Option-cases (event_of fl ra rg (acceleration, d))) [
        | inl n ↦ rw (n, events_of) (gyro_events-events_of ps)
        | inr (e, found) ↦
            let passed = if_acc-yes _ _ e.type (event_of-type acceleration d e found) in
            rw (found, events_of) (passed ∙ gyro_events-events_of ps)
      ]

  -- What is processed gives the events of each chip's samples, in their order.
  pub sensord_algo_process-chips :
      (acc gyr : List HwData)
      → let es = sensord_algo_process fl ra rg acc gyr in
        (acc_events es ≡ of_chip acceleration acc) × (gyro_events es ≡ of_chip angularrate gyr)
  unfolding sensord_algo_process
  sensord_algo_process-chips acc gyr =
      let (ea, eg, _) = sort_input_samples-Aligned acc gyr in
      let ps = deliver (sort_input_samples acc gyr) acc gyr in
      (
        acc_events-events_of ps ∙ ap (of_chip acceleration) ea,
        gyro_events-events_of ps ∙ ap (of_chip angularrate) eg,
      )

  pub of_chip-append :
      (id : InputId) (xs ys : List HwData) → of_chip id (xs ++ ys) ≡ of_chip id xs ++ of_chip id ys
  unfolding events_of
  of_chip-append id [] ys = refl
  of_chip-append id (d ∷ ds) ys = elim (Option-cases (event_of fl ra rg (id, d))) [
    | inl n ↦ rw (n, events_of) (of_chip-append id ds ys)
    | inr (e, found) ↦ rw (found, events_of) (ap (◌∷◌ e) (of_chip-append id ds ys))
  ]
