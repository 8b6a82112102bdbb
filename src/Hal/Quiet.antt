-- ===== src/Hal/Quiet.antt =====
-- A HAL whose sensors are disabled posts no event.
use smi240_android_hal.Prelude.{
  ℕ, ◌≡◌, refl, inl, inr, Bool, true, false, not, ◌||◌, Option, none, some, List, [], ◌∷◌, ◌++◌,
  ◌==◌, if◌then◌else◌, arith, Option-cases, ap, sym, ◌∙◌, length, ◌%◌, ◌^◌,
}
use smi240_android_hal.Sensor.{Sensor, run_round, Event}
use smi240_android_hal.Sensor as Sensor
use smi240_android_hal.Prelude as Prelude
use smi240_android_hal.Hal.{
  Setting, Hal, SensorMap, Request, set_operation_mode, activate, initialize, batch, flush,
  inject_sensor_data, register_direct_channel, unregister_direct_channel, config_direct_report,
  sensor_round, wake_lock_read, find, modify, modify_all, handle, Reply, with_sensor, F, Delivery,
  flush_sensor, round_of, run, Setup,
}

abbrev pub AllDisabled : SensorMap → Type 0
AllDisabled [] = Unit {0}
AllDisabled ((k, s) ∷ m) = (s.is_enabled ≡ false) × AllDisabled m

-- A request other than one that enables a sensor.
abbrev pub IsOff : {F : Type 0} → Request F → Type 0
IsOff (set_operation_mode n) = Unit {0}
IsOff (activate h e) = e ≡ false
IsOff (initialize s) = Unit {0}
IsOff (batch h p l) = Unit {0}
IsOff (flush h d) = Unit {0}
IsOff (inject_sensor_data e) = Unit {0}
IsOff register_direct_channel = Unit {0}
IsOff unregister_direct_channel = Unit {0}
IsOff config_direct_report = Unit {0}
IsOff (sensor_round h now t f d) = Unit {0}
IsOff (wake_lock_read n a) = Unit {0}

abbrev pub AllOff : {F : Type 0} → List (Request F) → Type 0
AllOff [] = Unit {0}
AllOff (q ∷ qs) = IsOff q × AllOff qs

find-AllDisabled :
    (h : ℕ) (m : SensorMap) (s : Sensor) → AllDisabled m → find h m ≡ some s → s.is_enabled ≡ false
unfolding find
find-AllDisabled h [] s d e = absurd (cc)
find-AllDisabled h ((k, t) ∷ m) s d e = ground (arith, find-AllDisabled h m s d.1, d.0)

modify-AllDisabled :
    (h : ℕ) (f : Sensor → Sensor) (m : SensorMap)
    → ((s : Sensor) → s.is_enabled ≡ false → (f s).is_enabled ≡ false)
    → AllDisabled m
    → AllDisabled (modify h f m)
unfolding modify
modify-AllDisabled h f [] k d = tt
modify-AllDisabled h f ((j, t) ∷ m) k d =
    let rest = modify-AllDisabled h f m k d.1 in
    let first = k t d.0 in
    elim (Prelude.Bool-cases (j == h)) [
      | inl same ↦ rw same (first, d.1)
      | inr other ↦ rw other (d.0, rest)
    ]

modify_all-AllDisabled : (m : SensorMap) → AllDisabled (modify_all (Sensor.activate false) m)
unfolding modify_all Sensor.activate
modify_all-AllDisabled [] = tt
modify_all-AllDisabled ((k, s) ∷ m) = (ground arith, modify_all-AllDisabled m)

abbrev IsQuiet : {F : Type 0} → Reply F → Type 0
IsQuiet r = (r.events ≡ []) × (r.faults ≡ false) × AllDisabled r.hal.sensors

with_sensor-IsQuiet :
    {F : Type 0} (h : ℕ) (hal : Hal) (k : Sensor → Reply F)
    → AllDisabled hal.sensors
    → ((s : Sensor) → s.is_enabled ≡ false → IsQuiet (k s))
    → IsQuiet (with_sensor h hal k)
unfolding with_sensor
with_sensor-IsQuiet h hal k d q = elim (Option-cases (find h hal.sensors)) [
  | inl e ↦ rw (e, with_sensor) (refl, refl, d)
  | inr (s, e) ↦ rw (e, with_sensor) (q s (find-AllDisabled h hal.sensors s d e))
]

flush_sensor-IsQuiet :
    (p : Setting) (d : Delivery) (hal : Hal) (s : Sensor)
    → AllDisabled hal.sensors
    → s.is_enabled ≡ false
    → IsQuiet (flush_sensor p d hal s)
unfolding flush_sensor Sensor.flush
flush_sensor-IsQuiet p d hal s a off = rw (off, flush_sensor, Sensor.flush) (refl, refl, a)

run_round_off :
    (now : ℕ) (s : Sensor)
    → s.is_enabled ≡ false
    → ((run_round now s).1 ≡ false) × ((run_round now s).0.is_enabled ≡ false)
unfolding run_round
run_round_off now s off = ground arith

round_of-IsQuiet :
    (p : Setting) (h now t : ℕ) (file : Option (List (F p))) (d : Delivery) (hal : Hal) (s : Sensor)
    → AllDisabled hal.sensors
    → s.is_enabled ≡ false
    → IsQuiet (round_of p h now t file d hal s)
unfolding round_of
round_of-IsQuiet p h now t file d hal s a off =
    let (quiet, off') = run_round_off now s off in
    rw (quiet, round_of) (refl, refl, modify-AllDisabled h _ hal.sensors (λ _ _. off') a)

activate_off :
    (e : Bool) (s : Sensor)
    → e ≡ false
    → s.is_enabled ≡ false
    → (Sensor.activate e s).is_enabled ≡ false
unfolding Sensor.activate
activate_off true s h k = absurd (cc)
activate_off false s h k = ground arith

batch_off :
    (n : Prelude.Int.ℤ) (s : Sensor)
    → s.is_enabled ≡ false
    → (Sensor.batch n s).0.is_enabled ≡ false
unfolding Sensor.batch
batch_off n s k = ground arith

handle-IsQuiet :
    (p : Setting) (q : Request (F p)) (hal : Hal)
    → AllDisabled hal.sensors
    → IsOff q
    → IsQuiet (handle p q hal)
unfolding handle
handle-IsQuiet p (set_operation_mode n) hal a o = (refl, refl, a)
handle-IsQuiet p (activate h e) hal a o =
    with_sensor-IsQuiet h hal _ a
      λ s off. (refl, refl, modify-AllDisabled h _ hal.sensors (λ s k. activate_off e s o k) a)
handle-IsQuiet p (initialize setup) hal a o = (refl, refl, modify_all-AllDisabled hal.sensors)
handle-IsQuiet p (batch h n l) hal a o =
    with_sensor-IsQuiet h hal _ a
      λ s off. (refl, refl, modify-AllDisabled h _ hal.sensors (λ s k. batch_off n s k) a)
handle-IsQuiet p (flush h d) hal a o =
    with_sensor-IsQuiet h hal _ a λ s off. flush_sensor-IsQuiet p d hal s a off
handle-IsQuiet p (inject_sensor_data e) hal a o =
    with_sensor-IsQuiet e.sensor_handle hal _ a λ s off. (refl, refl, a)
handle-IsQuiet p register_direct_channel hal a o = (refl, refl, a)
handle-IsQuiet p unregister_direct_channel hal a o = (refl, refl, a)
handle-IsQuiet p config_direct_report hal a o = (refl, refl, a)
handle-IsQuiet p (sensor_round h now t file d) hal a o =
    with_sensor-IsQuiet h hal _ a λ s off. round_of-IsQuiet p h now t file d hal s a off
handle-IsQuiet p (wake_lock_read n b) hal a o = ground arith

run-IsQuiet :
    (p : Setting) (qs : List (Request (F p))) (hal : Hal)
    → AllDisabled hal.sensors
    → AllOff qs
    → IsQuiet (run p qs hal)
unfolding run
run-IsQuiet p [] hal a o = (refl, refl, a)
run-IsQuiet p (q ∷ qs) hal a o =
    let (e₁, f₁, a₁) = handle-IsQuiet p q hal a o.0 in
    let (e₂, f₂, a₂) = run-IsQuiet p qs (handle p q hal).hal a₁ o.1 in
    rw (f₁, run) (rw e₁ e₂, f₂, a₂)

-- Once the HAL is initialized, in whatever state it was, no event is written and no null pointer used
-- as long as no request enables a sensor, and every sensor stays disabled.
pub initialize_quiet :
    (p : Setting) (setup : Setup) (qs : List (Request (F p))) (hal : Hal)
    → AllOff qs
    → let r = run p (initialize setup ∷ qs) hal in
      (r.events ≡ []) × (r.faults ≡ false) × AllDisabled r.hal.sensors
unfolding run handle
initialize_quiet p setup qs hal o =
    run-IsQuiet p qs (handle p (initialize setup) hal).hal (modify_all-AllDisabled hal.sensors) o
