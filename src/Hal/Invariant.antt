-- ===== src/Hal/Invariant.antt =====
-- The invariant of the HAL with the two SMI240 sensors, and what keeps it.
use smi240_android_hal.Prelude.{
  ℕ, ◌+◌, ◌*◌, ◌%◌, ◌^◌, ◌≤◌, ◌<◌, ◌||◌, ◌≡◌, refl, ap, sym, ◌∙◌, ◌⊎◌, inl, inr, Bool, true, false,
  not, Option, none, some, List, [], ◌∷◌, ◌++◌, ◌==◌, if◌then◌else◌, arith, Bool-cases,
  bit_and-bitwise,
}
use smi240_android_hal.WakeLock.{WakeLock}
use smi240_android_hal.Prelude as Prelude
use smi240_android_hal.Sensor.{
  Sensor, SensorInfo, SensorType, Event, Payload, vec3, accelerometer, gyroscope, meta_data,
  flush_complete, run_round, bad_value, is_wake_up_sensor, FlagBits, smi240_accel, smi240_gyro,
  read_events, Result,
}
use smi240_android_hal.Sensor as Sensor
use smi240_android_hal.Hal.{
  Hal, SensorMap, modify, modify_all, Reply, with_sensor, post_events, Delivery,
}

-- The HAL has its event queue and the flag of it.
abbrev pub IsReady : Hal → Type 0
IsReady hal = (hal.has_event_queue ≡ true) × (hal.has_event_queue_flag ≡ true)

-- A sensor with the settings `info`, whose period is not set yet or is from 10 ms to 200 ms.
abbrev pub Fits : SensorInfo → Sensor → Type 0
Fits info s =
    (s.info ≡ info)
    × ((s.sampling_period_ns ≡ 0)
        ⊎ ((10_000_000 ≤ s.sampling_period_ns) × (s.sampling_period_ns ≤ 200_000_000)))

abbrev pub accel_info : SensorInfo
accel_info = record {
  sensor_handle = 1;
  sensor_type = accelerometer;
  min_delay = 10000;
  max_delay = 200000;
  flags = 0;
}

abbrev pub gyro_info : SensorInfo
gyro_info = record {
  sensor_handle = 2;
  sensor_type = gyroscope;
  min_delay = 10000;
  max_delay = 200000;
  flags = 0;
}

-- The map holds the accelerometer under the handle 1 and the gyroscope under 2, and nothing else.
abbrev pub AreSmi240 : SensorMap → Type 0
AreSmi240 m =
    (a : Sensor) × (g : Sensor) × (m ≡ (1, a) ∷ (2, g) ∷ []) × Fits accel_info a × Fits gyro_info g

abbrev pub IsReleased : WakeLock → Type 0
IsReleased w = (w.has_wake_lock ≡ false) × (w.outstanding_wake_up_events ≡ 0)

abbrev pub Inv : Hal → Type 0
Inv hal = AreSmi240 hal.sensors × IsReleased hal.wake_lock

abbrev pub Keeps : (Sensor → Sensor) → Type 0
Keeps f =
    (info : SensorInfo) (s : Sensor)
    → info.min_delay ≡ 10000
    → info.max_delay ≡ 200000
    → Fits info s
    → Fits info (f s)

pub modify-AreSmi240 :
    (h : ℕ) (f : Sensor → Sensor) (m : SensorMap) → Keeps f → AreSmi240 m → AreSmi240 (modify h f m)
unfolding modify
modify-AreSmi240 h f m k (a, g, e, fa, fg) = elim (Bool-cases (1 == h)) [
  | inl one ↦ (f a, g, rw (e, one) refl, k accel_info a refl refl fa, fg)
  | inr other ↦ elim (Bool-cases (2 == h)) [
    | inl two ↦ (a, f g, rw (e, other, two) refl, fa, k gyro_info g refl refl fg)
    | inr none_of ↦ (a, g, rw (e, other, none_of) refl, fa, fg)
  ]
]

pub modify_all-AreSmi240 :
    (f : Sensor → Sensor) (m : SensorMap) → Keeps f → AreSmi240 m → AreSmi240 (modify_all f m)
unfolding modify_all
modify_all-AreSmi240 f m k (a, g, e, fa, fg) =
    (f a, f g, rw e refl, k accel_info a refl refl fa, k gyro_info g refl refl fg)

pub activate-Keeps : (e : Bool) → Keeps (Sensor.activate e)
unfolding Sensor.activate
activate-Keeps true info s p q fits = ground arith
activate-Keeps false info s p q fits = ground arith

pub batch-Keeps : (period : Prelude.Int.ℤ) → Keeps (λ s. (Sensor.batch period s).0)
unfolding Sensor.batch
batch-Keeps (Prelude.Int.pos n) info s p q fits = ground arith
batch-Keeps (Prelude.Int.negsuc n) info s p q fits = ground arith

pub run_round-Keeps : (now : ℕ) → Keeps (λ s. (run_round now s).0)
unfolding run_round
run_round-Keeps now info s p q fits = ground arith

bit_and-zero : (b : ℕ) → Prelude.bit_and 0 b ≡ 0
bit_and-zero b = bit_and-bitwise 0 b

pub is_wake_up_sensor-zero :
    (bits : FlagBits) (s : Sensor) → s.info.flags ≡ 0 → is_wake_up_sensor bits s ≡ false
unfolding is_wake_up_sensor
is_wake_up_sensor-zero bits s e = rw (e, bit_and-zero bits.wake_up) refl

-- The settings of the sensor with a handle.
abbrev pub type_of : ℕ → SensorType
type_of h = if h == 1 then accelerometer else gyroscope

-- The member of the union that the samples of both sensors set.
abbrev pub IsVector : {F : Type 0} → Payload F → Type 0
IsVector (vec3 x y z status) = Unit {0}
IsVector flush_complete = ⊥

-- An event of one of the two sensors: a flush that is complete, or a sample of its type with a vector.
abbrev pub IsOurs : {F : Type 0} → Event F → Type 0
IsOurs e =
    ((e.sensor_handle ≡ 1) ⊎ (e.sensor_handle ≡ 2))
    × (((e.sensor_type ≡ meta_data) × (e.payload ≡ flush_complete))
        ⊎ ((e.sensor_type ≡ type_of e.sensor_handle) × IsVector e.payload))

abbrev pub AllOurs : {F : Type 0} → List (Event F) → Type 0
AllOurs [] = Unit {0}
AllOurs (e ∷ es) = IsOurs e × AllOurs es

pub AllOurs-append :
    {F : Type 0} (es fs : List (Event F)) → AllOurs es → AllOurs fs → AllOurs (es ++ fs)
AllOurs-append [] fs h k = k
AllOurs-append (e ∷ es) fs h k = (h.0, AllOurs-append es fs h.1 k)

-- A reply that keeps the invariant, makes no power call and posts events of the two sensors.
abbrev pub IsGood : {F : Type 0} → Reply F → Type 0
IsGood r = Inv r.hal × (r.power ≡ []) × AllOurs r.events

pub with_sensor-IsGood :
    {F : Type 0} (h : ℕ) (hal : Hal) (k : Sensor → Reply F)
    → Inv hal
    → ((s : Sensor) → Fits accel_info s → h ≡ 1 → IsGood (k s))
    → ((s : Sensor) → Fits gyro_info s → h ≡ 2 → IsGood (k s))
    → IsGood (with_sensor h hal k)
unfolding with_sensor
with_sensor-IsGood h hal k (m, w) ka kg =
    let (a, g, e, fa, fg) = m in
    elim (Bool-cases (1 == h)) [
      | inl one ↦ rw (e, with_sensor) (rw (one, with_sensor) (ka a fa (ground arith)))
      | inr other ↦ elim (Bool-cases (2 == h)) [
        | inl two ↦
            rw (e, with_sensor)
              (rw (other, with_sensor) (rw (two, with_sensor) (kg g fg (ground arith))))
        | inr none_of ↦
            rw (e, with_sensor)
              (rw (other, with_sensor) (rw (none_of, with_sensor) ((m, w), refl, tt)))
      ]
    ]

pub post_events-IsGood :
    {F : Type 0} (seconds : ℕ) (d : Delivery) (es : List (Event F)) (r : Result) (hal : Hal)
    → Inv hal
    → AllOurs es
    → IsGood (post_events seconds d false es r hal)
unfolding post_events
post_events-IsGood seconds d es r hal i o = elim (Bool-cases hal.has_event_queue) [
  | inr null ↦ rw (null, post_events) (i, refl, tt)
  | inl queue ↦ elim (Bool-cases d.writes) [
    | inr refused ↦ rw (queue, refused, post_events) (i, refl, tt)
    | inl taken ↦ elim (Bool-cases hal.has_event_queue_flag) [
      | inl set ↦ rw (queue, taken, set, post_events) (i, refl, o)
      | inr null ↦ rw (queue, taken, null, post_events) (i, refl, o)
    ]
  ]
]
