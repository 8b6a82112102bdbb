-- ===== src/Aidl/Replies.antt =====
-- What it means that the replies of the AIDL HAL and of the HAL 2.0 and 2.1 agree, and that the posts
-- of their sensors do.
use smi240_android_hal.Prelude.{
  ◌%◌, ◌^◌, length, ℕ, ◌≡◌, refl, Bool, true, false, Option, none, some, List, [], ◌∷◌, map, inl,
  inr, Option-cases, Bool-cases, not, ◌||◌,
}
use smi240_android_hal.Sensor.{Sensor, Event, Result, bad_value, invalid_operation}
use smi240_android_hal.Sensor as Device
use smi240_android_hal.Hal.{
  Setting, Hal, SensorMap, Delivery, Setup, find, modify, modify_all, set_operation_mode, activate,
  initialize, batch, flush, inject_sensor_data, register_direct_channel, unregister_direct_channel,
  config_direct_report, sensor_round, wake_lock_read, operation_mode_from,
}
use smi240_android_hal.Hal as Hal
use smi240_android_hal.Hal.Invariant.{IsReady}
use smi240_android_hal.Aidl.{
  AidlHal, Request, Reply, reply, handle, run, with_sensor, flush_sensor, round_of, post_events, F,
  with_sensors,
}
use smi240_android_hal.Aidl as Aidl
use smi240_android_hal.Aidl.Sensor.{
  Status, ok, from_exception, error_bad_value, ex_illegal_argument,
}
use smi240_android_hal.Aidl.Sensor as AidlSensor
use smi240_android_hal.Aidl.Steps.{run_round-same, update_wake_lock-same, with_base}

-- The words of a file, each a number.
abbrev pub readable : {F : Type 0} → Option (List F) → Option (List (Option F))
readable none = none
readable (some ws) = some (map some ws)

-- The same request, where std::stof reads every word of a file.
abbrev pub as_aidl : {F : Type 0} → Hal.Request F → Request F
as_aidl (set_operation_mode n) = Aidl.set_operation_mode n
as_aidl (activate h e) = Aidl.activate h e
as_aidl (initialize s) = Aidl.initialize_hal s
as_aidl (batch h p l) = Aidl.batch h p l
as_aidl (flush h d) = Aidl.flush h d
as_aidl (inject_sensor_data e) = Aidl.inject_sensor_data e
as_aidl register_direct_channel = Aidl.register_direct_channel
as_aidl unregister_direct_channel = Aidl.unregister_direct_channel
as_aidl config_direct_report = Aidl.config_direct_report
as_aidl (sensor_round h now t file d) = Aidl.sensor_round h now t (readable file) d
as_aidl (wake_lock_read n a) = Aidl.wake_lock_read n a

abbrev pub injects : {F : Type 0} → Hal.Request F → Bool
injects (inject_sensor_data e) = true
injects _ = false

abbrev pub accepts : Status → Bool
accepts ok = true
accepts _ = false

abbrev pub accepted : Result → Bool
accepted Device.ok = true
accepted _ = false

-- The two products of a word and a resolution are the same.
abbrev pub SameProduct : (p : Setting) → F p → Type 0
SameProduct p w =
    (ty : Device.SensorType) → p.stof_mul w (p.resolution ty) ≡ p.fl.mul w (p.resolution ty)

-- The words that are multiplied are among those.
abbrev pub HasProducts : (p : Setting) → Option (List (F p)) → Type 0
HasProducts p (some (x ∷ y ∷ z ∷ ws)) = SameProduct p x × SameProduct p y × SameProduct p z
HasProducts p _ = Unit {0}

-- `initialize` gets the flag of the event queue, and a file that is read has such words.
abbrev pub IsAlike : (p : Setting) → Hal.Request (F p) → Type 0
IsAlike p (initialize s) = s.flag_set ≡ true
IsAlike p (sensor_round h now t file d) = HasProducts p file
IsAlike p _ = Unit {0}

abbrev pub AreAlike : (p : Setting) → List (Hal.Request (F p)) → Type 0
AreAlike p [] = Unit {0}
AreAlike p (q ∷ qs) = IsAlike p q × AreAlike p qs

-- Two replies with the same state, events and power calls, where neither uses a null pointer.
pub record SameEffect {F : Type 0} (r : Reply F) (r' : Hal.Reply F) : Type 0 where
  pub same_hal : r.hal ≡ with_base r'.hal
  pub same_events : r.events ≡ r'.events
  pub same_power : r.power ≡ r'.power
  pub no_fault : r'.faults ≡ false
  pub set : IsReady r'.hal

-- A step that changes only what both have.
pub unchanged :
    {F : Type 0} (hal : Hal) (st : Status) (res : Result)
    → IsReady hal
    → SameEffect {F = F} (reply (with_base hal) st) (Hal.reply hal res)
unchanged hal st res set = record {
  same_hal = refl;
  same_events = refl;
  same_power = refl;
  no_fault = refl;
  set = set;
}

-- A step that ends, with that effect, and accepts the call exactly if the other one does.
abbrev pub Agrees : {F : Type 0} → Option (Reply F) → Hal.Reply F → Type 0
Agrees {F} o r' =
    (r : Reply F) × (o ≡ some r) × SameEffect r r' × (accepts r.status ≡ accepted r'.result)

-- The effect of a step that agrees.
pub effect :
    {F : Type 0} {o : Option (Reply F)} {r' : Hal.Reply F}
    → Agrees o r'
    → (r : Reply F) × (o ≡ some r) × SameEffect r r'
effect (r, e, v, st) = (r, e, v)

pub with_sensor-Agrees :
    {F : Type 0} (h : ℕ) (hal : Hal) (k : Sensor → Option (Reply F)) (k' : Sensor → Hal.Reply F)
    → IsReady hal
    → ((s : Sensor) → Agrees (k s) (k' s))
    → Agrees
        (with_sensor (from_exception ex_illegal_argument) h (with_base hal) k)
        (Hal.with_sensor h hal k')
unfolding with_sensor Hal.with_sensor
with_sensor-Agrees h hal k k' set each = elim (Option-cases (find h hal.sensors)) [
  | inl e ↦
      rw (e, with_sensor, Hal.with_sensor)
        (_, refl, unchanged hal (from_exception ex_illegal_argument) bad_value set, refl)
  | inr (s, e) ↦ rw (e, with_sensor, Hal.with_sensor) (each s)
]

post_events-Agrees :
    {F : Type 0} (seconds : ℕ) (d : Delivery) (w : Bool) (es : List (Event F)) (hal : Hal)
    → IsReady hal
    → Agrees
        (post_events seconds d w es ok (with_base hal))
        (Hal.post_events seconds d w es Device.ok hal)
unfolding post_events Hal.post_events
post_events-Agrees seconds d w es hal (queue, flag) =
    let same = update_wake_lock-same seconds d.answers (length es % 2 ^ 32) 0 hal.wake_lock in
    elim (Bool-cases d.writes) [
      | inr e ↦
          rw (queue, flag, e, post_events, Hal.post_events)
            (
              _,
              refl,
              unchanged (record hal { has_event_queue = true; has_event_queue_flag = true }) ok
                  Device.ok (refl, refl),
              refl,
            )
      | inl e ↦ elim (Bool-cases w) [
        | inl k ↦
            rw (queue, flag, e, k, same, post_events, Hal.post_events)
              (
                _,
                refl,
                record {
                  same_hal = refl;
                  same_events = refl;
                  same_power = refl;
                  no_fault = refl;
                  set = (refl, refl);
                },
                refl,
              )
        | inr k ↦
            rw (queue, flag, e, k, post_events, Hal.post_events)
              (
                _,
                refl,
                record {
                  same_hal = refl;
                  same_events = refl;
                  same_power = refl;
                  no_fault = refl;
                  set = (refl, refl);
                },
                refl,
              )
      ]
    ]

pub flush_sensor-Agrees :
    (p : Setting) (d : Delivery) (hal : Hal) (s : Sensor)
    → IsReady hal
    → Agrees (flush_sensor p d (with_base hal) s) (Hal.flush_sensor p d hal s)
unfolding flush_sensor Hal.flush_sensor AidlSensor.flush Device.flush Device.is_wake_up_sensor
    AidlSensor.is_wake_up_sensor
flush_sensor-Agrees p d hal s set =
    elim (Bool-cases (not s.is_enabled || Device.has_flag s.info p.bits.one_shot_mode)) [
      | inl e ↦ rw (e, flush_sensor, Hal.flush_sensor) (_, refl, unchanged hal _ _ set, rw e refl)
      | inr e ↦
          rw (e, flush_sensor, Hal.flush_sensor)
            (rw e (
              post_events-Agrees p.wake_lock_seconds d (AidlSensor.is_wake_up_sensor p.bits s) _ hal
                set))
    ]

-- What reading the events gives, where every word is a number.
read_events-same :
    (p : Setting) (t : ℕ) (file : Option (List (F p))) (ty : Device.SensorType) (s : Sensor)
    → HasProducts p file
    → AidlSensor.read_events p.fl p.stof_mul (p.resolution ty) t (readable file) s
      ≡ some (Device.read_events p.fl (p.resolution ty) t file s)
unfolding AidlSensor.read_events Device.read_events
read_events-same p t none ty s h = refl
read_events-same p t (some []) ty s h = refl
read_events-same p t (some (x ∷ [])) ty s h = refl
read_events-same p t (some (x ∷ y ∷ [])) ty s h = refl
read_events-same p t (some (x ∷ y ∷ z ∷ ws)) ty s (hx, hy, hz) = rw (hx ty, hy ty, hz ty) refl

pub round_of-Agrees :
    (p : Setting) (h now t : ℕ) (file : Option (List (F p))) (d : Delivery) (hal : Hal) (s : Sensor)
    → HasProducts p file
    → IsReady hal
    → Agrees
        (round_of p h now t (readable file) d (with_base hal) s)
        (Hal.round_of p h now t file d hal s)
unfolding round_of Hal.round_of AidlSensor.run_round Device.run_round Device.is_wake_up_sensor
    AidlSensor.is_wake_up_sensor
round_of-Agrees p h now t file d hal s products set =
    let (s', posts, wait) = Device.run_round now s in
    let hal' = record hal { sensors = modify h (λ _. (Device.run_round now s).0) hal.sensors } in
    rw (run_round-same now s) (elim (Bool-cases (Device.run_round now s).1) [
      | inl e ↦
          rw (e, read_events-same p t file s.info.sensor_type (Device.run_round now s).0 products)
            (post_events-Agrees p.wake_lock_seconds d _ _ hal' set)
      | inr e ↦ rw e (_, refl, unchanged hal' ok Device.ok set, refl)
    ])
