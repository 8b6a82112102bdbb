-- ===== src/Hal/Handlers.antt =====
-- What one request does to the sensors.
use smi240_android_hal.Prelude.{
  ℕ, ◌≡◌, refl, ap, Bool, true, false, not, Option, none, some, List, [], ◌∷◌, ◌==◌, if◌then◌else◌,
  arith, ◌≢◌, ◌&&◌, map, inl, inr, Option-cases,
}
use smi240_android_hal.Sensor.{Sensor, ok, bad_value, Event, run_round, has_flag}
use smi240_android_hal.Sensor as Sensor
use smi240_android_hal.Hal.{
  Setting, Hal, SensorMap, Request, set_operation_mode, activate, initialize, batch, flush,
  inject_sensor_data, register_direct_channel, unregister_direct_channel, config_direct_report,
  sensor_round, wake_lock_read, find, modify, handle, reply, Reply, with_sensor, post_events, F,
  Delivery, flush_sensor, round_of,
}

-- The sensor that a request names, or whose thread takes a step.
abbrev pub names : {F : Type 0} → Request F → Option ℕ
names (set_operation_mode n) = none
names (activate h e) = some h
names (initialize s) = none
names (batch h p l) = some h
names (flush h d) = some h
names (inject_sensor_data e) = some e.sensor_handle
names register_direct_channel = none
names unregister_direct_channel = none
names config_direct_report = none
names (sensor_round h now t f d) = some h
names (wake_lock_read n a) = none

with_unknown :
    {F : Type 0} (h : ℕ) (hal : Hal) (k : Sensor → Reply F)
    → find h hal.sensors ≡ none
    → with_sensor h hal k ≡ reply hal bad_value
unfolding with_sensor
with_unknown h hal k e = rw (e, with_sensor) refl

with_known :
    {F : Type 0} (h : ℕ) (hal : Hal) (k : Sensor → Reply F) (s : Sensor)
    → find h hal.sensors ≡ some s
    → with_sensor h hal k ≡ k s
unfolding with_sensor
with_known h hal k s e = rw (e, with_sensor) refl

-- A request that names a handle of no sensor answers BAD_VALUE, changes nothing, posts no event and
-- makes no power call.
handle_unknown :
    (p : Setting) (q : Request (F p)) (h : ℕ) (hal : Hal)
    → names q ≡ some h
    → find h hal.sensors ≡ none
    → handle p q hal ≡ reply hal bad_value
unfolding handle
handle_unknown p (set_operation_mode n) h hal e u = absurd (cc)
handle_unknown p (activate k x) h hal e u = with_unknown k hal _ (ground (arith, e, u))
handle_unknown p (initialize s) h hal e u = absurd (cc)
handle_unknown p (batch k x y) h hal e u = with_unknown k hal _ (ground (arith, e, u))
handle_unknown p (flush k d) h hal e u = with_unknown k hal _ (ground (arith, e, u))
handle_unknown p (inject_sensor_data v) h hal e u =
    with_unknown v.sensor_handle hal _ (ground (arith, e, u))
handle_unknown p register_direct_channel h hal e u = absurd (cc)
handle_unknown p unregister_direct_channel h hal e u = absurd (cc)
handle_unknown p config_direct_report h hal e u = absurd (cc)
handle_unknown p (sensor_round k now t f d) h hal e u = with_unknown k hal _ (ground (arith, e, u))
handle_unknown p (wake_lock_read n a) h hal e u = absurd (cc)

find-modify :
    (k h : ℕ) (f : Sensor → Sensor) (m : SensorMap)
    → (k == h) ≡ false
    → find k (modify h f m) ≡ find k m
unfolding find modify
find-modify k h f [] e = refl
find-modify k h f ((j, s) ∷ m) e = ground (arith, find-modify k h f m e)

post_events_sensors :
    {F : Type 0} (seconds : ℕ) (d : Delivery) (w : Bool) (es : List (Event F)) (r : Sensor.Result)
    (hal : Hal)
    → (post_events seconds d w es r hal).hal.sensors ≡ hal.sensors
unfolding post_events
post_events_sensors seconds d w es r hal = ground arith

-- What holds of the sensors in a reply holds of the reply after a look-up.
with_sensor_keeps :
    {F : Type 0} (k h : ℕ) (hal : Hal) (next : Sensor → Reply F)
    → ((s : Sensor) → find k (next s).hal.sensors ≡ find k hal.sensors)
    → find k (with_sensor h hal next).hal.sensors ≡ find k hal.sensors
unfolding with_sensor
with_sensor_keeps k h hal next keeps = elim (Option-cases (find h hal.sensors)) [
  | inl e ↦ rw (e, with_sensor) refl
  | inr (s, e) ↦ rw (e, with_sensor) (keeps s)
]

flush_sensor_keeps :
    (p : Setting) (d : Delivery) (hal : Hal) (s : Sensor)
    → (flush_sensor p d hal s).hal.sensors ≡ hal.sensors
unfolding flush_sensor post_events Sensor.flush
flush_sensor_keeps p d hal s = ground arith

round_of_keeps :
    (p : Setting) (k h now t : ℕ) (file : Option (List (F p))) (d : Delivery) (hal : Hal)
    (s : Sensor)
    → (k == h) ≡ false
    → find k (round_of p h now t file d hal s).hal.sensors ≡ find k hal.sensors
unfolding round_of post_events
round_of_keeps p k h now t file d hal s e =
    let kept = find-modify k h (λ _. (run_round now s).0) hal.sensors e in ground (arith, kept)

-- A request that names a sensor, or a step of its thread, leaves every other sensor as it was.
handle_others :
    (p : Setting) (q : Request (F p)) (h k : ℕ) (hal : Hal)
    → names q ≡ some h
    → k ≢ h
    → find k (handle p q hal).hal.sensors ≡ find k hal.sensors
unfolding handle
handle_others p (activate j x) h k hal e ne =
    with_sensor_keeps k j hal _ λ s. find-modify k j _ hal.sensors (ground arith)
handle_others p (batch j x y) h k hal e ne =
    with_sensor_keeps k j hal _ λ s. find-modify k j _ hal.sensors (ground arith)
handle_others p (flush j d) h k hal e ne =
    with_sensor_keeps k j hal _ λ s. ap (find k) (flush_sensor_keeps p d hal s)
handle_others p (inject_sensor_data v) h k hal e ne =
    with_sensor_keeps k v.sensor_handle hal _ λ s. refl
handle_others p (sensor_round j now t f d) h k hal e ne =
    with_sensor_keeps k j hal _ λ s. round_of_keeps p k j now t f d hal s (ground arith)
handle_others p (set_operation_mode n) h k hal e ne = refl
handle_others p (initialize s) h k hal e ne = absurd (cc)
handle_others p register_direct_channel h k hal e ne = refl
handle_others p unregister_direct_channel h k hal e ne = refl
handle_others p config_direct_report h k hal e ne = refl
handle_others p (wake_lock_read n a) h k hal e ne = absurd (cc)

find-modify_same :
    (h : ℕ) (f : Sensor → Sensor) (m : SensorMap) (s : Sensor)
    → find h m ≡ some s
    → find h (modify h f m) ≡ some (f s)
unfolding find modify
find-modify_same h f [] s e = absurd (cc)
find-modify_same h f ((j, t) ∷ m) s e = ground (arith, find-modify_same h f m s)

-- Activating or deactivating a sensor that the HAL has answers OK and sets `mIsEnabled`, and nothing
-- else of the sensor; it posts no event.
activate_enables :
    (p : Setting) (h : ℕ) (enabled : Bool) (s : Sensor) (hal : Hal)
    → find h hal.sensors ≡ some s
    → let r = handle p (activate h enabled) hal in
      (find h r.hal.sensors ≡ some (record s { is_enabled = enabled }))
      × (r.result ≡ ok)
      × (r.events ≡ [])
unfolding handle Sensor.activate
activate_enables p h enabled s hal e =
    let changed = find-modify_same h (Sensor.activate enabled) hal.sensors s e in
    let answer =
      with_known h hal
        (λ _.
          reply {F = F p} (record hal { sensors = modify h (Sensor.activate enabled) hal.sensors })
            ok)
        s e in
    ground (arith, changed, answer)

-- In a HAL with its queue and flag, flushing a sensor that the HAL has writes one flush-complete event with its handle and answers OK
-- where it is enabled, is no one-shot sensor and the event queue takes the write; without a write it
-- writes nothing; a sensor that is disabled or one-shot gets BAD_VALUE and writes nothing.
flush_completes :
    (p : Setting) (h : ℕ) (d : Delivery) (s : Sensor) (hal : Hal)
    → find h hal.sensors ≡ some s
    → hal.has_event_queue ≡ true
    → hal.has_event_queue_flag ≡ true
    → let r = handle p (flush h d) hal in
      let may = s.is_enabled && not (has_flag s.info p.bits.one_shot_mode) in
      (r.result ≡ (if may then ok else bad_value))
      × (map (λ ev. ev.sensor_handle) r.events
          ≡ (if may && d.writes then s.info.sensor_handle ∷ [] else []))
      × (r.hal.sensors ≡ hal.sensors)
unfolding handle Sensor.flush
flush_completes p h d s hal e queue flag =
    let answer = with_known h hal (flush_sensor p d hal) s e in ground (arith, answer)
