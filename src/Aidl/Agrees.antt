-- ===== src/Aidl/Agrees.antt =====
-- The AIDL HAL and the HAL 2.0 and 2.1 do the same, but for the statuses and the data injection.
use smi240_android_hal.Prelude.{
  ◌%◌, ◌^◌, ◌≡◌, refl, Bool, true, false, some, List, [], ◌∷◌, ◌++◌, arith, map, inl, inr,
  Option-cases, Bool-cases,
}
use smi240_android_hal.Sensor.{Sensor, Event, Result, bad_value, invalid_operation}
use smi240_android_hal.Sensor as Device
use smi240_android_hal.Hal.{
  Setting, Hal, SensorMap, Delivery, Setup, find, modify, modify_all, set_operation_mode, activate,
  initialize, batch, flush, inject_sensor_data, register_direct_channel, unregister_direct_channel,
  config_direct_report, sensor_round, wake_lock_read, operation_mode_from,
}
use smi240_android_hal.Hal as Hal
use smi240_android_hal.Hal.Invariant.{IsReady}
use smi240_android_hal.Aidl.{
  AidlHal, Request, Reply, reply, handle, run, with_sensor, flush_sensor, round_of, post_events, F,
  with_sensors,
}
use smi240_android_hal.Aidl as Aidl
use smi240_android_hal.Aidl.Sensor.{
  Status, ok, from_exception, error_bad_value, ex_illegal_argument,
}
use smi240_android_hal.Aidl.Sensor as AidlSensor
use smi240_android_hal.Aidl.Steps.{batch-same, activate-same, update_wake_lock-same, with_base}
use smi240_android_hal.Aidl.Replies.{
  IsAlike, AreAlike, unchanged, as_aidl, injects, accepts, accepted, SameEffect, Agrees, effect,
  with_sensor-Agrees, flush_sensor-Agrees, round_of-Agrees,
}

operation_mode_from-accepts :
    (st : Status) (res : Result) (normal : Bool) (m : SensorMap)
    → accepts st ≡ accepted res
    → accepts (Aidl.operation_mode_from st normal m) ≡ accepted (operation_mode_from res normal m)
unfolding Aidl.operation_mode_from operation_mode_from AidlSensor.set_operation_mode
    Device.set_operation_mode
operation_mode_from-accepts st res normal [] e = e
operation_mode_from-accepts st res true ((k, s) ∷ m) e = operation_mode_from-accepts _ _ true m refl
operation_mode_from-accepts st res false ((k, s) ∷ m) e =
    operation_mode_from-accepts _ _ false m refl

-- Where the event queue and its flag are set: each step but an injection, where std::stof reads every
-- word of a file and the products are the same, ends without an exception, with the state, the events
-- and the power calls of the HAL 2.0 and 2.1, and accepts the call exactly if that one does.
handle-Agrees :
    (p : Setting) (q : Hal.Request (F p)) (hal : Hal)
    → injects q ≡ false
    → IsAlike p q
    → IsReady hal
    → Agrees (handle p (as_aidl q) (with_base hal)) (Hal.handle p q hal)
unfolding handle Hal.handle Aidl.initialize Hal.initialize_base
handle-Agrees p (set_operation_mode n) hal e a set =
    (_, refl, unchanged hal _ _ set, operation_mode_from-accepts ok Device.ok n hal.sensors refl)
handle-Agrees p (activate h on) hal e a set =
    with_sensor-Agrees h hal _ _ set λ s. rw (activate-same on) (_, refl, unchanged _ _ _ set, refl)
handle-Agrees p (initialize setup) hal e a set =
    rw (activate-same false) (_, refl, unchanged _ _ _ (refl, a), ground arith)
handle-Agrees p (batch h period latency) hal e a set =
    with_sensor-Agrees h hal _ _ set
      λ s. rw (batch-same period) (_, refl, unchanged _ _ _ set, refl)
handle-Agrees p (flush h d) hal e a set =
    with_sensor-Agrees h hal _ _ set λ s. flush_sensor-Agrees p d hal s set
handle-Agrees p (inject_sensor_data ev) hal e a set = absurd (cc)
handle-Agrees p register_direct_channel hal e a set = (_, refl, unchanged hal _ _ set, refl)
handle-Agrees p unregister_direct_channel hal e a set = (_, refl, unchanged hal _ _ set, refl)
handle-Agrees p config_direct_report hal e a set = (_, refl, unchanged hal _ _ set, refl)
handle-Agrees p (sensor_round h now t file d) hal e a set =
    with_sensor-Agrees h hal _ _ set λ s. round_of-Agrees p h now t file d hal s a set
handle-Agrees p (wake_lock_read n w) hal e a set =
    rw (update_wake_lock-same p.wake_lock_seconds w 0 (n % 2 ^ 32) hal.wake_lock)
      (elim (Bool-cases hal.read_wake_lock_queue_run) [
        | inl r ↦ rw r (
          _,
          refl,
          record {
            same_hal = refl;
            same_events = refl;
            same_power = refl;
            no_fault = refl;
            set = set;
          },
          refl,
        )
        | inr r ↦ rw r (_, refl, unchanged _ _ _ set, refl)
      ])

inject-effect :
    (p : Setting) (ev : Event (F p)) (hal : Hal)
    → IsReady hal
    → (r : Reply (F p)) × (handle p (Aidl.inject_sensor_data ev) (with_base hal) ≡ some r)
      × SameEffect r (Hal.handle p (inject_sensor_data ev) hal)
unfolding handle Hal.handle with_sensor Hal.with_sensor
inject-effect p ev hal set = elim (Option-cases (find ev.sensor_handle hal.sensors)) [
  | inl e ↦ rw (e, with_sensor, Hal.with_sensor) (_, refl, unchanged hal _ _ set)
  | inr (s, e) ↦ rw (e, with_sensor, Hal.with_sensor) (_, refl, unchanged hal _ _ set)
]

handle-effect :
    (p : Setting) (q : Hal.Request (F p)) (hal : Hal)
    → IsAlike p q
    → IsReady hal
    → (r : Reply (F p)) × (handle p (as_aidl q) (with_base hal) ≡ some r)
      × SameEffect r (Hal.handle p q hal)
handle-effect p (inject_sensor_data ev) hal a set = inject-effect p ev hal set
handle-effect p (set_operation_mode n) hal a set =
    effect (handle-Agrees p (set_operation_mode n) hal refl a set)
handle-effect p (activate h on) hal a set = effect (handle-Agrees p (activate h on) hal refl a set)
handle-effect p (initialize s) hal a set = effect (handle-Agrees p (initialize s) hal refl a set)
handle-effect p (batch h x y) hal a set = effect (handle-Agrees p (batch h x y) hal refl a set)
handle-effect p (flush h d) hal a set = effect (handle-Agrees p (flush h d) hal refl a set)
handle-effect p register_direct_channel hal a set =
    effect (handle-Agrees p register_direct_channel hal refl a set)
handle-effect p unregister_direct_channel hal a set =
    effect (handle-Agrees p unregister_direct_channel hal refl a set)
handle-effect p config_direct_report hal a set =
    effect (handle-Agrees p config_direct_report hal refl a set)
handle-effect p (sensor_round h now t f d) hal a set =
    effect (handle-Agrees p (sensor_round h now t f d) hal refl a set)
handle-effect p (wake_lock_read n w) hal a set =
    effect (handle-Agrees p (wake_lock_read n w) hal refl a set)

-- For a HAL with its event queue and the flag of it: any sequence of calls, each `initialize` of which
-- gets the flag, of rounds of the sensors' threads whose files hold numbers that std::stof reads, and of
-- reads of the wake lock queue runs in the AIDL HAL without an exception and, as in the HAL 2.0 and 2.1,
-- without the use of a null pointer; it leaves the state, writes the events and makes the power calls
-- that it does in the HAL 2.0 and 2.1. For the words that are multiplied with the resolution, the product
-- of floats is the product that the HAL 2.0 and 2.1 rounds from a double; and a flush event's timestamp,
-- which neither sets, holds the same in both.
pub run-agrees :
    (p : Setting) (qs : List (Hal.Request (F p))) (hal : Hal)
    → AreAlike p qs
    → IsReady hal
    → (r : Reply (F p)) × (run p (map as_aidl qs) (with_base hal) ≡ some r)
      × SameEffect r (Hal.run p qs hal)
unfolding run Hal.run
run-agrees p [] hal a set = (_, refl, unchanged hal _ _ set)
run-agrees p (q ∷ qs) hal (a, alike) set =
    let (r₁, e₁, v₁) = handle-effect p q hal a set in
    let (r₂, e₂, v₂) = run-agrees p qs (Hal.handle p q hal).hal alike v₁.set in
    rw (v₁.no_fault, Hal.run)
      (
        record r₂ { events = r₁.events ++ r₂.events; power = r₁.power ++ r₂.power },
        rw (e₁, run) (rw (v₁.same_hal, run) (rw (e₂, run) refl)),
        record {
          same_hal = v₂.same_hal;
          same_events = λ i. v₁.same_events i ++ v₂.same_events i;
          same_power = λ i. v₁.same_power i ++ v₂.same_power i;
          no_fault = v₂.no_fault;
          set = v₂.set;
        },
      )
