-- ===== src/Aidl/Steps.antt =====
-- The parts of the AIDL HAL do what those of the HAL 2.0 and 2.1 do.
use smi240_android_hal.Prelude.{ℕ, ◌≡◌, Bool, true, false, arith}
use smi240_android_hal.Prelude.Int.{ℤ, pos, negsuc}
use smi240_android_hal.WakeLock.{WakeLock, Answers, is_negative}
use smi240_android_hal.WakeLock as WakeLock
use smi240_android_hal.Sensor.{Sensor, Event, Result, Payload}
use smi240_android_hal.Sensor as Device
use smi240_android_hal.Hal.{Hal}
use smi240_android_hal.Aidl.{AidlHal, update_wake_lock}
use smi240_android_hal.Aidl.Sensor.{Status}
use smi240_android_hal.Aidl.Sensor as AidlSensor

batch-agrees : (r : ℤ) (s : Sensor) → AidlSensor.batch r s ≡ (Device.batch r s).0
unfolding AidlSensor.batch Device.batch
batch-agrees (pos n) s = ground arith
batch-agrees (negsuc n) s = ground arith

pub batch-same : (r : ℤ) → AidlSensor.batch r ≡ (λ s. (Device.batch r s).0)
batch-same r = λ i s. batch-agrees r s i

activate-agrees : (e : Bool) (s : Sensor) → AidlSensor.activate e s ≡ Device.activate e s
unfolding AidlSensor.activate Device.activate
activate-agrees true s = ground arith
activate-agrees false s = ground arith

pub activate-same : (e : Bool) → AidlSensor.activate e ≡ Device.activate e
activate-same e = λ i s. activate-agrees e s i

pub run_round-same : (now : ℕ) (s : Sensor) → AidlSensor.run_round now s ≡ Device.run_round now s
unfolding AidlSensor.run_round Device.run_round
run_round-same now s = ground arith

pub update_wake_lock-same :
    (seconds : ℕ) (a : Answers) (written handled : ℕ) (w : WakeLock)
    → update_wake_lock seconds a written handled w
      ≡ WakeLock.update_wake_lock seconds a written handled w
unfolding update_wake_lock WakeLock.update_wake_lock
update_wake_lock-same seconds a written handled w = ground arith

-- The AIDL HAL with the members of the HAL.
abbrev pub with_base : Hal → AidlHal
with_base hal = record { base = hal }
