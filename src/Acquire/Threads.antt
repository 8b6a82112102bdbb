-- ===== src/Acquire/Threads.antt =====
-- The two threads of the legacy HAL over the lists that they share: the loop of `hwcntl_main`
-- (legacy/sensord/sensord_hwcntl.cpp), which polls the chips and hands the samples over, and that of
-- `sensord_main` (legacy/sensord/sensord.cpp), which takes and processes them. A step is what a thread
-- does between two points at which the other one can see it: a round of the polling thread up to the
-- end of its sleep, where only the hand-over under the mutex concerns the other one; what the
-- processing thread does under the mutex, up to the end of sensord_read_rawdata or to
-- pthread_cond_wait; and the processing of what it took. The scheduler is the sequence of the steps;
-- a step of a thread that is not at that point changes nothing.
pub mod Order
pub mod Shape
pub mod Stages
pub mod Polls
pub mod Invariant
pub mod Delivery
pub mod Liveness
mod Tests
use smi240_android_hal.Prelude.{
  ℕ, ◌+◌, Bool, true, false, Option, none, some, List, [], ◌∷◌, ◌++◌, ◌==◌, if◌then◌else◌, length,
}
use smi240_android_hal.Scan.{◌>>=◌}
use smi240_android_hal.Algo.{SensorsEvent}
use smi240_android_hal.Acquire.{
  Platform, Reading, Locals, Lists, Allocations, deliver_sensordata, sensord_read_rawdata, process,
  F,
}

-- Where the processing thread is: before it locks the mutex, in pthread_cond_wait, woken there, or
-- behind sensord_read_rawdata.
pub data Phase : Type 0 where
  reading waiting woken processing : Phase

-- The lists, the processing thread, and the events that were written to the pipe.
pub record Threads (F : Type 0) : Type 0 where
  pub lists : Lists F
  pub phase : Phase
  pub events : List (SensorsEvent F)

-- A round of the polling thread, with the locals of its two polls and what they read; a spurious
-- wakeup, which pthread_cond_wait allows; and the two steps of the processing thread.
pub data Action : Type 0 where
  poll_chips : Locals → Locals → List Reading → List Reading → Action
  wake_up : Action
  take_samples : (ℕ → Bool) → Action
  process_samples : Allocations → Action

-- pthread_cond_signal, where it is called.
unfoldable pub signal : Bool → Phase → Phase
signal true waiting = woken
signal true reading = reading
signal true woken = woken
signal true processing = processing
signal false ph = ph

module _ (p : Platform) where
  -- sensord_read_rawdata once it has the mutex; a thread that was woken does not look at the list again.
  unfoldable pub enter : (ℕ → Bool) → Threads (F p) → Threads (F p)
  unfolding sensord_read_rawdata
  enter works s = elim s.phase [
    | reading ↦
        if length s.lists.shared.items == 0
        then record s { phase = waiting }
        else record s { lists = sensord_read_rawdata p true works s.lists; phase = processing }
    | waiting ↦ s
    | woken ↦ record s { lists = sensord_read_rawdata p true works s.lists; phase = processing }
    | processing ↦ s
  ]

  -- sensord_algo_process, after which the loop starts again. The write of each event to the pipe, in
  -- sensord_deliver_event, is taken to succeed at once; that it may fail or block is left out.
  unfoldable pub finish : Allocations → Threads (F p) → Threads (F p)
  unfolding process
  finish a s = elim s.phase [
    | reading ↦ s
    | waiting ↦ s
    | woken ↦ s
    | processing ↦
        let (l, es) = process p a s.lists in
        record { lists = l; phase = reading; events = s.events ++ es }
  ]

  unfoldable pub step : Action → Threads (F p) → Option (Threads (F p))
  unfolding deliver_sensordata signal enter finish
  step (poll_chips u v acc gyro) s = deliver_sensordata p u v acc gyro s.lists >>= λ r.
      some (record s { lists = r.0; phase = signal r.1 s.phase })
  step wake_up s = some (record s { phase = signal true s.phase })
  step (take_samples works) s = some (enter works s)
  step (process_samples a) s = some (finish a s)

  unfoldable pub steps : List Action → Threads (F p) → Option (Threads (F p))
  unfolding step
  steps [] s = some s
  steps (a ∷ rest) s = step a s >>= λ s'. steps rest s'
