-- ===== src/PollEvents.antt =====
-- How the framework gets the events of the legacy HAL: `sensors_poll_context_t::pollEvents` of
-- legacy/hal/sensors.cpp and `BoschSensor::read_events` of legacy/hal/BoschSensor.cpp. The pipe is
-- given as the list of all events that are ever written to it, and what poll() does is an argument.
-- A write of an event to a pipe is atomic, so that a read yields whole events.
pub mod Takes
mod Tests
use smi240_android_hal.Prelude.{
  ℕ, ◌+◌, ◌-◌, Bool, true, false, List, [], ◌∷◌, ◌++◌, ltb, ◌==◌, if◌then◌else◌, length, take, drop,
}

-- What one call of poll() does: it is interrupted by a signal (EINTR), fails with another errno, ends
-- by its timeout, reports something that is not POLLIN, or reports POLLIN, with so many events in the
-- pipe at the read that follows; 0 stands for a read that fails.
pub data Turn : Type 0 where
  interrupted timed_out no_input : Turn
  failed : ℕ → Turn
  input : ℕ → Turn

-- The call returns the number of events in the buffer, or an error, with what the buffer holds then
-- and what is left for the pipe; or poll() does not return any more.
pub data Outcome (A : Type 0) : Type 0 where
  returned waiting : List A → List A → Outcome A
  error : ℕ → List A → List A → Outcome A

abbrev smaller : ℕ → ℕ → ℕ
smaller a b = if ltb a b then a else b

module _ {A : Type 0} where
  -- BoschSensor::read_events: how many events it reads.
  unfoldable pub read_events : ℕ → ℕ → List A → ℕ
  read_events count available pipe = smaller (smaller available count) (length pipe)

  -- sensors_poll_context_t::pollEvents from the test `if (count)` on, with `data` in the buffer and room
  -- for `count` events. A poll() without a timeout, before there is an event, does not time out. Where a
  -- read fills the buffer POLLIN stays set, but the loop ends.
  unfoldable pub poll_from : List Turn → List A → List A → ℕ → Outcome A
  unfolding read_events
  poll_from [] buffer pipe count = if count == 0 then returned buffer pipe else waiting buffer pipe
  poll_from (interrupted ∷ ts) buffer pipe count =
      let rest = poll_from ts buffer pipe count in if count == 0 then returned buffer pipe else rest
  poll_from (no_input ∷ ts) buffer pipe count =
      let rest = poll_from ts buffer pipe count in if count == 0 then returned buffer pipe else rest
  poll_from (timed_out ∷ ts) buffer pipe count =
      let rest = poll_from ts buffer pipe count in
      if count == 0
      then returned buffer pipe
      else if length buffer == 0
      then rest
      else returned buffer pipe
  poll_from (failed errno ∷ ts) buffer pipe count =
      if count == 0 then returned buffer pipe else error errno buffer pipe
  poll_from (input available ∷ ts) buffer pipe count =
      let n = read_events count available pipe in
      let rest = poll_from ts (buffer ++ take n pipe) (drop n pipe) (count - n) in
      if count == 0 then returned buffer pipe else rest

  -- sensors_poll_context_t::pollEvents
  unfoldable pub poll_events : List Turn → List A → ℕ → Outcome A
  unfolding poll_from
  poll_events ts pipe count = poll_from ts [] pipe count
