-- ===== src/PollEvents/Tests.antt =====
-- Polls of a pipe that holds three events.
use smi240_android_hal.Prelude.{ℕ, ◌≡◌, refl, List, [], ◌∷◌}
use smi240_android_hal.PollEvents.{
  interrupted, timed_out, failed, input, returned, error, poll_events,
}
use smi240_android_hal.PollEvents.Takes.{Takes, poll_events-Takes}

abbrev three : List ℕ
three = 7 ∷ 8 ∷ 9 ∷ []

two_then_timeout :
    poll_events (interrupted ∷ input 2 ∷ timed_out ∷ []) three 10 ≡ returned (7 ∷ 8 ∷ []) (9 ∷ [])
unfolding poll_events
two_then_timeout = refl

full_buffer : poll_events (input 3 ∷ []) three 2 ≡ returned (7 ∷ 8 ∷ []) (9 ∷ [])
unfolding poll_events
full_buffer = refl

-- An error after a read: the caller gets the error, and the events that were read are gone.
error_after_read : poll_events (input 2 ∷ failed 22 ∷ []) three 10 ≡ error 22 (7 ∷ 8 ∷ []) (9 ∷ [])
unfolding poll_events
error_after_read = refl

poll_events-Takes_example :
    Takes three 10 (poll_events (input 2 ∷ timed_out ∷ input 1 ∷ []) three 10)
poll_events-Takes_example = poll_events-Takes (input 2 ∷ timed_out ∷ input 1 ∷ []) three 10
