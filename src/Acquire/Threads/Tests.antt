-- ===== src/Acquire/Threads/Tests.antt =====
-- The two threads at a concrete interleaving.
use smi240_android_hal.Prelude.{ℕ, ◌≡◌, refl, some, List, [], ◌∷◌, ◌++◌, arith, map}
use smi240_android_hal.Algo.{
  accelerometer, gyroscope_uncalibrated, acceleration, angularrate, SensorsEvent, event_of,
}
use smi240_android_hal.Scan.Print.{print}
use smi240_android_hal.Acquire.{Sample}
use smi240_android_hal.Acquire.Collect.{Samples}
use smi240_android_hal.Acquire.Pipeline.{idle}
use smi240_android_hal.Acquire.Tests.{board, garbage, at}
use smi240_android_hal.Acquire.Threads.{Threads, waiting, step, steps}
use smi240_android_hal.Acquire.Threads.Order.{acc_events, gyro_events}
use smi240_android_hal.Acquire.Threads.Invariant.{chip_events}
use smi240_android_hal.Acquire.Threads.Delivery.{
  Move, polls, takes, finishes, action_of, start, HaveRoom, acc_held, gyro_held, steps_deliver,
  steps-waiting,
}
use smi240_android_hal.Acquire.Threads.Liveness.{two_rounds, two_rounds-deliver}

-- The processing thread waits, is signalled, and is still processing when the next samples come.
abbrev turns : List Move
turns =
    takes
    ∷ polls garbage garbage (at 5 ∷ []) (at 6 ∷ [])
    ∷ takes
    ∷ polls garbage garbage (at 7 ∷ []) []
    ∷ []

turns-room : HaveRoom board turns (start board 8)
unfolding step print
turns-room = (tt, ((omega arith, omega arith), (tt, ((omega arith, omega arith), tt))))

steps_deliver_example :
    (das : List (Sample ℕ)) × (dgs : List (Sample ℕ)) × (s : Threads ℕ) × Samples board
      accelerometer
      (at 5 ∷ at 7 ∷ [])
      das
    × Samples board gyroscope_uncalibrated (at 6 ∷ []) dgs
    × (steps board (map action_of turns) (start board 8) ≡ some s)
    × (acc_events s.events ++ chip_events board acceleration (acc_held board s)
        ≡ chip_events board acceleration das)
    × (gyro_events s.events ++ chip_events board angularrate (gyro_held board s)
        ≡ chip_events board angularrate dgs)
steps_deliver_example =
    steps_deliver board 8 (omega arith) (omega arith) (omega arith) turns turns-room

two_rounds-deliver_example :
    (das : List (Sample ℕ)) × (dgs : List (Sample ℕ)) × (es : List (SensorsEvent ℕ)) × Samples board
      accelerometer
      (at 5 ∷ at 7 ∷ [])
      das
    × Samples board gyroscope_uncalibrated (at 6 ∷ []) dgs
    × (steps board (map action_of (turns ++ two_rounds)) (start board 8)
        ≡ some (record { lists = idle 8; phase = waiting; events = es }))
    × (acc_events es ≡ chip_events board acceleration das)
    × (gyro_events es ≡ chip_events board angularrate dgs)
two_rounds-deliver_example =
    two_rounds-deliver board 8 turns (omega arith) (omega arith) (omega arith) turns-room

-- The processing thread takes what it is woken for, processes it and waits again.
abbrev back_at_wait : List Move
back_at_wait = takes ∷ polls garbage garbage (at 5 ∷ []) (at 6 ∷ []) ∷ takes ∷ finishes ∷ takes ∷ []

back_at_wait-room : HaveRoom board back_at_wait (start board 8)
unfolding step print
back_at_wait-room = (tt, ((omega arith, omega arith), (tt, (tt, (tt, tt)))))

abbrev ended : Threads ℕ
ended = record {
  lists = idle 8;
  phase = waiting;
  events =
      record { type = accelerometer; timestamp = 5; x = 0; y = 0; z = 0 }
      ∷ record { type = gyroscope_uncalibrated; timestamp = 6; x = 0; y = 0; z = 0 }
      ∷ [];
}

back_at_wait-ended : steps board (map action_of back_at_wait) (start board 8) ≡ some ended
unfolding steps print event_of
back_at_wait-ended = refl

steps-waiting_example : ended.lists ≡ idle 8
steps-waiting_example =
    steps-waiting board 8 (omega arith) (omega arith) (omega arith) back_at_wait ended
      back_at_wait-room back_at_wait-ended refl
