-- ===== src/SubHal/Tests.antt =====
-- The sub-HAL at concrete requests, with the naturals for the floating-point type.
use smi240_android_hal.Prelude.{ℕ, ◌≡◌, refl, true, false, none, some, List, [], ◌∷◌}
use smi240_android_hal.Prelude.Int.{pos, negsuc}
use smi240_android_hal.Prelude.Float.{hundredths}
use smi240_android_hal.WakeLock.{Answers}
use smi240_android_hal.Sensor.{unreliable}
use smi240_android_hal.SubHal.Sensor as SubSensor
use smi240_android_hal.Hal.{Setting, new_hal}
use smi240_android_hal.Hal as Hal
use smi240_android_hal.SubHal.{
  Request, new_sub_hal, handle, run, activate, initialize, batch, flush, sensor_round,
}
use smi240_android_hal.SubHal.Mirrors.{Mirrors}

abbrev setting : Setting
setting = record {
  fl = hundredths;
  stof_mul = hundredths.mul;
  bits = record { wake_up = 1; one_shot_mode = 4; data_injection = 16 };
  wake_lock_seconds = 1;
  resolution = λ _. 2;
}

abbrev answers : Answers
answers = record { written_at = 5; checked_at = 5; acquire_works = true; release_works = true }

abbrev session : List (Request ℕ)
session =
    batch 1 (negsuc 3) (pos 0)
    ∷ activate 1 true
    ∷ sensor_round 1 30_000_000 30_000_001 (some (3 ∷ 4 ∷ 5 ∷ [])) unreliable
    ∷ flush 1 7
    ∷ initialize true
    ∷ flush 2 8
    ∷ []

-- The constructors add the same sensors.
same_sensors : (new_sub_hal false false).sensors ≡ (new_hal false false).sensors
unfolding new_sub_hal new_hal
same_sensors = refl

-- A flush of a sensor that is enabled before there is a callback.
no_callback : run setting (activate 1 true ∷ flush 1 7 ∷ []) (new_sub_hal false false) ≡ none
unfolding run handle new_sub_hal SubSensor.flush SubSensor.activate
no_callback = refl

-- The HAL once it is initialized.
abbrev ready : Hal.Hal
ready = record (new_hal false false) { has_event_queue = true; has_event_queue_flag = true }
