-- ===== src/ConfigRef/Tests.antt =====
-- The lists of active sensors at concrete sets.
use smi240_android_hal.Prelude.{◌≡◌, refl, true, some, [], ◌∷◌, arith}
use smi240_android_hal.ConfigRef.{activate_configref_resort}
use smi240_android_hal.ConfigRef.Sorted.{contains, insert}
use smi240_android_hal.ConfigRef.Activate.{banks_of, activate_configref_resort_lem}

-- The accelerometer (1) is active; the uncalibrated gyroscope (16) is enabled.
activate_configref_resort_lem_example :
    activate_configref_resort 16 true (banks_of (1 ∷ []) []) ≡ some (banks_of (1 ∷ 16 ∷ []) [], 1)
unfolding insert contains
activate_configref_resort_lem_example =
    activate_configref_resort_lem 16 true (1 ∷ []) [] (omega arith) (omega arith) (omega arith)

enabled_twice :
    activate_configref_resort 1 true (banks_of (1 ∷ []) []) ≡ some (banks_of (1 ∷ []) [], 0)
unfolding activate_configref_resort
enabled_twice = refl
