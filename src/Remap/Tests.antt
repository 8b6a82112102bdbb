-- ===== src/Remap/Tests.antt =====
-- The orientations at a concrete vector, with the integers for the floating-point type.
use smi240_android_hal.Prelude.{zero, suc, ◌≡◌, refl, some, arith}
use smi240_android_hal.Prelude.Int.{ℤ, pos, negsuc, ltb_ℤ, leb_ℤ, eqb_ℤ}
use smi240_android_hal.Prelude.Float.{Float}
use smi240_android_hal.Remap.{Vector, hw_remap_sensor_data}
use smi240_android_hal.Remap.Inverse.{remap_inverse}

-- a - b, for a = 0, which is all that the remapping computes.
abbrev from_zero : ℤ → ℤ → ℤ
from_zero a (pos zero) = pos zero
from_zero a (pos (suc n)) = negsuc n
from_zero a (negsuc n) = pos (suc n)

abbrev integers : Float
integers = record {
  F = ℤ;
  centi = pos;
  of_int = λ n. n;
  div = λ a b. a;
  mul = λ a b. a;
  sub = from_zero;
  lt = ltb_ℤ;
  le = leb_ℤ;
  eq = eqb_ℤ;
}

abbrev sample : Vector integers
sample = record { x = pos 1; y = pos 2; z = pos 3 }

quarter_turn :
    hw_remap_sensor_data integers 4 sample ≡ some (record { x = negsuc 1; y = pos 1; z = pos 3 })
unfolding hw_remap_sensor_data
quarter_turn = refl

remap_inverse_example :
    (w : Vector integers) × (hw_remap_sensor_data integers 4 sample ≡ some w)
    × (hw_remap_sensor_data integers 5 w ≡ some sample)
remap_inverse_example = remap_inverse integers 4 sample (omega arith) refl refl refl
