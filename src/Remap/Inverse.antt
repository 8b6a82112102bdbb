-- ===== src/Remap/Inverse.antt =====
-- Each orientation can be undone by one of the table.
use smi240_android_hal.Prelude.{ℕ, zero, suc, ◌<◌, ◌≡◌, refl, some, arith, ◌==◌, if◌then◌else◌}
use smi240_android_hal.Prelude.Float.{Float}
use smi240_android_hal.Remap.{Vector, hw_remap_sensor_data}

-- P4 and P5 are quarter turns, against each other; every other position undoes itself.
abbrev pub inverse : ℕ → ℕ
inverse p = if p == 4 then 5 else if p == 5 then 4 else p

module _ (fl : Float) where
  -- Subtracting from 0 twice gives the component back, which it does not for a negative zero.
  abbrev pub Returns : fl.F → Type 0
  Returns v = fl.sub (fl.centi 0) (fl.sub (fl.centi 0) v) ≡ v

  -- For a vector where subtracting from 0 twice gives each component back, as it does where none is a
  -- negative zero: each of the eight positions is undone by its inverse.
  pub remap_inverse :
      (position : ℕ) (v : Vector fl)
      → position < 8
      → Returns v.x
      → Returns v.y
      → Returns v.z
      → (w : Vector fl) × (hw_remap_sensor_data fl position v ≡ some w)
        × (hw_remap_sensor_data fl (inverse position) w ≡ some v)
  unfolding hw_remap_sensor_data
  remap_inverse zero v h rx ry rz = (_, refl, refl)
  remap_inverse (suc zero) v h rx ry rz = (_, refl, ground (arith, rx, rz))
  remap_inverse (suc (suc zero)) v h rx ry rz = (_, refl, ground (arith, rx, ry))
  remap_inverse (suc (suc (suc zero))) v h rx ry rz = (_, refl, ground (arith, ry, rz))
  remap_inverse (suc (suc (suc (suc zero)))) v h rx ry rz = (_, refl, ground (arith, ry))
  remap_inverse (suc (suc (suc (suc (suc zero))))) v h rx ry rz = (_, refl, ground (arith, rx))
  remap_inverse (suc (suc (suc (suc (suc (suc zero)))))) v h rx ry rz =
      (_, refl, ground (arith, rz))
  remap_inverse (suc (suc (suc (suc (suc (suc (suc zero))))))) v h rx ry rz =
      (_, refl, ground (arith, rx, ry, rz))
  remap_inverse (suc (suc (suc (suc (suc (suc (suc (suc p)))))))) v h rx ry rz =
      absurd (omega arith)
