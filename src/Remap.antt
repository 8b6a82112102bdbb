-- ===== src/Remap.antt =====
-- The orientation of a chip on its board: `axis_remap_matrix` and `hw_remap_sensor_data` of
-- legacy/sensord/axis_remap.c. The result is `none` where the position is outside the table.
pub mod Inverse
mod Tests
use smi240_android_hal.Prelude.{
  ℕ, Bool, true, false, Option, none, some, List, [], ◌∷◌, if◌then◌else◌, get_elem?,
}
use smi240_android_hal.Prelude.Float.{Float}

-- struct axis_remap_m
pub record AxisRemap : Type 0 where
  pub rx_y : Bool
  pub sx : Bool
  pub sy : Bool
  pub sz : Bool

abbrev pub row : Bool → Bool → Bool → Bool → AxisRemap
row rx_y sx sy sz = record { rx_y = rx_y; sx = sx; sy = sy; sz = sz }

abbrev pub axis_remap_matrix : List AxisRemap
axis_remap_matrix =
    row false false false false
    ∷ row false true false true
    ∷ row false true true false
    ∷ row false false true true
    ∷ row true true false false
    ∷ row true false true false
    ∷ row true false false true
    ∷ row true true true true
    ∷ []

module _ (fl : Float) where
  open fl use {F, centi, sub}

  pub record Vector : Type 0 where
    pub x : F
    pub y : F
    pub z : F

  -- 0 - *p, where the sign is to be turned.
  abbrev pub turned : Bool → F → F
  turned s v = if s then sub (centi 0) v else v

  -- The body of hw_remap_sensor_data for one row of the table.
  unfoldable pub apply : AxisRemap → Vector → Vector
  apply m v =
      let px = if m.rx_y then v.y else v.x in
      let py = if m.rx_y then v.x else v.y in
      record { x = turned m.sx px; y = turned m.sy py; z = turned m.sz v.z }

  unfoldable pub hw_remap_sensor_data : ℕ → Vector → Option Vector
  unfolding apply
  hw_remap_sensor_data position v = elim (get_elem? axis_remap_matrix position) [
    | none ↦ none
    | some m ↦ some (apply m v)
  ]
