-- ===== src/Prelude/Float.antt =====
-- The floating-point type of the HAL, as an interface: antt has no floats. `centi n` is the literal
-- n / 100, `of_int` the conversion of an int64_t; the tests are C's.
use Prim.Native.Nat.{ℕ, ◌≤◌, ◌*◌, ◌/◌, ◌-◌}
use mathlib.Core.Path.{◌≡◌}
use mathlib.Core.Bool.{Bool, true, not}
use smi240_android_hal.Prelude.Int.{ℤ, pos, negsuc}
use smi240_android_hal.Prelude.Tests.{ltb, leb, ◌==◌}

pub record Float : Type 1 where
  pub F : Type 0
  pub centi : ℕ → F
  pub of_int : ℤ → F
  pub div : F → F → F
  pub mul : F → F → F
  pub sub : F → F → F
  pub lt : F → F → Bool
  pub le : F → F → Bool
  pub eq : F → F → Bool

-- What IEEE 754 says of comparing `x`, if it is no NaN, with literals.
pub record IsNumber (fl : Float) (x : fl.F) : Type 0 where
  pub le_lt : (k : ℕ) → fl.le x (fl.centi k) ≡ not (fl.lt (fl.centi k) x)
  pub lt_down : (j k : ℕ) → j ≤ k → fl.lt (fl.centi k) x ≡ true → fl.lt (fl.centi j) x ≡ true

-- An instance to compute with: hundredths, cut off at 0 and to whole hundredths.
abbrev hundredths_of : ℤ → ℕ
hundredths_of (pos n) = n * 100
hundredths_of (negsuc n) = 0

abbrev pub hundredths : Float
hundredths = record {
  F = ℕ;
  centi = λ n. n;
  of_int = hundredths_of;
  div = λ a b. a * 100 / b;
  mul = λ a b. a * b / 100;
  sub = λ a b. a - b;
  lt = ltb;
  le = leb;
  eq = λ a b. a == b;
}
