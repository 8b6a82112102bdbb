-- ===== src/Scan.antt =====
-- The numbers that the kernel driver prints for one sample, as the legacy HAL reads them:
-- `sysfs_extract_numbers` of legacy/sensord/sensord_hwcntl_implement.cpp. Text is a list of bytes; a
-- pointer into the array of bytes is what the array holds from there on, and the result is `none`
-- where the code reads a byte behind the array or advances a pointer that was never set.
pub mod Print
pub mod RoundTrip
mod Tests
use smi240_android_hal.Prelude.{
  ℕ, ◌+◌, ◌-◌, ◌*◌, ◌%◌, ◌^◌, Bool, ◌&&◌, ◌||◌, Option, none, some, List, [], ◌∷◌, ltb, leb, ◌==◌,
  if◌then◌else◌,
}
use smi240_android_hal.Prelude.Int.{ℤ, pos, negsuc, sub_ℕ, pos_part, neg_part}

abbrev pub minus_sign : ℕ
minus_sign = b'-'

abbrev pub is_digit : ℕ → Bool
is_digit c = leb b'0' c && leb c b'9'

-- The digits that strtol reads: their value behind `n`, and where it stops.
unfoldable pub scan_digits : ℕ → List ℕ → Option (ℕ × List ℕ)
scan_digits n [] = none
scan_digits n (c ∷ s) =
    let rest = scan_digits (n * 10 + (c - b'0')) s in if is_digit c then rest else some (n, c ∷ s)

-- LONG_MAX where the value is above it, and LONG_MIN where it is below that.
unfoldable pub clip_pos : ℕ → ℕ → ℤ
clip_pos long_max n = pos (if ltb long_max n then long_max else n)

unfoldable pub clip_neg : ℕ → ℕ → ℤ
clip_neg long_max n = sub_ℕ 0 (if ltb (long_max + 1) n then long_max + 1 else n)

-- The conversion of a long to int32_t, modulo 2^32.
unfoldable pub to_int32 : ℤ → ℤ
to_int32 v =
    let bits = (pos_part v + 2 ^ 32 - neg_part v % 2 ^ 32) % 2 ^ 32 in
    if ltb bits (2 ^ 31) then pos bits else negsuc (2 ^ 32 - bits - 1)

-- strtol behind a minus sign at `start`; without a digit there is no number, and it stops at the start.
unfoldable pub strtol_minus : ℕ → List ℕ → List ℕ → Option (ℤ × List ℕ)
unfolding scan_digits clip_neg
strtol_minus long_max start [] = none
strtol_minus long_max start (c ∷ s) =
    if is_digit c
    then (elim (scan_digits 0 (c ∷ s)) [
      | none ↦ none
      | some (n, stop) ↦ some (clip_neg long_max n, stop)
    ])
    else some (pos 0, start)

-- strtol(p, &stop, 10) where p is at a digit or at a minus sign.
unfoldable pub strtol : ℕ → List ℕ → Option (ℤ × List ℕ)
unfolding strtol_minus scan_digits clip_pos
strtol long_max [] = none
strtol long_max (c ∷ s) =
    if c == minus_sign then strtol_minus long_max (c ∷ s) s else (elim (scan_digits 0 (c ∷ s)) [
      | none ↦ none
      | some (n, stop) ↦ some (clip_pos long_max n, stop)
    ])

-- One `if` of the function: the number, or the old one where there is none, and `stop`, which is
-- `none` before it is set.
unfoldable pub extract : ℕ → List ℕ → ℤ → Option (List ℕ) → Option (ℤ × Option (List ℕ))
unfolding strtol to_int32
extract long_max [] old stop = none
extract long_max (c ∷ s) old stop =
    if is_digit c || c == minus_sign
    then (elim (strtol long_max (c ∷ s)) [
      | none ↦ none
      | some (v, stop') ↦ some (to_int32 v, some stop')
    ])
    else some (old, stop)

-- p = ++stop;
unfoldable pub advance : Option (List ℕ) → Option (List ℕ)
advance none = none
advance (some []) = none
advance (some (c ∷ s)) = some s

infixl 5 ◌>>=◌
abbrev pub ◌>>=◌ {ℓ κ} : {A : Type ℓ} {B : Type κ} → Option A → (A → Option B) → Option B
none >>= f = none
some a >>= f = f a

-- sysfs_extract_numbers; x, y and z hold what they held before where a number is missing.
unfoldable pub sysfs_extract_numbers : ℕ → List ℕ → ℤ × ℤ × ℤ → Option (ℤ × ℤ × ℤ)
unfolding extract advance
sysfs_extract_numbers long_max s (x, y, z) = extract long_max s x none >>= λ r. advance r.1 >>= λ p.
    extract long_max p y (some p) >>= λ r'.
    advance r'.1 >>= λ p'. extract long_max p' z (some p') >>= λ r''. some (r.0, r'.0, r''.0)
