-- ===== src/Scan/RoundTrip.antt =====
-- What the driver prints is what the HAL reads.
use smi240_android_hal.Prelude.{
  ℕ, suc, ◌-◌, ◌^◌, ◌≤◌, ◌<◌, ◌≡◌, refl, ap, sym, ◌∙◌, false, Option, none, some, List, ◌∷◌, arith,
}
use smi240_android_hal.Prelude.Int.{ℤ, pos, negsuc, pos_part, neg_part}
use smi240_android_hal.Scan.{
  is_digit, scan_digits, strtol, extract, sysfs_extract_numbers, to_int32, clip_pos, clip_neg,
  ◌>>=◌,
}
use smi240_android_hal.Scan.Print.{digits_from_head, scan_digits-digits_from, print, print_nat}

abbrev pub IsInt32 : ℤ → Type 0
IsInt32 v = (pos_part v < 2 ^ 31) × (neg_part v ≤ 2 ^ 31)

-- LONG_MAX is that of 32 bits at least.
abbrev pub IsLongMax : ℕ → Type 0
IsLongMax m = 2 ^ 31 - 1 ≤ m

to_int32-pos : (m n : ℕ) → IsLongMax m → n < 2 ^ 31 → to_int32 (clip_pos m n) ≡ pos n
unfolding to_int32 clip_pos
to_int32-pos m n long h = ground arith

to_int32-neg : (m n : ℕ) → IsLongMax m → n < 2 ^ 31 → to_int32 (clip_neg m (suc n)) ≡ negsuc n
unfolding to_int32 clip_neg
to_int32-neg m n long h = ground arith

scan_print :
    (n c : ℕ) (s : List ℕ)
    → is_digit c ≡ false
    → scan_digits 0 (print_nat n (c ∷ s)) ≡ some (n, c ∷ s)
unfolding scan_digits
scan_print n c s h = scan_digits-digits_from n n (c ∷ s) (omega arith) ∙ rw (h, scan_digits) refl

-- A number that fits 32 bits, with something behind it that is no digit.
extract-print :
    (m : ℕ) (v : ℤ) (c : ℕ) (s : List ℕ) (old : ℤ) (stop : Option (List ℕ))
    → IsLongMax m
    → IsInt32 v
    → is_digit c ≡ false
    → extract m (print v (c ∷ s)) old stop ≡ some (v, some (c ∷ s))
unfolding extract print strtol
extract-print m (pos n) c s old stop long fits h =
    let (d, t, e, dig) = digits_from_head n n (c ∷ s) (omega arith) in
    let scanned : scan_digits 0 (d ∷ t) ≡ some (n, c ∷ s) =
      ap (scan_digits 0) (sym e) ∙ scan_print n c s h in
    rw e (ground (arith, scanned, dig, to_int32-pos m n long fits.0))
extract-print m (negsuc n) c s old stop long fits h =
    let (d, t, e, dig) = digits_from_head (suc n) (suc n) (c ∷ s) (omega arith) in
    let scanned : scan_digits 0 (d ∷ t) ≡ some (suc n, c ∷ s) =
      ap (scan_digits 0) (sym e) ∙ scan_print (suc n) c s h in
    rw e (ground (arith, scanned, dig, to_int32-neg m n long (omega arith)))

-- Three numbers that fit 32 bits, printed with one byte that is no digit behind each, are read back,
-- whatever stands behind them and whatever the variables held.
pub sysfs_extract_numbers-print :
    (m : ℕ) (x y z : ℤ) (a b c : ℕ) (s : List ℕ) (old : ℤ × ℤ × ℤ)
    → IsLongMax m
    → IsInt32 x × IsInt32 y × IsInt32 z
    → (is_digit a ≡ false) × (is_digit b ≡ false) × (is_digit c ≡ false)
    → sysfs_extract_numbers m (print x (a ∷ print y (b ∷ print z (c ∷ s)))) old ≡ some (x, y, z)
unfolding sysfs_extract_numbers
sysfs_extract_numbers-print m x y z a b c s (p, q, r) long fits seps =
    let tail_z = print z (c ∷ s) in
    let tail_y = print y (b ∷ tail_z) in
    let first = extract-print m x a tail_y p none long fits.0 seps.0 in
    let second = extract-print m y b tail_z q (some tail_y) long fits.1 seps.1 in
    let third = extract-print m z c s r (some tail_z) long fits.2 seps.2 in
    rw (first, ◌>>=◌) (rw (second, ◌>>=◌) (rw (third, ◌>>=◌) refl))
