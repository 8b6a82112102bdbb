-- ===== src/Scan/Tests.antt =====
-- Lines of the driver, at concrete numbers.
use smi240_android_hal.Prelude.{ℕ, ◌^◌, ◌-◌, ◌≡◌, refl, none, some, List, [], ◌∷◌, arith}
use smi240_android_hal.Prelude.Int.{pos, negsuc}
use smi240_android_hal.Scan.{sysfs_extract_numbers}
use smi240_android_hal.Scan.Print.{print}
use smi240_android_hal.Scan.RoundTrip.{sysfs_extract_numbers-print}

abbrev long_max : ℕ
long_max = 2 ^ 63 - 1

-- "12 -7 0\n" with a zero byte behind it
abbrev line : List ℕ
line = 49 ∷ 50 ∷ 32 ∷ 45 ∷ 55 ∷ 32 ∷ 48 ∷ 10 ∷ 0 ∷ []

read_line :
    sysfs_extract_numbers long_max line (pos 1, pos 1, pos 1) ≡ some (pos 12, negsuc 6, pos 0)
unfolding sysfs_extract_numbers
read_line = refl

line_of_text : print (pos 12) (32 ∷ print (negsuc 6) (32 ∷ print (pos 0) (10 ∷ 0 ∷ []))) ≡ line
unfolding print
line_of_text = refl

-- Without a number in front, the pointer that is advanced was never set.
no_number : sysfs_extract_numbers long_max (32 ∷ line) (pos 1, pos 1, pos 1) ≡ none
unfolding sysfs_extract_numbers
no_number = refl

-- With one number, the zero byte is stepped over.
one_number : sysfs_extract_numbers long_max (49 ∷ 0 ∷ []) (pos 1, pos 1, pos 1) ≡ none
unfolding sysfs_extract_numbers
one_number = refl

sysfs_extract_numbers-print_example :
    sysfs_extract_numbers long_max
      (print (pos 12) (32 ∷ print (negsuc 6) (32 ∷ print (pos 0) (10 ∷ 0 ∷ []))))
      (pos 1, pos 1, pos 1)
    ≡ some (pos 12, negsuc 6, pos 0)
sysfs_extract_numbers-print_example =
    sysfs_extract_numbers-print long_max (pos 12) (negsuc 6) (pos 0) 32 32 10 (0 ∷ [])
      (pos 1, pos 1, pos 1) (omega arith) (omega arith) (refl, refl, refl)
